-- ===== src/Download/Workers.antt =====
-- What the workers send.
use native.Mathlib.Decide.{dec_le}
use azs3_proxy.Prelude.{
  ℕ, ◌+◌, ◌-◌, ◌*◌, ◌≤◌, ◌≡◌, refl, sym, ap, ◌∙◌, none, some, Option, List, [], ◌∷◌, ◌++◌, length,
  length-append, append-nil, slice, block, take, take_of_length-le, length-take, drop, slice_nil,
  Option-cases, Bool-cases, inl, inr, ◌⊎◌, ltb, arith, if◌then◌else◌,
}
use azs3_proxy.Download.{chunk, chunk_err, chunk_start, chunk_count, work}

-- the bytes that a worker asks for are a block
asked :
    (blob : List ℕ) (chunk_size id : ℕ)
    → let start = chunk_start chunk_size id in
      slice blob start (start + chunk_count (length blob) chunk_size id) ≡ block blob chunk_size id
unfolding block
asked blob chunk_size id = elim (dec_le (id * chunk_size) (length blob)) [
  | yes l ↦ ap (slice blob (id * chunk_size)) (ground arith)
  | no l ↦
      slice_nil blob (id * chunk_size) _ (ground arith)
      ∙ sym (slice_nil blob (id * chunk_size) _ (omega arith))
]

none_left : (rest : List ℕ) → length rest ≡ 0 → rest ≡ []
none_left [] h = refl
none_left (x ∷ rest) h = absurd (omega arith)

length-slice_le : (blob : List ℕ) (start n : ℕ) → length (slice blob start (start + n)) ≤ n
unfolding slice
length-slice_le blob start n = omega (arith, length-take (start + n - start) (drop start blob))

module _ (blob : List ℕ) (chunk_size : ℕ) (download : ℕ → ℕ → Option (List ℕ)) (id : ℕ) where
  abbrev start : ℕ
  start = chunk_start chunk_size id

  abbrev asked_count : ℕ
  asked_count = chunk_count (length blob) chunk_size id

  work-none :
      download start asked_count ≡ none → work download (length blob) chunk_size id ≡ chunk_err id
  unfolding work
  work-none h = rw (h, work) refl

  work-some :
      (body : List ℕ)
      → download start asked_count ≡ some body
      → work download (length blob) chunk_size id
        ≡ (if ltb (length body) asked_count then chunk_err id else chunk id (take asked_count body))
  unfolding work
  work-some body h = rw (h, work) refl

-- If the service answers the request for a chunk with an error or with the first bytes of the chunk's
-- range, then a worker sends an error or the block of the blob that has the chunk's number.
pub work-block :
    (blob : List ℕ) (chunk_size : ℕ) (download : ℕ → ℕ → Option (List ℕ)) (id : ℕ)
    → (let start = chunk_start chunk_size id in
        let count = chunk_count (length blob) chunk_size id in
        (body : List ℕ)
        → download start count ≡ some body
        → (rest : List ℕ) × (slice blob start (start + count) ≡ body ++ rest))
    → (work download (length blob) chunk_size id ≡ chunk_err id)
      ⊎ (work download (length blob) chunk_size id ≡ chunk id (block blob chunk_size id))
work-block blob chunk_size download id faithful =
    let from = chunk_start chunk_size id in
    let count = chunk_count (length blob) chunk_size id in
    elim (Option-cases (download from count)) [
      | inl failed ↦ inl (work-none blob chunk_size download id failed)
      | inr (body, came) ↦ elim (Bool-cases (ltb (length body) count)) [
        | inl less ↦ inl (work-some blob chunk_size download id body came ∙ rw less refl)
        | inr full ↦
            let (rest, right) = faithful body came in
            let total = ap length right ∙ length-append body rest in
            let most = length-slice_le blob from count in
            let fits : count ≤ length body = ground (arith, full) in
            let over = none_left rest (omega (arith, total, most, fits)) in
            let whole = right ∙ (ap (λ l. body ++ l) over ∙ append-nil body) in
            let cut = take_of_length-le count body (omega (arith, total, most)) in
            inr (
              work-some blob chunk_size download id body came
              ∙ rw full (ap (chunk id) (cut ∙ sym whole ∙ asked blob chunk_size id)))
      ]
    ]
