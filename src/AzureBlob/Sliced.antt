-- ===== src/AzureBlob/Sliced.antt =====
-- What GetObjectRange reads.
use azs3_proxy.Prelude.{
  ℕ, zero, suc, ◌+◌, ◌-◌, ◌≡◌, ◌≢◌, refl, sym, ap, ◌∙◌, Text, some, List, [], ◌∷◌, ◌++◌, ◌⊎◌, inl,
  inr, length, take, drop, length-drop, length-take, slice, min, arith, Option-cases,
}
use azs3_proxy.Handlers.Types.{ok, ObjectInfo}
use azs3_proxy.Handlers.Coherence.{Objects}
use azs3_proxy.AzureBlob.{BlobService, AzureBlobBackend}
use azs3_proxy.AzureBlob.Objects.{time_of, or_zero, info_of, clamped, get_object_range}
use azs3_proxy.AzureBlob.Account.{IsAccount}
use azs3_proxy.AzureBlob.Stored.{Outcome-cases}
use azs3_proxy.AzureBlob.Opened.{Opened, or_zero-some}

-- a slice that ends behind the end
take-min : (n : ℕ) (xs : List ℕ) → take (min n (length xs)) xs ≡ take n xs
take-min zero xs = ap (λ k. take k xs) (let e : min 0 (length xs) ≡ 0 = omega arith in e)
take-min (suc n) [] = ap (λ k. take {A = ℕ} k []) (let e : min (suc n) 0 ≡ 0 = omega arith in e)
take-min (suc n) (x ∷ xs) =
    ap (λ k. take k (x ∷ xs))
      (let e : min (suc n) (suc (length xs)) ≡ suc (min n (length xs)) = omega arith in e)
    ∙ ap (◌∷◌ x) (take-min n xs)

clamped_lem :
    (total offset count start n : ℕ)
    → clamped total offset count ≡ some (start, n)
    → (start ≡ offset)
      × ((total ≡ 0) × (n ≡ count) ⊎ (total ≢ 0) × (n ≡ min count (total - offset)))
unfolding clamped
clamped_lem total offset count start n e = ground (arith, e)

slice-clamped :
    (content : List ℕ) (offset count start n : ℕ)
    → clamped (length content) offset count ≡ some (start, n)
    → slice content start (start + n) ≡ slice content offset (offset + count)
unfolding slice
slice-clamped content offset count start n e =
    let (same, or_less) = clamped_lem (length content) offset count start n e in
    let left : start + n - start ≡ n = omega arith in
    let right : offset + count - offset ≡ count = omega arith in
    let from : take n (drop start content) ≡ take n (drop offset content) =
      ap (λ k. take n (drop k content)) same in
    let tail = drop offset content in
    let cut : take n tail ≡ take count tail = elim or_less [
      | inl (_, all) ↦ ap (λ k. take k tail) all
      | inr (_, less) ↦
          ap (λ k. take k tail) (less ∙ ap (min count) (sym (length-drop offset content)))
          ∙ take-min count tail
    ] in
    ap (λ k. take k (drop start content)) left ∙ (from ∙ (cut ∙ ap (λ k. take k tail) (sym right)))

none_left : (content : List ℕ) → length content ≡ 0 → content ≡ []
none_left [] e = refl
none_left (x ∷ content) e = absurd (omega arith)

clamped-length :
    (content : List ℕ) (offset count start n : ℕ)
    → content ≢ []
    → clamped (length content) offset count ≡ some (start, n)
    → n ≡ length (slice content offset (offset + count))
unfolding slice
clamped-length content offset count start n some_bytes e =
    let taken = length-take (offset + count - offset) (drop offset content) in
    let dropped = length-drop offset content in
    elim (clamped_lem (length content) offset count start n e).1 [
      | inl (empty, _) ↦ absurd (some_bytes (none_left content empty))
      | inr (_, less) ↦ omega (arith, less, taken, dropped)
    ]

module _ (svc : BlobService) (objects : svc.State → Objects) (account : IsAccount svc objects) where
  -- With an account that keeps what IsAccount says: what GetObjectRange opens is a part of an object
  -- of the account, the first bytes of the range that is asked for, up to the end of the object, and
  -- all of them unless the body breaks off; the size that it tells is the one of that part, if the
  -- object is not empty.
  pub get_object_range-Opened :
      (bucket key : Text) (offset count : ℕ) (b : AzureBlobBackend svc) (info : ObjectInfo)
      → (get_object_range svc bucket key offset count b).0 ≡ ok info
      → (content : List ℕ) × (objects b.service bucket key ≡ some content)
        × Opened (slice content offset (offset + count)) (info.body, info.body_fails)
        × (content ≢ [] → info.size ≡ length (slice content offset (offset + count)))
  unfolding get_object_range info_of
  get_object_range-Opened bucket key offset count b info h =
      let (result, s) = svc.blob_properties bucket key b.service in
      let same = account.properties_same bucket key b.service in
      elim (Outcome-cases result) [
        | inl (e, refusal) ↦ absurd (ground (arith, h, refusal))
        | inr (props, works) ↦
            let (content, held, size) = account.properties_found bucket key b.service props works in
            elim (Option-cases (clamped (or_zero props.content_length) offset count)) [
              | inl beyond ↦ absurd (ground (arith, h, works, beyond))
              | inr ((start, n), fits) ↦
                  elim (Outcome-cases (svc.download bucket key (some (start, n)) s).0) [
                    | inl (e, refusal) ↦ absurd (ground (arith, h, works, fits, refusal))
                    | inr (body, opened) ↦
                        let (found, rest, there, part, all) =
                          account.range_found bucket key start n s body opened in
                        let told : info_of (time_of svc b.service) props n body ≡ info =
                          ground (arith, h, works, fits, opened) in
                        let one : found ≡ content = ground (arith, there, same bucket key, held) in
                        let total : or_zero props.content_length ≡ length content =
                          or_zero-some props.content_length (length content) size in
                        let fits1 = ap (λ k. clamped k offset count) (sym total) ∙ fits in
                        let got : slice content offset (offset + count) ≡ info.body ++ rest =
                          sym (slice-clamped content offset count start n fits1)
                          ∙ (ap (λ l. slice l start (start + n)) (sym one)
                              ∙ (part ∙ ap (λ i. i.body ++ rest) told)) in
                        (
                          content,
                          held,
                          (rest, got, λ fine. all (ap (λ i. i.body_fails) told ∙ fine)),
                          λ some_bytes.
                              sym (ap (λ i. i.size) told)
                              ∙ clamped-length content offset count start n some_bytes fits1,
                        )
                  ]
            ]
      ]
