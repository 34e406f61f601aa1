-- ===== src/Download/Complete.antt =====
-- The loop over the results: which bytes the pipe carries, and where the stream ends.
use native.Mathlib.Nat.{le-div_iff_mul-le}
use native.Mathlib.Decide.{dec_le}
use azs3_proxy.Prelude.{
  ℕ, suc, ◌+◌, ◌*◌, ◌≤◌, ◌<◌, ◌≡◌, ◌≢◌, refl, sym, ap, ap₂, ◌∙◌, Bool, true, false, none, List, [],
  ◌∷◌, ◌++◌, length, slice, slice_all, slice_nil, blocks, blocks-slice, blocks-append, inl, inr,
  Bool-cases, min, arith,
}
use azs3_proxy.Download.{
  Chunk, chunk, chunk_err, num_chunks, Buffer, find, erase, Delivered, deliver, Ending, eof,
  reader_closed, process, run,
}
use azs3_proxy.Download.Delivery.{
  RightBuffer, RightResults, deliver-Ran, insert-RightBuffer, find-erase, sends, NoErrors,
  deliver-stopped,
}

module _ (takes : ℕ → Bool) (id : ℕ) (bytes : List ℕ) (results : List Chunk) (m : Buffer)
    (next : ℕ) where
  -- the buffer with a new chunk, and what the inner loop makes of it
  abbrev grown : Buffer
  grown = (id, bytes) ∷ erase id m

  abbrev round : Delivered
  round = deliver takes (suc (length grown)) grown next

  process_open :
      round.open_pipe ≡ true
      → let rest = process takes results round.buffer round.next in
        process takes (chunk id bytes ∷ results) m next ≡ (round.written ++ rest.0, rest.1)
  unfolding process
  process_open h = rw (h, process) refl

  process_shut :
      round.open_pipe ≡ false
      → process takes (chunk id bytes ∷ results) m next ≡ (round.written, reader_closed)
  unfolding process
  process_shut h = rw (h, process) refl

find_nil : (k : ℕ) → find k [] ≡ none
unfolding find
find_nil k = refl

-- the first chunk that never came is past the blob's last when all of them were sent
reached :
    (results : List Chunk) (n limit : ℕ)
    → sends (0 + n) results ≡ false
    → ((id : ℕ) → id < limit → sends id results ≡ true)
    → limit ≤ n
reached results n limit u all = elim (dec_le limit n) [
  | yes l ↦ l
  | no l ↦ let e : sends (0 + n) results ≡ true = all (0 + n) (omega (arith, l)) in cc
]

grown-unsent :
    (id : ℕ) (b : List ℕ) (m : Buffer) (k : ℕ) (results : List Chunk)
    → find k ((id, b) ∷ erase id m) ≡ none
    → sends k results ≡ false
    → sends k (chunk id b ∷ results) ≡ false
unfolding find
grown-unsent id b m k results h u = ground arith

grown-absent :
    (id : ℕ) (b : List ℕ) (m : Buffer) (k : ℕ)
    → find k ((id, b) ∷ erase id m) ≡ none
    → find k m ≡ none
unfolding find
grown-absent id b m k h = ground (arith, find-erase id k m)

-- a chunk that is neither there nor comes is not there later
grown-held :
    (id : ℕ) (b : List ℕ) (m : Buffer) (k : ℕ) (results : List Chunk)
    → find k m ≡ none
    → sends k (chunk id b ∷ results) ≡ false
    → (find k ((id, b) ∷ erase id m) ≡ none) × (sends k results ≡ false)
unfolding find
grown-held id b m k results h u = ground (arith, find-erase id k m)

module _ (blob : List ℕ) (chunk_size : ℕ) where
  process-prefix :
      (takes : ℕ → Bool) (results : List Chunk) (m : Buffer) (next : ℕ)
      → RightBuffer blob chunk_size m
      → RightResults blob chunk_size results
      → (n : ℕ) × ((process takes results m next).0 ≡ blocks blob chunk_size next n)
  process-prefix takes [] m next g h = unfold process blocks in (0, refl)
  process-prefix takes (chunk_err id ∷ results) m next g h = unfold process blocks in (0, refl)
  process-prefix takes (chunk id b ∷ results) m next g (e, h) =
      let r =
        deliver-Ran blob chunk_size takes (suc (length (grown takes id b results m next)))
          (grown takes id b results m next) next (insert-RightBuffer blob chunk_size id b m e g) in
      elim (Bool-cases (round takes id b results m next).open_pipe) [
        | inl opened ↦
            let (n, w) =
              process-prefix takes results _ (round takes id b results m next).next r.right h in
            rw (process_open takes id b results m next opened) (
              r.count + n,
              ap₂ ◌++◌ r.wrote (w ∙ ap (λ k. blocks blob chunk_size k n) r.advanced)
                  ∙ blocks-append blob chunk_size next r.count n,
            )
        | inr shut ↦ rw (process_shut takes id b results m next shut) (r.count, r.wrote)
      ]

  -- What a run without errors does: it stops before the first chunk that never came.
  record Stopped (results : List Chunk) (m : Buffer) (next : ℕ) (out : List ℕ × Ending)
      : Type 0 where
    count : ℕ
    wrote : out.0 ≡ blocks blob chunk_size next count
    ended : out.1 ≡ eof
    unsent : sends (next + count) results ≡ false
    absent : find (next + count) m ≡ none
    held : (id : ℕ) → next ≤ id → find id m ≡ none → sends id results ≡ false → next + count ≤ id

  process-Stopped :
      (takes : ℕ → Bool)
      → ((id : ℕ) → takes id ≡ true)
      → (results : List Chunk) (m : Buffer) (next : ℕ) → RightBuffer blob chunk_size m
      → RightResults blob chunk_size results
      → NoErrors results
      → find next m ≡ none
      → Stopped results m next (process takes results m next)
  process-Stopped takes always [] m next g h ok gone =
      unfold process blocks in
      record {
        count = 0;
        wrote = refl;
        ended = refl;
        unsent = refl;
        absent = ap (λ k. find k m) (let e : next + 0 ≡ next = omega arith in e) ∙ gone;
        held = λ id l a u. omega arith;
      }
  process-Stopped takes always (chunk_err id ∷ results) m next g h ok gone = absurd ok
  process-Stopped takes always (chunk id b ∷ results) m next g (e, h) ok gone =
      let m1 = grown takes id b results m next in
      let d = round takes id b results m next in
      let r =
        deliver-Ran blob chunk_size takes (suc (length m1)) m1 next
          (insert-RightBuffer blob chunk_size id b m e g) in
      let (opened, stop) = deliver-stopped takes always (suc (length m1)) m1 next (omega arith) in
      let q = process-Stopped takes always results d.buffer d.next r.right h ok stop in
      let place : next + (r.count + q.count) ≡ d.next + q.count = omega (arith, r.advanced) in
      let there : find (d.next + q.count) m1 ≡ none =
        sym (r.kept (d.next + q.count) (omega arith) opened) ∙ q.absent in
      rw (process_open takes id b results m next opened) (record {
        count = r.count + q.count;
        wrote =
            ap₂ ◌++◌ r.wrote (q.wrote ∙ ap (λ k. blocks blob chunk_size k q.count) r.advanced)
            ∙ blocks-append blob chunk_size next r.count q.count;
        ended = q.ended;
        unsent =
            ap (λ k. sends k (chunk id b ∷ results)) place
            ∙ grown-unsent id b m (d.next + q.count) results there q.unsent;
        absent = ap (λ k. find k m) place ∙ grown-absent id b m (d.next + q.count) there;
        held = λ j l a u.
            let (a1, u1) = grown-held id b m j results a u in
            let far = r.passed j l a1 in
            omega (arith, place, q.held j far (r.kept j far opened ∙ a1) u1);
      })

  -- the bytes of the blocks from the first
  first_blocks :
      (n : ℕ) → blocks blob chunk_size 0 n ≡ slice blob 0 (min (n * chunk_size) (length blob))
  first_blocks n =
      blocks-slice blob chunk_size 0 n
      ∙ ap₂ (slice blob) (let e : min (0 * chunk_size) (length blob) ≡ 0 = omega arith in e) (
          let e : min ((0 + n) * chunk_size) (length blob) ≡ min (n * chunk_size) (length blob) =
            omega arith in
          e)

  -- enough chunks cover the blob
  cover :
      (n : ℕ)
      → 0 < chunk_size
      → num_chunks (length blob) chunk_size ≤ n
      → length blob ≤ n * chunk_size
  cover n pos h = elim (dec_le (length blob) (n * chunk_size)) [
    | yes l ↦ l
    | no l ↦
        let q : n + 1 ≤ num_chunks (length blob) chunk_size =
          (le-div_iff_mul-le pos).1 (omega (arith, pos)) in
        absurd (omega (arith, h, q))
  ]

  -- Every chunk before `n` starts inside the blob if `n` is place most the number of chunks.
  whole : (n : ℕ) → length blob ≤ n * chunk_size → blocks blob chunk_size 0 n ≡ blob
  whole n h = first_blocks n ∙ slice_all blob (min (n * chunk_size) (length blob)) (omega arith)

  RightBuffer-nil : RightBuffer blob chunk_size []
  unfolding find
  RightBuffer-nil id b e = cc

  run_empty :
      (takes : ℕ → Bool) (results : List Chunk)
      → length blob ≡ 0
      → run takes (length blob) results ≡ ([], eof)
  unfolding run
  run_empty takes results h = ground arith

  run_nonempty :
      (takes : ℕ → Bool) (results : List Chunk)
      → length blob ≢ 0
      → run takes (length blob) results ≡ process takes results [] 0
  unfolding run
  run_nonempty takes results h = ground arith

  -- However the workers' results are ordered, whichever fail or never come, and whenever the reader
  -- shuts the pipe: if the chunks with data hold the blob's bytes at their place, then what run()
  -- writes is the blob up to a chunk's end.
  pub run-prefix :
      (takes : ℕ → Bool) (results : List Chunk)
      → RightResults blob chunk_size results
      → (n : ℕ) × ((run takes (length blob) results).0
          ≡ slice blob 0 (min (n * chunk_size) (length blob)))
  run-prefix takes results h = elim (dec_le (length blob) 0) [
    | yes z ↦ (
      0,
      ap (λ r. r.0) (run_empty takes results (omega (arith, z)))
          ∙ sym (slice_nil blob 0 _ (omega arith)),
    )
    | no z ↦
        let (n, w) = process-prefix takes results [] 0 RightBuffer-nil h in
        (n, ap (λ r. r.0) (run_nonempty takes results (omega (arith, z))) ∙ w ∙ first_blocks n)
  ]

  -- If the reader takes every write, no worker fails, the chunk size is above 0, each chunk sent
  -- holds the bytes of the blob at its place, and each of the chunks of the blob is sent, in any
  -- order, then run() writes the whole blob and ends the stream with io.EOF.
  pub run_complete :
      (takes : ℕ → Bool)
      → ((id : ℕ) → takes id ≡ true)
      → (results : List Chunk) → 0 < chunk_size
      → RightResults blob chunk_size results
      → NoErrors results
      → ((id : ℕ) → id < num_chunks (length blob) chunk_size → sends id results ≡ true)
      → run takes (length blob) results ≡ (blob, eof)
  run_complete takes always results pos h ok all = elim (dec_le (length blob) 0) [
    | yes z ↦
        run_empty takes results (omega (arith, z))
        ∙ ap (λ b. (b, eof))
            (sym (slice_nil blob 0 0 (omega arith)) ∙ slice_all blob 0 (omega (arith, z)))
    | no z ↦
        let q = process-Stopped takes always results [] 0 RightBuffer-nil h ok (find_nil 0) in
        run_nonempty takes results (omega (arith, z))
        ∙ ap₂ (λ b e. (b, e))
            (q.wrote ∙ whole q.count (cover q.count pos (reached results q.count _ q.unsent all)))
            q.ended
  ]

  -- If the reader takes every write, no worker fails, each chunk sent holds the bytes of the blob
  -- at its place, and some chunk is never sent, as when the workers stop because the context is
  -- done, then run() still ends the stream with io.EOF, and writes only blocks before the missing
  -- chunk.
  pub run-truncated :
      (takes : ℕ → Bool)
      → ((id : ℕ) → takes id ≡ true)
      → (results : List Chunk) (id : ℕ) → RightResults blob chunk_size results
      → NoErrors results
      → sends id results ≡ false
      → (n : ℕ) × (n ≤ id)
        × (run takes (length blob) results
            ≡ (slice blob 0 (min (n * chunk_size) (length blob)), eof))
  run-truncated takes always results id h ok missing = elim (dec_le (length blob) 0) [
    | yes z ↦ (
      0,
      omega arith,
      run_empty takes results (omega (arith, z))
          ∙ ap (λ b. (b, eof)) (sym (slice_nil blob 0 _ (omega arith))),
    )
    | no z ↦
        let q = process-Stopped takes always results [] 0 RightBuffer-nil h ok (find_nil 0) in
        (
          q.count,
          omega (arith, q.held id (omega arith) (find_nil id) missing),
          run_nonempty takes results (omega (arith, z))
              ∙ ap₂ (λ b e. (b, e)) (q.wrote ∙ first_blocks q.count) q.ended,
        )
  ]
