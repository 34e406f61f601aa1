-- ===== src/AzureBlob/Scheduled.antt =====
-- What the workers of a concurrentReader send, chunk by chunk of a schedule.
use mathlib.Core.Path.{subst}
use azs3_proxy.Prelude.{
  ℕ, ◌+◌, ◌<◌, ◌≡◌, refl, sym, ap, ◌∙◌, Text, Bool, true, false, ◌||◌, ◌==◌, some, List, [], ◌∷◌,
  ◌⊎◌, inl, inr, length, slice, block, arith, ltb,
}
use azs3_proxy.Download.{chunk, chunk_err, num_chunks, chunk_start, chunk_count, work}
use azs3_proxy.Download.Delivery.{RightResults, NoErrors, sends}
use azs3_proxy.Download.Workers.{work-block}
use azs3_proxy.Handlers.Coherence.{Objects}
use azs3_proxy.AzureBlob.{BlobService, Outcome, done, refused}
use azs3_proxy.AzureBlob.Objects.{
  sent_bytes, worker_results, stream_block_size, concurrent_download_threshold,
}
use azs3_proxy.AzureBlob.Account.{IsAccount}

-- a chunk is in a schedule
abbrev pub listed : ℕ → List ℕ → Bool
listed id [] = false
listed id (j ∷ ids) = let rest = listed id ids in (j == id) || rest

sent_bytes-done :
    (o : Outcome (List ℕ × Bool)) (bytes : List ℕ)
    → sent_bytes o ≡ some bytes
    → (fails : Bool) × (o ≡ done (bytes, fails))
sent_bytes-done (refused e) bytes h = cc
sent_bytes-done (done (body, fails)) bytes h =
    (fails, let e : body ≡ bytes = cc in ap (λ l. done (l, fails)) e)

module _ (svc : BlobService) (objects : svc.State → Objects) (account : IsAccount svc objects) where
  -- Of an object that is read by chunks, each chunk is scheduled, as it is if the context is not done.
  abbrev pub AllSent : Text → Text → svc.State → Type 0
  AllSent bucket key s =
      (content : List ℕ)
      → objects s bucket key ≡ some content
      → ltb concurrent_download_threshold (length content) ≡ true
      → (id : ℕ) → id < num_chunks (length content) stream_block_size
      → listed id (svc.schedule bucket key s) ≡ true

  module _ (bucket key : Text) (content : List ℕ) where
    -- what one worker sends
    worker-block :
        (id : ℕ) (s : svc.State)
        → objects s bucket key ≡ some content
        → let sent =
            work
              (λ from n. sent_bytes (svc.download bucket key (some (from, n)) s).0)
              (length content)
              stream_block_size
              id in
          (sent ≡ chunk_err id) ⊎ (sent ≡ chunk id (block content stream_block_size id))
    worker-block id s held = work-block content stream_block_size _ id (λ body came.
        let start = chunk_start stream_block_size id in
        let count = chunk_count (length content) stream_block_size id in
        let (fails, answered) =
          sent_bytes-done (svc.download bucket key (some (start, count)) s).0 body came in
        let (found, rest, there, part, all) =
          account.range_found bucket key start count s (body, fails) answered in
        let one : found ≡ content = cc in
        (rest, ap (λ l. slice l start (start + count)) (sym one) ∙ part))

    pub worker_results-RightResults :
        (ids : List ℕ) (s : svc.State)
        → objects s bucket key ≡ some content
        → RightResults content stream_block_size
            (worker_results svc bucket key (length content) ids s).0
    unfolding worker_results
    worker_results-RightResults [] s held = tt
    worker_results-RightResults (id ∷ ids) s held =
        let range : ℕ × ℕ =
          (chunk_start stream_block_size id, chunk_count (length content) stream_block_size id) in
        let same = account.range_same bucket key range s bucket key in
        let rest = worker_results-RightResults ids _ (same ∙ held) in
        elim (worker-block id s held) [
          | inl failed ↦ rw failed rest
          | inr came ↦ rw came (refl, rest)
        ]

    pub worker_results-sends :
        (ids : List ℕ) (s : svc.State) (id : ℕ)
        → objects s bucket key ≡ some content
        → NoErrors (worker_results svc bucket key (length content) ids s).0
        → listed id ids ≡ true
        → sends id (worker_results svc bucket key (length content) ids s).0 ≡ true
    unfolding worker_results
    worker_results-sends [] s id held fine h = cc
    worker_results-sends (j ∷ ids) s id held fine h =
        let range : ℕ × ℕ =
          (chunk_start stream_block_size j, chunk_count (length content) stream_block_size j) in
        let same = account.range_same bucket key range s bucket key in
        let next_state = (svc.download bucket key (some range) s).1 in
        let behind = (worker_results svc bucket key (length content) ids next_state).0 in
        let again = worker_results-sends ids _ id (same ∙ held) in
        elim (worker-block j s held) [
          | inl failed ↦ absurd (subst (λ x. NoErrors (x ∷ behind)) failed fine)
          | inr came ↦
              let rest = again (subst (λ x. NoErrors (x ∷ behind)) came fine) in
              rw came (ground (arith, h, rest))
        ]

    pub worker_results-kept :
        (ids : List ℕ) (s : svc.State) (b q : Text)
        → objects (worker_results svc bucket key (length content) ids s).1 b q ≡ objects s b q
    unfolding worker_results
    worker_results-kept [] s b q = refl
    worker_results-kept (id ∷ ids) s b q =
        worker_results-kept ids _ b q ∙ account.range_same bucket key _ s b q
