-- ===== src/AzureBlob/Opened.antt =====
-- What GetObject reads, by one download or by a concurrentReader.
use mathlib.Core.Path.{subst}
use azs3_proxy.Prelude.{
  ℕ, ◌-◌, ◌*◌, ◌≡◌, ◌≢◌, refl, sym, ap, ◌∙◌, Text, Bool, true, false, Option, none, some, List, [],
  ◌∷◌, length-append, ◌++◌, ◌⊎◌, inl, inr, length, take, drop, take-append-drop, slice, min, arith,
  Bool-cases, ltb,
}
use azs3_proxy.Download.{Ending, eof, worker_error, reader_closed, run}
use azs3_proxy.Download.Complete.{run-prefix, run_complete}
use azs3_proxy.Download.Ended.{run-NoErrors}
use azs3_proxy.Handlers.Types.{Result, ok, failed, ObjectInfo}
use azs3_proxy.Handlers.Coherence.{Objects, Same}
use azs3_proxy.AzureBlob.{BlobProperties, BlobService, AzureBlobBackend, at_state}
use azs3_proxy.AzureBlob.Objects.{
  or_zero, broken, info_of, concurrent_download_threshold, stream_block_size, worker_results,
  open_body, get_object,
}
use azs3_proxy.AzureBlob.Account.{IsAccount}
use azs3_proxy.AzureBlob.Scheduled.{
  AllSent, worker_results-RightResults, worker_results-sends, worker_results-kept,
}
use azs3_proxy.AzureBlob.Stored.{Outcome-cases}

-- A body is the first bytes of an object, and the whole object if it does not break off.
abbrev pub Opened : List ℕ → List ℕ × Bool → Type 0
Opened content body = (rest : List ℕ) × (content ≡ body.0 ++ rest) × (body.1 ≡ false → rest ≡ [])

-- the same, where the whole object is given only if all of it is sent
abbrev pub OpenedIf : Type 0 → List ℕ → List ℕ × Bool → Type 0
OpenedIf Sent content body =
    (rest : List ℕ) × (content ≡ body.0 ++ rest) × (body.1 ≡ false → Sent → rest ≡ [])

broken-eof : (e : Ending) → broken e ≡ false → e ≡ eof
broken-eof eof h = refl
broken-eof worker_error h = cc
broken-eof reader_closed h = cc

pub or_zero-some : (o : Option ℕ) (n : ℕ) → o ≡ some n → or_zero o ≡ n
or_zero-some o n h = rw h refl

slice_front : (n : ℕ) (content : List ℕ) → slice content 0 n ≡ take n content
unfolding slice
slice_front n content = ap (λ k. take k content) (let e : n - 0 ≡ n = omega arith in e)

none_behind : (first rest : List ℕ) → length first ≡ length (first ++ rest) → rest ≡ []
none_behind first [] h = refl
none_behind first (x ∷ rest) h =
    let total = length-append first (x ∷ rest) in absurd (omega (arith, h, total))

module _ (svc : BlobService) (objects : svc.State → Objects) (account : IsAccount svc objects) where
  abbrev Sent : Text → Text → svc.State → Type 0
  Sent = AllSent svc objects account

  chunks-Opened :
      (bucket key : Text) (s : svc.State) (content : List ℕ)
      → objects s bucket key ≡ some content
      → ltb concurrent_download_threshold (length content) ≡ true
      → let ids = svc.schedule bucket key s in
        let results = (worker_results svc bucket key (length content) ids s).0 in
        let out = run (λ id. true) (length content) results in
        OpenedIf (Sent bucket key s) content (out.0, broken out.1)
  chunks-Opened bucket key s content held large =
      let ids = svc.schedule bucket key s in
      let results = (worker_results svc bucket key (length content) ids s).0 in
      let out = run (λ id. true) (length content) results in
      let right = worker_results-RightResults svc objects account bucket key content ids s held in
      let (n, first) = run-prefix content stream_block_size (λ id. true) results right in
      let k = min (n * stream_block_size) (length content) in
      let front : out.0 ++ drop k content ≡ content =
        ap (λ l. l ++ drop k content) (first ∙ slice_front k content)
        ∙ take-append-drop k content in
      (
        drop k content,
        sym front,
        λ fine sent.
            let pos : length content ≢ 0 = ground (arith, large) in
            let ok = run-NoErrors (length content) results pos (broken-eof out.1 fine) in
            let all =
              run_complete content stream_block_size (λ id. true) (λ id. refl) results (omega arith)
                right ok
                (λ id h.
                  worker_results-sends svc objects account bucket key content ids s id held ok
                    (sent content held large id h)) in
            none_behind out.0 (drop k content) (ap (λ o. length o.0) all ∙ ap length (sym front)),
      )

  -- what GetObject gives of an object
  abbrev pub IsRead : Type 0 → List ℕ → Result ObjectInfo → Type 0
  IsRead Sent content (failed e) = Unit
  IsRead Sent content (ok info) =
      OpenedIf Sent content (info.body, info.body_fails) × (info.size ≡ length content)

  open_body-IsRead :
      (bucket key : Text) (props : BlobProperties) (b : AzureBlobBackend svc) (content : List ℕ)
      → objects b.service bucket key ≡ some content
      → props.content_length ≡ some (length content)
      → IsRead (Sent bucket key b.service) content (open_body svc bucket key props b).0
        × Same (objects b.service) (objects (open_body svc bucket key props b).1.service)
  unfolding open_body info_of
  open_body-IsRead bucket key props b content held size =
      elim (Bool-cases (ltb concurrent_download_threshold (length content))) [
        | inl large ↦
            rw (size, open_body)
              (rw large (
                (chunks-Opened bucket key b.service content held large, refl),
                worker_results-kept svc objects account bucket key content
                    (svc.schedule bucket key b.service) b.service,
              ))
        | inr small ↦ elim (Outcome-cases (svc.download bucket key none b.service).0) [
          | inl (e, refusal) ↦
              rw (size, open_body)
                (rw small (rw refusal (tt, account.download_same bucket key b.service)))
          | inr (body, works) ↦
              let (rest, there, all) = account.download_found bucket key b.service body works in
              let same : content ≡ body.0 ++ rest = cc in
              rw (size, open_body)
                (rw small (
                  rw works (
                    (
                      (rest, same, λ fine sent. all fine),
                      or_zero-some props.content_length (length content) size,
                    ),
                    account.download_same bucket key b.service,
                  )))
        ]
      ]

  get_object-cases :
      (bucket key : Text) (b : AzureBlobBackend svc)
      → (((e : Text) × ((get_object svc bucket key b).0 ≡ failed e))
          ⊎ ((content : List ℕ) × (objects b.service bucket key ≡ some content)
              × IsRead
                  (Sent bucket key (svc.blob_properties bucket key b.service).1)
                  content
                  (get_object svc bucket key b).0))
        × Same (objects b.service) (objects (get_object svc bucket key b).1.service)
  unfolding get_object
  get_object-cases bucket key b =
      let (result, s) = svc.blob_properties bucket key b.service in
      let same = account.properties_same bucket key b.service in
      elim (Outcome-cases result) [
        | inl (e, refusal) ↦ rw (refusal, get_object) (inl (_, refl), same)
        | inr (props, works) ↦
            let (content, held, size) = account.properties_found bucket key b.service props works in
            let (read, kept) =
              open_body-IsRead bucket key props (at_state svc s b) content (same bucket key ∙ held)
                size in
            rw (works, get_object) (inr (content, held, read), λ c r. kept c r ∙ same c r)
      ]

  pub get_object-Same :
      (bucket key : Text) (b : AzureBlobBackend svc)
      → Same (objects b.service) (objects (get_object svc bucket key b).1.service)
  get_object-Same bucket key b = (get_object-cases bucket key b).1

  -- With an account that keeps what IsAccount says: what GetObject opens is an object of the account,
  -- its size is the one of the object, and its body is the first bytes of the object, whether one
  -- download or the chunks of a concurrentReader bring it; and all of them, if the body does not break
  -- off and, where it is read by chunks, every chunk is scheduled.
  pub get_object-Opened :
      (bucket key : Text) (b : AzureBlobBackend svc) (info : ObjectInfo)
      → (get_object svc bucket key b).0 ≡ ok info
      → (content : List ℕ) × (objects b.service bucket key ≡ some content)
        × OpenedIf
            (AllSent svc objects account bucket key (svc.blob_properties bucket key b.service).1)
            content
            (info.body, info.body_fails)
        × (info.size ≡ length content)
  get_object-Opened bucket key b info h = elim (get_object-cases bucket key b).0 [
    | inl (e, fails) ↦ cc
    | inr (content, held, read) ↦
        let read1 : IsRead (Sent bucket key (svc.blob_properties bucket key b.service).1) content
            (ok info) =
          subst (IsRead (Sent bucket key (svc.blob_properties bucket key b.service).1) content) h
            read in
        (content, held, read1.0, read1.1)
  ]
