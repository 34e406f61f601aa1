-- ===== src/Handlers/Batch/Accounts.antt =====
-- What an answer to DeleteObjects accounts for.
use azs3_proxy.Prelude.{
  ℕ, ◌+◌, ◌≡◌, refl, ◌∙◌, Text, false, Option, some, List, [], ◌∷◌, ◌++◌, eq_text, eq_text_iff,
  Bool-cases, inl, inr, arith, if◌then◌else◌,
}
use azs3_proxy.Handlers.Types.{
  Result, ok, failed, StorageBackend, ObjectCache, ObjectIdentifier, ErrorResult, DeleteResult,
  S3Request, delete_result, xml_reply, S3Handler,
}
use azs3_proxy.Handlers.Batch.{
  DeleteRequest, delete_objects_handler, delete_entry, entry_done, delete_entries,
}

-- how often a key is asked for, and how often an answer names it
abbrev pub asked : Text → List ObjectIdentifier → ℕ
asked q [] = 0
asked q (o ∷ os) = (if eq_text o.key q then 1 else 0) + asked q os

abbrev pub refused : Text → List ErrorResult → ℕ
refused q [] = 0
refused q (e ∷ es) = (if eq_text e.key q then 1 else 0) + refused q es

abbrev pub answered : Text → DeleteResult → ℕ
answered q d = asked q d.deleted + refused q d.error

asked-append :
    (q : Text) (o : ObjectIdentifier) (os : List ObjectIdentifier)
    → asked q (os ++ o ∷ []) ≡ asked q os + (if eq_text o.key q then 1 else 0)
asked-append q o [] = omega arith
asked-append q o (p ∷ os) = omega (arith, asked-append q o os)

refused-append :
    (q : Text) (e : ErrorResult) (es : List ErrorResult)
    → refused q (es ++ e ∷ []) ≡ refused q es + (if eq_text e.key q then 1 else 0)
refused-append q e [] = omega arith
refused-append q e (p ∷ es) = omega (arith, refused-append q e es)

module _ (backend : StorageBackend) (cache : ObjectCache) (bucket : Text) where
  answered-entry_done :
      (q : Text) (o : ObjectIdentifier) (r : Result (Unit {0}) × backend.State) (d : DeleteResult)
      (h : S3Handler backend cache)
      → answered q (entry_done backend cache bucket false o r (d, h)).0
        ≡ answered q d + (if eq_text o.key q then 1 else 0)
  unfolding entry_done
  answered-entry_done q o (failed e, s) d h = omega (
    arith,
    refused-append q (record { key = o.key; version_id = o.version_id; message = e }) d.error,
  )
  answered-entry_done q o (ok u, s) d h = omega (arith, asked-append q o d.deleted)

  answered-delete_entries :
      (q : Text) (c : ℕ) (objects : List ObjectIdentifier) (d : DeleteResult)
      (h : S3Handler backend cache)
      → answered (c ∷ q) (delete_entries backend cache bucket false objects (d, h)).0
        ≡ answered (c ∷ q) d + asked (c ∷ q) objects
  unfolding delete_entries
  answered-delete_entries q c [] d h = omega arith
  answered-delete_entries q c (o ∷ objects) d h = elim (Bool-cases (eq_text o.key [])) [
    | inl empty ↦
        rw (empty, delete_entries)
          (ground (
            arith,
            answered-delete_entries q c objects d h,
            eq_text_iff o.key [],
            eq_text_iff o.key (c ∷ q),
          ))
    | inr named ↦
        let next =
          entry_done backend cache bucket false o (delete_entry backend cache bucket o h.storage)
            (d, h) in
        rw (named, delete_entries)
          (omega (
            arith,
            answered-delete_entries q c objects next.0 next.1,
            answered-entry_done (c ∷ q) o (delete_entry backend cache bucket o h.storage) d h,
          ))
  ]

  unanswered-delete_entries :
      (objects : List ObjectIdentifier) (d : DeleteResult) (h : S3Handler backend cache)
      → answered [] (delete_entries backend cache bucket false objects (d, h)).0 ≡ answered [] d
  unfolding delete_entries
  unanswered-delete_entries [] d h = refl
  unanswered-delete_entries (o ∷ objects) d h = elim (Bool-cases (eq_text o.key [])) [
    | inl empty ↦ rw (empty, delete_entries) (unanswered-delete_entries objects d h)
    | inr named ↦
        let next =
          entry_done backend cache bucket false o (delete_entry backend cache bucket o h.storage)
            (d, h) in
        rw (named, delete_entries)
          (unanswered-delete_entries objects next.0 next.1
            ∙ (answered-entry_done [] o (delete_entry backend cache bucket o h.storage) d h
                ∙ (rw named (omega arith))))
  ]

module _ (backend : StorageBackend) (cache : ObjectCache) where
  -- If the body of a DeleteObjects request decodes and the request is not quiet, then the answer is
  -- a result that names each key as often as the request asks for it, as deleted or with an error,
  -- but for the empty key, which it does not name.
  pub delete_objects_handler-asked :
      (decode : List ℕ → Option DeleteRequest) (r : S3Request) (h : S3Handler backend cache)
      (request : DeleteRequest) (c : ℕ) (q : Text)
      → decode r.body ≡ some request
      → request.quiet ≡ false
      → (d : DeleteResult) × ((delete_objects_handler backend cache decode r h).0
          ≡ xml_reply (delete_result d))
        × (answered (c ∷ q) d ≡ asked (c ∷ q) request.objects)
        × (answered [] d ≡ 0)
  unfolding delete_objects_handler
  delete_objects_handler-asked decode r h request c q parsed loud =
      let none_yet : DeleteResult = record { deleted = []; error = [] } in
      let run = delete_entries backend cache r.bucket false request.objects (none_yet, h) in
      (
        run.0,
        rw (parsed, delete_objects_handler) (rw loud refl),
        answered-delete_entries backend cache r.bucket q c request.objects none_yet h ∙ omega arith,
        unanswered-delete_entries backend cache r.bucket request.objects none_yet h,
      )
