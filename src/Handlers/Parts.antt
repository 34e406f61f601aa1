-- ===== src/Handlers/Parts.antt =====
-- Which part numbers reach the storage, and what a completed upload leaves in the cache.
use mathlib.Core.Path.{subst}
use azs3_proxy.Prelude.{
  ℕ, ◌≤◌, ◌≡◌, ◌≢◌, refl, sym, ap, ◌∙◌, ◌⊎◌, inl, inr, Text, codes, Bool-cases, Option,
  Option-cases, some, none, List, [], eq_text, eq_text_iff, arith, ltb, ◌||◌,
}
use azs3_proxy.Errors.{http_status, error_code_to_http_status}
use azs3_proxy.Range.Numbers.{Int64, positive, negative, parse_int}
use azs3_proxy.Range.Blocks.{generate_cache_key}
use azs3_proxy.Handlers.Types.{
  write_error_response, query_get, S3Request, StorageBackend, ObjectCache, S3Handler,
}
use azs3_proxy.Handlers.Objects.{object_key}
use azs3_proxy.Handlers.Ranges.{get_object_handler}
use azs3_proxy.Handlers.Multipart.{
  part_number_of, part_tags, upload_id, send_part, upload_part_handler,
  complete_multipart_upload_handler,
}
use azs3_proxy.Handlers.Versions.{delete_object_version_handler}
use azs3_proxy.Handlers.Plain.{IsPlain, get_plain}
use azs3_proxy.Handlers.Coherence.Specified.{Result-cases}
use azs3_proxy.Handlers.Races.{IsHit, Has, get_whole_object-IsHit}

part_number_of_bounds :
    (x : Option Int64) (n : ℕ)
    → part_number_of x ≡ some n
    → (x ≡ some (positive n)) × (1 ≤ n) × (n ≤ 10000)
unfolding part_number_of
part_number_of_bounds none n e = absurd (ground (arith, e))
part_number_of_bounds (some (negative m)) n e = absurd (ground (arith, e))
part_number_of_bounds (some (positive m)) n e = elim (Bool-cases (ltb m 1 || ltb 10000 m)) [
  | inl out ↦ absurd (ground (arith, e, out))
  | inr within ↦
      let same : m ≡ n = ground (arith, e, within) in
      (ap (λ i. some (positive i)) same, ground (arith, same, within), ground (arith, same, within))
]

module _ (backend : StorageBackend) (cache : ObjectCache) where
  -- UploadPart is answered 500 and changes nothing, or the request has an upload id and a part number
  -- between 1 and 10000, and the part is sent to the storage under that number.
  pub upload_part_handler-part_number_of :
      (r : S3Request) (h : S3Handler backend cache)
      → (((upload_part_handler backend cache r h).0.status ≡ 500)
          × ((upload_part_handler backend cache r h).1 ≡ h))
        ⊎ ((n : ℕ) × (1 ≤ n)
            × (n ≤ 10000)
            × (upload_id r ≢ [])
            × (parse_int 10 (query_get r (codes "partNumber")) ≡ some (positive n))
            × (upload_part_handler backend cache r h ≡ send_part backend cache n r h))
  unfolding upload_part_handler write_error_response http_status error_code_to_http_status
  upload_part_handler-part_number_of r h =
      let number = query_get r (codes "partNumber") in
      elim (Bool-cases (eq_text (upload_id r) [])) [
        | inl no_id ↦ rw (no_id, upload_part_handler) (inl (refl, refl))
        | inr id ↦ elim (Bool-cases (eq_text number [])) [
          | inl no_number ↦ rw (id, upload_part_handler) (rw no_number (inl (refl, refl)))
          | inr given ↦ elim (Option-cases (part_number_of (parse_int 10 number))) [
            | inl refused ↦ rw (id, upload_part_handler) (rw given (rw refused (inl (refl, refl))))
            | inr (n, taken) ↦
                let (parsed, least, most) = part_number_of_bounds (parse_int 10 number) n taken in
                let id_given : upload_id r ≢ [] =
                  λ e. ground (arith, id, (eq_text_iff (upload_id r) []).1 e) in
                inr (
                  n,
                  least,
                  most,
                  id_given,
                  parsed,
                  rw (id, upload_part_handler) (rw given (rw taken refl)),
                )
          ]
        ]
      ]

  -- calls that change the storage and leave the cache
  complete_multipart_upload_handler-cache_state :
      (decode : List ℕ → Option (List (ℕ × Text))) (r : S3Request) (h : S3Handler backend cache)
      → (complete_multipart_upload_handler backend cache decode r h).1.cache_state ≡ h.cache_state
  unfolding complete_multipart_upload_handler
  complete_multipart_upload_handler-cache_state decode r h =
      elim (Bool-cases (eq_text (upload_id r) [])) [
        | inl no_id ↦ rw (no_id, complete_multipart_upload_handler) refl
        | inr id ↦ elim (Option-cases (decode r.body)) [
          | inl bad ↦ rw (id, complete_multipart_upload_handler) (rw bad refl)
          | inr (parts, good) ↦
              let (result, s) =
                backend.complete_multipart_upload r.bucket (object_key r) (upload_id r)
                  (part_tags parts []) h.storage in
              elim (Result-cases result) [
                | inl (e, fails) ↦
                    rw (id, complete_multipart_upload_handler) (rw good (rw fails refl))
                | inr (etag, works) ↦
                    rw (id, complete_multipart_upload_handler) (rw good (rw works refl))
              ]
        ]
      ]

  delete_object_version_handler-cache_state :
      (r : S3Request) (h : S3Handler backend cache)
      → (delete_object_version_handler backend cache r h).1.cache_state ≡ h.cache_state
  unfolding delete_object_version_handler
  delete_object_version_handler-cache_state r h =
      let result =
        (backend.delete_object_version r.bucket (object_key r) (query_get r (codes "versionId"))
          h.storage).0 in
      elim (Result-cases result) [
        | inl (e, fails) ↦ rw (fails, delete_object_version_handler) refl
        | inr (u, works) ↦ rw (works, delete_object_version_handler) refl
      ]

  -- If the cache has bytes for an object, then after CompleteMultipartUpload or DeleteObjectVersion
  -- of any object, whatever they do to the storage, a plain GET of that object is answered 200 with
  -- those bytes.
  pub get_object_handler-unmarked :
      (now : Text) (decode : List ℕ → Option (List (ℕ × Text))) (r g : S3Request) (content : List ℕ)
      (c : cache.store.State) (h : S3Handler backend cache)
      → IsPlain g
      → h.cache_state ≡ some c
      → Has backend cache (generate_cache_key g.bucket (object_key g)) content c
      → IsHit content
          (get_object_handler backend cache now g
            (complete_multipart_upload_handler backend cache decode r h).1).0
        × IsHit content
            (get_object_handler backend cache now g
              (delete_object_version_handler backend cache r h).1).0
  get_object_handler-unmarked now decode r g content c h p on has =
      let answers : (t : S3Handler backend cache)
          → t.cache_state ≡ h.cache_state
          → IsHit content (get_object_handler backend cache now g t).0 =
        λ t same.
          subst (λ x. IsHit content x.0) (sym (get_plain backend cache now (λ s. none) g t p))
            (get_whole_object-IsHit backend cache g content c t (same ∙ on) has) in
      (
        answers _ (complete_multipart_upload_handler-cache_state decode r h),
        answers _ (delete_object_version_handler-cache_state r h),
      )
