-- ===== src/Errors/Laws.antt =====
-- The codes and statuses that errors of the backend are answered with.
use azs3_proxy.Prelude.{
  ℕ, ◌≤◌, ◌≡◌, refl, ap, ap₂, ◌∙◌, Text, codes, true, false, [], ◌∷◌, ◌++◌, arith, contains,
  contains-append, lower_char, to_lower,
}
use azs3_proxy.Errors.{
  no_such_bucket, no_such_key, error_code_to_http_status, azure_error_to_s3, S3Error, http_status,
}

-- Every error has a status between 400 and 599.
pub http_status_bounds : (e : S3Error) → (400 ≤ http_status e) × (http_status e ≤ 599)
unfolding http_status error_code_to_http_status
http_status_bounds e = ground arith

lower_char-lower_char : (c : ℕ) → lower_char (lower_char c) ≡ lower_char c
unfolding lower_char
lower_char-lower_char c = ground arith

to_lower-to_lower : (s : Text) → to_lower (to_lower s) ≡ to_lower s
unfolding to_lower
to_lower-to_lower [] = refl
to_lower-to_lower (c ∷ s) = ap₂ ◌∷◌ (lower_char-lower_char c) (to_lower-to_lower s)

-- Two error texts that differ only in case have the same code.
pub azure_error_to_s3_case :
    (s t : Text) → to_lower s ≡ to_lower t → azure_error_to_s3 s ≡ azure_error_to_s3 t
unfolding azure_error_to_s3
azure_error_to_s3_case s t h = rw h

to_lower-append : (s t : Text) → to_lower (s ++ t) ≡ to_lower s ++ to_lower t
unfolding to_lower
to_lower-append [] t = refl
to_lower-append (c ∷ s) t = ap (◌∷◌ (lower_char c)) (to_lower-append s t)

contains_part :
    (before part after : Text)
    → contains (to_lower (before ++ (part ++ after))) (to_lower part) ≡ true
contains_part before part after = rw (to_lower-append before (part ++ after)) (
    rw (to_lower-append part after)
      (contains-append (to_lower before) (to_lower part) (to_lower after)))

-- An error text with ContainerNotFound anywhere in it, in any case and whatever else it says, is
-- NoSuchBucket and answered with 404.
pub azure_error_to_s3_no_container :
    (before part after : Text) (e : S3Error)
    → e.code ≡ azure_error_to_s3 (before ++ (part ++ after))
    → to_lower part ≡ codes "containernotfound"
    → (e.code ≡ no_such_bucket) × (http_status e ≡ 404)
unfolding azure_error_to_s3 http_status error_code_to_http_status
azure_error_to_s3_no_container before part after e h named =
    let found = rw named at (contains_part before part after) in
    let code : e.code ≡ no_such_bucket = h ∙ rw found in (code, ground (arith, code))

-- An error text with BlobNotFound anywhere in it, in any case, and no ContainerNotFound, is
-- NoSuchKey and answered with 404.
pub azure_error_to_s3_no_blob :
    (before part after : Text) (e : S3Error)
    → e.code ≡ azure_error_to_s3 (before ++ (part ++ after))
    → to_lower part ≡ codes "blobnotfound"
    → contains (to_lower (before ++ (part ++ after))) (codes "containernotfound") ≡ false
    → (e.code ≡ no_such_key) × (http_status e ≡ 404)
unfolding azure_error_to_s3 http_status error_code_to_http_status
azure_error_to_s3_no_blob before part after e h named other =
    let found = rw named at (contains_part before part after) in
    let code : e.code ≡ no_such_key = h ∙ rw other (rw found) in (code, ground (arith, code))
