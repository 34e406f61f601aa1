-- ===== src/Tests/Handled.antt =====
-- Runs of the handlers over a storage and a cache that are functions.
use mathlib.Core.Path.{subst}
use azs3_proxy.Prelude.{
  ℕ, ◌≡◌, refl, sym, ap, append-nil, Text, codes, eq_text, eq_text_iff, cut, Bool-cases, true,
  false, ◌&&◌, Option, none, some, List, [], ◌∷◌, ◌++◌, length, inl, inr, arith, if◌then◌else◌,
}
use azs3_proxy.Range.Numbers.{positive}
use azs3_proxy.Stats.{zero_stats}
use azs3_proxy.Handlers.Types.{
  Result, ok, failed, Reader, plain, aws_chunked, ObjectInfo, StorageBackend, ObjectCache,
  S3Request, S3Handler, bytes,
}
use azs3_proxy.Handlers.Objects.{put_source, put_object_handler, put_done, invalidate}
use azs3_proxy.Handlers.Reads.{cached, buffered, send_object, fetch_object, get_whole_object}
use azs3_proxy.Handlers.Ranges.{get_object_handler}
use azs3_proxy.Handlers.Coherence.{IsStorage, Objects}
use azs3_proxy.Handlers.Plain.{IsPlain}

abbrev pub holds : Text → Text → Option (List ℕ) → Objects → Objects
holds bucket key content s b q = if eq_text b bucket && eq_text q key then content else s b q

-- `shown` is the size that the storage announces of an object
abbrev info_of : (ℕ → ℕ) → Option (List ℕ) → Result ObjectInfo
info_of shown none = failed (codes "BlobNotFound")
info_of shown (some content) = ok (record {
  body = content;
  body_fails = false;
  last_modified = none;
  size = shown (length content);
  etag = codes "e";
})

abbrev content_of : Reader → Option (List ℕ)
content_of (plain content) = some content
content_of (aws_chunked r) = none

abbrev no_call : {A : Type 0} → Result A
no_call = failed []

abbrev pub storage0 : (ℕ → ℕ) → StorageBackend
storage0 shown = record {
  State = Objects;
  list_buckets = λ s. (no_call, s);
  create_bucket = λ b s. (no_call, s);
  delete_bucket = λ b s. (no_call, s);
  head_bucket = λ b s. (no_call, s);
  put_object = λ b q size r s. (ok (codes "e"), holds b q (content_of r) s);
  copy_object = λ b q c r s. (no_call, s);
  get_object = λ b q s. (info_of shown (s b q), s);
  get_object_range = λ b q a n s. (no_call, s);
  delete_object = λ b q s. (ok tt, holds b q none s);
  head_object = λ b q s. (no_call, s);
  list_objects_v2 = λ b p c n s. (no_call, s);
  initiate_multipart_upload = λ b q s. (no_call, s);
  upload_part = λ b q u n size r s. (no_call, s);
  complete_multipart_upload = λ b q u tags s. (no_call, s);
  abort_multipart_upload = λ b q u s. (no_call, s);
  list_parts = λ b q u s. (no_call, s);
  list_multipart_uploads = λ b s. (no_call, s);
  enable_versioning = λ b s. (no_call, s);
  get_versioning = λ b s. (no_call, s);
  list_object_versions = λ b p s. (no_call, s);
  get_object_version = λ b q v s. (no_call, s);
  delete_object_version = λ b q v s. (no_call, s);
}

abbrev sets : Text → Option (List ℕ) → (Text → Option (List ℕ)) → Text → Option (List ℕ)
sets k content s j = if eq_text j k then content else s j

abbrev pub cache0 : ObjectCache
cache0 = record {
  store = record {
    State = Text → Option (List ℕ);
    get = λ k s. (s k, s);
    put = λ k content s. (true, sets k (some content) s);
  };
  invalidate = λ k s. (true, sets k none s);
}

pub holds_other :
    (b q : Text) (content : Option (List ℕ)) (s : Objects) (c r : Text)
    → ¬ ((c ≡ b) × (r ≡ q))
    → holds b q content s c r ≡ s c r
holds_other b q content s c r other = elim (Bool-cases (eq_text c b && eq_text r q)) [
  | inl same ↦ absurd (
      other
        ((eq_text_iff c b).0 (ground (arith, same)), (eq_text_iff r q).0 (ground (arith, same))))
  | inr differ ↦ rw differ refl
]

pub holds_same :
    (b q : Text) (content : Option (List ℕ)) (s : Objects) → holds b q content s b q ≡ content
holds_same b q content s = rw ((eq_text_iff b b).1 refl) (rw ((eq_text_iff q q).1 refl) refl)

info_found :
    (x : Option (List ℕ)) (info : ObjectInfo)
    → info_of (λ n. n) x ≡ ok info
    → (rest : List ℕ) × (x ≡ some (info.body ++ rest))
      × (info.size ≡ length (info.body ++ rest))
      × (info.body_fails ≡ false → rest ≡ [])
info_found none info e = absurd (ground (arith, e))
info_found (some content) info e =
    let made : ObjectInfo = record {
      body = content;
      body_fails = false;
      last_modified = none;
      size = length content;
      etag = codes "e";
    } in
    let given : Result ObjectInfo = ok made in
    let same : given ≡ ok info = e in
    let eq : made ≡ info = cc in
    subst
      (λ i.
        (rest : List ℕ) × (some content ≡ some (i.body ++ rest))
        × (i.size ≡ length (i.body ++ rest))
        × (i.body_fails ≡ false → rest ≡ []))
      eq ([], ap some (sym (append-nil content)), ap length (sym (append-nil content)), λ f. refl)

pub is_storage0 : IsStorage (storage0 (λ n. n))
is_storage0 = record {
  objects = λ s. s;
  get_same = λ b q s c r. refl;
  get_found = λ b q s info e. info_found (s b q) info e;
  put_others = λ b q content s c r other. holds_other b q (some content) s c r other;
  put_stores = λ b q content s etag e. holds_same b q (some content) s;
  put_fails = λ b q content s e f. absurd (ground (arith, f));
  delete_others = λ b q s c r other. holds_other b q none s c r other;
  delete_removes = λ b q s e. holds_same b q none s;
  delete_fails = λ b q s e f. absurd (ground (arith, f));
}

abbrev pub request : List ℕ → S3Request
request content = record {
  bucket = codes "b";
  path = codes "/k";
  query = λ k. none;
  range_header = [];
  copy_source = [];
  content_sha256 = [];
  decoded_content_length = [];
  content_length = positive (length content);
  body = content;
}

pub request-IsPlain : (content : List ℕ) → IsPlain (request content)
unfolding cut eq_text
request-IsPlain content = record {
  bucket_plain = refl;
  key_given = refl;
  no_range = refl;
  no_source = refl;
  not_streaming = refl;
  announced = refl;
}

-- storage with one object, and an empty cache
abbrev empty0 : (shown : ℕ → ℕ) → S3Handler (storage0 shown) cache0
empty0 shown = record {
  storage = holds (codes "b") (codes "k") (some (1 ∷ 2 ∷ [])) (λ b q. none);
  cache_state = some (λ k. none);
  stats = zero_stats;
  pending = [];
}

abbrev pub known : S3Handler (storage0 (λ n. n)) cache0
known = empty0 (λ n. n)

pub no_escape : Text → Option Text
no_escape s = some s

abbrev put0 : S3Handler (storage0 (λ n. n)) cache0
put0 = (put_object_handler (storage0 (λ n. n)) cache0 no_escape (request (7 ∷ [])) known).1

abbrev pub again : S3Request
again = request []

put_test : (get_object_handler (storage0 (λ n. n)) cache0 [] again put0).0.payload ≡ bytes (7 ∷ [])
unfolding eq_text put_source put_object_handler put_done invalidate cached buffered send_object
    fetch_object get_whole_object get_object_handler
put_test = refl

abbrev pub found0 : (ℕ → ℕ) → ObjectInfo
found0 shown = record {
  body = 1 ∷ 2 ∷ [];
  body_fails = false;
  last_modified = none;
  size = shown 2;
  etag = codes "e";
}
