-- ===== src/Handlers/Plain.antt =====
-- Requests for one object by its name, and what the handlers of objects are for them.
use azs3_proxy.Prelude.{◌≡◌, refl, Text, true, false, Option, some, none, [], length, cut, eq_text}
use azs3_proxy.Range.Numbers.{positive}
use azs3_proxy.Handlers.Types.{plain, S3Request, StorageBackend, ObjectCache, S3Handler}
use azs3_proxy.Handlers.Objects.{object_key, is_streaming, put_source, put_done, put_object_handler}
use azs3_proxy.Handlers.Reads.{get_whole_object}
use azs3_proxy.Handlers.Ranges.{get_object_handler}

-- A request for one object: no range, no copy, no AWS chunks, and a body of the announced length.
pub record IsPlain (r : S3Request) : Type 0 where
  pub bucket_plain : cut b'/' r.bucket ≡ none
  pub key_given : eq_text (object_key r) [] ≡ false
  pub no_range : eq_text r.range_header [] ≡ true
  pub no_source : eq_text r.copy_source [] ≡ true
  pub not_streaming : is_streaming r ≡ false
  pub announced : r.content_length ≡ positive (length r.body)

either_way :
    {A B : Type 0} (x : Option A) (y : B) (f : A → B)
    → ((a : A) → f a ≡ y)
    → (elim x [ none ↦ y | some a ↦ f a ]) ≡ y
either_way none y f h = refl
either_way (some a) y f h = h a

put_source_plain :
    (r : S3Request) → IsPlain r → put_source r ≡ (plain r.body, positive (length r.body))
unfolding put_source
put_source_plain r p = rw (p.not_streaming, put_source) (rw p.announced refl)

module _ (backend : StorageBackend) (cache : ObjectCache) (now : Text)
    (unescape : Text → Option Text) where
  pub get_plain :
      (r : S3Request) (h : S3Handler backend cache)
      → IsPlain r
      → get_object_handler backend cache now r h ≡ get_whole_object backend cache r h
  unfolding get_object_handler
  get_plain r h p =
      rw (p.key_given, get_object_handler)
        (either_way h.cache_state (get_whole_object backend cache r h) _ (λ c. rw p.no_range refl))

  pub put_plain :
      (r : S3Request) (h : S3Handler backend cache)
      → IsPlain r
      → put_object_handler backend cache unescape r h
        ≡ put_done backend cache r
            (backend.put_object r.bucket
              (object_key r)
              (positive (length r.body))
              (plain r.body)
              h.storage)
            h
  unfolding put_object_handler
  put_plain r h p =
      rw (p.key_given, put_object_handler) (rw (p.no_source, put_source_plain r p) refl)
