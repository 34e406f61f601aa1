-- ===== src/AzureBlob/Handled.antt =====
-- The handlers over the Azure backend.
use azs3_proxy.Prelude.{
  ◌<◌, ◌≢◌, Bool, true, length, int64_half, ℕ, ◌≤◌, ◌≡◌, sym, ap₂, ◌∙◌, arith, Text, Option, some,
  List, [], ◌++◌, ◌⊎◌, inl, inr,
}
use azs3_proxy.Handlers.Types.{S3Request, ObjectCache, S3Handler, bytes}
use azs3_proxy.Handlers.Objects.{object_key}
use azs3_proxy.Handlers.Coherence.{IsCache, Objects, IsKeyed, Coherent}
use azs3_proxy.Handlers.Coherence.Specified.{reads, writes, Whole}
use azs3_proxy.Handlers.Coherence.Refined.{handle, handle_refines, Idle}
use azs3_proxy.Cache.Names.{escape_name, cache_path}
use azs3_proxy.Handlers.Managed.{managed_cache}
use azs3_proxy.Handlers.Managed.Laws.{managed_laws}
use azs3_proxy.Handlers.Plain.{IsPlain}
use azs3_proxy.AzureBlob.{BlobService}
use azs3_proxy.AzureBlob.Backend.{azure_blob}
use azs3_proxy.AzureBlob.Account.{IsAccount}
use azs3_proxy.AzureBlob.Scheduled.{AllSent}
use azs3_proxy.AzureBlob.Fills.{azure_blob-IsStorage}

module _ (svc : BlobService) (md5_sum : List ℕ → List ℕ) (objects : svc.State → Objects)
    (account : IsAccount svc objects)
    (sent : (bucket key : Text) (s : svc.State) → AllSent svc objects account bucket key s)
    (clock : ℕ → ℕ) (temp : ℕ → List ℕ → Option Text) (dir : Text) (key : Text → Bool)
    (injective : (j k : Text) → key j ≡ true → key k ≡ true → escape_name j ≡ escape_name k → j ≡ k)
    (apart : (n : ℕ) (content : List ℕ) (tmp j : Text)
      → temp n content ≡ some tmp
      → key j ≡ true
      → tmp ≢ cache_path dir j)
    (small : (n : ℕ) (content : List ℕ) (tmp : Text)
      → temp n content ≡ some tmp
      → length content < int64_half)
    (now : Text) (unescape : Text → Option Text) where
  abbrev pub cache : ObjectCache
  cache = managed_cache clock temp

  abbrev pub mem : IsCache cache
  mem = managed_laws clock temp dir key injective apart small

  -- With an account that keeps what IsAccount says, where no context is done while an object is read,
  -- so that every chunk is scheduled, and over the cache manager of LRUCache, with temporary files below
  -- 2 ^ 63 bytes that are none of a key, and keys of which no two have one escaped name: if the cache
  -- is valid, has no locked file and has only current bytes, both cache keys are among those keys, no
  -- goroutine of an earlier GET of the object is left, and a PUT of plain bytes is answered 200, then
  -- the GET of the same object that comes next is answered with an error, or with 200 and the first of
  -- those bytes, and with all of them unless the body that the account sends breaks off, however the
  -- bytes were sent to the account and whether they come from the cache, one download or the chunks of
  -- a concurrentReader.
  pub put-get :
      (put get : S3Request) (h : S3Handler (azure_blob svc md5_sum) cache)
      → let backend = azure_blob svc md5_sum in
        let storage = azure_blob-IsStorage svc md5_sum objects account sent in
        IsPlain put
        → IsPlain get
        → get.bucket ≡ put.bucket
        → object_key get ≡ object_key put
        → IsKeyed backend cache storage mem put.bucket (object_key put)
        → IsKeyed backend cache storage mem get.bucket (object_key get)
        → Idle backend cache storage mem now unescape writes put h
        → Coherent backend cache storage mem h
        → let stored = handle backend cache storage mem now unescape writes put h in
          let read = handle backend cache storage mem now unescape reads get stored.1 in
          stored.0.status ≡ 200
          → ((first : List ℕ) × (rest : List ℕ) × (read.0.status ≡ 200)
              × (read.0.payload ≡ bytes first)
              × (put.body ≡ first ++ rest)
              × (Whole backend cache get stored.1 → rest ≡ []))
            ⊎ (400 ≤ read.0.status)
  put-get put get h p g same_bucket same_key keyed keyed_too idle fit done =
      let backend = azure_blob svc md5_sum in
      let storage = azure_blob-IsStorage svc md5_sum objects account sent in
      let (wrote, fit1) =
        handle_refines backend cache storage mem now unescape writes put h p keyed idle fit in
      let stored = handle backend cache storage mem now unescape writes put h in
      let (got, _) =
        handle_refines backend cache storage mem now unescape reads get stored.1 g keyed_too tt
          fit1 in
      elim wrote [
        | inr (failed, _) ↦ absurd (omega (arith, failed, done))
        | inl (_, _, held) ↦ elim got.1 [
          | inr failed ↦ inr failed
          | inl (first, rest, status, payload, there, all) ↦
              let e : some put.body ≡ some (first ++ rest) =
                sym held
                ∙ (ap₂ (storage.objects stored.1.storage) (sym same_bucket) (sym same_key)
                    ∙ there) in
              inl (first, rest, status, payload, cc, all)
        ]
      ]
