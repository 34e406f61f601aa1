-- ===== src/Cache/Manager/Roundtrip.antt =====
-- What CacheObject stores, ReadCachedObject reads.
use azs3_proxy.Prelude.{
  ℕ, ◌+◌, ◌≤◌, ◌<◌, ◌≡◌, ◌≢◌, refl, sym, ap, ◌∙◌, Text, none, some, List, length, lookup,
  eq_text_iff, inl, inr, Option-cases, arith, int64_half,
}
use azs3_proxy.Cache.CacheStats.{record_get, record_hit}
use azs3_proxy.Cache.Disk.{Disk, FitsInt64, write_file, remove}
use azs3_proxy.Cache.Names.{cache_path}
use azs3_proxy.Cache.Elements.{elem_at}
use azs3_proxy.Cache.Lru.{CacheEntry, LruCache, count_in, touch, get_elem, get, put}
use azs3_proxy.Cache.Valid.{IsValid}
use azs3_proxy.Cache.Puts.{put-IsValid}
use azs3_proxy.Cache.Removal.{redisk-IsValid}
use azs3_proxy.Cache.Order.{without}
use azs3_proxy.Cache.Reads.{get-without}
use azs3_proxy.Cache.Contents.{NoneAt, get-put, remove_ne}
use azs3_proxy.Cache.Manager.{drop_temp, cache_object, read_cached_object}

get_live_state :
    (now used p : ℕ) (e : CacheEntry) (k : Text) (c : LruCache) (b : List ℕ)
    → lookup k c.entries ≡ some p
    → elem_at p c.lru_list ≡ some e
    → now ≤ e.expires_at
    → c.disk.files e.file_path ≡ some b
    → get now used k c
      ≡ (count_in record_hit (touch used p e (count_in record_get c)), some e.file_path)
unfolding get get_elem
get_live_state now used p e k c b found at live there = rw (found, get) (rw at (ground arith))

-- reading an entry that is live
read_live :
    (now used p : ℕ) (e : CacheEntry) (k : Text) (c : LruCache) (b : List ℕ)
    → lookup k c.entries ≡ some p
    → elem_at p c.lru_list ≡ some e
    → now ≤ e.expires_at
    → c.disk.files e.file_path ≡ some b
    → (read_cached_object now used k c).1 ≡ some b
unfolding read_cached_object touch
read_live now used p e k c b found at live there =
    rw (get_live_state now used p e k c b found at live there) there

-- A hit reads the file's bytes also after another file is removed.
read_after_drop :
    (now used : ℕ) (k path temp : Text) (c : LruCache) (b : List ℕ)
    → IsValid c
    → (get now used k c).1 ≡ some path
    → c.disk.files path ≡ some b
    → temp ≢ path
    → (read_cached_object now used k (drop_temp temp c)).1 ≡ some b
read_after_drop now used k path temp c b v hit there other =
    let (p, e, at, named, path_eq, live, _) = get-without now used k path c v hit in
    let found = ap (λ j. lookup j c.entries) (sym named) ∙ v.indexed.listed p e at in
    read_live now used p e k (drop_temp temp c) b found at live
      (ap (λ q. (remove c.disk temp).0.files q) path_eq ∙ remove_ne c.disk temp path other ∙ there)

pub write_file-files :
    (d : Disk) (p : Text) (bytes : List ℕ) {d' : Disk}
    → write_file d p bytes ≡ some d'
    → length bytes < int64_half
    → FitsInt64 d
    → (d'.files p ≡ some bytes) × FitsInt64 d'
unfolding write_file
write_file-files d p bytes h small fits =
    (ground (arith, eq_text_iff p p), λ q more found. ground (arith, fits q more))

cache_object_stored :
    (t0 t1 t2 : ℕ) (temp k : Text) (bytes : List ℕ) (c : LruCache) (d : Disk)
    → write_file c.disk temp bytes ≡ some d
    → (cache_object t0 t1 t2 (some temp) k bytes c).1 ≡ none
    → ((put t0 t1 t2 k temp (record c { disk = d })).1 ≡ none)
      × ((cache_object t0 t1 t2 (some temp) k bytes c).0
          ≡ drop_temp temp (put t0 t1 t2 k temp (record c { disk = d })).0)
unfolding cache_object
cache_object_stored t0 t1 t2 temp k bytes c d h ok =
    elim (Option-cases (put t0 t1 t2 k temp (record c { disk = d })).1) [
      | inl good ↦ (good, rw (h, cache_object) refl)
      | inr (e, bad) ↦ absurd (ground (arith, h, bad))
    ]

cache_object_wrote :
    (t0 t1 t2 : ℕ) (temp k : Text) (bytes : List ℕ) (c : LruCache)
    → (cache_object t0 t1 t2 (some temp) k bytes c).1 ≡ none
    → (d : Disk) × (write_file c.disk temp bytes ≡ some d)
unfolding cache_object
cache_object_wrote t0 t1 t2 temp k bytes c ok = elim (Option-cases (write_file c.disk temp bytes)) [
  | inl failed ↦ absurd (ground (arith, failed))
  | inr (d, wrote) ↦ (d, wrote)
]

-- On a valid cache, after a CacheObject that succeeds, of fewer than 2 ^ 63 bytes and with a
-- temporary file that is not the file of the key in the cache, a ReadCachedObject of the key
-- before the TTL has run out returns the bytes of the object, provided that no entry of another
-- key has the path of the key.
pub cache_object-read_cached_object :
    (t0 t1 t2 now used : ℕ) (temp k : Text) (bytes : List ℕ) (c : LruCache)
    → IsValid c
    → length bytes < int64_half
    → temp ≢ cache_path c.cache_dir k
    → NoneAt (cache_path c.cache_dir k) (without k c.lru_list)
    → now ≤ t2 + c.ttl
    → (cache_object t0 t1 t2 (some temp) k bytes c).1 ≡ none
    → (read_cached_object now used k (cache_object t0 t1 t2 (some temp) k bytes c).0).1 ≡ some bytes
cache_object-read_cached_object t0 t1 t2 now used temp k bytes c v small other others live ok =
    let (d, wrote) = cache_object_wrote t0 t1 t2 temp k bytes c ok in
    let (stored, after) = cache_object_stored t0 t1 t2 temp k bytes c d wrote ok in
    let (there, fits) = write_file-files c.disk temp bytes wrote small v.files in
    let c1 = record c { disk = d } in
    let v1 : IsValid c1 = redisk-IsValid d fits v in
    let (hit, holds) = get-put t0 t1 t2 now used k temp bytes c1 v1 there others live stored in
    rw after (
      read_after_drop now used k (cache_path c.cache_dir k) temp (put t0 t1 t2 k temp c1).0 bytes
        (put-IsValid t0 t1 t2 k temp c1 v1) hit holds other)
