-- ===== src/Cache/Manager.antt =====
-- CacheManager of internal/cache/manager.go: whole objects in and out of LRUCache. Telemetry is left
-- out.
pub mod Roundtrip
use azs3_proxy.Prelude.{ℕ, Text, Bool, Option, none, some, List}
use azs3_proxy.Cache.Disk.{read_file, write_file, remove}
use azs3_proxy.Cache.Lru.{LruCache, get, PutError, put, delete_key, clear}

pub data CacheError : Type 0 where
  temp_failed write_failed : CacheError
  put_failed : PutError → CacheError

-- the deferred os.Remove of the temporary file
abbrev pub drop_temp : Text → LruCache → LruCache
drop_temp path c = record c { disk = (remove c.disk path).0 }

abbrev put_error : Option PutError → Option CacheError
put_error none = none
put_error (some e) = some (put_failed e)

-- CacheObject. `temp` is the name that os.CreateTemp gives, or its error.
unfoldable pub cache_object :
    ℕ → ℕ → ℕ → Option Text → Text → List ℕ → LruCache → LruCache × Option CacheError
cache_object t0 t1 t2 none key bytes c = (c, some temp_failed)
cache_object t0 t1 t2 (some temp) key bytes c = elim (write_file c.disk temp bytes) [
  | none ↦ (drop_temp temp c, some write_failed)
  | some disk ↦
      let r = put t0 t1 t2 key temp (record c { disk = disk }) in
      (drop_temp temp r.0, put_error r.1)
]

-- GetObjectFromCache
abbrev pub get_object_from_cache : ℕ → ℕ → Text → LruCache → LruCache × Option Text
get_object_from_cache now used key c = get now used key c

-- ReadCachedObject, from the result of Get on
abbrev pub read_path : LruCache × Option Text → LruCache × Option (List ℕ)
read_path (c, none) = (c, none)
read_path (c, some path) = (c, read_file c.disk path)

-- ReadCachedObject; both of its errors are `none`
unfoldable pub read_cached_object : ℕ → ℕ → Text → LruCache → LruCache × Option (List ℕ)
read_cached_object now used key c = read_path (get now used key c)

-- InvalidateObject
abbrev pub invalidate_object : Text → LruCache → LruCache × Bool
invalidate_object key c = delete_key key c

-- InvalidateAll
abbrev pub invalidate_all : LruCache → LruCache × Bool
invalidate_all c = clear c
