-- ===== src/Cache/Lru.antt =====
-- LRUCache of internal/cache/lru.go. An operation takes the clock readings that the source makes
-- and returns the new cache, with the disk in it. The mutex makes each operation one step.
-- Telemetry and logging are left out: they change nothing that the cache reads.
use azs3_proxy.Prelude.{
  ℕ, zero, suc, ◌+◌, ◌/◌, Text, Bool, true, false, Option, none, some, List, [], ◌∷◌, length,
  lookup, delete, insert, add64, sub64, lt64, ltb, ◌==◌, if◌then◌else◌,
}
use azs3_proxy.Cache.Disk.{Disk, remove_failed, stat, remove, copy_file}
use azs3_proxy.Cache.CacheStats.{
  CacheStats, record_hit, record_miss, record_eviction, record_expiration, record_put, record_get,
  reset,
}
use azs3_proxy.Cache.Elements.{elem_at, remove_elem, push_back}
use azs3_proxy.Cache.Names.{cache_path}

pub record CacheEntry : Type 0 where
  pub key : Text
  pub file_path : Text
  pub file_size : ℕ
  pub created_at : ℕ
  pub last_used_at : ℕ
  pub expires_at : ℕ

-- `entries` maps a key to the address of its list element; `next` is the address of the next
-- element that is allocated. Times and the TTL are in nanoseconds.
pub record LruCache : Type 0 where
  pub max_bytes : ℕ
  pub current_bytes : ℕ
  pub cache_dir : Text
  pub ttl : ℕ
  pub entries : List (Text × ℕ)
  pub lru_list : List (ℕ × CacheEntry)
  pub next : ℕ
  pub stats : CacheStats
  pub disk : Disk

pub data Made : Type 0 where
  made : LruCache → Made
  mkdir_failed clean_failed ticker_panics : Made

abbrev pub empty_cache : Text → ℕ → ℕ → Disk → LruCache
empty_cache dir max_bytes ttl disk = record {
  max_bytes = max_bytes;
  current_bytes = 0;
  cache_dir = dir;
  ttl = ttl;
  entries = [];
  lru_list = [];
  next = 0;
  stats = reset;
  disk = disk;
}

-- NewLRUCache. `mkdir_ok`, `clean_ok` and `remkdir_ok` say whether the three calls on the
-- directory succeed; `disk` is the disk after them. time.NewTicker panics on a duration of 0.
unfoldable pub new_lru_cache : Text → ℕ → ℕ → Bool → Bool → Bool → Disk → Made
new_lru_cache dir max_bytes ttl mkdir_ok clean_ok remkdir_ok disk =
    if mkdir_ok
    then if clean_ok
      then if remkdir_ok
        then if ttl / 2 == 0 then ticker_panics else made (empty_cache dir max_bytes ttl disk)
        else mkdir_failed
      else clean_failed
    else mkdir_failed

abbrev pub count_in : (CacheStats → CacheStats) → LruCache → LruCache
count_in f c = record c { stats = f c.stats }

-- removeEntry; an error of os.Remove is ignored
unfoldable pub remove_entry : ℕ → CacheEntry → LruCache → LruCache
remove_entry p e c = record c {
  lru_list = remove_elem p c.lru_list;
  entries = delete e.key c.entries;
  current_bytes = sub64 c.current_bytes e.file_size;
  disk = (remove c.disk e.file_path).0;
}

-- the end of a Get that hits: the new time stamp, and MoveToBack
unfoldable pub touch : ℕ → ℕ → CacheEntry → LruCache → LruCache
touch used p e c = record c {
  lru_list = push_back p (record e { last_used_at = used }) (remove_elem p c.lru_list);
}

-- Get, from the element on. The address of a live key is always live; see `IsIndexed`.
unfoldable pub get_elem : ℕ → ℕ → ℕ → Option CacheEntry → LruCache → LruCache × Option Text
get_elem now used p none c = (count_in record_miss c, none)
get_elem now used p (some e) c =
    if ltb e.expires_at now
    then (
      count_in record_miss (remove_entry p e (count_in (record_expiration e.file_size) c)),
      none,
    )
    else elim (stat c.disk e.file_path) [
      | none ↦ (count_in record_miss (remove_entry p e c), none)
      | some _ ↦ (count_in record_hit (touch used p e c), some e.file_path)
    ]

-- Get: the path of the cached file; the empty string of the source is `none`, and its error is
-- always nil. `now` is the first reading of the clock and `used` the second.
unfoldable pub get : ℕ → ℕ → Text → LruCache → LruCache × Option Text
get now used key c = elim (lookup key c.entries) [
  | none ↦ (count_in record_miss (count_in record_get c), none)
  | some p ↦ get_elem now used p (elem_at p c.lru_list) (count_in record_get c)
]

-- `if elem, exists := lc.entries[key]; exists { lc.removeEntry(elem) }`
unfoldable pub remove_key : Text → LruCache → LruCache
remove_key key c = elim (lookup key c.entries) [
  | none ↦ c
  | some p ↦ elim (elem_at p c.lru_list) [ none ↦ c | some e ↦ remove_entry p e c ]
]

-- PushBack, the map entry, the size and the counters of Put
unfoldable pub push_entry : CacheEntry → LruCache → LruCache
push_entry e c = record c {
  lru_list = push_back c.next e c.lru_list;
  entries = insert e.key c.next c.entries;
  next = suc c.next;
  current_bytes = add64 c.current_bytes e.file_size;
  stats = record_put e.file_size c.stats;
}

-- The eviction loop of Put. Each round drops one element, so the length of the list is fuel enough.
unfoldable pub evict : ℕ → LruCache → LruCache
evict zero c = c
evict (suc fuel) c = elim c.lru_list [
  | [] ↦ c
  | (p, e) ∷ _ ↦
      let rest = evict fuel (remove_entry p e (count_in (record_eviction e.file_size) c)) in
      if lt64 c.max_bytes c.current_bytes then rest else c
]

pub data PutError : Type 0 where
  stat_failed too_large copy_failed : PutError

abbrev pub new_entry : ℕ → ℕ → ℕ → Text → ℕ → LruCache → CacheEntry
new_entry t0 t1 t2 key size c = record {
  key = key;
  file_path = cache_path c.cache_dir key;
  file_size = size;
  created_at = t0;
  last_used_at = t1;
  expires_at = t2 + c.ttl;
}

-- Put. The file's size is read from the disk; the argument `fileSize` of the source is not used.
unfoldable pub put : ℕ → ℕ → ℕ → Text → Text → LruCache → LruCache × Option PutError
put t0 t1 t2 key file_path c = elim (stat c.disk file_path) [
  | none ↦ (c, some stat_failed)
  | some size ↦
      if lt64 c.max_bytes size
      then (c, some too_large)
      else let c1 = remove_key key c in
        elim (copy_file c1.disk file_path (cache_path c.cache_dir key)) [
          | none ↦ (c1, some copy_failed)
          | some disk ↦
              let c2 = push_entry (new_entry t0 t1 t2 key size c) (record c1 { disk = disk }) in
              (evict (length c2.lru_list) c2, none)
        ]
]

-- Delete: `true` is a nil error
unfoldable pub delete_key : Text → LruCache → LruCache × Bool
delete_key key c = elim (lookup key c.entries) [
  | none ↦ (c, true)
  | some p ↦ elim (elem_at p c.lru_list) [
    | none ↦ (c, true)
    | some e ↦ elim (remove c.disk e.file_path).1 [
      | remove_failed ↦ (c, false)
      | _ ↦ (remove_entry p e (record c { disk = (remove c.disk e.file_path).0 }), true)
    ]
  ]
]

-- the loop of Clear: it stops at the first file that cannot be deleted
unfoldable pub clear_files : List (Text × ℕ) → List (ℕ × CacheEntry) → Disk → Disk × Bool
clear_files [] l d = (d, true)
clear_files ((key, p) ∷ m) l d = elim (elem_at p l) [
  | none ↦ clear_files m l d
  | some e ↦ elim (remove d e.file_path).1 [
    | remove_failed ↦ (d, false)
    | _ ↦ clear_files m l (remove d e.file_path).0
  ]
]

-- Clear
unfoldable pub clear : LruCache → LruCache × Bool
clear c =
    let (d, done) = clear_files c.entries c.lru_list c.disk in
    if done
    then (record c { disk = d; entries = []; lru_list = []; current_bytes = 0 }, true)
    else (record c { disk = d }, false)

abbrev pub size : LruCache → ℕ
size c = c.current_bytes

abbrev pub count : LruCache → ℕ
count c = length c.entries

-- Exists
unfoldable pub exists : ℕ → Text → LruCache → Bool
exists now key c = elim (lookup key c.entries) [
  | none ↦ false
  | some p ↦ elim (elem_at p c.lru_list) [
    | none ↦ false
    | some e ↦
        if ltb e.expires_at now
        then false
        else elim (stat c.disk e.file_path) [ none ↦ false | some _ ↦ true ]
  ]
]

-- the first loop of cleanupExpiredEntries
unfoldable pub expired : ℕ → List (ℕ × CacheEntry) → List (ℕ × CacheEntry)
expired now [] = []
expired now ((p, e) ∷ l) =
    let rest = expired now l in if ltb e.expires_at now then (p, e) ∷ rest else rest

-- the second
unfoldable pub remove_all : List (ℕ × CacheEntry) → LruCache → LruCache
remove_all [] c = c
remove_all ((p, e) ∷ l) c =
    remove_all l (remove_entry p e (count_in (record_expiration e.file_size) c))

-- one tick of cleanupExpiredEntries
unfoldable pub cleanup : ℕ → LruCache → LruCache
cleanup now c = remove_all (expired now c.lru_list) c
