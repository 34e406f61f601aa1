-- ===== src/Cache/Less.antt =====
-- Operations of LRUCache that only take away: entries and files.
use azs3_proxy.Prelude.{
  ℕ, zero, suc, ◌≡◌, refl, ◌∙◌, Text, Option, none, some, List, lookup, lookup-delete, inl, inr,
  List-cases, Option-cases, Bool-cases, arith, lt64, ltb,
}
use azs3_proxy.Cache.CacheStats.{CacheStats, record_get, record_eviction, record_expiration}
use azs3_proxy.Cache.Disk.{Disk, remove, stat}
use azs3_proxy.Cache.Elements.{elem_at}
use azs3_proxy.Cache.Lru.{
  CacheEntry, LruCache, count_in, remove_entry, touch, get_elem, get, remove_key, evict, delete_key,
}
use azs3_proxy.Cache.Valid.{IsValid, evict_nil, evict_cons}
use azs3_proxy.Cache.Contents.{remove-some}
use azs3_proxy.Cache.Removal.{DeleteCase, delete_key-cases}
use azs3_proxy.Cache.Manager.{drop_temp}

-- The second cache has no entry and no file that the first has not, in the same directory.
pub record Less (c d : LruCache) : Type 0 where
  pub cache_dir : d.cache_dir ≡ c.cache_dir
  pub locked : (path : Text) → d.disk.locked path ≡ c.disk.locked path
  pub entries : (j : Text) (p : ℕ) → lookup j d.entries ≡ some p → lookup j c.entries ≡ some p
  pub files : (path : Text) (b : List ℕ) → d.disk.files path ≡ some b → c.disk.files path ≡ some b

pub Less-refl : (c : LruCache) → Less c c
Less-refl c = record {
  cache_dir = refl;
  locked = λ path. refl;
  entries = λ j p h. h;
  files = λ path b h. h;
}

pub Less-trans : {c d e : LruCache} → Less c d → Less d e → Less c e
Less-trans l m = record {
  cache_dir = m.cache_dir ∙ l.cache_dir;
  locked = λ path. m.locked path ∙ l.locked path;
  entries = λ j p h. l.entries j p (m.entries j p h);
  files = λ path b h. l.files path b (m.files path b h);
}

Less-count : (s : CacheStats) (c : LruCache) → Less c (record c { stats = s })
Less-count s c = record {
  cache_dir = refl;
  locked = λ path. refl;
  entries = λ j p h. h;
  files = λ path b h. h;
}

remove-locked : (d : Disk) (p path : Text) → (remove d p).0.locked path ≡ d.locked path
unfolding remove
remove-locked d p path = ground arith

pub drop_temp-Less : (path : Text) (c : LruCache) → Less c (drop_temp path c)
drop_temp-Less path c = record {
  cache_dir = refl;
  locked = remove-locked c.disk path;
  entries = λ j p h. h;
  files = λ q b h. remove-some c.disk path q b h;
}

remove_entry-Less : (p : ℕ) (e : CacheEntry) (c : LruCache) → Less c (remove_entry p e c)
unfolding remove_entry
remove_entry-Less p e c = record {
  cache_dir = refl;
  locked = remove-locked c.disk e.file_path;
  entries = λ j q h. ground (arith, lookup-delete e.key j c.entries, h);
  files = λ path b h. remove-some c.disk e.file_path path b h;
}

pub evict-Less : (fuel : ℕ) (c : LruCache) → Less c (evict fuel c)
evict-Less zero c = (unfold evict in Less-refl c)
evict-Less (suc fuel) c = elim (List-cases c.lru_list) [
  | inl nil ↦ rw (evict_nil (suc fuel) c nil) (Less-refl c)
  | inr ((p, e), rest, front) ↦
      let c1 = count_in (record_eviction e.file_size) c in
      let again =
        Less-trans (Less-count c1.stats c)
          (Less-trans (remove_entry-Less p e c1) (evict-Less fuel (remove_entry p e c1))) in
      rw (evict_cons fuel p e rest c front) (elim (Bool-cases (lt64 c.max_bytes c.current_bytes)) [
        | inl over ↦ rw over again
        | inr under ↦ rw under (Less-refl c)
      ])
]

pub remove_key-Less : (k : Text) (c : LruCache) → Less c (remove_key k c)
unfolding remove_key
remove_key-Less k c = elim (Option-cases (lookup k c.entries)) [
  | inl miss ↦ rw (miss, remove_key) (Less-refl c)
  | inr (p, found) ↦ elim (Option-cases (elem_at p c.lru_list)) [
    | inl absent ↦ rw (found, remove_key) (rw absent (Less-refl c))
    | inr (e, at) ↦ rw (found, remove_key) (rw at (remove_entry-Less p e c))
  ]
]

recounted : {c d : LruCache} (s : CacheStats) → Less c d → Less c (record d { stats = s })
recounted {c} {d} s l = Less-trans l (Less-count s d)

get_elem-Less :
    (now used p : ℕ) (o : Option CacheEntry) (c : LruCache) → Less c (get_elem now used p o c).0
unfolding get_elem
get_elem-Less now used p none c = Less-count _ c
get_elem-Less now used p (some e) c = elim (Bool-cases (ltb e.expires_at now)) [
  | inl late ↦
      let c1 = count_in (record_expiration e.file_size) c in
      rw (late, get_elem)
        (recounted _ (Less-trans (Less-count c1.stats c) (remove_entry-Less p e c1)))
  | inr live ↦ elim (Option-cases (stat c.disk e.file_path)) [
    | inl gone ↦ rw (live, get_elem) (rw gone (recounted _ (remove_entry-Less p e c)))
    | inr (_, there) ↦
        rw (live, get_elem)
          (rw there (
            unfold touch in
            record {
              cache_dir = refl;
              locked = λ path. refl;
              entries = λ j q h. h;
              files = λ path b h. h;
            }))
  ]
]

pub get-Less : (now used : ℕ) (k : Text) (c : LruCache) → Less c (get now used k c).0
unfolding get
get-Less now used k c = elim (Option-cases (lookup k c.entries)) [
  | inl miss ↦ rw (miss, get) (Less-count _ c)
  | inr (p, found) ↦
      let c1 = count_in record_get c in
      rw (found, get)
        (Less-trans (Less-count c1.stats c) (get_elem-Less now used p (elem_at p c.lru_list) c1))
]

pub delete_key-Less : (k : Text) (c : LruCache) → IsValid c → Less c (delete_key k c).0
delete_key-Less k c v = elim (delete_key-cases k c v) [
  | DeleteCase.absent _ result ↦ rw result (Less-refl c)
  | DeleteCase.stuck _ _ _ _ result ↦ rw result (Less-refl c)
  | DeleteCase.gone p e _ _ _ result ↦
      rw result (
        Less-trans (drop_temp-Less e.file_path c) (remove_entry-Less p e (drop_temp e.file_path c)))
]
