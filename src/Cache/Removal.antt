-- ===== src/Cache/Removal.antt =====
-- Delete, Clear and the background cleanup of LRUCache.
use azs3_proxy.Prelude.{
  ℕ, ◌≡◌, refl, Text, true, false, ◌&&◌, none, some, List, [], ◌∷◌, lookup, lookup-delete, ◌⊎◌, inl,
  inr, Option-cases, Bool-cases, arith, eq_text, eq_text_iff, if◌then◌else◌,
}
use azs3_proxy.Cache.Disk.{
  Disk, Removed, removed, not_exist, remove_failed, FitsInt64, remove, remove-FitsInt64,
}
use azs3_proxy.Cache.Elements.{elem_at}
use azs3_proxy.Cache.Lru.{CacheEntry, LruCache, remove_entry, delete_key, clear_files, clear}
use azs3_proxy.Cache.Valid.{IsValid, remove_entry-IsValid}

pub redisk-IsValid :
    {c : LruCache} (d : Disk) → FitsInt64 d → IsValid c → IsValid (record c { disk = d })
redisk-IsValid d fits v = record {
  indexed = v.indexed;
  bounded = v.bounded;
  room = v.room;
  files = fits;
}

-- the removal of an entry whose file os.Remove has just been asked to delete
abbrev pub dropped : ℕ → CacheEntry → LruCache → LruCache
dropped p e c = remove_entry p e (record c { disk = (remove c.disk e.file_path).0 })

dropped-IsValid :
    (p : ℕ) (e : CacheEntry) (c : LruCache)
    → elem_at p c.lru_list ≡ some e
    → IsValid c
    → IsValid (dropped p e c)
dropped-IsValid p e c at v =
    remove_entry-IsValid p e (record c { disk = (remove c.disk e.file_path).0 }) at
      (redisk-IsValid _ (remove-FitsInt64 c.disk e.file_path v.files) v)

Removed-cases : (r : Removed) → (r ≡ remove_failed) ⊎ ((r ≡ removed) ⊎ (r ≡ not_exist))
Removed-cases removed = inr (inl refl)
Removed-cases not_exist = inr (inr refl)
Removed-cases remove_failed = inl refl

-- The outcomes of Delete on a valid cache.
pub data DeleteCase (k : Text) (c : LruCache) : Type 0 where
  absent : lookup k c.entries ≡ none → delete_key k c ≡ (c, true) → DeleteCase k c
  stuck :
      (p : ℕ) (e : CacheEntry)
      → lookup k c.entries ≡ some p
      → elem_at p c.lru_list ≡ some e
      → delete_key k c ≡ (c, false)
      → DeleteCase k c
  gone :
      (p : ℕ) (e : CacheEntry)
      → lookup k c.entries ≡ some p
      → elem_at p c.lru_list ≡ some e
      → e.key ≡ k
      → delete_key k c ≡ (dropped p e c, true)
      → DeleteCase k c

pub delete_key-cases : (k : Text) (c : LruCache) → IsValid c → DeleteCase k c
unfolding delete_key
delete_key-cases k c v = elim (Option-cases (lookup k c.entries)) [
  | inl miss ↦ DeleteCase.absent miss (rw (miss, delete_key))
  | inr (p, hit) ↦
      let (e, at, named) = v.indexed.index k p hit in
      elim (Removed-cases (remove c.disk e.file_path).1) [
        | inl bad ↦ DeleteCase.stuck p e hit at (rw (hit, delete_key) (rw at (rw bad)))
        | inr (inl good) ↦ DeleteCase.gone p e hit at named (rw (hit, delete_key) (rw at (rw good)))
        | inr (inr good) ↦ DeleteCase.gone p e hit at named (rw (hit, delete_key) (rw at (rw good)))
      ]
]

pub delete_key-IsValid : (k : Text) (c : LruCache) → IsValid c → IsValid (delete_key k c).0
delete_key-IsValid k c v = elim (delete_key-cases k c v) [
  | DeleteCase.absent _ result ↦ rw result v
  | DeleteCase.stuck _ _ _ _ result ↦ rw result v
  | DeleteCase.gone p e _ at _ result ↦ rw result (dropped-IsValid p e c at v)
]

-- On a valid cache, Delete that succeeds removes the key from the map and keeps every other key;
-- Delete that fails keeps all of them, and the rest of the cache as well.
pub delete_key_lem :
    (k j : Text) (c : LruCache)
    → IsValid c
    → (lookup j (delete_key k c).0.entries
        ≡ (if (delete_key k c).1 && eq_text k j then none else lookup j c.entries))
      × ((if (delete_key k c).1 then c else (delete_key k c).0) ≡ c)
delete_key_lem k j c v = elim (delete_key-cases k c v) [
  | DeleteCase.absent miss result ↦ rw result (ground (arith, eq_text_iff k j), refl)
  | DeleteCase.stuck _ _ _ _ result ↦ rw result (refl, refl)
  | DeleteCase.gone p e _ at named result ↦
      rw result (unfold remove_entry in rw (← named) (lookup-delete e.key j c.entries), refl)
]

clear_files-FitsInt64 :
    (m : List (Text × ℕ)) (l : List (ℕ × CacheEntry)) (d : Disk)
    → FitsInt64 d
    → FitsInt64 (clear_files m l d).0
unfolding clear_files
clear_files-FitsInt64 [] l d fits = fits
clear_files-FitsInt64 ((k, p) ∷ m) l d fits = elim (Option-cases (elem_at p l)) [
  | inl none_at ↦ rw (none_at, clear_files) (clear_files-FitsInt64 m l d fits)
  | inr (e, at) ↦
      rw (at, clear_files)
        (elim (Removed-cases (remove d e.file_path).1) [
          | inl bad ↦ rw bad fits
          | inr (inl good) ↦
              rw good (clear_files-FitsInt64 m l _ (remove-FitsInt64 d e.file_path fits))
          | inr (inr good) ↦
              rw good (clear_files-FitsInt64 m l _ (remove-FitsInt64 d e.file_path fits))
        ])
]

pub clear-IsValid : (c : LruCache) → IsValid c → IsValid (clear c).0
unfolding clear
clear-IsValid c v =
    let fits = clear_files-FitsInt64 c.entries c.lru_list c.disk v.files in
    elim (Bool-cases (clear_files c.entries c.lru_list c.disk).1) [
      | inl done ↦
          rw (done, clear)
            (record {
              indexed = record {
                index = λ k p h. unfold lookup in cc;
                listed = λ p e h. unfold elem_at in cc;
                fresh = λ p e h. unfold elem_at in cc;
                paths = λ p e h. unfold elem_at in cc;
                distinct = tt;
                bytes = refl;
                small = omega arith;
              };
              bounded = omega arith;
              room = v.room;
              files = fits;
            })
      | inr failed ↦ rw (failed, clear) (redisk-IsValid _ fits v)
    ]
