-- ===== src/Cache/Contents.antt =====
-- The bytes behind a cached key: what Put stores is what Get's path holds, while no other entry has
-- the same file.
use azs3_proxy.Prelude.{
  ℕ, zero, suc, ◌+◌, ◌≤◌, ◌≡◌, ◌≢◌, refl, sym, ap, ◌∙◌, Text, false, none, some, List, [], ◌∷◌,
  length, lookup, inl, inr, Option-cases, Bool-cases, arith, lt64, lt64_of_small, eq_text_iff,
}
use azs3_proxy.Cache.CacheStats.{record_eviction}
use azs3_proxy.Cache.Disk.{Disk, remove, copy_file}
use azs3_proxy.Cache.Names.{cache_path}
use azs3_proxy.Cache.Elements.{elem_at, push_back, elem_at-push_back}
use azs3_proxy.Cache.Lru.{
  CacheEntry, LruCache, count_in, remove_entry, get_elem, get, remove_key, push_entry, evict,
  new_entry, put,
}
use azs3_proxy.Cache.Invariant.{total, elem_at-next}
use azs3_proxy.Cache.Valid.{
  IsValid, IsFilling, remove_entry-IsFilling, remove_key-cases, remove_key-IsValid, evict_cons,
  elem_at-front, evict-IsValid,
}
use azs3_proxy.Cache.Cleanup.{Elements}
use azs3_proxy.Cache.Order.{without, lru_list-remove_key}
use azs3_proxy.Cache.Puts.{
  filled, PutCase, put-cases, filled-IsFilling, length-le-max_bytes, remove_key-SameConfig,
}

-- no element of the list has the file
abbrev pub NoneAt : Text → Elements → Type 0
NoneAt path [] = Unit
NoneAt path ((p, e) ∷ l) = (e.file_path ≢ path) × NoneAt path l

pub remove_ne : (d : Disk) (p q : Text) → p ≢ q → (remove d p).0.files q ≡ d.files q
unfolding remove
remove_ne d p q h = ground (arith, eq_text_iff p q)

pub remove-some :
    (d : Disk) (p q : Text) (b : List ℕ) → (remove d p).0.files q ≡ some b → d.files q ≡ some b
unfolding remove
remove-some d p q b h = ground arith

evict_under :
    (fuel : ℕ) (c : LruCache) → lt64 c.max_bytes c.current_bytes ≡ false → evict fuel c ≡ c
unfolding evict
evict_under zero c h = refl
evict_under (suc fuel) c h = ground arith

elem_at-last :
    (p : ℕ) (e : CacheEntry) (l m : Elements)
    → m ≡ push_back p e l
    → elem_at p l ≡ none
    → elem_at p m ≡ some e
elem_at-last p e l m h absent = rw h (ground (arith, elem_at-push_back p p e l absent))

-- The loop keeps the last element, if its file fits, and the bytes of its file.
evict-last :
    (fuel p : ℕ) (e : CacheEntry) (l : Elements) (c : LruCache)
    → IsFilling c
    → c.lru_list ≡ push_back p e l
    → elem_at p l ≡ none
    → e.file_size ≤ c.max_bytes
    → NoneAt e.file_path l
    → (elem_at p (evict fuel c).lru_list ≡ some e)
      × ((evict fuel c).disk.files e.file_path ≡ c.disk.files e.file_path)
evict-last zero p e l c v h absent fits others =
    (unfold evict in elem_at-last p e l c.lru_list h absent, unfold evict in refl)
evict-last (suc fuel) p e [] c v h absent fits others =
    let under : lt64 c.max_bytes c.current_bytes ≡ false = ground (
      arith,
      lt64_of_small c.max_bytes c.current_bytes,
      v.indexed.small,
      v.room,
      v.indexed.bytes,
      ap total h,
    ) in
    rw (evict_under (suc fuel) c under) (elem_at-last p e [] c.lru_list h absent, refl)
evict-last (suc fuel) p e ((q, f) ∷ l) c v h absent fits others =
    let (at, left) = elem_at-front q f c.lru_list (push_back p e l) h in
    let c' = count_in (record_eviction f.file_size) c in
    let rest =
      evict-last fuel p e l (remove_entry q f c')
        (remove_entry-IsFilling q f c' at
          (record { indexed = v.indexed; room = v.room; files = v.files }))
        (unfold remove_entry in left) (unfold elem_at in ground arith) (unfold remove_entry in fits)
        others.1 in
    elim (Bool-cases (lt64 c.max_bytes c.current_bytes)) [
      | inl over ↦ rw (evict_cons fuel q f (push_back p e l) c h) (
          rw over (
            rest.0,
            rest.1 ∙ (unfold remove_entry in remove_ne c.disk f.file_path e.file_path others.0),
          ))
      | inr under ↦
          rw (evict_under (suc fuel) c under)
            (elem_at-last p e ((q, f) ∷ l) c.lru_list h absent, refl)
    ]

pub copied :
    (d : Disk) (src dst : Text) {d' : Disk}
    → copy_file d src dst ≡ some d'
    → (b : List ℕ) × (d.files src ≡ some b) × (d'.files dst ≡ some b)
unfolding copy_file
copied d src dst {d'} h = elim (Option-cases (d.files src)) [
  | inl gone ↦ absurd (ground arith)
  | inr (b, there) ↦ (b, there, ground (arith, eq_text_iff dst dst))
]

pub files-remove_key :
    (k src : Text) (b : List ℕ) (c : LruCache)
    → IsValid c
    → (remove_key k c).disk.files src ≡ some b
    → c.disk.files src ≡ some b
files-remove_key k src b c v h = elim (remove_key-cases k c v) [
  | inl (_, same) ↦ sym (ap (λ (d : LruCache). d.disk.files src) same) ∙ h
  | inr (p, e, _, _, _, step) ↦
      remove-some c.disk e.file_path src b
        (sym (ap (λ (d : LruCache). d.disk.files src) step ∙ (unfold remove_entry in refl)) ∙ h)
]

get_live :
    (now used p : ℕ) (e : CacheEntry) (k : Text) (c : LruCache) (b : List ℕ)
    → lookup k c.entries ≡ some p
    → elem_at p c.lru_list ≡ some e
    → now ≤ e.expires_at
    → c.disk.files e.file_path ≡ some b
    → (get now used k c).1 ≡ some e.file_path
unfolding get get_elem
get_live now used p e k c b found at live there = rw (found, get) (rw at (ground arith))

-- On a valid cache, after a Put of a file that succeeds, a Get of the key before the TTL has run
-- out returns the path of the key, and the file there holds the bytes of the file that was put,
-- provided that no entry of another key has that path.
pub get-put :
    (t0 t1 t2 now used : ℕ) (k src : Text) (bytes : List ℕ) (c : LruCache)
    → IsValid c
    → c.disk.files src ≡ some bytes
    → NoneAt (cache_path c.cache_dir k) (without k c.lru_list)
    → now ≤ t2 + c.ttl
    → (put t0 t1 t2 k src c).1 ≡ none
    → ((get now used k (put t0 t1 t2 k src c).0).1 ≡ some (cache_path c.cache_dir k))
      × ((put t0 t1 t2 k src c).0.disk.files (cache_path c.cache_dir k) ≡ some bytes)
get-put t0 t1 t2 now used k src bytes c v there others live ok = elim (put-cases t0 t1 t2 k src c) [
  | PutCase.no_file gone result ↦ absurd (ground arith)
  | PutCase.no_room _ _ _ result ↦ absurd (ground arith)
  | PutCase.no_copy _ _ _ _ result ↦ absurd (ground arith)
  | PutCase.stored bytes' d there' fits good result ↦
      let c1 = remove_key k c in
      let c2 = filled t0 t1 t2 k src c (length bytes') d in
      let e = new_entry t0 t1 t2 k (length bytes') c in
      let path = cache_path c.cache_dir k in
      let v1 = remove_key-IsValid k c v in
      let v2 = filled-IsFilling t0 t1 t2 k src c v bytes' d there' fits good in
      let last =
        evict-last (length c2.lru_list) c1.next e c1.lru_list c2 v2 (unfold push_entry in refl)
          (elem_at-next v1.indexed)
          (unfold push_entry in
            omega (
              arith,
              length-le-max_bytes t0 t1 t2 k src c v bytes' d there' fits good,
              (remove_key-SameConfig k c v).max_bytes,
            ))
          (rw (lru_list-remove_key k c v) others) in
      let v3 = evict-IsValid (length c2.lru_list) c2 v2 (omega arith) in
      let (b, kept, written) = copied c1.disk src path good in
      let same : b ≡ bytes = cc (files-remove_key k src b c v kept) in
      let before : c2.disk.files path ≡ some b = (unfold push_entry in written) in
      let holds : (evict (length c2.lru_list) c2).disk.files path ≡ some bytes =
        last.1 ∙ before ∙ ap some same in
      rw result (
        get_live now used c1.next e k (evict (length c2.lru_list) c2) bytes
            (v3.indexed.listed c1.next e last.0) last.0 live holds,
        holds,
      )
]
