-- ===== src/Cache/Alias.antt =====
-- Keys that escapeName maps to one file name share a cached file.
use azs3_proxy.Prelude.{
  ℕ, zero, suc, ◌≡◌, refl, sym, ap, ◌∙◌, Text, none, some, List, ◌∷◌, ◌++◌, length, lookup, inl,
  inr, List-cases, Option-cases, Bool-cases, arith, lt64,
}
use azs3_proxy.Cache.CacheStats.{record_get, record_eviction}
use azs3_proxy.Cache.Names.{escape_name, cache_path}
use azs3_proxy.Cache.Lru.{
  CacheEntry, LruCache, count_in, remove_entry, get_elem, get, remove_key, push_entry, evict, put,
}
use azs3_proxy.Cache.Valid.{IsValid, evict_nil, evict_cons}
use azs3_proxy.Cache.Puts.{filled, PutCase, put-cases, put-IsValid, remove_key-SameConfig}
use azs3_proxy.Cache.Contents.{remove-some, copied, files-remove_key}

remove_entry-some :
    (p : ℕ) (e : CacheEntry) (path : Text) (b : List ℕ) (c : LruCache)
    → (remove_entry p e c).disk.files path ≡ some b
    → c.disk.files path ≡ some b
unfolding remove_entry
remove_entry-some p e path b c h = remove-some c.disk e.file_path path b h

-- The eviction loop writes no file and keeps the directory.
evict-files :
    (fuel : ℕ) (path : Text) (b : List ℕ) (c : LruCache)
    → (evict fuel c).disk.files path ≡ some b
    → c.disk.files path ≡ some b
evict-files zero path b c h = (unfold evict in h)
evict-files (suc fuel) path b c h = elim (List-cases c.lru_list) [
  | inl nil ↦ rw (evict_nil (suc fuel) c nil) at h
  | inr ((p, e), rest, front) ↦
      let h' = rw (evict_cons fuel p e rest c front) at h in
      let c' = count_in (record_eviction e.file_size) c in
      elim (Bool-cases (lt64 c.max_bytes c.current_bytes)) [
        | inl over ↦
            remove_entry-some p e path b c'
              (evict-files fuel path b (remove_entry p e c') (rw over at h'))
        | inr under ↦ rw under at h'
      ]
]

cache_dir-evict : (fuel : ℕ) (c : LruCache) → (evict fuel c).cache_dir ≡ c.cache_dir
cache_dir-evict zero c = (unfold evict in refl)
cache_dir-evict (suc fuel) c = elim (List-cases c.lru_list) [
  | inl nil ↦ rw (evict_nil (suc fuel) c nil)
  | inr ((p, e), rest, front) ↦
      let c' = count_in (record_eviction e.file_size) c in
      let again : (evict fuel (remove_entry p e c')).cache_dir ≡ c.cache_dir =
        cache_dir-evict fuel (remove_entry p e c') ∙ (unfold remove_entry in refl) in
      rw (evict_cons fuel p e rest c front) (elim (Bool-cases (lt64 c.max_bytes c.current_bytes)) [
        | inl over ↦ rw over again
        | inr under ↦ rw under
      ])
]

get_elem_reads :
    (now used p : ℕ) (e : CacheEntry) (path : Text) (c : LruCache)
    → (get_elem now used p (some e) c).1 ≡ some path
    → (e.file_path ≡ path) × ((b : List ℕ) × (c.disk.files e.file_path ≡ some b))
unfolding get_elem
get_elem_reads now used p e path c h = elim (Option-cases (c.disk.files e.file_path)) [
  | inl gone ↦ absurd (ground arith)
  | inr (b, there) ↦ (ground arith, (b, there))
]

-- a hit reads an entry of the map whose file exists
pub get_hit :
    (now used : ℕ) (k path : Text) (c : LruCache)
    → IsValid c
    → (get now used k c).1 ≡ some path
    → (path ≡ cache_path c.cache_dir k) × ((b : List ℕ) × (c.disk.files path ≡ some b))
unfolding get
get_hit now used k path c v h = elim (Option-cases (lookup k c.entries)) [
  | inl miss ↦ absurd (ground arith)
  | inr (p, found) ↦
      let (e, at, named) = v.indexed.index k p found in
      let (reads, (b, there)) =
        get_elem_reads now used p e path (count_in record_get c) (ground arith) in
      (
        sym reads ∙ v.indexed.paths p e at ∙ ap (cache_path c.cache_dir) named,
        (b, ap c.disk.files (sym reads) ∙ there),
      )
]

-- On a valid cache, after a Put of one key that succeeds, every hit on any key with the same
-- escaped name returns the path of a file with the bytes of that Put, whatever was stored for the
-- key itself.
pub get-put_alias :
    (t0 t1 t2 now used : ℕ) (k j src path : Text) (bytes : List ℕ) (c : LruCache)
    → IsValid c
    → c.disk.files src ≡ some bytes
    → escape_name j ≡ escape_name k
    → (put t0 t1 t2 k src c).1 ≡ none
    → (get now used j (put t0 t1 t2 k src c).0).1 ≡ some path
    → (put t0 t1 t2 k src c).0.disk.files path ≡ some bytes
unfolding cache_path
get-put_alias t0 t1 t2 now used k j src path bytes c v there same_name ok hit =
    elim (put-cases t0 t1 t2 k src c) [
      | PutCase.no_file gone result ↦ absurd (ground arith)
      | PutCase.no_room _ _ _ result ↦ absurd (ground arith)
      | PutCase.no_copy _ _ _ _ result ↦ absurd (ground arith)
      | PutCase.stored bytes' d there' fits good result ↦
          let c2 = filled t0 t1 t2 k src c (length bytes') d in
          let c3 = evict (length c2.lru_list) c2 in
          let to_c3 : (put t0 t1 t2 k src c).0 ≡ c3 = rw result in
          let (named, (b', held)) =
            get_hit now used j path c3 (rw result at (put-IsValid t0 t1 t2 k src c v))
              (rw result at hit) in
          let dir : c3.cache_dir ≡ c.cache_dir =
            cache_dir-evict (length c2.lru_list) c2
            ∙ (unfold push_entry in (remove_key-SameConfig k c v).cache_dir) in
          let one_file : path ≡ cache_path c.cache_dir k =
            named
            ∙ ap (λ (t : Text). t ++ b'/' ∷ escape_name j) dir
            ∙ ap (λ (t : Text). c.cache_dir ++ b'/' ∷ t) same_name in
          let (b, kept, written) =
            copied (remove_key k c).disk src (cache_path c.cache_dir k) good in
          let before : c2.disk.files (cache_path c.cache_dir k) ≡ some b =
            (unfold push_entry in written) in
          let after : c2.disk.files (cache_path c.cache_dir k) ≡ some b' =
            evict-files (length c2.lru_list) _ b' c2 (ap c3.disk.files (sym one_file) ∙ held) in
          let same : b' ≡ bytes = cc (files-remove_key k src b c v kept) in
          rw result (held ∙ ap some same)
    ]
