-- ===== src/Handlers/Managed/Writes.antt =====
-- What CacheObject does to the bytes that the cache has.
use mathlib.Core.Path.{subst}
use azs3_proxy.Prelude.{
  ℕ, ◌≡◌, ◌≢◌, refl, sym, ap, ◌∙◌, Text, Bool, true, Option, none, some, List, [], ◌∷◌, ◌++◌, ◌⊎◌,
  inl, inr, length, lookup, lookup-insert, Option-cases, Bool-cases, arith, eq_text, eq_text_iff,
  if◌then◌else◌,
}
use azs3_proxy.Cache.Disk.{Disk, write_file, copy_file}
use azs3_proxy.Cache.Names.{escape_name, cache_path}
use azs3_proxy.Cache.Lru.{PutError, LruCache, remove_key, push_entry, evict, put}
use azs3_proxy.Cache.Puts.{filled, PutCase, put-cases}
use azs3_proxy.Cache.Contents.{copied}
use azs3_proxy.Cache.Less.{Less, Less-refl, Less-trans, drop_temp-Less, evict-Less, remove_key-Less}
use azs3_proxy.Cache.Manager.{drop_temp, cache_object}

pub join_injective : (dir a b : Text) → dir ++ b'/' ∷ a ≡ dir ++ b'/' ∷ b → a ≡ b
join_injective [] a b h = cc
join_injective (x ∷ dir) a b h = join_injective dir a b cc

write_file-other :
    (d : Disk) (p q : Text) (bytes : List ℕ) {e : Disk}
    → write_file d p bytes ≡ some e
    → p ≢ q
    → e.files q ≡ d.files q
unfolding write_file
write_file-other d p q bytes h other = ground (arith, eq_text_iff p q)

pub write_file-locked :
    (d : Disk) (p q : Text) (bytes : List ℕ) {e : Disk}
    → write_file d p bytes ≡ some e
    → e.locked q ≡ d.locked q
unfolding write_file
write_file-locked d p q bytes h = ground arith

copy_file-other :
    (d : Disk) (src dst q : Text) {e : Disk}
    → copy_file d src dst ≡ some e
    → dst ≢ q
    → (e.files q ≡ d.files q) × (e.locked q ≡ d.locked q)
unfolding copy_file write_file
copy_file-other d src dst q h other = ground (arith, eq_text_iff dst q)

pub copy_file-locked :
    (d : Disk) (src dst q : Text) {e : Disk}
    → copy_file d src dst ≡ some e
    → e.locked q ≡ d.locked q
unfolding copy_file write_file
copy_file-locked d src dst q h = ground arith

-- What CacheObject leaves, once it has a temporary file.
pub cache_object-state :
    (t0 t1 t2 : ℕ) (tmp k : Text) (bytes : List ℕ) (c : LruCache)
    → ((cache_object t0 t1 t2 (some tmp) k bytes c).0 ≡ drop_temp tmp c)
      ⊎ ((d : Disk) × (write_file c.disk tmp bytes ≡ some d)
          × ((cache_object t0 t1 t2 (some tmp) k bytes c).0
              ≡ drop_temp tmp (put t0 t1 t2 k tmp (record c { disk = d })).0))
unfolding cache_object
cache_object-state t0 t1 t2 tmp k bytes c = elim (Option-cases (write_file c.disk tmp bytes)) [
  | inl failed ↦ inl (rw (failed, cache_object) refl)
  | inr (d, wrote) ↦ inr (d, wrote, rw (wrote, cache_object) refl)
]

module _ (dir : Text) (key : Text → Bool) where
  -- the bytes of the file of a key that has an entry
  abbrev pub contents_of : LruCache → Text → Option (List ℕ)
  contents_of c j =
      if key j
      then elim (lookup j c.entries) [ none ↦ none | some p ↦ c.disk.files (cache_path dir j) ]
      else none

  pub contents_of-some :
      (c : LruCache) (j : Text) (b : List ℕ)
      → contents_of c j ≡ some b
      → (key j ≡ true)
        × ((p : ℕ) × (lookup j c.entries ≡ some p))
        × (c.disk.files (cache_path dir j) ≡ some b)
  contents_of-some c j b h = elim (Bool-cases (key j)) [
    | inr off ↦ absurd (ground (arith, h, off))
    | inl on ↦ elim (Option-cases (lookup j c.entries)) [
      | inl miss ↦ absurd (ground (arith, h, on, miss))
      | inr (p, found) ↦ (on, (p, found), ground (arith, h, on, found))
    ]
  ]

  pub contents_of-made :
      (c : LruCache) (j : Text) (p : ℕ) (b : List ℕ)
      → key j ≡ true
      → lookup j c.entries ≡ some p
      → c.disk.files (cache_path dir j) ≡ some b
      → contents_of c j ≡ some b
  contents_of-made c j p b on found there = rw on (rw found there)

  pub Less-contents_of :
      (c d : LruCache) (j : Text) (b : List ℕ)
      → Less c d
      → contents_of d j ≡ some b
      → contents_of c j ≡ some b
  Less-contents_of c d j b less h =
      let (on, (p, found), there) = contents_of-some d j b h in
      contents_of-made c j p b on (less.entries j p found) (less.files (cache_path dir j) b there)

  module _
      (injective : (j k : Text)
        → key j ≡ true
        → key k ≡ true
        → escape_name j ≡ escape_name k
        → j ≡ k)
      (tmp k : Text) (content : List ℕ) (c : LruCache) (d : Disk) (at : c.cache_dir ≡ dir)
      (wrote : write_file c.disk tmp content ≡ some d) (keyed : key k ≡ true) (j : Text)
      (b : List ℕ) (other : tmp ≢ cache_path dir j) where
    abbrev c1 : LruCache
    c1 = record c { disk = d }

    -- the temporary file is none that a key has
    unwritten : contents_of c1 j ≡ some b → contents_of c j ≡ some b
    unwritten h =
        let (on, (p, found), there) = contents_of-some c1 j b h in
        contents_of-made c j p b on found
          (sym (write_file-other c.disk tmp (cache_path dir j) content wrote other) ∙ there)

    dropped_too :
        (x : LruCache)
        → Less c1 x
        → contents_of (drop_temp tmp x) j ≡ some b
        → contents_of c j ≡ some b
    dropped_too x less h =
        unwritten
          (Less-contents_of c1 (drop_temp tmp x) j b (Less-trans less (drop_temp-Less tmp x)) h)

    module _ (t0 t1 t2 size : ℕ) (d2 : Disk)
        (good : copy_file (remove_key k c1).disk tmp (cache_path c1.cache_dir k) ≡ some d2) where
      filled-contents_of :
          d.files tmp ≡ some content
          → contents_of (filled t0 t1 t2 k tmp c1 size d2) j ≡ some b
          → ((j ≡ k) × (b ≡ content)) ⊎ (contents_of c j ≡ some b)
      unfolding push_entry cache_path
      filled-contents_of written h =
          let (on, (p, found), there) = contents_of-some (filled t0 t1 t2 k tmp c1 size d2) j b h in
          let less = remove_key-Less k c1 in
          elim (Bool-cases (eq_text k j)) [
            | inl same ↦
                let e : k ≡ j = (eq_text_iff k j).0 same in
                let (b1, kept, copy) = copied (remove_key k c1).disk tmp _ good in
                let all : d.files tmp ≡ some b1 = less.files tmp b1 kept in
                let one : cache_path c1.cache_dir k ≡ cache_path dir j =
                  ap (λ s. cache_path s k) at ∙ ap (cache_path dir) e in
                let bytes : some b ≡ some content =
                  sym there ∙ (ap d2.files (sym one) ∙ (copy ∙ (sym all ∙ written))) in
                inl (sym e, cc)
            | inr differ ↦
                let apart : cache_path c1.cache_dir k ≢ cache_path dir j = λ e.
                  let names =
                    join_injective dir (escape_name k) (escape_name j)
                      (ap (λ s. cache_path s k) (sym at) ∙ e) in
                  let same = injective k j keyed on names in
                  absurd (ground (arith, differ, (eq_text_iff k j).1 same)) in
                let before : lookup j (remove_key k c1).entries ≡ some p = ground (
                  arith,
                  found,
                  differ,
                  lookup-insert k j c1.next (remove_key k c1).entries,
                  lookup-insert k j (remove_key k c1).next (remove_key k c1).entries,
                ) in
                let file =
                  sym (copy_file-other (remove_key k c1).disk tmp _ (cache_path dir j) good apart).0
                  ∙ there in
                inr (
                  unwritten (
                    contents_of-made c1 j p b on (less.entries j p before)
                      (less.files (cache_path dir j) b file)))
          ]

    pub put-contents_of :
        (t0 t1 t2 : ℕ)
        → d.files tmp ≡ some content
        → contents_of (drop_temp tmp (put t0 t1 t2 k tmp c1).0) j ≡ some b
        → ((j ≡ k) × (b ≡ content)) ⊎ (contents_of c j ≡ some b)
    put-contents_of t0 t1 t2 written h =
        let left : (x : LruCache × Option PutError)
            → put t0 t1 t2 k tmp c1 ≡ x
            → contents_of (drop_temp tmp x.0) j ≡ some b =
          λ x e. subst (λ y. contents_of (drop_temp tmp y.0) j ≡ some b) e h in
        elim (put-cases t0 t1 t2 k tmp c1) [
          | PutCase.no_file _ result ↦ inr (dropped_too c1 (Less-refl c1) (left _ result))
          | PutCase.no_room _ _ _ result ↦ inr (dropped_too c1 (Less-refl c1) (left _ result))
          | PutCase.no_copy _ _ _ _ result ↦
              inr (dropped_too (remove_key k c1) (remove_key-Less k c1) (left _ result))
          | PutCase.stored bytes d2 _ _ good result ↦
              let c2 = filled t0 t1 t2 k tmp c1 (length bytes) d2 in
              let c3 = evict (length c2.lru_list) c2 in
              filled-contents_of t0 t1 t2 (length bytes) d2 good written (
                Less-contents_of c2 (drop_temp tmp c3) j b
                  (Less-trans (evict-Less (length c2.lru_list) c2) (drop_temp-Less tmp c3))
                  (left _ result))
        ]
