-- ===== src/Handlers/Managed/Laws.antt =====
-- CacheManager over LRUCache has what was put, or less.
use mathlib.Core.Path.{subst}
use azs3_proxy.Prelude.{
  ℕ, ◌+◌, ◌<◌, ◌≡◌, ◌≢◌, refl, sym, ap, ◌∙◌, Text, Bool, true, false, Option, none, some, List, ◌⊎◌,
  inl, inr, length, lookup, Option-cases, arith, eq_text_iff, int64_half,
}
use azs3_proxy.Cache.Disk.{remove}
use azs3_proxy.Cache.Names.{escape_name, cache_path}
use azs3_proxy.Cache.Elements.{elem_at}
use azs3_proxy.Cache.Lru.{LruCache, get, delete_key}
use azs3_proxy.Cache.Removal.{redisk-IsValid, delete_key_lem}
use azs3_proxy.Cache.Alias.{get_hit}
use azs3_proxy.Cache.Less.{drop_temp-Less, get-Less, delete_key-Less}
use azs3_proxy.Cache.Manager.{drop_temp, cache_object, read_path, read_cached_object}
use azs3_proxy.Cache.Manager.Roundtrip.{write_file-files}
use azs3_proxy.Handlers.Managed.{
  Managed, managed_get, managed_put, managed_invalidate, managed_cache,
}
use azs3_proxy.Handlers.Managed.Writes.{
  write_file-locked, cache_object-state, contents_of, contents_of-some, contents_of-made,
  Less-contents_of, put-contents_of,
}
use azs3_proxy.Handlers.Coherence.{IsCache}
use azs3_proxy.Handlers.Managed.Fit.{
  read_path-state, IsFit, drop_temp-IsFit, put-IsFit, managed_get-IsFit, managed_invalidate-IsFit,
}

read_path-some :
    (x : LruCache × Option Text) (b : List ℕ)
    → (read_path x).1 ≡ some b
    → (path : Text) × (x.1 ≡ some path) × (x.0.disk.files path ≡ some b)
read_path-some (c, none) b h = cc
read_path-some (c, some path) b h = (path, refl, h)

get-listed :
    (now used : ℕ) (k path : Text) (c : LruCache)
    → (get now used k c).1 ≡ some path
    → (p : ℕ) × (lookup k c.entries ≡ some p)
unfolding get
get-listed now used k path c h = elim (Option-cases (lookup k c.entries)) [
  | inl miss ↦ absurd (ground arith)
  | inr (p, found) ↦ (p, found)
]

delete_key-done :
    (k : Text) (c : LruCache)
    → ((path : Text) → c.disk.locked path ≡ false)
    → (delete_key k c).1 ≡ true
unfolding delete_key remove
delete_key-done k c free = elim (Option-cases (lookup k c.entries)) [
  | inl miss ↦ rw (miss, delete_key) refl
  | inr (p, hit) ↦ elim (Option-cases (elem_at p c.lru_list)) [
    | inl absent ↦ rw (hit, delete_key) (rw absent refl)
    | inr (e, at) ↦ elim (Option-cases (c.disk.files e.file_path)) [
      | inl gone ↦ rw (hit, delete_key) (rw at (rw gone refl))
      | inr (b, there) ↦ rw (hit, delete_key) (rw at (rw (there, free e.file_path) refl))
    ]
  ]
]

module _ (clock : ℕ → ℕ) (temp : ℕ → List ℕ → Option Text) (dir : Text) (key : Text → Bool) where
  abbrev Fits : Managed clock temp → Type 0
  Fits = IsFit clock temp dir key

  abbrev pub contents_in : Managed clock temp → Text → Option (List ℕ)
  contents_in (c, n) = contents_of dir key c

  pub managed_get-found :
      (k : Text) (x : Managed clock temp) (b : List ℕ)
      → Fits x
      → key k ≡ true
      → (managed_get clock temp k x).0 ≡ some b
      → contents_in x k ≡ some b
  unfolding read_cached_object
  managed_get-found k (c, n) b fit keyed h =
      let t = clock n in
      let u = clock (n + 1) in
      let (path, hit, there) = read_path-some (get t u k c) b h in
      let (p, found) = get-listed t u k path c hit in
      let (named, _) = get_hit t u k path c fit.valid hit in
      let file = (get-Less t u k c).files path b there in
      let place : path ≡ cache_path dir k = named ∙ ap (λ s. cache_path s k) fit.at in
      contents_of-made dir key c k p b keyed found (ap c.disk.files (sym place) ∙ file)

  pub managed_get-keeps :
      (k j : Text) (x : Managed clock temp) (b : List ℕ)
      → contents_in (managed_get clock temp k x).1 j ≡ some b
      → contents_in x j ≡ some b
  unfolding read_cached_object
  managed_get-keeps k j (c, n) b h =
      let t = clock n in
      let u = clock (n + 1) in
      Less-contents_of dir key c (get t u k c).0 j b (get-Less t u k c)
        (subst (λ y. contents_of dir key y j ≡ some b) (read_path-state (get t u k c)) h)

  pub managed_invalidate-keeps :
      (k j : Text) (x : Managed clock temp) (b : List ℕ)
      → Fits x
      → contents_in (managed_invalidate clock temp k x).1 j ≡ some b
      → (j ≢ k) × (contents_in x j ≡ some b)
  managed_invalidate-keeps k j (c, n) b fit h =
      let d = (delete_key k c).0 in
      let (on, (p, found), there) = contents_of-some dir key d j b h in
      let done = delete_key-done k c fit.unlocked in
      let kept = (delete_key_lem k j c fit.valid).0 in
      (
        λ e. absurd (ground (arith, found, kept, done, (eq_text_iff k j).1 (sym e))),
        Less-contents_of dir key c d j b (delete_key-Less k c fit.valid) h,
      )

  module _
      (injective : (j k : Text)
        → key j ≡ true
        → key k ≡ true
        → escape_name j ≡ escape_name k
        → j ≡ k)
      (apart : (n : ℕ) (content : List ℕ) (tmp j : Text)
        → temp n content ≡ some tmp
        → key j ≡ true
        → tmp ≢ cache_path dir j)
      (small : (n : ℕ) (content : List ℕ) (tmp : Text)
        → temp n content ≡ some tmp
        → length content < int64_half) where
    pub managed_put-IsFit :
        (k : Text) (content : List ℕ) (x : Managed clock temp)
        → Fits x
        → Fits (managed_put clock temp k content x).1
    unfolding cache_object
    managed_put-IsFit k content (c, n) fit =
        let t0 = clock n in
        let t1 = clock (n + 1) in
        let t2 = clock (n + 2) in
        elim (Option-cases (temp n content)) [
          | inl no_temp ↦
              rw (no_temp, cache_object)
                (record { valid = fit.valid; at = fit.at; unlocked = fit.unlocked })
          | inr (tmp, named) ↦ elim (cache_object-state t0 t1 t2 tmp k content c) [
            | inl failed ↦
                rw named (rw failed (drop_temp-IsFit clock temp dir key tmp c n (n + 3) fit))
            | inr (d, wrote, state) ↦
                let (_, fits) =
                  write_file-files c.disk tmp content wrote (small n content tmp named)
                    fit.valid.files in
                let written : Fits (record c { disk = d }, n) = record {
                  valid = redisk-IsValid d fits fit.valid;
                  at = fit.at;
                  unlocked =
                      λ path. write_file-locked c.disk tmp path content wrote ∙ fit.unlocked path;
                } in
                let put =
                  put-IsFit clock temp dir key t0 t1 t2 n n k tmp (record c { disk = d }) written in
                rw named (rw state (drop_temp-IsFit clock temp dir key tmp _ n (n + 3) put))
          ]
        ]

    pub managed_put-keeps :
        (k j : Text) (content : List ℕ) (x : Managed clock temp) (b : List ℕ)
        → Fits x
        → key k ≡ true
        → contents_in (managed_put clock temp k content x).1 j ≡ some b
        → ((j ≡ k) × (b ≡ content)) ⊎ (contents_in x j ≡ some b)
    unfolding cache_object
    managed_put-keeps k j content (c, n) b fit keyed h =
        let t0 = clock n in
        let t1 = clock (n + 1) in
        let t2 = clock (n + 2) in
        let held : Option Text → Type 0 =
          λ o. contents_of dir key (cache_object t0 t1 t2 o k content c).0 j ≡ some b in
        elim (Option-cases (temp n content)) [
          | inl no_temp ↦ inr (subst held no_temp h)
          | inr (tmp, named) ↦
              let h1 : held (some tmp) = subst held named h in
              let (on, _, _) =
                contents_of-some dir key (cache_object t0 t1 t2 (some tmp) k content c).0 j b h1 in
              elim (cache_object-state t0 t1 t2 tmp k content c) [
                | inl failed ↦ inr (
                    Less-contents_of dir key c (drop_temp tmp c) j b (drop_temp-Less tmp c)
                      (subst (λ y. contents_of dir key y j ≡ some b) failed h1))
                | inr (d, wrote, state) ↦
                    let (written, _) =
                      write_file-files c.disk tmp content wrote (small n content tmp named)
                        fit.valid.files in
                    put-contents_of dir key injective tmp k content c d fit.at wrote keyed j b
                      (apart n content tmp j named on) t0 t1 t2 written
                      (subst (λ y. contents_of dir key y j ≡ some b) state h1)
              ]
        ]

    -- With readings of a clock, and with temporary files that are none of a key, the cache manager has
    -- what was put, or less, for keys of which no two have one escaped name, as long as no file is
    -- locked.
    abbrev pub managed_laws : IsCache (managed_cache clock temp)
    managed_laws = record {
      Fit = IsFit clock temp dir key;
      key = key;
      contents = contents_in;
      get_fit = managed_get-IsFit clock temp dir key;
      put_fit = managed_put-IsFit;
      invalidate_fit = managed_invalidate-IsFit clock temp dir key;
      get_found = managed_get-found;
      get_keeps = λ k j x b fit. managed_get-keeps k j x b;
      put_keeps = managed_put-keeps;
      invalidate_keeps = managed_invalidate-keeps;
    }
