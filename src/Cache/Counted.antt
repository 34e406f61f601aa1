-- ===== src/Cache/Counted.antt =====
-- What the statistics of the cache count.
use mathlib.Core.Path.{subst}
use azs3_proxy.Prelude.{
  ℕ, zero, suc, ◌+◌, ◌%◌, ◌≡◌, refl, sym, ◌∙◌, Text, Option, none, some, List, [], ◌∷◌, lookup, inl,
  inr, List-cases, Option-cases, Bool-cases, arith, lt64, int64_mod, ltb,
}
use azs3_proxy.Cache.CacheStats.{
  CacheStats, record_hit, record_miss, record_get, record_eviction, record_expiration,
  get_statistics,
}
use azs3_proxy.Cache.Disk.{stat, copy_file}
use azs3_proxy.Cache.Elements.{elem_at}
use azs3_proxy.Cache.Names.{cache_path}
use azs3_proxy.Cache.Lru.{
  CacheEntry, LruCache, count_in, remove_entry, touch, get_elem, get, remove_key, push_entry, evict,
  put, delete_key, clear, expired, remove_all, cleanup,
}
use azs3_proxy.Cache.Valid.{evict_nil, evict_cons}
use azs3_proxy.Cache.Reachable.{
  Step, gets, puts, deletes, clears, ticks, elsewhere, Reachable, start, next, new_lru_cache-made,
}

-- the calls of Get on the way to a state, after those made before
abbrev pub step_gets : {s t : LruCache} → Step s t → ℕ → ℕ
step_gets (gets now used k c) n = n + 1
step_gets (puts t0 t1 t2 k src c) n = n
step_gets (deletes k c) n = n
step_gets (clears c) n = n
step_gets (ticks now c) n = n
step_gets (elsewhere d c fits) n = n

abbrev pub gets_made : {max_bytes : ℕ} {c : LruCache} → Reachable max_bytes c → ℕ
gets_made (start dir ttl a b e d fits h) = 0
gets_made (next r st) = step_gets st (gets_made r)

record IsCounted (n : ℕ) (s : CacheStats) : Type 0 where
  calls : s.gets ≡ n % int64_mod
  requests : s.gets ≡ (s.hits + s.misses) % int64_mod
  undeleted : s.deletes ≡ 0

miss-IsCounted :
    (n : ℕ) (s : CacheStats) → IsCounted n s → IsCounted (n + 1) (record_miss (record_get s))
miss-IsCounted n s h = record {
  calls = omega (arith, h.calls);
  requests = omega (arith, h.requests);
  undeleted = h.undeleted;
}

hit-IsCounted :
    (n : ℕ) (s : CacheStats) → IsCounted n s → IsCounted (n + 1) (record_hit (record_get s))
hit-IsCounted n s h = record {
  calls = omega (arith, h.calls);
  requests = omega (arith, h.requests);
  undeleted = h.undeleted;
}

expired-IsCounted :
    (m n : ℕ) (s : CacheStats)
    → IsCounted n s
    → IsCounted (n + 1) (record_miss (record_expiration m (record_get s)))
expired-IsCounted m n s h = record {
  calls = omega (arith, h.calls);
  requests = omega (arith, h.requests);
  undeleted = h.undeleted;
}

get_elem-IsCounted :
    (n now used p : ℕ) (e : Option CacheEntry) (c : LruCache)
    → IsCounted n c.stats
    → IsCounted (n + 1) (get_elem now used p e (count_in record_get c)).0.stats
unfolding get_elem remove_entry touch
get_elem-IsCounted n now used p none c h = miss-IsCounted n c.stats h
get_elem-IsCounted n now used p (some e) c h = elim (Bool-cases (ltb e.expires_at now)) [
  | inl late ↦ rw (late, get_elem) (expired-IsCounted e.file_size n c.stats h)
  | inr live ↦ elim (Option-cases (stat c.disk e.file_path)) [
    | inl gone ↦ rw (live, get_elem) (rw gone (miss-IsCounted n c.stats h))
    | inr (_, there) ↦ rw (live, get_elem) (rw there (hit-IsCounted n c.stats h))
  ]
]

get-IsCounted :
    (n now used : ℕ) (k : Text) (c : LruCache)
    → IsCounted n c.stats
    → IsCounted (n + 1) (get now used k c).0.stats
unfolding get
get-IsCounted n now used k c h = elim (Option-cases (lookup k c.entries)) [
  | inl miss ↦ rw (miss, get) (miss-IsCounted n c.stats h)
  | inr (p, found) ↦ rw (found, get) (get_elem-IsCounted n now used p (elem_at p c.lru_list) c h)
]

evict-IsCounted :
    (n fuel : ℕ) (c : LruCache) → IsCounted n c.stats → IsCounted n (evict fuel c).stats
evict-IsCounted n zero c h = unfold evict in h
evict-IsCounted n (suc fuel) c h = elim (List-cases c.lru_list) [
  | inl nil ↦ rw (evict_nil (suc fuel) c nil) h
  | inr ((p, e), rest, front) ↦
      let again =
        evict-IsCounted n fuel (remove_entry p e (count_in (record_eviction e.file_size) c)) (
          unfold remove_entry in
          record { calls = h.calls; requests = h.requests; undeleted = h.undeleted }) in
      rw (evict_cons fuel p e rest c front) (elim (Bool-cases (lt64 c.max_bytes c.current_bytes)) [
        | inl over ↦ rw over again
        | inr under ↦ rw under h
      ])
]

remove_key-stats : (k : Text) (c : LruCache) → (remove_key k c).stats ≡ c.stats
unfolding remove_key remove_entry
remove_key-stats k c = elim (Option-cases (lookup k c.entries)) [
  | inl miss ↦ rw (miss, remove_key) refl
  | inr (p, found) ↦ elim (Option-cases (elem_at p c.lru_list)) [
    | inl absent ↦ rw (found, remove_key) (rw absent refl)
    | inr (e, there) ↦ rw (found, remove_key) (rw there refl)
  ]
]

put-IsCounted :
    (n t0 t1 t2 : ℕ) (k src : Text) (c : LruCache)
    → IsCounted n c.stats
    → IsCounted n (put t0 t1 t2 k src c).0.stats
unfolding put push_entry
put-IsCounted n t0 t1 t2 k src c h =
    let h1 = subst (IsCounted n) (sym (remove_key-stats k c)) h in
    elim (Option-cases (stat c.disk src)) [
      | inl gone ↦ rw (gone, put) h
      | inr (size, there) ↦ elim (Bool-cases (lt64 c.max_bytes size)) [
        | inl large ↦ rw (there, put) (rw large h)
        | inr fits ↦
            elim (Option-cases (copy_file (remove_key k c).disk src (cache_path c.cache_dir k))) [
              | inl failed ↦ rw (there, put) (rw fits (rw failed h1))
              | inr (d, copied) ↦
                  rw (there, put)
                    (rw fits (
                      rw copied (
                        evict-IsCounted n _ _ (record {
                          calls = h1.calls;
                          requests = h1.requests;
                          undeleted = h1.undeleted;
                        }))))
            ]
      ]
    ]

delete_key-stats : (k : Text) (c : LruCache) → (delete_key k c).0.stats ≡ c.stats
unfolding delete_key remove_entry
delete_key-stats k c = ground arith

clear-stats : (c : LruCache) → (clear c).0.stats ≡ c.stats
unfolding clear
clear-stats c = ground arith

remove_all-IsCounted :
    (n : ℕ) (l : List (ℕ × CacheEntry)) (c : LruCache)
    → IsCounted n c.stats
    → IsCounted n (remove_all l c).stats
unfolding remove_all remove_entry
remove_all-IsCounted n [] c h = h
remove_all-IsCounted n ((p, e) ∷ l) c h =
    remove_all-IsCounted n l (remove_entry p e (count_in (record_expiration e.file_size) c))
      (record { calls = h.calls; requests = h.requests; undeleted = h.undeleted })

Step-IsCounted :
    {s t : LruCache} (n : ℕ) (st : Step s t)
    → IsCounted n s.stats
    → IsCounted (step_gets st n) t.stats
unfolding cleanup
Step-IsCounted n (gets now used k c) h = get-IsCounted n now used k c h
Step-IsCounted n (puts t0 t1 t2 k src c) h = put-IsCounted n t0 t1 t2 k src c h
Step-IsCounted n (deletes k c) h = subst (IsCounted n) (sym (delete_key-stats k c)) h
Step-IsCounted n (clears c) h = subst (IsCounted n) (sym (clear-stats c)) h
Step-IsCounted n (ticks now c) h = remove_all-IsCounted n (expired now c.lru_list) c h
Step-IsCounted n (elsewhere d c fits) h = h

Reachable-IsCounted :
    (max_bytes : ℕ) (c : LruCache) (r : Reachable max_bytes c) → IsCounted (gets_made r) c.stats
Reachable-IsCounted max_bytes c (start dir ttl a b e d fits h) =
    subst (λ s. IsCounted 0 s.stats) (new_lru_cache-made dir max_bytes ttl a b e d h)
      (record { calls = refl; requests = refl; undeleted = refl })
Reachable-IsCounted max_bytes c (next {s} r st) =
    Step-IsCounted (gets_made r) st (Reachable-IsCounted max_bytes s r)

-- In every state that NewLRUCache and any operations lead to, the statistics count as many requests,
-- hits and misses together, as there were calls of Get on the way, modulo 2 ^ 64, and no deletion.
pub Reachable-get_statistics :
    (max_bytes : ℕ) (c : LruCache) (r : Reachable max_bytes c)
    → ((get_statistics c.stats).total_requests ≡ gets_made r % int64_mod)
      × ((get_statistics c.stats).gets ≡ gets_made r % int64_mod)
      × ((get_statistics c.stats).deletes ≡ 0)
Reachable-get_statistics max_bytes c r =
    let h = Reachable-IsCounted max_bytes c r in (sym h.requests ∙ h.calls, h.calls, h.undeleted)
