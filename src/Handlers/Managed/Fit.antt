-- ===== src/Handlers/Managed/Fit.antt =====
-- The states of CacheManager over LRUCache in which nothing is stuck, and that its calls keep them.
use azs3_proxy.Prelude.{ℕ, ◌+◌, ◌≡◌, refl, ◌∙◌, Text, Bool, false, Option, none, some, List, length}
use azs3_proxy.Cache.Disk.{remove-FitsInt64}
use azs3_proxy.Cache.Lru.{LruCache, get, remove_key, push_entry, put, delete_key}
use azs3_proxy.Cache.Valid.{IsValid, get-IsValid}
use azs3_proxy.Cache.Puts.{filled, PutCase, put-cases, put-IsValid}
use azs3_proxy.Cache.Removal.{redisk-IsValid, delete_key-IsValid}
use azs3_proxy.Cache.Less.{
  Less, drop_temp-Less, evict-Less, remove_key-Less, get-Less, delete_key-Less,
}
use azs3_proxy.Cache.Manager.{drop_temp, read_path, read_cached_object}
use azs3_proxy.Handlers.Managed.{Managed, managed_get, managed_invalidate}
use azs3_proxy.Handlers.Managed.Writes.{copy_file-locked}

pub read_path-state : (x : LruCache × Option Text) → (read_path x).0 ≡ x.0
read_path-state (c, none) = refl
read_path-state (c, some path) = refl

module _ (clock : ℕ → ℕ) (temp : ℕ → List ℕ → Option Text) (dir : Text) (key : Text → Bool) where
  -- a valid cache in the directory, with no file that os.Remove cannot remove
  pub record IsFit (x : Managed clock temp) : Type 0 where
    pub valid : IsValid x.0
    pub at : x.0.cache_dir ≡ dir
    pub unlocked : (path : Text) → x.0.disk.locked path ≡ false

  pub Less-IsFit : (c d : LruCache) (n m : ℕ) → Less c d → IsValid d → IsFit (c, n) → IsFit (d, m)
  Less-IsFit c d n m less v fit = record {
    valid = v;
    at = less.cache_dir ∙ fit.at;
    unlocked = λ path. less.locked path ∙ fit.unlocked path;
  }

  pub drop_temp-IsFit :
      (tmp : Text) (c : LruCache) (n m : ℕ) → IsFit (c, n) → IsFit (drop_temp tmp c, m)
  drop_temp-IsFit tmp c n m fit =
      Less-IsFit c (drop_temp tmp c) n m (drop_temp-Less tmp c)
        (redisk-IsValid _ (remove-FitsInt64 c.disk tmp fit.valid.files) fit.valid) fit

  pub put-IsFit :
      (t0 t1 t2 n m : ℕ) (k src : Text) (c : LruCache)
      → IsFit (c, n)
      → IsFit ((put t0 t1 t2 k src c).0, m)
  unfolding push_entry
  put-IsFit t0 t1 t2 n m k src c fit =
      let v = put-IsValid t0 t1 t2 k src c fit.valid in
      elim (put-cases t0 t1 t2 k src c) [
        | PutCase.no_file _ result ↦ record {
          valid = v;
          at = rw result fit.at;
          unlocked = rw result fit.unlocked;
        }
        | PutCase.no_room _ _ _ result ↦ record {
          valid = v;
          at = rw result fit.at;
          unlocked = rw result fit.unlocked;
        }
        | PutCase.no_copy _ _ _ _ result ↦
            let less = remove_key-Less k c in
            record {
              valid = v;
              at = rw result (less.cache_dir ∙ fit.at);
              unlocked = rw result (λ path. less.locked path ∙ fit.unlocked path);
            }
        | PutCase.stored bytes d _ _ good result ↦
            let less = remove_key-Less k c in
            let c2 = filled t0 t1 t2 k src c (length bytes) d in
            let last = evict-Less (length c2.lru_list) c2 in
            record {
              valid = v;
              at = rw result (last.cache_dir ∙ less.cache_dir ∙ fit.at);
              unlocked = rw result (λ path.
                  last.locked path
                  ∙ copy_file-locked (remove_key k c).disk src _ path good
                  ∙ (less.locked path ∙ fit.unlocked path));
            }
      ]

  pub managed_get-IsFit :
      (k : Text) (x : Managed clock temp) → IsFit x → IsFit (managed_get clock temp k x).1
  unfolding read_cached_object
  managed_get-IsFit k (c, n) fit =
      let t = clock n in
      let u = clock (n + 1) in
      rw (read_path-state (get t u k c)) (
        Less-IsFit c (get t u k c).0 n (n + 2) (get-Less t u k c) (get-IsValid t u k c fit.valid)
          fit)

  pub managed_invalidate-IsFit :
      (k : Text) (x : Managed clock temp) → IsFit x → IsFit (managed_invalidate clock temp k x).1
  managed_invalidate-IsFit k (c, n) fit =
      Less-IsFit c (delete_key k c).0 n n (delete_key-Less k c fit.valid)
        (delete_key-IsValid k c fit.valid) fit
