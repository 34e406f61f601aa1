-- ===== src/Range/Stale.antt =====
-- What the invalidation of an object leaves in the cache.
use azs3_proxy.Prelude.{
  ℕ, ◌≡◌, ◌≢◌, Text, false, [], ◌∷◌, ◌++◌, lookup, eq_text, eq_text_iff, Bool-cases, inl, inr,
  arith,
}
use azs3_proxy.Cache.Lru.{LruCache}
use azs3_proxy.Cache.Valid.{IsValid}
use azs3_proxy.Cache.Removal.{delete_key_lem}
use azs3_proxy.Cache.Manager.{invalidate_object}
use azs3_proxy.Range.Blocks.{generate_cache_key, block_cache_key}

longer : (s t : Text) (c : ℕ) → s ≢ s ++ c ∷ t
longer [] t c h = cc
longer (a ∷ s) t c h = longer s t c (ground arith)

-- InvalidateObject of an object's cache key, on a valid cache, leaves in the cache's map what it has
-- for each block of the object: the same element, or none.
pub invalidate_object-block_cache_key :
    (bucket key : Text) (block_start block_end : ℕ) (c : LruCache)
    → IsValid c
    → lookup
        (block_cache_key bucket key block_start block_end)
        (invalidate_object (generate_cache_key bucket key) c).0.entries
      ≡ lookup (block_cache_key bucket key block_start block_end) c.entries
unfolding block_cache_key
invalidate_object-block_cache_key bucket key block_start block_end c v =
    let k = generate_cache_key bucket key in
    let j = block_cache_key bucket key block_start block_end in
    let other : eq_text k j ≡ false = elim (Bool-cases (eq_text k j)) [
      | inl same ↦ absurd (longer k _ _ ((eq_text_iff k j).0 same))
      | inr differ ↦ differ
    ] in
    ground (arith, (delete_key_lem k j c v).0, other)
