-- ===== src/Tests/Cached.antt =====
-- Runs of LRUCache.
use azs3_proxy.Prelude.{
  int64_mod, ◌%◌, ◌≡◌, refl, codes, eq_text, true, false, none, some, [], ◌∷◌, lookup, insert,
  length, arith, if◌then◌else◌,
}
use azs3_proxy.Cache.Disk.{Disk, FitsInt64, write_file, remove, copy_file}
use azs3_proxy.Cache.Elements.{elem_at, remove_elem}
use azs3_proxy.Cache.Names.{is_kept, escape_char, escape_name, cache_path}
use azs3_proxy.Cache.Lru.{
  LruCache, made, empty_cache, new_lru_cache, remove_entry, touch, get_elem, get, remove_key,
  push_entry, evict, new_entry, put, cleanup,
}
use azs3_proxy.Cache.CacheStats.{get_statistics}
use azs3_proxy.Cache.Counted.{Reachable-get_statistics}
use azs3_proxy.Cache.Valid.{IsValid}
use azs3_proxy.Cache.Puts.{put-IsValid}
use azs3_proxy.Cache.Cleanup.{cleanup-unexpired}
use azs3_proxy.Cache.Reads.{put-shrink}
use azs3_proxy.Cache.Contents.{get-put}
use azs3_proxy.Cache.Alias.{get-put_alias}
use azs3_proxy.Cache.Manager.{cache_object, read_cached_object, invalidate_object}
use azs3_proxy.Cache.Manager.Roundtrip.{cache_object-read_cached_object}
use azs3_proxy.Range.Decimal.{decimal_loop, decimal}
use azs3_proxy.Range.Blocks.{block_cache_key}
use azs3_proxy.Range.Stale.{invalidate_object-block_cache_key}
use azs3_proxy.Cache.Reachable.{
  Reachable, start, next, puts, gets, empty_cache-IsValid, Reachable-IsValid,
}
use azs3_proxy.Cache.Names.Laws.{IsSafeName, escape_name-IsSafeName}

program : Unit {0}
unfolding put get get_elem evict push_entry remove_key remove_entry touch copy_file write_file
    remove escape_name escape_char is_kept cache_path elem_at remove_elem eq_text lookup insert
program = tt

abbrev disk0 : Disk
disk0 = record {
  files = λ p.
      if eq_text p (codes "/t")
      then some (1 ∷ 2 ∷ 3 ∷ [])
      else if eq_text p (codes "/u")
      then some (7 ∷ 8 ∷ [])
      else none;
  locked = λ p. false;
}

disk0-FitsInt64 : FitsInt64 disk0
disk0-FitsInt64 p bytes h = ground arith

abbrev c0 : LruCache
c0 = empty_cache (codes "/c") 4 1000 disk0

c0-IsValid : IsValid c0
c0-IsValid = empty_cache-IsValid (codes "/c") 4 1000 disk0 (omega arith) disk0-FitsInt64

abbrev c1 : LruCache
c1 = (put 0 0 0 (codes "b/a_c") (codes "/u") c0).0

c1-IsValid : IsValid c1
c1-IsValid = put-IsValid 0 0 0 (codes "b/a_c") (codes "/u") c0 c0-IsValid

made0 : new_lru_cache (codes "/c") 4 1000 true true true disk0 ≡ made c0
unfolding new_lru_cache
made0 = refl

c1-Reachable : Reachable 4 c1
c1-Reachable =
    next (start (codes "/c") 1000 true true true disk0 disk0-FitsInt64 made0)
      (puts 0 0 0 (codes "b/a_c") (codes "/u") c0)

Reachable-IsValid_example : IsValid c1
Reachable-IsValid_example = Reachable-IsValid 4 c1 (omega arith) c1-Reachable

abbrev c2 : LruCache
c2 = (get 9 9 (codes "b/a_c") c1).0

Reachable-get_statistics_example :
    ((get_statistics c2.stats).total_requests ≡ 1 % int64_mod)
    × ((get_statistics c2.stats).gets ≡ 1 % int64_mod)
    × ((get_statistics c2.stats).deletes ≡ 0)
unfolding c1-Reachable
Reachable-get_statistics_example =
    Reachable-get_statistics 4 c2 (next c1-Reachable (gets 9 9 (codes "b/a_c") c1))

-- The second Put is of another key, and its three bytes leave no room for the first entry.
get-put_example :
    ((get 9 9 (codes "b/x") (put 5 5 5 (codes "b/x") (codes "/t") c1).0).1 ≡ some (codes "/c/b_x"))
    × ((put 5 5 5 (codes "b/x") (codes "/t") c1).0.disk.files (codes "/c/b_x")
        ≡ some (1 ∷ 2 ∷ 3 ∷ []))
unfolding program
get-put_example =
    get-put 5 5 5 9 9 (codes "b/x") (codes "/t") (1 ∷ 2 ∷ 3 ∷ []) c1 c1-IsValid refl (λ h. cc, tt)
      (omega arith) refl

-- A larger cache, in which the entry of b/a_c stays.
abbrev w0 : LruCache
w0 = empty_cache (codes "/c") 100 1000 disk0

abbrev w1 : LruCache
w1 = (put 0 0 0 (codes "b/a_c") (codes "/u") w0).0

w1-IsValid : IsValid w1
w1-IsValid =
    put-IsValid 0 0 0 (codes "b/a_c") (codes "/u") w0
      (empty_cache-IsValid (codes "/c") 100 1000 disk0 (omega arith) disk0-FitsInt64)

-- b/a/c and b/a_c have the same file name: after a Put of the first, a hit on the second, for which
-- 7, 8 was stored, has the bytes of the first.
get-put_alias_example :
    (put 5 5 5 (codes "b/a/c") (codes "/t") w1).0.disk.files (codes "/c/b_a_c")
    ≡ some (1 ∷ 2 ∷ 3 ∷ [])
unfolding program
get-put_alias_example =
    get-put_alias 5 5 5 9 9 (codes "b/a/c") (codes "b/a_c") (codes "/t") (codes "/c/b_a_c")
      (1 ∷ 2 ∷ 3 ∷ []) w1 w1-IsValid refl refl refl refl

put-shrink_example :
    (put 5 5 5 (codes "b/x") (codes "/t") c1).0.lru_list
    ≡ (1, new_entry 5 5 5 (codes "b/x") 3 c1) ∷ []
unfolding program
put-shrink_example =
    put-shrink 5 5 5 (codes "b/x") (codes "/t") (1 ∷ 2 ∷ 3 ∷ []) c1 c1-IsValid refl refl

cleanup-unexpired_example : (cleanup 2000 c1).lru_list ≡ []
unfolding program
cleanup-unexpired_example = cleanup-unexpired 2000 c1 c1-IsValid

escape_name-IsSafeName_example :
    IsSafeName (escape_name (codes "b/../x"))
    × (length (escape_name (codes "b/../x")) ≡ 6)
    × (escape_name (codes "b_.._x") ≡ codes "b_.._x")
unfolding program
escape_name-IsSafeName_example = escape_name-IsSafeName (codes "b/../x")

cache_object-read_cached_object_example :
    (read_cached_object 9 9
      (codes "b/x")
      (cache_object 5 5 5 (some (codes "/tmp/1")) (codes "b/x") (6 ∷ 5 ∷ []) c1).0).1
    ≡ some (6 ∷ 5 ∷ [])
unfolding program cache_object
cache_object-read_cached_object_example =
    cache_object-read_cached_object 5 5 5 9 9 (codes "/tmp/1") (codes "b/x") (6 ∷ 5 ∷ []) c1
      c1-IsValid (omega arith) (λ h. cc) (λ h. cc, tt) (omega arith) refl

-- the block of b/k with the bytes 0 to 1
abbrev v1 : LruCache
v1 = (put 0 0 0 (codes "b/k@0-1") (codes "/u") c0).0

invalidate_object-block_cache_key_example :
    lookup (codes "b/k@0-1") (invalidate_object (codes "b/k") v1).0.entries ≡ some 0
unfolding program block_cache_key decimal decimal_loop
invalidate_object-block_cache_key_example =
    invalidate_object-block_cache_key (codes "b") (codes "k") 0 1 v1
      (put-IsValid 0 0 0 (codes "b/k@0-1") (codes "/u") c0 c0-IsValid)
