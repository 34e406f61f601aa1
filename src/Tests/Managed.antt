-- ===== src/Tests/Managed.antt =====
-- The theorems of the handlers with the cache manager over an LRUCache.
use mathlib.Core.Path.{subst}
use azs3_proxy.Prelude.{
  ℕ, ◌+◌, ◌<◌, ◌≤◌, ◌≡◌, ◌≢◌, refl, sym, ap, ◌∙◌, ◌⊎◌, inl, inr, Text, codes, eq_text, eq_text_iff,
  lookup, insert, Bool, true, false, ◌||◌, Bool-cases, Option, none, some, List, [], ◌∷◌, ◌++◌,
  length, int64_half, ltb, arith, if◌then◌else◌,
}
use azs3_proxy.Stats.{zero_stats}
use azs3_proxy.Cache.Disk.{Disk, FitsInt64, write_file, copy_file, remove}
use azs3_proxy.Cache.Elements.{elem_at, remove_elem}
use azs3_proxy.Cache.Names.{is_kept, escape_char, escape_name, cache_path}
use azs3_proxy.Cache.Lru.{
  empty_cache, get, get_elem, touch, put, remove_key, push_entry, evict, remove_entry, delete_key,
}
use azs3_proxy.Cache.Reachable.{empty_cache-IsValid}
use azs3_proxy.Cache.Manager.{cache_object, read_cached_object}
use azs3_proxy.Handlers.Types.{Reply, StorageBackend, ObjectCache, S3Handler, bytes}
use azs3_proxy.Handlers.Objects.{put_source, put_object_handler, put_done, invalidate}
use azs3_proxy.Handlers.Reads.{
  cached, buffered, send_object, fetch_object, get_whole_object, run_pending,
}
use azs3_proxy.Handlers.Ranges.{get_object_handler}
use azs3_proxy.Handlers.Coherence.{IsCache, IsStorage, IsCurrent, Coherent}
use azs3_proxy.Handlers.Coherence.Specified.{Specified, reads, Whole}
use azs3_proxy.Handlers.Coherence.Life.{Reachable, start, next, serves, caches, Reachable-Coherent}
use azs3_proxy.Handlers.Races.{IsHit, get_object_handler-stale, get_object_handler-short}
use azs3_proxy.Handlers.Managed.{Managed, managed_cache, managed_get}
use azs3_proxy.Handlers.Managed.Fit.{IsFit}
use azs3_proxy.Handlers.Managed.Laws.{managed_laws}
use azs3_proxy.Handlers.Managed.Hits.{handle-managed, managed_get-IsCurrent}
use azs3_proxy.AzureBlob.{contents, read_full}
use azs3_proxy.AzureBlob.Puts.{put_object, put_contents, put_buffer, in_memory}
use azs3_proxy.AzureBlob.Backend.{azure_blob}
use azs3_proxy.AzureBlob.Fills.{azure_blob-IsStorage}
use azs3_proxy.AzureBlob.Handled.{put-get}
use azs3_proxy.Tests.Handled.{
  storage0, is_storage0, holds, no_escape, request, request-IsPlain, again, found0,
}
use azs3_proxy.Tests.Blobs.{service0, objects0, account0, all_sent0}
use azs3_proxy.Tests.Uploaded.{hash0, backend0}

abbrev clock1 : ℕ → ℕ
clock1 n = n

abbrev temp1 : ℕ → List ℕ → Option Text
temp1 n content = if ltb (length content) int64_half then some (codes "/t") else none

abbrev key1 : Text → Bool
key1 k = eq_text k (codes "b/k") || eq_text k (codes "b/x")

key1-cases : (k : Text) → key1 k ≡ true → (k ≡ codes "b/k") ⊎ (k ≡ codes "b/x")
key1-cases k h = elim (Bool-cases (eq_text k (codes "b/k"))) [
  | inl same ↦ inl ((eq_text_iff k (codes "b/k")).0 same)
  | inr other ↦ inr ((eq_text_iff k (codes "b/x")).0 (ground (arith, h, other)))
]

names_apart : escape_name (codes "b/k") ≢ escape_name (codes "b/x")
unfolding escape_name escape_char is_kept eq_text
names_apart h =
    let t : false ≡ true =
      (eq_text_iff (escape_name (codes "b/k")) (escape_name (codes "b/x"))).1 h in
    absurd (ground (arith, t))

injective1 : (j k : Text) → key1 j ≡ true → key1 k ≡ true → escape_name j ≡ escape_name k → j ≡ k
injective1 j k hj hk e = elim (key1-cases j hj) [
  | inl a ↦ elim (key1-cases k hk) [
    | inl b ↦ a ∙ sym b
    | inr b ↦ absurd (names_apart (ap escape_name (sym a) ∙ (e ∙ ap escape_name b)))
  ]
  | inr a ↦ elim (key1-cases k hk) [
    | inl b ↦ absurd (names_apart (ap escape_name (sym b) ∙ (sym e ∙ ap escape_name a)))
    | inr b ↦ a ∙ sym b
  ]
]

not_temp : (s : Text) → codes "/t" ≢ codes "/c" ++ s
unfolding eq_text
not_temp s h =
    let t : false ≡ true = (eq_text_iff (codes "/t") (codes "/c" ++ s)).1 h in
    absurd (ground (arith, t))

apart1 :
    (n : ℕ) (content : List ℕ) (tmp j : Text)
    → temp1 n content ≡ some tmp
    → key1 j ≡ true
    → tmp ≢ cache_path (codes "/c") j
unfolding cache_path
apart1 n content tmp j named keyed e = elim (Bool-cases (ltb (length content) int64_half)) [
  | inl fits ↦
      let t : codes "/t" ≡ tmp = ground (arith, named, fits) in
      not_temp (b'/' ∷ escape_name j) (t ∙ e)
  | inr large ↦ absurd (ground (arith, named, large))
]

small1 :
    (n : ℕ) (content : List ℕ) (tmp : Text)
    → temp1 n content ≡ some tmp
    → length content < int64_half
small1 n content tmp named = ground (arith, named)

abbrev managed1 : ObjectCache
managed1 = managed_cache clock1 temp1

abbrev mem1 : IsCache managed1
mem1 = managed_laws clock1 temp1 (codes "/c") key1 injective1 apart1 small1

abbrev disk1 : Disk
disk1 = record { files = λ p. none; locked = λ p. false }

disk1-FitsInt64 : FitsInt64 disk1
disk1-FitsInt64 p content h = cc

abbrev made1 : Managed clock1 temp1
made1 = (empty_cache (codes "/c") 100 1000 disk1, 0)

made1-IsFit : IsFit clock1 temp1 (codes "/c") key1 made1
made1-IsFit = record {
  valid = empty_cache-IsValid (codes "/c") 100 1000 disk1 (omega arith) disk1-FitsInt64;
  at = refl;
  unlocked = λ path. refl;
}

-- a handler over any storage, with an empty cache
abbrev fresh : (backend : StorageBackend) → backend.State → S3Handler backend managed1
fresh backend s = record { storage = s; cache_state = some made1; stats = zero_stats; pending = [] }

fits1 : (x : Managed clock1 temp1) → some made1 ≡ some x → mem1.Fit x
fits1 x e = let f : made1 ≡ x = cc in subst (IsFit clock1 temp1 (codes "/c") key1) f made1-IsFit

empty1 : (x : Managed clock1 temp1) (k : Text) → some made1 ≡ some x → mem1.contents x k ≡ none
unfolding lookup
empty1 x k e =
    let f : made1 ≡ x = cc in
    let gone : mem1.contents made1 k ≡ none = ground arith in
    subst (λ y. mem1.contents y k ≡ none) f gone

fresh-Coherent :
    (backend : StorageBackend) (storage : IsStorage backend) (s : backend.State)
    → Coherent backend managed1 storage mem1 (fresh backend s)
fresh-Coherent backend storage s = record {
  cache_fit = fits1;
  cached_current =
      λ c k content e f. let none_found : none ≡ some content = sym (empty1 c k e) ∙ f in cc;
  pending_current = tt;
}

abbrev handler1 : (shown : ℕ → ℕ) → S3Handler (storage0 shown) managed1
handler1 shown = record {
  storage = holds (codes "b") (codes "k") (some (1 ∷ 2 ∷ [])) (λ b q. none);
  cache_state = some made1;
  stats = zero_stats;
  pending = [];
}

abbrev known1 : S3Handler (storage0 (λ n. n)) managed1
known1 = handler1 (λ n. n)

known1-Reachable : Reachable (storage0 (λ n. n)) managed1 is_storage0 mem1 [] no_escape known1
known1-Reachable = start known1 fits1 empty1 refl

keyed1 : key1 (codes "b/k") ≡ true
unfolding eq_text
keyed1 = refl

-- a GET of the object, and its goroutine
abbrev read1 : S3Handler (storage0 (λ n. n)) managed1
read1 = (get_object_handler (storage0 (λ n. n)) managed1 [] again known1).1

abbrev filled1 : S3Handler (storage0 (λ n. n)) managed1
filled1 = run_pending (storage0 (λ n. n)) managed1 read1

filled1-Reachable : Reachable (storage0 (λ n. n)) managed1 is_storage0 mem1 [] no_escape filled1
filled1-Reachable =
    next (next known1-Reachable (serves reads again known1 (request-IsPlain []) keyed1 tt))
      (caches read1)

handle-managed_example :
    Specified reads
      (Whole (storage0 (λ n. n)) managed1 again filled1)
      again
      (get_object_handler (storage0 (λ n. n)) managed1 [] again filled1).0
      (is_storage0.objects filled1.storage)
      (is_storage0.objects
        (get_object_handler (storage0 (λ n. n)) managed1 [] again filled1).1.storage)
    × Coherent
        (storage0 (λ n. n))
        managed1
        is_storage0
        mem1
        (get_object_handler (storage0 (λ n. n)) managed1 [] again filled1).1
handle-managed_example =
    handle-managed clock1 temp1 (codes "/c") key1 injective1 apart1 small1 (storage0 (λ n. n))
      is_storage0 [] no_escape reads again filled1 (request-IsPlain []) keyed1 tt
      (Reachable-Coherent (storage0 (λ n. n)) managed1 is_storage0 mem1 [] no_escape
        filled1-Reachable)

program : Unit {0}
unfolding eq_text lookup insert cached buffered send_object fetch_object get_whole_object
    get_object_handler run_pending put get get_elem evict push_entry remove_key remove_entry touch
    copy_file write_file remove escape_name escape_char is_kept cache_path elem_at remove_elem
    cache_object read_cached_object delete_key
program = tt

-- the cache after the goroutine
abbrev cache2 : Managed clock1 temp1
cache2 =
    (managed1.store.put (codes "b/k") (1 ∷ 2 ∷ []) (managed1.store.get (codes "b/k") made1).1).1

on1 : filled1.cache_state ≡ some cache2
unfolding program
on1 = refl

hit1 : (managed_get clock1 temp1 (codes "b/k") cache2).0 ≡ some (1 ∷ 2 ∷ [])
unfolding program
hit1 = refl

managed_get-IsCurrent_example :
    IsCurrent (is_storage0.objects filled1.storage) (codes "b/k") (1 ∷ 2 ∷ [])
managed_get-IsCurrent_example =
    managed_get-IsCurrent clock1 temp1 (codes "/c") key1 injective1 apart1 small1
      (storage0 (λ n. n)) is_storage0 [] no_escape cache2 (codes "b/k") (1 ∷ 2 ∷ [])
      filled1-Reachable on1 keyed1 hit1

get_object_handler-stale_example :
    IsHit
      (1 ∷ 2 ∷ [])
      (get_object_handler (storage0 (λ n. n)) managed1 [] (request (7 ∷ [])) (
        run_pending
          (storage0 (λ n. n))
          managed1
          (put_object_handler
            (storage0 (λ n. n))
            managed1
            no_escape
            (request (7 ∷ []))
            (get_object_handler (storage0 (λ n. n)) managed1 [] (request (7 ∷ [])) known1).1).1)).0
unfolding program
get_object_handler-stale_example =
    get_object_handler-stale (storage0 (λ n. n)) managed1 [] no_escape (request (7 ∷ []))
      (found0 (λ n. n)) (1 ∷ 2 ∷ []) (codes "e") made1 known1 (request-IsPlain (7 ∷ []))
      (record {
        on = refl;
        idle = refl;
        missed = refl;
        sent = refl;
        some_size = omega arith;
        size_le = omega arith;
        taken = refl;
      })
      refl refl

get_object_handler-short_example :
    IsHit
      (1 ∷ 2 ∷ [])
      (get_object_handler (storage0 (λ n. n + 1)) managed1 [] again (
        run_pending
          (storage0 (λ n. n + 1))
          managed1
          (get_object_handler
            (storage0 (λ n. n + 1))
            managed1
            []
            again
            (handler1 (λ n. n + 1))).1)).0
unfolding program
get_object_handler-short_example =
    get_object_handler-short (storage0 (λ n. n + 1)) managed1 [] no_escape again
      (found0 (λ n. n + 1)) (1 ∷ 2 ∷ []) made1 (handler1 (λ n. n + 1)) (request-IsPlain [])
      (record {
        on = refl;
        idle = refl;
        missed = refl;
        sent = refl;
        some_size = omega arith;
        size_le = omega arith;
        taken = refl;
      })
      (omega arith) refl

abbrev backend1 : StorageBackend
backend1 = azure_blob service0 hash0

abbrev put_handled1 : Reply × S3Handler backend1 managed1
put_handled1 =
    put_object_handler backend1 managed1 no_escape (request (7 ∷ [])) (fresh backend1 backend0)

answers1 : put_handled1.0.status ≡ 200
unfolding eq_text put_source put_object_handler put_done invalidate put_object put_contents
    in_memory contents read_full put_buffer
answers1 = refl

put-get_example :
    let read = get_object_handler backend1 managed1 [] (request []) put_handled1.1 in
    ((first : List ℕ) × (rest : List ℕ) × (read.0.status ≡ 200)
      × (read.0.payload ≡ bytes first)
      × (7 ∷ [] ≡ first ++ rest)
      × (Whole backend1 managed1 (request []) put_handled1.1 → rest ≡ []))
    ⊎ (400 ≤ read.0.status)
put-get_example =
    put-get service0 hash0 objects0 account0 all_sent0 clock1 temp1 (codes "/c") key1 injective1
      apart1 small1 [] no_escape (request (7 ∷ [])) (request []) (fresh backend1 backend0)
      (request-IsPlain (7 ∷ [])) (request-IsPlain []) refl refl keyed1 keyed1 tt
      (fresh-Coherent backend1 (azure_blob-IsStorage service0 hash0 objects0 account0 all_sent0)
        backend0)
      answers1
