-- ===== src/Handlers/Coherence.antt =====
-- The objects that a storage holds, what a cache has of them, and when both agree.
pub mod Steps
pub mod Specified
pub mod Fetched
pub mod Life
pub mod Refined
use azs3_proxy.Prelude.{
  ℕ, ◌≡◌, ◌≢◌, refl, sym, ap, ap₂, ◌∙◌, Text, Bool, true, false, Option, some, none, List, [], ◌∷◌,
  ◌++◌, ◌⊎◌, inl, inr, length, eq_text, cut, cut-append,
}
use azs3_proxy.Range.Numbers.{positive}
use azs3_proxy.Range.Blocks.{generate_cache_key}
use azs3_proxy.Handlers.Types.{
  ok, failed, plain, StorageBackend, ObjectCache, ObjectInfo, S3Handler,
}

-- What a cache manager promises in the states that are `Fit`, for a set of keys: it has what was put,
-- or less. Handlers.Managed has the proof that the one over LRUCache does.
pub record IsCache (cache : ObjectCache) : Type 1 where
  pub Fit : cache.store.State → Type 0
  pub key : Text → Bool
  pub contents : cache.store.State → Text → Option (List ℕ)
  pub get_fit : (k : Text) (c : cache.store.State) → Fit c → Fit (cache.store.get k c).1
  pub put_fit :
      (k : Text) (content : List ℕ) (c : cache.store.State)
      → Fit c
      → Fit (cache.store.put k content c).1
  pub invalidate_fit : (k : Text) (c : cache.store.State) → Fit c → Fit (cache.invalidate k c).1
  pub get_found :
      (k : Text) (c : cache.store.State) (bytes : List ℕ)
      → Fit c
      → key k ≡ true
      → (cache.store.get k c).0 ≡ some bytes
      → contents c k ≡ some bytes
  pub get_keeps :
      (k j : Text) (c : cache.store.State) (bytes : List ℕ)
      → Fit c
      → contents (cache.store.get k c).1 j ≡ some bytes
      → contents c j ≡ some bytes
  pub put_keeps :
      (k j : Text) (content : List ℕ) (c : cache.store.State) (bytes : List ℕ)
      → Fit c
      → key k ≡ true
      → contents (cache.store.put k content c).1 j ≡ some bytes
      → ((j ≡ k) × (bytes ≡ content)) ⊎ (contents c j ≡ some bytes)
  pub invalidate_keeps :
      (k j : Text) (c : cache.store.State) (bytes : List ℕ)
      → Fit c
      → contents (cache.invalidate k c).1 j ≡ some bytes
      → (j ≢ k) × (contents c j ≡ some bytes)

-- by bucket and key
abbrev pub Objects : Type 0
Objects = Text → Text → Option (List ℕ)

-- The objects after a change are those before it, but for one.
abbrev pub SameBut : Text → Text → Objects → Objects → Type 0
SameBut bucket key before after =
    (b q : Text) → ¬ ((b ≡ bucket) × (q ≡ key)) → after b q ≡ before b q

abbrev pub Same : Objects → Objects → Type 0
Same before after = (b q : Text) → after b q ≡ before b q

-- What a storage service promises. A call that fails changes no object; a body that fails is a part
-- of the object.
pub record IsStorage (backend : StorageBackend) : Type 1 where
  pub objects : backend.State → Objects
  pub get_same :
      (b q : Text) (s : backend.State) → Same (objects s) (objects (backend.get_object b q s).1)
  pub get_found :
      (b q : Text) (s : backend.State) (info : ObjectInfo)
      → (backend.get_object b q s).0 ≡ ok info
      → (rest : List ℕ) × (objects s b q ≡ some (info.body ++ rest))
        × (info.size ≡ length (info.body ++ rest))
        × (info.body_fails ≡ false → rest ≡ [])
  pub put_others :
      (b q : Text) (content : List ℕ) (s : backend.State)
      → SameBut b q
          (objects s)
          (objects (backend.put_object b q (positive (length content)) (plain content) s).1)
  pub put_stores :
      (b q : Text) (content : List ℕ) (s : backend.State) (etag : Text)
      → (backend.put_object b q (positive (length content)) (plain content) s).0 ≡ ok etag
      → objects (backend.put_object b q (positive (length content)) (plain content) s).1 b q
        ≡ some content
  pub put_fails :
      (b q : Text) (content : List ℕ) (s : backend.State) (e : Text)
      → (backend.put_object b q (positive (length content)) (plain content) s).0 ≡ failed e
      → Same
          (objects s)
          (objects (backend.put_object b q (positive (length content)) (plain content) s).1)
  pub delete_others :
      (b q : Text) (s : backend.State)
      → SameBut b q (objects s) (objects (backend.delete_object b q s).1)
  pub delete_removes :
      (b q : Text) (s : backend.State)
      → (backend.delete_object b q s).0 ≡ ok tt
      → objects (backend.delete_object b q s).1 b q ≡ none
  pub delete_fails :
      (b q : Text) (s : backend.State) (e : Text)
      → (backend.delete_object b q s).0 ≡ failed e
      → Same (objects s) (objects (backend.delete_object b q s).1)

-- The bytes under a cache key are those of each object with that key, in a bucket without a slash.
abbrev pub IsCurrent : Objects → Text → List ℕ → Type 0
IsCurrent objects k content =
    (b q : Text) → cut b'/' b ≡ none → k ≡ generate_cache_key b q → objects b q ≡ some content

abbrev pub Jobs : (Text → List ℕ → Type 0) → List (Text × List ℕ) → Type 0
Jobs P [] = Unit {0}
Jobs P ((k, content) ∷ jobs) = P k content × Jobs P jobs

pub Jobs-append :
    (P : Text → List ℕ → Type 0) (jobs : List (Text × List ℕ)) (k : Text) (content : List ℕ)
    → Jobs P jobs
    → P k content
    → Jobs P (jobs ++ (k, content) ∷ [])
Jobs-append P [] k content all p = (p, tt)
Jobs-append P ((j, c) ∷ jobs) k content (one, all) p = (one, Jobs-append P jobs k content all p)

pub Jobs-map₂ :
    (P Q R : Text → List ℕ → Type 0) (jobs : List (Text × List ℕ))
    → ((k : Text) (content : List ℕ) → P k content → Q k content → R k content)
    → Jobs P jobs
    → Jobs Q jobs
    → Jobs R jobs
Jobs-map₂ P Q R [] f ps qs = tt
Jobs-map₂ P Q R ((k, c) ∷ jobs) f (p, ps) (q, qs) = (f k c p q, Jobs-map₂ P Q R jobs f ps qs)

-- Two buckets without a slash have different cache keys for different objects.
pub generate_cache_key_injective :
    (b c q r : Text)
    → cut b'/' b ≡ none
    → cut b'/' c ≡ none
    → generate_cache_key b q ≡ generate_cache_key c r
    → (b ≡ c) × (q ≡ r)
generate_cache_key_injective b c q r h k e =
    let left : Option (Text × Text) = some (b, q) in
    let right : Option (Text × Text) = some (c, r) in
    let both : left ≡ right =
      sym (cut-append b'/' b q h) ∙ (ap (cut b'/') e ∙ cut-append b'/' c r k) in
    let first : Text × Text = (b, q) in
    let second : Text × Text = (c, r) in
    let pair : first ≡ second = cc in (ap (λ p. p.0) pair, ap (λ p. p.1) pair)

pub IsCurrent-Same :
    (before after : Objects) (k : Text) (content : List ℕ)
    → Same before after
    → IsCurrent before k content
    → IsCurrent after k content
IsCurrent-Same before after k content same cur b q h e = same b q ∙ cur b q h e

pub IsCurrent-but :
    (before after : Objects) (bucket key k : Text) (content : List ℕ)
    → SameBut bucket key before after
    → k ≢ generate_cache_key bucket key
    → IsCurrent before k content
    → IsCurrent after k content
IsCurrent-but before after bucket key k content same other cur b q h e =
    same b q (λ eqs. other (e ∙ ap₂ generate_cache_key eqs.0 eqs.1)) ∙ cur b q h e

module _ (backend : StorageBackend) (cache : ObjectCache) (storage : IsStorage backend)
    (mem : IsCache cache) where
  -- what a goroutine will put
  abbrev pub Queued : Objects → Text → List ℕ → Type 0
  Queued objects k content = IsCurrent objects k content × (mem.key k ≡ true)

  -- the cache key of an object is one of those that the cache answers for
  abbrev pub IsKeyed : Text → Text → Type 0
  IsKeyed b q = mem.key (generate_cache_key b q) ≡ true

  -- Everything that the cache has, and everything that a goroutine will put there, is current.
  pub record Coherent (h : S3Handler backend cache) : Type 0 where
    pub cache_fit : (c : cache.store.State) → h.cache_state ≡ some c → mem.Fit c
    pub cached_current :
        (c : cache.store.State) (k : Text) (content : List ℕ)
        → h.cache_state ≡ some c
        → mem.contents c k ≡ some content
        → IsCurrent (storage.objects h.storage) k content
    pub pending_current : Jobs (Queued (storage.objects h.storage)) h.pending
