-- ===== src/Range/Serving.antt =====
-- What a range request is served: the bytes of the object that the range names.
use azs3_proxy.Prelude.{
  ℕ, zero, suc, ◌+◌, ◌-◌, ◌*◌, ◌/◌, ◌≤◌, ◌<◌, ◌≡◌, refl, ap, ap₂, ◌∙◌, Text, true, false, some,
  List, length, slice, block, blocks, blocks-slice, length-slice, slice-slice, ◌⊎◌, inl, inr,
  Option-cases, Bool-cases, min, leb, ltb, arith, ◌==◌,
}
use native.Mathlib.Nat.{div-mul-le_self, lt-div-mul-add, le-div_iff_mul-le}
use azs3_proxy.Range.Blocks.{
  BlockStore, Backend, fall_back, bad_range, partial, block_end, block_key, collect, cache_blocks,
  respond, fetch, serve_range, handle_range_get_with_cache, prefetch_blocks,
}
use azs3_proxy.Range.Header.{
  RangeError, Parsed, range, refused, parse_single_range, parse_single_range_bounds,
}

-- A store and a set of its states in which every block of the object that is found is right.
pub record Faithful (store : BlockStore) (bucket key : Text) (block_size : ℕ) (obj : List ℕ)
    : Type 1 where
  pub Good : store.State → Type 0
  pub get_good :
      (blk : ℕ) (s : store.State)
      → Good s
      → Good (store.get (block_key bucket key block_size (length obj) blk) s).1
  pub get_right :
      (blk : ℕ) (s : store.State) (bytes : List ℕ)
      → blk * block_size < length obj
      → Good s
      → (store.get (block_key bucket key block_size (length obj) blk) s).0 ≡ some bytes
      → bytes ≡ block obj block_size blk
  pub put_good :
      (blk : ℕ) (s : store.State)
      → blk * block_size < length obj
      → Good s
      → Good
          (store.put
            (block_key bucket key block_size (length obj) blk)
            (block obj block_size blk)
            s).1

-- A backend that holds the object: it may fail, and what it sends is right.
pub record Holds (backend : Backend) (obj : List ℕ) : Type 0 where
  pub head : backend.head_object ≡ some (length obj)
  pub get_range :
      (a n : ℕ) (bytes : List ℕ)
      → a + n ≤ length obj
      → backend.get_object_range a n ≡ some bytes
      → bytes ≡ slice obj a (a + n)

div_bounds : (a b : ℕ) → 0 < b → (a / b * b ≤ a) × (a < (a / b + 1) * b)
div_bounds a b h = (div-mul-le_self a b, omega (arith, lt-div-mul-add {a = a} {b = b} h))

div_mono : (a c b : ℕ) → 0 < b → a ≤ c → a / b ≤ c / b
div_mono a c b h k = (le-div_iff_mul-le h).1 (omega (arith, div-mul-le_self a b))

block_end-min :
    (block_size size blk : ℕ)
    → 0 < block_size
    → blk * block_size < size
    → block_end block_size size blk + 1 ≡ min ((blk + 1) * block_size) size
block_end-min block_size size blk h k = ground arith

-- A response cut from any part of the object that covers the range.
respond_right :
    (store : BlockStore) (backend : Backend) (bucket key : Text) (block_size : ℕ)
    (obj bytes : List ℕ) (start end a z offset : ℕ)
    → bytes ≡ slice obj a z
    → a + offset ≡ start
    → start ≤ end
    → end < z
    → z ≤ length obj
    → respond store backend bucket key block_size (length obj) start end offset bytes
      ≡ partial start end (length obj) (slice obj start (end + 1))
unfolding respond
respond_right store backend bucket key block_size obj bytes start end a z offset e o h k l =
    let want = offset + (end + 1 - start) in
    let size : length bytes ≡ z - a = ap length e ∙ length-slice obj a z (omega arith) l in
    let cut : slice bytes offset want ≡ slice obj start (end + 1) =
      ap (λ ys. slice ys offset want) e
      ∙ slice-slice obj a z offset want (omega arith)
      ∙ ap₂ (slice obj) o (let q : a + want ≡ end + 1 = omega arith in q) in
    let len : length (slice bytes offset want) ≡ end + 1 - start =
      ap length cut ∙ length-slice obj start (end + 1) (omega arith) (omega arith) in
    ground (arith, size, cut, len)

Parsed-cases :
    (r : Parsed) → ((e : RangeError) × (r ≡ refused e)) ⊎ ((s : ℕ) × (e : ℕ) × (r ≡ range s e))
Parsed-cases (refused e) = inl (e, refl)
Parsed-cases (range s e) = inr (s, e, refl)

module _ (store : BlockStore) (backend : Backend) (bucket key : Text) (block_size : ℕ)
    (obj : List ℕ) (positive : 0 < block_size) (f : Faithful store bucket key block_size obj)
    (b : Holds backend obj) where
  collect_right :
      (count blk : ℕ) (s : store.State)
      → (blk + count) * block_size < length obj + block_size
      → f.Good s
      → f.Good (collect store backend bucket key block_size (length obj) count blk s).1
        × ((bytes : List ℕ)
            → (collect store backend bucket key block_size (length obj) count blk s).0 ≡ some bytes
            → bytes ≡ blocks obj block_size blk count)
  unfolding collect blocks
  collect_right zero blk s h g = (g, λ bytes e. ground arith)
  collect_right (suc count) blk s h g =
      let k = block_key bucket key block_size (length obj) blk in
      let g1 = f.get_good blk s g in
      let rest = collect_right count (blk + 1) (store.get k s).1 (omega arith) g1 in
      elim (Option-cases (store.get k s).0) [
        | inl miss ↦ rw (miss, collect) (g1, λ bytes e. cc)
        | inr (bytes, hit) ↦
            let right = f.get_right blk s bytes (omega arith) g hit in
            rw (hit, collect)
              (
                rest.0,
                λ all e.
                    elim (Option-cases
                      (collect store backend bucket key block_size (length obj) count (blk + 1)
                        (store.get k s).1).0) [
                          | inl none_more ↦ absurd (ground arith)
                          | inr (more, some_more) ↦ ground (arith, right, rest.1 more)
                        ],
              )
      ]

  cache_right :
      (count blk offset a z : ℕ) (bytes : List ℕ) (s : store.State)
      → bytes ≡ slice obj a z
      → a + offset ≡ min (blk * block_size) (length obj)
      → (blk + count) * block_size < length obj + block_size
      → min ((blk + count) * block_size) (length obj) ≤ z
      → z ≤ length obj
      → f.Good s
      → ((cache_blocks store backend bucket key block_size (length obj) count blk offset bytes s).0
          ≡ true)
        × f.Good
            (cache_blocks store backend bucket key block_size
              (length obj)
              count
              blk
              offset
              bytes
              s).1
  unfolding cache_blocks
  cache_right zero blk offset a z bytes s e o h m l g = (refl, g)
  cache_right (suc count) blk offset a z bytes s e o h m l g =
      let size = length obj in
      let k = block_key bucket key block_size size blk in
      let len = block_end block_size size blk + 1 - blk * block_size in
      let inside : blk * block_size < size = omega arith in
      let last = block_end-min block_size size blk positive inside in
      let cut : slice bytes offset (offset + len) ≡ block obj block_size blk =
        ap (λ ys. slice ys offset (offset + len)) e
        ∙ slice-slice obj a z offset (offset + len) (omega (arith, last))
        ∙ (unfold block in
            ap₂ (slice obj) (let p : a + offset ≡ blk * block_size = omega arith in p) (
              let q : a + (offset + len) ≡ min ((blk + 1) * block_size) size =
                omega (arith, last) in
              q)) in
      let bytes_len : length bytes ≡ z - a = ap length e ∙ length-slice obj a z (omega arith) l in
      let g1 : f.Good (store.put k (slice bytes offset (offset + len)) s).1 =
        rw cut (f.put_good blk s inside g) in
      let room : ltb (length bytes) (offset + len) ≡ false = ground (arith, bytes_len, last) in
      rw room (
        cache_right count (blk + 1) (offset + len) a z bytes _ e (omega (arith, last)) (omega arith)
          (omega arith) l g1)

  fetch_right :
      (start end : ℕ) (s : store.State)
      → start ≤ end
      → end < length obj
      → f.Good s
      → (((fetch store backend bucket key block_size (length obj) start end s).0 ≡ fall_back)
          ⊎ ((fetch store backend bucket key block_size (length obj) start end s).0
              ≡ partial start end (length obj) (slice obj start (end + 1))))
        × f.Good (fetch store backend bucket key block_size (length obj) start end s).1
  unfolding fetch
  fetch_right start end s h k g =
      let size = length obj in
      let first = start / block_size in
      let last = end / block_size in
      let a = first * block_size in
      let n = block_end block_size size last + 1 - a in
      let (a_le, start_lt) = div_bounds start block_size positive in
      let (last_le, end_lt) = div_bounds end block_size positive in
      let mono = div_mono start end block_size positive h in
      let z = block_end-min block_size size last positive (omega arith) in
      let all : (first + (last + 1 - first)) * block_size ≡ (last + 1) * block_size =
        ap (λ t. t * block_size)
          (let q : first + (last + 1 - first) ≡ last + 1 = omega arith in q) in
      elim (Option-cases (backend.get_object_range a n)) [
        | inl failed ↦ rw (failed, fetch) (inl refl, g)
        | inr (bytes, sent) ↦
            let e : bytes ≡ slice obj a (a + n) = b.get_range a n bytes (omega (arith, z)) sent in
            let (fits, good) =
              cache_right (last + 1 - first) first 0 a (a + n) bytes s e (omega arith)
                (rw all (omega arith)) (rw all (omega (arith, z))) (omega (arith, z)) g in
            rw (sent, fetch)
              (rw fits (
                inr (
                    respond_right store backend bucket key block_size obj bytes start end a (a + n)
                      (start - a) e (omega arith) h (omega (arith, z)) (omega (arith, z))),
                good,
              ))
      ]

  serve_right :
      (start end : ℕ) (s : store.State)
      → start ≤ end
      → end < length obj
      → f.Good s
      → (((serve_range store backend bucket key block_size (length obj) start end s).0 ≡ fall_back)
          ⊎ ((serve_range store backend bucket key block_size (length obj) start end s).0
              ≡ partial start end (length obj) (slice obj start (end + 1))))
        × f.Good (serve_range store backend bucket key block_size (length obj) start end s).1
  unfolding serve_range
  serve_right start end s h k g =
      let size = length obj in
      let first = start / block_size in
      let last = end / block_size in
      let count = last + 1 - first in
      let (a_le, start_lt) = div_bounds start block_size positive in
      let (last_le, end_lt) = div_bounds end block_size positive in
      let mono = div_mono start end block_size positive h in
      let all : (first + count) * block_size ≡ (last + 1) * block_size =
        ap (λ t. t * block_size) (let q : first + count ≡ last + 1 = omega arith in q) in
      let (g1, right) = collect_right count first s (rw all (omega arith)) g in
      elim (Option-cases (collect store backend bucket key block_size size count first s).0) [
        | inl miss ↦
            rw (miss, serve_range)
              (fetch_right start end
                (collect store backend bucket key block_size size count first s).1 h k g1)
        | inr (bytes, hit) ↦
            let e : bytes
                ≡ slice obj (min (first * block_size) size) (min ((last + 1) * block_size) size) =
              right bytes hit
              ∙ blocks-slice obj block_size first count
              ∙ ap (λ n. slice obj (min (first * block_size) size) (min n size)) all in
            rw (hit, serve_range)
              (
                inr (
                    respond_right store backend bucket key block_size obj bytes start end
                      (min (first * block_size) size) (min ((last + 1) * block_size) size)
                      (start - first * block_size) e (omega arith) h (omega arith) (omega arith)),
                g1,
              )
      ]

  -- A range request, over a store whose blocks are right, a backend that holds the object and a
  -- block size above 0, falls back to the whole object, is refused as the header parses, or is
  -- answered with exactly the bytes of the range and its bounds; and the blocks that it caches are
  -- right.
  pub handle_range_get_right :
      (header : Text) (s : store.State)
      → f.Good s
      → (((handle_range_get_with_cache store backend bucket key block_size header s).0 ≡ fall_back)
          ⊎ ((e : RangeError) × (parse_single_range header (length obj) ≡ refused e)
              × ((handle_range_get_with_cache store backend bucket key block_size header s).0
                  ≡ bad_range e))
          ⊎ ((start : ℕ) × (end : ℕ) × (parse_single_range header (length obj) ≡ range start end)
              × ((handle_range_get_with_cache store backend bucket key block_size header s).0
                  ≡ partial start end (length obj) (slice obj start (end + 1)))))
        × f.Good (handle_range_get_with_cache store backend bucket key block_size header s).1
  unfolding handle_range_get_with_cache
  handle_range_get_right header s g = elim (Bool-cases (length obj == 0)) [
    | inl empty ↦ rw (b.head, handle_range_get_with_cache) (rw empty (inl refl, g))
    | inr more ↦
        rw (b.head, handle_range_get_with_cache)
          (rw more (elim (Parsed-cases (parse_single_range header (length obj))) [
            | inl (e, bad) ↦ rw bad (inr (inl (e, refl, refl)), g)
            | inr (start, end, good) ↦
                let (h, k) = parse_single_range_bounds header (length obj) start end good in
                let (served, g1) = serve_right start end s h k g in
                rw good (elim served [
                  | inl back ↦ (inl back, g1)
                  | inr right ↦ (inr (inr (start, end, refl, right)), g1)
                ])
          ]))
  ]

  -- Over a store whose blocks are right, a backend that holds the object and a block size above 0,
  -- the blocks are right also after a prefetch, of any number of blocks from any block on.
  pub prefetch_blocks_right :
      (count blk : ℕ) (s : store.State)
      → f.Good s
      → f.Good (prefetch_blocks store backend bucket key block_size (length obj) count blk s)
  unfolding prefetch_blocks
  prefetch_blocks_right zero blk s g = g
  prefetch_blocks_right (suc count) blk s g =
      let size = length obj in
      let k = block_key bucket key block_size size blk in
      let a = blk * block_size in
      let n = block_end block_size size blk + 1 - a in
      let g1 = f.get_good blk s g in
      let s1 = (store.get k s).1 in
      elim (Bool-cases (leb size a)) [
        | inl done ↦ rw done g
        | inr more ↦
            let inside : a < size = ground arith in
            let last = block_end-min block_size size blk positive inside in
            rw more (elim (Option-cases (store.get k s).0) [
              | inr (_, hit) ↦ rw hit (prefetch_blocks_right count (blk + 1) s1 g1)
              | inl miss ↦ rw miss (elim (Option-cases (backend.get_object_range a n)) [
                | inl failed ↦ rw failed g1
                | inr (bytes, sent) ↦
                    let e : bytes ≡ block obj block_size blk =
                      b.get_range a n bytes (omega (arith, last)) sent
                      ∙ (unfold block in
                          ap (slice obj a) (
                            let q : a + n ≡ min ((blk + 1) * block_size) size =
                              omega (arith, last) in
                            q)) in
                    let g2 : f.Good (store.put k bytes s1).1 = rw e (f.put_good blk s1 inside g1) in
                    rw sent (elim (Bool-cases (store.put k bytes s1).0) [
                      | inl stored ↦
                          rw stored
                            (prefetch_blocks_right count (blk + 1) (store.put k bytes s1).1 g2)
                      | inr refused_put ↦ rw refused_put g2
                    ])
              ])
            ])
      ]
