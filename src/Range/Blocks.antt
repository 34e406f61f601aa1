-- ===== src/Range/Blocks.antt =====
-- handleRangeGetWithCache and prefetchBlocks of internal/handler/handler.go: a range request served
-- from cached blocks. The block size is a parameter; the handler's is 8 MB.
use azs3_proxy.Prelude.{
  ℕ, zero, suc, ◌+◌, ◌-◌, ◌*◌, ◌/◌, Text, Bool, true, false, Option, none, some, List, [], ◌∷◌,
  ◌++◌, length, slice, leb, ltb, ◌==◌, if◌then◌else◌,
}
use azs3_proxy.Range.Decimal.{decimal}
use azs3_proxy.Range.Header.{RangeError, range, refused, parse_single_range}

-- The cache as the handler sees it: `get` is GetObjectFromCache and os.ReadFile of the path, `put`
-- is CacheObject, with `false` for an error.
pub record BlockStore : Type 1 where
  pub State : Type 0
  pub get : Text → State → Option (List ℕ) × State
  pub put : Text → List ℕ → State → Bool × State

-- The backend, for the bucket and key of the request: HeadObject gives the size of an object that
-- exists, GetObjectRange the bytes from an offset on.
pub record Backend : Type 0 where
  pub head_object : Option ℕ
  pub get_object_range : ℕ → ℕ → Option (List ℕ)

-- `short_data`: the backend sent fewer bytes than it was asked for, and the source slices beyond
-- them, which panics, or shows what else the buffer holds.
pub data Served : Type 0 where
  fall_back : Served
  bad_range : RangeError → Served
  partial : (start end total : ℕ) → List ℕ → Served
  short_data : Served

-- generateCacheKey
abbrev pub generate_cache_key : Text → Text → Text
generate_cache_key bucket key = bucket ++ b'/' ∷ key

-- blockCacheKey
unfoldable pub block_cache_key : Text → Text → ℕ → ℕ → Text
block_cache_key bucket key block_start block_end =
    generate_cache_key bucket key ++ b'@' ∷ (decimal block_start ++ b'-' ∷ decimal block_end)

-- the last byte of a block
abbrev pub block_end : ℕ → ℕ → ℕ → ℕ
block_end block_size size blk =
    let e = blk * block_size + block_size - 1 in if leb size e then size - 1 else e

-- the cache key of a block
abbrev pub block_key : Text → Text → ℕ → ℕ → ℕ → Text
block_key bucket key block_size size blk =
    block_cache_key bucket key (blk * block_size) (block_end block_size size blk)

module _ (store : BlockStore) (backend : Backend) (bucket key : Text) (block_size : ℕ) where
  -- the loop over the cached blocks; `none` unless all are there
  unfoldable pub collect : ℕ → ℕ → ℕ → store.State → Option (List ℕ) × store.State
  collect size zero blk s = (some [], s)
  collect size (suc count) blk s =
      let (found, s1) = store.get (block_key bucket key block_size size blk) s in
      elim found [
        | none ↦ (none, s1)
        | some bytes ↦
            let (rest, s2) = collect size count (blk + 1) s1 in
            (elim rest [ none ↦ none | some more ↦ some (bytes ++ more) ], s2)
      ]

  -- the loop that caches the blocks of the fetched data; `false` where it slices beyond the data
  unfoldable pub cache_blocks : ℕ → ℕ → ℕ → ℕ → List ℕ → store.State → Bool × store.State
  cache_blocks size zero blk offset bytes s = (true, s)
  cache_blocks size (suc count) blk offset bytes s =
      let len = block_end block_size size blk + 1 - blk * block_size in
      let s1 =
        (store.put (block_key bucket key block_size size blk) (slice bytes offset (offset + len))
          s).1 in
      let rest = cache_blocks size count (blk + 1) (offset + len) bytes s1 in
      if ltb (length bytes) (offset + len) then (false, s) else rest

  -- the payload of a response, cut from the bytes of the blocks
  unfoldable pub respond : ℕ → ℕ → ℕ → ℕ → List ℕ → Served
  respond size start end offset bytes =
      let want = offset + (end + 1 - start) in
      let payload_end = if ltb (length bytes) want then length bytes else want in
      let payload = slice bytes offset payload_end in
      if ltb payload_end offset
      then short_data
      else partial start (start + length payload - 1) size payload

  -- the cache miss: fetch the blocks in one piece
  unfoldable pub fetch : ℕ → ℕ → ℕ → store.State → Served × store.State
  fetch size start end s =
      let start_block = start / block_size in
      let end_block = end / block_size in
      let chunk_start = start_block * block_size in
      let chunk_end = block_end block_size size end_block in
      elim (backend.get_object_range chunk_start (chunk_end + 1 - chunk_start)) [
        | none ↦ (fall_back, s)
        | some bytes ↦
            let (fits, s1) =
              cache_blocks size (end_block + 1 - start_block) start_block 0 bytes s in
            (if fits then respond size start end (start - chunk_start) bytes else short_data, s1)
      ]

  unfoldable pub serve_range : ℕ → ℕ → ℕ → store.State → Served × store.State
  serve_range size start end s =
      let start_block = start / block_size in
      let count = end / block_size + 1 - start_block in
      let (cached, s1) = collect size count start_block s in
      elim cached [
        | none ↦ fetch size start end s1
        | some bytes ↦ (respond size start end (start - start_block * block_size) bytes, s1)
      ]

  -- handleRangeGetWithCache; the prefetch that it starts is `prefetch_blocks`
  unfoldable pub handle_range_get_with_cache : Text → store.State → Served × store.State
  handle_range_get_with_cache header s = elim backend.head_object [
    | none ↦ (fall_back, s)
    | some size ↦ if size == 0 then (fall_back, s) else elim (parse_single_range header size) [
      | refused e ↦ (bad_range e, s)
      | range start end ↦ serve_range size start end s
    ]
  ]

  -- prefetchBlocks: it stops at the end of the object and at the first error
  unfoldable pub prefetch_blocks : ℕ → ℕ → ℕ → store.State → store.State
  prefetch_blocks size zero blk s = s
  prefetch_blocks size (suc count) blk s =
      let (found, s1) = store.get (block_key bucket key block_size size blk) s in
      let on = prefetch_blocks size count (blk + 1) in
      if leb size (blk * block_size) then s else elim found [
        | some _ ↦ on s1
        | none ↦
            elim (backend.get_object_range (blk * block_size)
              (block_end block_size size blk + 1 - blk * block_size)) [
                | none ↦ s1
                | some bytes ↦
                    let (stored, s2) =
                      store.put (block_key bucket key block_size size blk) bytes s1 in
                    if stored then on s2 else s2
              ]
      ]
