-- ===== src/Tests/Served.antt =====
-- Runs of the range reads, of the chunked reader and of the concurrent download.
use azs3_proxy.Prelude.{
  ℕ, ◌+◌, ◌*◌, ◌≤◌, ◌<◌, ◌≡◌, refl, Text, codes, eq_text, has_prefix, contains, cut, trim_space,
  trim_left, slice, block, true, Option, none, some, List, [], ◌∷◌, min, ◌⊎◌, arith, Bool,
  if◌then◌else◌,
}
use azs3_proxy.Range.Numbers.{digit, digits_from, parse_digits, in_range, parse_int}
use azs3_proxy.Range.Decimal.{decimal_loop, decimal}
use azs3_proxy.Range.Header.{
  RangeError, range, refused, clamp, suffix_range, open_range, closed_range, range_of, split_dash,
  parse_single_range, parse_single_range_bounds,
}
use azs3_proxy.Range.Blocks.{
  BlockStore, Backend, Served, fall_back, bad_range, partial, block_cache_key, block_key,
  serve_range, collect, fetch, cache_blocks, respond, handle_range_get_with_cache,
}
use azs3_proxy.Range.Printed.{parse_single_range_decimal}
use azs3_proxy.Range.Serving.{Faithful, Holds, handle_range_get_right}
use azs3_proxy.Chunked.{new_aws_chunked_reader, chunk_size, eof, ended, drain}
use azs3_proxy.Chunked.Frames.{Frame, AllFrames, encode, drain-payload, drain-cut_off}
use azs3_proxy.Chunked.Ends.{IsFinished, drain-IsFinished}
use azs3_proxy.Download
use azs3_proxy.Download.{Chunk, chunk, chunk_err, process, deliver, find, erase, run, work}
use azs3_proxy.Download.Complete.{run-prefix, run_complete, run-truncated}

program : Unit {0}
unfolding has_prefix contains cut trim_space trim_left digit digits_from parse_digits in_range
    parse_int clamp suffix_range open_range closed_range range_of split_dash parse_single_range
    chunk_size slice block eq_text
program = tt

range_tests :
    (parse_single_range (codes "bytes=-2") 5 ≡ range 3 4)
    × (parse_single_range (codes "bytes= 1-99") 5 ≡ range 1 4)
    × (parse_single_range (codes "bytes=3-") 5 ≡ range 3 4)
unfolding program
range_tests = (refl, refl, refl)

parse_single_range_bounds_example : (1 ≤ 4) × (4 < 5)
unfolding program
parse_single_range_bounds_example = parse_single_range_bounds (codes "bytes= 1-99") 5 1 4 refl

parse_single_range_decimal_example : parse_single_range (codes "bytes=1-99") 5 ≡ range 1 4
unfolding program decimal decimal_loop
parse_single_range_decimal_example =
    parse_single_range_decimal 1 99 5 (omega arith) (omega arith) (omega arith)

abbrev obj : List ℕ
obj = 10 ∷ 11 ∷ 12 ∷ []

-- a cache of one key, and a backend with the object
abbrev one_key : Text → BlockStore
one_key key = record {
  State = Option (List ℕ);
  get = λ k s. (if eq_text k key then s else none, s);
  put = λ k bytes s. (true, if eq_text k key then some bytes else s);
}

abbrev backend0 : Backend
backend0 = record { head_object = some 3; get_object_range = λ a n. some (slice obj a (a + n)) }

abbrev key0 : Text
key0 = block_key (codes "b") (codes "k") 4 3 0

first_only : (blk : ℕ) → blk * 4 < 3 → blk ≡ 0
first_only blk h = omega (arith, h)

faithful0 : Faithful (one_key key0) (codes "b") (codes "k") 4 obj
faithful0 = record {
  Good = λ s. (bytes : List ℕ) → s ≡ some bytes → bytes ≡ block obj 4 0;
  get_good = λ blk s g. g;
  get_right = λ blk s bytes h g e. ground (arith, first_only blk h, g bytes);
  put_good = λ blk s h g. λ bytes e. ground (arith, first_only blk h, g bytes);
}

holds0 : Holds backend0 obj
holds0 = record { head = refl; get_range = λ a n bytes h e. ground (arith, e) }

-- the cache is empty, so the range is fetched
abbrev answered : Served × Option (List ℕ)
answered =
    handle_range_get_with_cache (one_key key0) backend0 (codes "b") (codes "k") 4
      (codes "bytes=1-9") none

served_test : answered.0 ≡ partial 1 2 3 (11 ∷ 12 ∷ [])
unfolding program handle_range_get_with_cache serve_range collect fetch cache_blocks respond
    block_cache_key decimal decimal_loop
served_test = refl

handle_range_get_right_example :
    ((answered.0 ≡ fall_back)
      ⊎ ((e : RangeError) × (parse_single_range (codes "bytes=1-9") 3 ≡ refused e)
          × (answered.0 ≡ bad_range e))
      ⊎ ((start : ℕ) × (end : ℕ) × (parse_single_range (codes "bytes=1-9") 3 ≡ range start end)
          × (answered.0 ≡ partial start end 3 (slice obj start (end + 1)))))
    × faithful0.Good answered.1
unfolding faithful0
handle_range_get_right_example =
    handle_range_get_right (one_key key0) backend0 (codes "b") (codes "k") 4 obj (omega arith)
      faithful0 holds0 (codes "bytes=1-9") none (λ bytes e. ground arith)

-- two chunks, of two bytes and of one
abbrev frames0 : List Frame
frames0 = (codes "2;chunk-signature=a\r", 5 ∷ 6 ∷ []) ∷ (codes "1\r", 7 ∷ []) ∷ []

frames0-AllFrames : AllFrames frames0
unfolding program
frames0-AllFrames = (
  record { no_newline = refl; announced = refl; not_empty = omega arith },
  (record { no_newline = refl; announced = refl; not_empty = omega arith }, tt),
)

abbrev three : ℕ → ℕ
three i = 3

drain-payload_example :
    drain 4 three three (new_aws_chunked_reader (encode frames0 (codes "0\r\n\r\n")))
    ≡ ended (5 ∷ 6 ∷ 7 ∷ []) eof
unfolding program
drain-payload_example =
    drain-payload frames0 three three 4 frames0-AllFrames (λ i. omega arith) (omega arith)
      (codes "0\r") (codes "\r\n") refl refl

drain-cut_off_example :
    drain 4 three three (new_aws_chunked_reader (encode frames0 (codes "40")))
    ≡ ended (5 ∷ 6 ∷ 7 ∷ []) eof
unfolding program
drain-cut_off_example =
    drain-cut_off frames0 three three 4 frames0-AllFrames (λ i. omega arith) (omega arith)
      (codes "40") refl

-- Two chunks of two bytes that arrive in the wrong order.
abbrev late_first : List Chunk
late_first = chunk 1 (12 ∷ []) ∷ chunk 0 (10 ∷ 11 ∷ []) ∷ []

abbrev always : ℕ → Bool
always id = true

run_test : run always 3 late_first ≡ (obj, Download.eof)
unfolding program run process deliver find erase
run_test = refl

run_complete_example : run always 3 late_first ≡ (obj, Download.eof)
unfolding program
run_complete_example =
    run_complete obj 2 always (λ id. refl) late_first (omega arith) (refl, (refl, tt)) tt
      (λ id h. ground arith)

-- The second chunk fails.
run-prefix_example :
    (n : ℕ) × ((run always 3 (chunk 0 (10 ∷ 11 ∷ []) ∷ chunk_err 1 ∷ [])).0
      ≡ slice obj 0 (min (n * 2) 3))
unfolding program
run-prefix_example = run-prefix obj 2 always (chunk 0 (10 ∷ 11 ∷ []) ∷ chunk_err 1 ∷ []) (refl, tt)

-- The second chunk never comes.
run-truncated_example :
    (n : ℕ) × (n ≤ 1)
    × (run always 3 (chunk 0 (10 ∷ 11 ∷ []) ∷ []) ≡ (slice obj 0 (min (n * 2) 3), Download.eof))
unfolding program
run-truncated_example =
    run-truncated obj 2 always (λ id. refl) (chunk 0 (10 ∷ 11 ∷ []) ∷ []) 1 (refl, tt) tt refl

drain-IsFinished_example : IsFinished (drain 5 three three (new_aws_chunked_reader (codes "zz\n1")))
drain-IsFinished_example =
    drain-IsFinished (codes "zz\n1") three three 5 (λ i. omega arith) (omega arith)
