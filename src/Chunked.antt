-- ===== src/Chunked.antt =====
-- AwsChunkedReader of internal/handler/chunked_reader.go over a bufio.Reader, whose only error is
-- io.EOF at the end of the bytes of the connection.
pub mod Frames
pub mod Ends
use azs3_proxy.Prelude.{
  ℕ, zero, suc, ◌+◌, ◌-◌, ◌≤◌, Text, Bool, ◌&&◌, Option, none, some, List, [], ◌∷◌, ◌++◌, length,
  take, drop, min, cut, trim_space, leb, ltb, ◌==◌, if◌then◌else◌,
}
use azs3_proxy.Range.Numbers.{Int64, positive, negative, parse_int}

pub data ReadError : Type 0 where
  eof malformed_size unexpected_eof : ReadError

-- `input` is what the bufio.Reader has still to give. `left` is at least 0, since a Read that gets
-- a negative size panics.
pub record AwsChunkedReader : Type 0 where
  pub input : List ℕ
  pub left : ℕ
  pub err : Option ReadError

abbrev pub new_aws_chunked_reader : List ℕ → AwsChunkedReader
new_aws_chunked_reader input = record { input = input; left = 0; err = none }

-- What Read gives back: the bytes, and an error; or a panic of `p[:readLen]`.
pub data ReadResult : Type 0 where
  gave : List ℕ → Option ReadError → ReadResult
  panicked : ReadResult

abbrev fail : ReadError → AwsChunkedReader → AwsChunkedReader × ReadResult
fail e c = (record c { err = some e }, gave [] (some e))

-- the size in a header line: up to a semicolon, without white space, in base 16
unfoldable pub chunk_size : Text → Option Int64
chunk_size line = elim (cut b';' line) [
  | none ↦ parse_int 16 (trim_space line)
  | some (size_hex, _) ↦ parse_int 16 (trim_space size_hex)
]

-- The second half of Read; Discard(2) that finds fewer bytes gives io.EOF. It starts at
-- `readLen`. `p` is the length of the buffer. bufio.Read gives at
-- least one byte and at most what is asked for, while there is input and something is asked for:
-- `ready` is the number that it has at hand, less one. At the end of the input it gives io.EOF.
unfoldable pub read_body : ℕ → ℕ → AwsChunkedReader → AwsChunkedReader × ReadResult
read_body p ready c =
    let read_len = min p c.left in
    let n = min (min read_len (ready + 1)) (length c.input) in
    let bytes = take n c.input in
    let rest = drop n c.input in
    let at_eof = length c.input == 0 && ltb 0 read_len in
    let left = c.left - n in
    if left == 0
    then if ltb (length rest) 2
      then (record c { input = []; left = left; err = some eof }, gave bytes (some eof))
      else (record c { input = drop 2 rest; left = left }, gave bytes none)
    else if at_eof
    then (
      record c { input = rest; left = left; err = some unexpected_eof },
      gave bytes (some unexpected_eof),
    )
    else (record c { input = rest; left = left }, gave bytes none)

-- a header line and its newline; `none` where the input ends before a newline
abbrev read_line : List ℕ → Option (Text × List ℕ)
read_line input = cut 10 input

-- the first half of Read, at the start of a chunk
unfoldable pub read_header : ℕ → ℕ → AwsChunkedReader → AwsChunkedReader × ReadResult
read_header p ready c = elim (read_line c.input) [
  | none ↦ fail eof (record c { input = [] })
  | some (line, rest) ↦ elim (chunk_size line) [
    | none ↦ fail malformed_size (record c { input = rest })
    | some (negative zero) ↦ fail eof (record c { input = rest })
    | some (negative (suc n)) ↦ (record c { input = rest }, panicked)
    | some (positive zero) ↦ fail eof (record c { input = rest })
    | some (positive (suc n)) ↦ read_body p ready (record c { input = rest; left = suc n })
  ]
]

-- Read
unfoldable pub read : ℕ → ℕ → AwsChunkedReader → AwsChunkedReader × ReadResult
read p ready c = elim c.err [
  | some e ↦ (c, gave [] (some e))
  | none ↦ if c.left == 0 then read_header p ready c else read_body p ready c
]

pub data Drained : Type 0 where
  ended : List ℕ → ReadError → Drained
  crashed : List ℕ → Drained
  out_of_fuel : List ℕ → Drained

abbrev pub prepend : List ℕ → Drained → Drained
prepend bytes (ended more e) = ended (bytes ++ more) e
prepend bytes (crashed more) = crashed (bytes ++ more)
prepend bytes (out_of_fuel more) = out_of_fuel (bytes ++ more)

-- A caller that reads to the end, as io.ReadAll and io.Copy do: the reads until one returns an
-- error. `p` and `ready` give the buffer and the bytes at hand at each read.
unfoldable pub drain : ℕ → (ℕ → ℕ) → (ℕ → ℕ) → AwsChunkedReader → Drained
drain zero p ready c = out_of_fuel []
drain (suc fuel) p ready c =
    let (c1, result) = read (p fuel) (ready fuel) c in
    elim result [
      | panicked ↦ crashed []
      | gave bytes (some e) ↦ ended bytes e
      | gave bytes none ↦ prepend bytes (drain fuel p ready c1)
    ]
