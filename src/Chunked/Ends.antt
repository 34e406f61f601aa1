-- ===== src/Chunked/Ends.antt =====
-- Reading a body to its end ends, whatever the body is.
use azs3_proxy.Prelude.{
  ℕ, zero, suc, ◌+◌, ◌-◌, ◌≤◌, ◌<◌, ◌≡◌, refl, Bool-cases, ◌&&◌, Option, Option-cases, some, none,
  List, [], ◌∷◌, length, drop, length-drop, min, cut, ltb, ◌==◌, inl, inr, arith, Text,
}
use azs3_proxy.Range.Numbers.{Int64, positive, negative}
use azs3_proxy.Chunked.{
  AwsChunkedReader, new_aws_chunked_reader, ReadResult, gave, panicked, chunk_size, read,
  read_header, read_body, Drained, ended, crashed, out_of_fuel, prepend, drain,
}

-- no read without an error is the last
abbrev pub IsFinished : Drained → Type 0
IsFinished (ended bytes e) = Unit {0}
IsFinished (crashed bytes) = Unit {0}
IsFinished (out_of_fuel bytes) = ⊥

-- a read ends the body, or takes something of it and has seen no error
abbrev Progress : AwsChunkedReader → AwsChunkedReader × ReadResult → Type 0
Progress c (c1, panicked) = Unit {0}
Progress c (c1, gave bytes (some e)) = Unit {0}
Progress c (c1, gave bytes none) = (c1.err ≡ none) × (length c1.input < length c.input)

read_body-Progress :
    (p ready : ℕ) (c : AwsChunkedReader)
    → 0 < p
    → 0 < c.left
    → c.err ≡ none
    → Progress c (read_body p ready c)
unfolding read_body
read_body-Progress p ready c h k e =
    let n = min (min (min p c.left) (ready + 1)) (length c.input) in
    let rest = drop n c.input in
    let size = length-drop n c.input in
    let size2 = length-drop 2 rest in
    elim (Bool-cases (c.left - n == 0)) [
      | inl whole ↦ elim (Bool-cases (ltb (length rest) 2)) [
        | inl short ↦ rw (whole, read_body) (rw short tt)
        | inr crlf ↦ rw (whole, read_body) (rw crlf (e, ground (arith, size, size2, crlf)))
      ]
      | inr part ↦ elim (Bool-cases (length c.input == 0 && ltb 0 (min p c.left))) [
        | inl empty ↦ rw (part, read_body) (rw empty tt)
        | inr some_input ↦
            rw (part, read_body) (rw some_input (e, ground (arith, size, some_input)))
      ]
    ]

-- a line that is read is gone
shorter : (a : ℕ) (s line rest : Text) → cut a s ≡ some (line, rest) → length rest < length s
unfolding cut
shorter a [] line rest h = absurd (ground (arith, h))
shorter a (c ∷ s) line rest h = elim (Option-cases (cut a s)) [
  | inl off ↦ ground (arith, off, h)
  | inr ((l, r), on) ↦ ground (arith, on, h, shorter a s l r on)
]

Progress-mono :
    (c d : AwsChunkedReader) (x : AwsChunkedReader × ReadResult)
    → length d.input ≤ length c.input
    → Progress d x
    → Progress c x
Progress-mono c d (c1, panicked) h q = tt
Progress-mono c d (c1, gave bytes (some e)) h q = tt
Progress-mono c d (c1, gave bytes none) h q = (q.0, omega arith)

module _ (p ready : ℕ) (c : AwsChunkedReader) (h : 0 < p) (e : c.err ≡ none) (line rest : Text)
    (found : cut 10 c.input ≡ some (line, rest)) where
  after_line : (x : Option Int64) → chunk_size line ≡ x → Progress c (read_header p ready c)
  unfolding read_header
  after_line none q = rw (found, read_header) (rw q tt)
  after_line (some (negative zero)) q = rw (found, read_header) (rw q tt)
  after_line (some (negative (suc n))) q = rw (found, read_header) (rw q tt)
  after_line (some (positive zero)) q = rw (found, read_header) (rw q tt)
  after_line (some (positive (suc n))) q =
      let d = record c { input = rest; left = suc n } in
      let less = shorter 10 c.input line rest found in
      rw (found, read_header)
        (rw q (
          Progress-mono c d (read_body p ready d) (omega arith)
            (read_body-Progress p ready d h (omega arith) e)))

read-Progress :
    (p ready : ℕ) (c : AwsChunkedReader) → 0 < p → c.err ≡ none → Progress c (read p ready c)
unfolding read read_header
read-Progress p ready c h e = elim (Bool-cases (c.left == 0)) [
  | inr inside ↦
      rw (e, read) (rw inside (read_body-Progress p ready c h (ground (arith, inside)) e))
  | inl start ↦ elim (Option-cases (cut 10 c.input)) [
    | inl no_line ↦ rw (e, read) (rw start (rw (no_line, read_header) tt))
    | inr ((line, rest), found) ↦
        rw (e, read) (rw start (after_line p ready c h e line rest found (chunk_size line) refl))
  ]
]

prepend-IsFinished : (bytes : List ℕ) (d : Drained) → IsFinished d → IsFinished (prepend bytes d)
prepend-IsFinished bytes (ended more e) f = tt
prepend-IsFinished bytes (crashed more) f = tt
prepend-IsFinished bytes (out_of_fuel more) f = absurd f

-- the rest of a drain, from a read on
step-IsFinished :
    (c : AwsChunkedReader) (x : AwsChunkedReader × ReadResult) (more : AwsChunkedReader → Drained)
    → Progress c x
    → ((d : AwsChunkedReader)
        → d.err ≡ none
        → length d.input < length c.input
        → IsFinished (more d))
    → IsFinished (elim x.1 [
      | panicked ↦ crashed []
      | gave bytes (some e) ↦ ended bytes e
      | gave bytes none ↦ prepend bytes (more x.0)
    ])
step-IsFinished c (c1, panicked) more q rest = tt
step-IsFinished c (c1, gave bytes (some e)) more q rest = tt
step-IsFinished c (c1, gave bytes none) more q rest =
    prepend-IsFinished bytes (more c1) (rest c1 q.0 q.1)

drain_from :
    (fuel : ℕ) (p ready : ℕ → ℕ) (c : AwsChunkedReader)
    → ((i : ℕ) → 0 < p i)
    → c.err ≡ none
    → length c.input < fuel
    → IsFinished (drain fuel p ready c)
unfolding drain
drain_from zero p ready c h e enough = absurd (omega arith)
drain_from (suc fuel) p ready c h e enough =
    step-IsFinished c (read (p fuel) (ready fuel) c) (λ d. drain fuel p ready d)
      (read-Progress (p fuel) (ready fuel) c (h fuel) e)
      (λ d no_error less. drain_from fuel p ready d h no_error (omega arith))

-- For any bytes, any sizes of the buffer above 0 and any arrival of the bytes, reading to the end
-- comes to an error, io.EOF among them, or to a panic, in at most one Read more than there are
-- bytes.
pub drain-IsFinished :
    (input : List ℕ) (p ready : ℕ → ℕ) (fuel : ℕ)
    → ((i : ℕ) → 0 < p i)
    → length input < fuel
    → IsFinished (drain fuel p ready (new_aws_chunked_reader input))
drain-IsFinished input p ready fuel h enough =
    drain_from fuel p ready (new_aws_chunked_reader input) h refl enough
