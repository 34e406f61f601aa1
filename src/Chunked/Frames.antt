-- ===== src/Chunked/Frames.antt =====
-- Reading a whole aws-chunked body gives the chunks' data, however the reads are cut.
use azs3_proxy.Prelude.{
  ℕ, zero, suc, ◌+◌, ◌<◌, ◌≡◌, refl, sym, ap, ◌∙◌, Text, none, some, List, [], ◌∷◌, ◌++◌,
  append_assoc, append-nil, length, length-append, length-drop, take, drop, take-append,
  drop-append, take-append-drop, take_of_length-le, drop_all, min, cut, cut-append, arith, inl, inr,
  Bool-cases, ◌==◌, false, if◌then◌else◌,
}
use azs3_proxy.Range.Numbers.{positive, negative}
use azs3_proxy.Chunked.{
  AwsChunkedReader, new_aws_chunked_reader, ReadError, eof, ReadResult, gave, panicked, chunk_size,
  read_body, read_header, read, Drained, ended, crashed, out_of_fuel, prepend, drain,
}

-- A chunk: its header line without the newline, and its data.
abbrev pub Frame : Type 0
Frame = Text × List ℕ

-- the line announces the length of the data, which is not 0
pub record IsFrame (f : Frame) : Type 0 where
  pub no_newline : cut 10 f.0 ≡ none
  pub announced : chunk_size f.0 ≡ some (positive (length f.1))
  pub not_empty : 0 < length f.1

abbrev pub AllFrames : List Frame → Type 0
AllFrames [] = Unit
AllFrames (f ∷ frames) = IsFrame f × AllFrames frames

-- the bytes of the chunks, each behind its line and before CR LF, and of what follows them
abbrev pub encode : List Frame → List ℕ → List ℕ
encode [] tail = tail
encode (f ∷ frames) tail = f.0 ++ 10 ∷ (f.1 ++ 13 ∷ 10 ∷ encode frames tail)

abbrev pub payload : List Frame → List ℕ
payload [] = []
payload (f ∷ frames) = f.1 ++ payload frames

-- a reader within a chunk
abbrev within : List ℕ → List ℕ → AwsChunkedReader
within bytes more = record { input = bytes ++ 13 ∷ 10 ∷ more; left = length bytes; err = none }

-- One Read within a chunk gives some of its data, and steps over CR LF at the end.
read_body-within :
    (p ready : ℕ) (bytes more : List ℕ)
    → 0 < p
    → 0 < length bytes
    → let n = min (min p (length bytes)) (ready + 1) in
      read_body p ready (within bytes more) ≡ (
        if n == length bytes
        then (new_aws_chunked_reader more, gave bytes none)
        else (within (drop n bytes) more, gave (take n bytes) none))
unfolding read_body
read_body-within p ready bytes more h k =
    let n = min (min p (length bytes)) (ready + 1) in
    let rest = 13 ∷ 10 ∷ more in
    let all : length (bytes ++ rest) ≡ length bytes + suc (suc (length more)) =
      length-append bytes rest in
    let same : min n (length (bytes ++ rest)) ≡ n = omega (arith, all) in
    let front = take-append n bytes rest (omega arith) in
    let back = drop-append n bytes rest (omega arith) in
    let left = length-drop n bytes in
    rw (same, front, back)
      (elim (Bool-cases (n == length bytes)) [
        | inl whole ↦
            let e : n ≡ length bytes = ground (arith, whole) in
            rw (drop_all bytes n (omega arith), take_of_length-le n bytes (omega arith))
              (ground (arith, e))
        | inr part ↦
            ground (arith, part, left, length-append (drop n bytes) rest, length-append bytes rest)
      ])

read-within :
    (p ready : ℕ) (bytes more : List ℕ)
    → 0 < p
    → 0 < length bytes
    → let n = min (min p (length bytes)) (ready + 1) in
      read p ready (within bytes more) ≡ (
        if n == length bytes
        then (new_aws_chunked_reader more, gave bytes none)
        else (within (drop n bytes) more, gave (take n bytes) none))
unfolding read
read-within p ready bytes more h k =
    let some_left : (length bytes == 0) ≡ false = ground arith in
    rw some_left (read_body-within p ready bytes more h k)

drain_step :
    (fuel : ℕ) (p ready : ℕ → ℕ) (c c1 : AwsChunkedReader) (bytes : List ℕ)
    → read (p fuel) (ready fuel) c ≡ (c1, gave bytes none)
    → drain (suc fuel) p ready c ≡ prepend bytes (drain fuel p ready c1)
unfolding drain
drain_step fuel p ready c c1 bytes h =
    rw (h, drain) (ap (λ r. prepend bytes (drain fuel p ready r)) (ap (λ r. r.0) h))

prepend-prepend : (xs ys : List ℕ) (d : Drained) → prepend xs (prepend ys d) ≡ prepend (xs ++ ys) d
prepend-prepend xs ys (ended zs e) = ap (λ l. ended l e) (sym (append_assoc xs ys zs))
prepend-prepend xs ys (crashed zs) = ap crashed (sym (append_assoc xs ys zs))
prepend-prepend xs ys (out_of_fuel zs) = ap out_of_fuel (sym (append_assoc xs ys zs))

prepend_nil : (d : Drained) → d ≡ prepend [] d
prepend_nil (ended zs e) = refl
prepend_nil (crashed zs) = refl
prepend_nil (out_of_fuel zs) = refl

-- what the reads of an input come to, if there are more of them than `need`
abbrev Ends : ℕ → (ℕ → ℕ) → (ℕ → ℕ) → List ℕ → Drained → Type 0
Ends need p ready input d =
    (fuel : ℕ) → need < fuel → drain fuel p ready (new_aws_chunked_reader input) ≡ d

drain-within :
    (fuel need : ℕ) (p ready : ℕ → ℕ) (bytes more : List ℕ) (d : Drained)
    → ((i : ℕ) → 0 < p i)
    → Ends need p ready more d
    → 0 < length bytes
    → need + length bytes < fuel
    → drain fuel p ready (within bytes more) ≡ prepend bytes d
drain-within zero need p ready bytes more d h rest k enough = absurd (omega arith)
drain-within (suc fuel) need p ready bytes more d h rest k enough =
    let n = min (min (p fuel) (length bytes)) (ready fuel + 1) in
    let some_room = h fuel in
    let step = read-within (p fuel) (ready fuel) bytes more some_room k in
    elim (Bool-cases (n == length bytes)) [
      | inl whole ↦
          rw
            (drain_step fuel p ready (within bytes more) (new_aws_chunked_reader more) bytes
              (rw whole at step))
            (rw (rest fuel (omega arith)))
      | inr part ↦
          let left = length-drop n bytes in
          let less : n < length bytes = ground (arith, part) in
          let again =
            drain-within fuel need p ready (drop n bytes) more d h rest (omega (arith, left))
              (omega (arith, left)) in
          rw
            (drain_step fuel p ready (within bytes more) (within (drop n bytes) more) (take n bytes)
              (rw part at step))
            (rw again (
              prepend-prepend (take n bytes) (drop n bytes) d
              ∙ ap (λ xs. prepend xs d) (take-append-drop n bytes)))
    ]

read_first :
    (p ready : ℕ) (f : Frame) (more : List ℕ)
    → IsFrame f
    → read p ready (new_aws_chunked_reader (f.0 ++ 10 ∷ (f.1 ++ 13 ∷ 10 ∷ more)))
      ≡ read p ready (within f.1 more)
unfolding read read_header
read_first p ready f more v =
    ground (arith, cut-append 10 f.0 (f.1 ++ 13 ∷ 10 ∷ more) v.no_newline, v.announced, v.not_empty)

-- A header line takes no Read of its own.
drain_header :
    (fuel : ℕ) (p ready : ℕ → ℕ) (f : Frame) (more : List ℕ)
    → IsFrame f
    → drain fuel p ready (new_aws_chunked_reader (f.0 ++ 10 ∷ (f.1 ++ 13 ∷ 10 ∷ more)))
      ≡ drain fuel p ready (within f.1 more)
unfolding drain
drain_header zero p ready f more v = refl
drain_header (suc fuel) p ready f more v =
    ap
      (λ (r : AwsChunkedReader × ReadResult). elim r.1 as (λ x. Drained) [
        | panicked ↦ crashed []
        | gave bytes err ↦ elim err as (λ x. Drained) [
          | some e ↦ ended bytes e
          | none ↦ prepend bytes (drain fuel p ready r.0)
        ]
      ])
      (read_first (p fuel) (ready fuel) f more v)

drain_frames :
    (frames : List Frame) (p ready : ℕ → ℕ) (tail : List ℕ) (d : Drained)
    → ((i : ℕ) → 0 < p i)
    → AllFrames frames
    → Ends 0 p ready tail d
    → Ends (length (payload frames)) p ready (encode frames tail) (prepend (payload frames) d)
drain_frames [] p ready tail d h v rest fuel enough = rest fuel enough ∙ prepend_nil d
drain_frames (f ∷ frames) p ready tail d h v rest fuel enough =
    rw (drain_header fuel p ready f (encode frames tail) v.0) (
      drain-within fuel (length (payload frames)) p ready f.1 (encode frames tail)
        (prepend (payload frames) d) h (drain_frames frames p ready tail d h v.1 rest) v.0.not_empty
        (omega (arith, length-append f.1 (payload frames)))
      ∙ prepend-prepend f.1 (payload frames) d)

drain_eof :
    (fuel : ℕ) (p ready : ℕ → ℕ) (c : AwsChunkedReader) (e : ReadError)
    → (read (p fuel) (ready fuel) c).1 ≡ gave [] (some e)
    → drain (suc fuel) p ready c ≡ ended [] e
unfolding drain
drain_eof fuel p ready c e h = rw (h, drain)

drain_panic :
    (fuel : ℕ) (p ready : ℕ → ℕ) (c : AwsChunkedReader)
    → (read (p fuel) (ready fuel) c).1 ≡ panicked
    → drain (suc fuel) p ready c ≡ crashed []
unfolding drain
drain_panic fuel p ready c h = rw (h, drain)

module _ (frames : List Frame) (p ready : ℕ → ℕ) (fuel : ℕ) (v : AllFrames frames)
    (room : (i : ℕ) → 0 < p i) (enough : length (payload frames) < fuel) where
  -- Reading a body of any chunks to its end gives the chunks' data, one behind the other, and
  -- io.EOF: for any sizes of the buffer above 0, however many bytes the connection has at hand at
  -- each read, and whatever stands behind the last chunk. One read more than there are bytes of
  -- data is enough.
  pub drain-payload :
      (line rest : List ℕ)
      → cut 10 line ≡ none
      → chunk_size line ≡ some (positive 0)
      → drain fuel p ready (new_aws_chunked_reader (encode frames (line ++ 10 ∷ rest)))
        ≡ ended (payload frames) eof
  drain-payload line rest h k =
      drain_frames frames p ready (line ++ 10 ∷ rest) (ended [] eof) room v ends fuel enough
      ∙ ap (λ xs. ended xs eof) (append-nil (payload frames))
    where
      reads :
          (a b : ℕ) → (read a b (new_aws_chunked_reader (line ++ 10 ∷ rest))).1 ≡ gave [] (some eof)
      reads a b = unfold read read_header in ground (arith, cut-append 10 line rest h, k)

      ends : Ends 0 p ready (line ++ 10 ∷ rest) (ended [] eof)
      ends = elim [
        | zero ↦ λ m. absurd (omega arith)
        | suc n ↦ λ m. drain_eof n p ready _ eof (reads (p n) (ready n))
      ]

  -- A body that is cut off between two chunks, or within a header line, is read as if it were
  -- complete: the data of the chunks before the cut, and io.EOF; for any sizes of the buffer above
  -- 0, and with one read more than there are bytes of data.
  pub drain-cut_off :
      (tail : List ℕ)
      → cut 10 tail ≡ none
      → drain fuel p ready (new_aws_chunked_reader (encode frames tail))
        ≡ ended (payload frames) eof
  drain-cut_off tail h =
      drain_frames frames p ready tail (ended [] eof) room v ends fuel enough
      ∙ ap (λ xs. ended xs eof) (append-nil (payload frames))
    where
      reads : (a b : ℕ) → (read a b (new_aws_chunked_reader tail)).1 ≡ gave [] (some eof)
      reads a b = unfold read read_header in ground (arith, h)

      ends : Ends 0 p ready tail (ended [] eof)
      ends = elim [
        | zero ↦ λ m. absurd (omega arith)
        | suc n ↦ λ m. drain_eof n p ready _ eof (reads (p n) (ready n))
      ]

  -- A header line with a size below 0, after any chunks, makes Read panic behind the data of the
  -- chunks; for any sizes of the buffer above 0, and with one read more than there are bytes of
  -- data.
  pub drain_negative :
      (line rest : List ℕ) (n : ℕ)
      → cut 10 line ≡ none
      → chunk_size line ≡ some (negative (suc n))
      → drain fuel p ready (new_aws_chunked_reader (encode frames (line ++ 10 ∷ rest)))
        ≡ crashed (payload frames)
  drain_negative line rest n h k =
      drain_frames frames p ready (line ++ 10 ∷ rest) (crashed []) room v ends fuel enough
      ∙ ap crashed (append-nil (payload frames))
    where
      reads : (a b : ℕ) → (read a b (new_aws_chunked_reader (line ++ 10 ∷ rest))).1 ≡ panicked
      reads a b = unfold read read_header in ground (arith, cut-append 10 line rest h, k)

      ends : Ends 0 p ready (line ++ 10 ∷ rest) (crashed [])
      ends = elim [
        | zero ↦ λ m. absurd (omega arith)
        | suc m ↦ λ l. drain_panic m p ready _ (reads (p m) (ready m))
      ]
