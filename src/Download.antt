-- ===== src/Download.antt =====
-- concurrentReader of internal/backend/azureblob/concurrent_reader.go: workers download the chunks
-- of a blob, and run() writes them to a pipe in order. The workers and their channels are left to
-- the schedule: a list of results, in the order in which they arrive.
pub mod Delivery
pub mod Complete
pub mod Ended
pub mod Workers
use azs3_proxy.Prelude.{
  ℕ, zero, suc, ◌+◌, ◌-◌, ◌*◌, ◌/◌, Bool, true, false, Option, none, some, List, [], ◌∷◌, ◌++◌,
  length, take, ltb, ◌==◌, if◌then◌else◌,
}

-- `chunk`; a result with an error has no data
pub data Chunk : Type 0 where
  chunk : (id : ℕ) (bytes : List ℕ) → Chunk
  chunk_err : (id : ℕ) → Chunk

abbrev pub num_chunks : ℕ → ℕ → ℕ
num_chunks blob_size chunk_size = (blob_size + chunk_size - 1) / chunk_size

-- the offset and the length that a worker asks for
abbrev pub chunk_start : ℕ → ℕ → ℕ
chunk_start chunk_size id = id * chunk_size

abbrev pub chunk_count : ℕ → ℕ → ℕ → ℕ
chunk_count blob_size chunk_size id =
    let start = chunk_start chunk_size id in
    if ltb blob_size (start + chunk_size) then blob_size - start else chunk_size

-- What a worker sends for a chunk. `download` is DownloadStream for an offset and a count, and
-- io.ReadFull is an error when the body is shorter than the buffer, and takes no more than fits.
unfoldable pub work : (ℕ → ℕ → Option (List ℕ)) → ℕ → ℕ → ℕ → Chunk
work download blob_size chunk_size id =
    let count = chunk_count blob_size chunk_size id in
    elim (download (chunk_start chunk_size id) count) [
      | none ↦ chunk_err id
      | some body ↦ if ltb (length body) count then chunk_err id else chunk id (take count body)
    ]

-- the map of chunks that wait for their turn
abbrev pub Buffer : Type 0
Buffer = List (ℕ × List ℕ)

unfoldable pub find : ℕ → Buffer → Option (List ℕ)
find id [] = none
find id ((j, bytes) ∷ m) = if j == id then some bytes else find id m

unfoldable pub erase : ℕ → Buffer → Buffer
erase id [] = []
erase id ((j, bytes) ∷ m) = let rest = erase id m in if j == id then rest else (j, bytes) ∷ rest

-- What the inner loop leaves: the bytes written, the buffer, the next chunk, and whether the pipe
-- took every write.
pub record Delivered : Type 0 where
  pub written : List ℕ
  pub buffer : Buffer
  pub next : ℕ
  pub open_pipe : Bool

-- The inner loop. Each round takes a chunk out of the buffer, so one round more than there are
-- chunks is enough. `takes id` says whether the pipe takes the write of a chunk.
unfoldable pub deliver : (ℕ → Bool) → ℕ → Buffer → ℕ → Delivered
deliver takes zero m next = record { written = []; buffer = m; next = next; open_pipe = true }
deliver takes (suc fuel) m next = elim (find next m) [
  | none ↦ record { written = []; buffer = m; next = next; open_pipe = true }
  | some bytes ↦ elim (takes next) [
    | false ↦ record { written = []; buffer = erase next m; next = next; open_pipe = false }
    | true ↦
        let r = deliver takes fuel (erase next m) (next + 1) in
        record r { written = bytes ++ r.written }
  ]
]

-- How the reader's side of the pipe ends: at io.EOF, with a worker's error, or closed by the reader.
pub data Ending : Type 0 where
  eof worker_error reader_closed : Ending

-- The loop over the results. When they end, the deferred Close ends the pipe with io.EOF.
unfoldable pub process : (ℕ → Bool) → List Chunk → Buffer → ℕ → List ℕ × Ending
process takes [] m next = ([], eof)
process takes (chunk_err id ∷ results) m next = ([], worker_error)
process takes (chunk id bytes ∷ results) m next =
    let m1 = (id, bytes) ∷ erase id m in
    let r = deliver takes (suc (length m1)) m1 next in
    let rest = process takes results r.buffer r.next in
    elim r.open_pipe [ true ↦ (r.written ++ rest.0, rest.1) | false ↦ (r.written, reader_closed) ]

-- run(), for the results that the workers send
unfoldable pub run : (ℕ → Bool) → ℕ → List Chunk → List ℕ × Ending
run takes blob_size results = if blob_size == 0 then ([], eof) else process takes results [] 0
