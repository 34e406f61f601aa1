-- ===== src/Download/Ended.antt =====
-- What the end of the stream tells.
use azs3_proxy.Prelude.{ℕ, suc, ◌≡◌, ◌≢◌, refl, true, Bool, List, [], ◌∷◌, length, arith}
use azs3_proxy.Download.{Chunk, chunk, chunk_err, Buffer, erase, eof, deliver, process, run}
use azs3_proxy.Download.Delivery.{NoErrors, deliver-stopped}

process-NoErrors :
    (takes : ℕ → Bool) (always : (id : ℕ) → takes id ≡ true) (results : List Chunk) (m : Buffer)
    (next : ℕ)
    → (process takes results m next).1 ≡ eof
    → NoErrors results
unfolding process
process-NoErrors takes always [] m next e = tt
process-NoErrors takes always (chunk_err id ∷ results) m next e = cc
process-NoErrors takes always (chunk id bytes ∷ results) m next e =
    let m1 = (id, bytes) ∷ erase id m in
    let d = deliver takes (suc (length m1)) m1 next in
    let (opened, stop) = deliver-stopped takes always (suc (length m1)) m1 next (omega arith) in
    let f : (process takes results d.buffer d.next).1 ≡ eof = ground (arith, e, opened) in
    process-NoErrors takes always results d.buffer d.next f

-- A reader that takes all and sees io.EOF, of a blob that is not empty, saw no failed chunk.
pub run-NoErrors :
    (size : ℕ) (results : List Chunk)
    → size ≢ 0
    → (run (λ id. true) size results).1 ≡ eof
    → NoErrors results
unfolding run
run-NoErrors size results pos e =
    process-NoErrors (λ id. true) (λ id. refl) results [] 0 (ground (arith, e, pos))
