-- ===== src/Download/Delivery.antt =====
-- What the reader of the pipe sees, in whatever order the workers finish.
use azs3_proxy.Prelude.{
  ℕ, zero, suc, ◌+◌, ◌≤◌, ◌<◌, ◌≡◌, refl, ap₂, ◌∙◌, Bool, true, false, ◌||◌, none, some, List, [],
  ◌∷◌, ◌++◌, length, block, blocks, inl, inr, Option-cases, Bool-cases, arith, ◌==◌, if◌then◌else◌,
}
use azs3_proxy.Download.{Chunk, chunk, chunk_err, Buffer, find, erase, Delivered, deliver}

pub find-erase : (p q : ℕ) (m : Buffer) → find q (erase p m) ≡ (if p == q then none else find q m)
unfolding find erase
find-erase p q [] = ground arith
find-erase p q ((j, b) ∷ m) = ground (arith, find-erase p q m)

length-erase-le : (p : ℕ) (m : Buffer) → length (erase p m) ≤ length m
unfolding erase
length-erase-le p [] = omega arith
length-erase-le p ((j, b) ∷ m) = ground (arith, length-erase-le p m)

length-erase : (p : ℕ) (b : List ℕ) (m : Buffer) → find p m ≡ some b → length (erase p m) < length m
unfolding find erase
length-erase p b [] h = cc
length-erase p b ((j, c) ∷ m) h = ground (arith, length-erase p b m, length-erase-le p m)

-- whether a chunk with data is among the results
abbrev pub sends : ℕ → List Chunk → Bool
sends id [] = false
sends id (chunk j b ∷ results) = let rest = sends id results in (j == id) || rest
sends id (chunk_err j ∷ results) = sends id results

-- no worker failed
abbrev pub NoErrors : List Chunk → Type 0
NoErrors [] = Unit
NoErrors (chunk j b ∷ results) = NoErrors results
NoErrors (chunk_err j ∷ results) = ⊥

module _ (takes : ℕ → Bool) where
  deliver_stop :
      (fuel next : ℕ) (m : Buffer)
      → find next m ≡ none
      → deliver takes (suc fuel) m next
        ≡ record { written = []; buffer = m; next = next; open_pipe = true }
  unfolding deliver
  deliver_stop fuel next m h = rw (h, deliver)

  deliver_go :
      (fuel next : ℕ) (m : Buffer) (b : List ℕ)
      → find next m ≡ some b
      → takes next ≡ true
      → let r = deliver takes fuel (erase next m) (next + 1) in
        deliver takes (suc fuel) m next ≡ record r { written = b ++ r.written }
  unfolding deliver
  deliver_go fuel next m b h t = rw (h, deliver) (rw t)

  deliver_shut :
      (fuel next : ℕ) (m : Buffer) (b : List ℕ)
      → find next m ≡ some b
      → takes next ≡ false
      → deliver takes (suc fuel) m next
        ≡ record { written = []; buffer = erase next m; next = next; open_pipe = false }
  unfolding deliver
  deliver_shut fuel next m b h t = rw (h, deliver) (rw t)

-- With more rounds than chunks, the inner loop stops because the next chunk has not come.
pub deliver-stopped :
    (takes : ℕ → Bool) (always : (id : ℕ) → takes id ≡ true) (fuel : ℕ) (m : Buffer) (next : ℕ)
    → length m < fuel
    → let r = deliver takes fuel m next in (r.open_pipe ≡ true) × (find r.next r.buffer ≡ none)
deliver-stopped takes always zero m next h = absurd (omega arith)
deliver-stopped takes always (suc fuel) m next h = elim (Option-cases (find next m)) [
  | inl gone ↦ rw (deliver_stop takes fuel next m gone) (refl, gone)
  | inr (b, there) ↦ rw (deliver_go takes fuel next m b there (always next)) (
      deliver-stopped takes always fuel (erase next m) (next + 1)
        (omega (arith, length-erase next b m there)))
]

module _ (blob : List ℕ) (chunk_size : ℕ) where
  abbrev pub RightBuffer : Buffer → Type 0
  RightBuffer m = (id : ℕ) (b : List ℕ) → find id m ≡ some b → b ≡ block blob chunk_size id

  -- every chunk with data has the blob's bytes
  abbrev pub RightResults : List Chunk → Type 0
  RightResults [] = Unit
  RightResults (chunk id b ∷ results) = (b ≡ block blob chunk_size id) × RightResults results
  RightResults (chunk_err id ∷ results) = RightResults results

  erase-RightBuffer : (p : ℕ) (m : Buffer) → RightBuffer m → RightBuffer (erase p m)
  erase-RightBuffer p m h id b e = ground (arith, find-erase p id m, h id b)

  pub insert-RightBuffer :
      (p : ℕ) (b : List ℕ) (m : Buffer)
      → b ≡ block blob chunk_size p
      → RightBuffer m
      → RightBuffer ((p, b) ∷ erase p m)
  unfolding find
  insert-RightBuffer p b m h g id c e = ground (arith, find-erase p id m, g id c, h)

  -- What the inner loop has done: it wrote the blocks from the old next chunk to the new one.
  pub record Ran (m : Buffer) (next : ℕ) (r : Delivered) : Type 0 where
    pub count : ℕ
    pub advanced : r.next ≡ next + count
    pub wrote : r.written ≡ blocks blob chunk_size next count
    pub right : RightBuffer r.buffer
    pub kept : (id : ℕ) → r.next ≤ id → r.open_pipe ≡ true → find id r.buffer ≡ find id m
    pub passed : (id : ℕ) → next ≤ id → find id m ≡ none → r.next ≤ id

  pub deliver-Ran :
      (takes : ℕ → Bool) (fuel : ℕ) (m : Buffer) (next : ℕ)
      → RightBuffer m
      → Ran m next (deliver takes fuel m next)
  unfolding blocks
  deliver-Ran takes zero m next h =
      unfold deliver in
      record {
        count = 0;
        advanced = omega arith;
        wrote = refl;
        right = h;
        kept = λ id l o. refl;
        passed = λ id l a. l;
      }
  deliver-Ran takes (suc fuel) m next h = elim (Option-cases (find next m)) [
    | inl gone ↦ rw (deliver_stop takes fuel next m gone) (record {
      count = 0;
      advanced = omega arith;
      wrote = refl;
      right = h;
      kept = λ id l o. refl;
      passed = λ id l a. l;
    })
    | inr (b, there) ↦ elim (Bool-cases (takes next)) [
      | inr shut ↦ rw (deliver_shut takes fuel next m b there shut) (record {
        count = 0;
        advanced = omega arith;
        wrote = refl;
        right = erase-RightBuffer next m h;
        kept = λ id l o. cc;
        passed = λ id l a. l;
      })
      | inl go ↦
          let r = deliver-Ran takes fuel (erase next m) (next + 1) (erase-RightBuffer next m h) in
          rw (deliver_go takes fuel next m b there go) (record {
            count = suc r.count;
            advanced = omega (arith, r.advanced);
            wrote = ap₂ ◌++◌ (h next b there) r.wrote;
            right = r.right;
            kept = λ id l o.
                r.kept id l o
                ∙ find-erase next id m
                ∙ (let other : (next == id) ≡ false = ground (arith, r.advanced) in rw other);
            passed = λ id l a. ground (arith, find-erase next id m, r.passed id);
          })
    ]
  ]
