-- ===== src/AzureBlob/Uploads/Ordered.antt =====
-- Parts in any order, and what is made of them in the order of their numbers.
use mathlib.Core.Path.{subst}
use azs3_proxy.Prelude.{
  ℕ, zero, suc, ◌+◌, ◌≤◌, ◌<◌, ◌≡◌, refl, sym, ap, ◌∙◌, Text, Option, none, some, List, [], ◌∷◌,
  ◌++◌, length, arith, Bool-cases, inl, inr, ◌==◌, ltb, if◌then◌else◌,
}
use azs3_proxy.AzureBlob.{PartData, quoted}
use azs3_proxy.AzureBlob.Account.{joined}
use azs3_proxy.AzureBlob.Uploads.BlockIds.{block_id}
use azs3_proxy.AzureBlob.Uploads.{
  Parts, find_part, delete_part, set_part, insert_sorted, sorted_parts, block_ids, digests,
}

-- The uploads of parts, the newest first.
abbrev pub History : Type 0
History = List (ℕ × List ℕ)

-- the bytes that were last uploaded as a part
unfoldable pub newest : ℕ → History → Option (List ℕ)
newest n [] = none
newest n ((j, bytes) ∷ sent) = if j == n then some bytes else newest n sent

abbrev or_nil : (List ℕ → List ℕ) → Option (List ℕ) → List ℕ
or_nil f none = []
or_nil f (some bytes) = f bytes

-- the bytes themselves
abbrev pub whole : ℕ → List ℕ → List ℕ
whole n bytes = bytes

-- What a function gives for the number and the last upload of each part, in the order of the part
-- numbers from `lo` on, one behind the other.
unfoldable pub assembled : (ℕ → List ℕ → List ℕ) → ℕ → ℕ → History → List ℕ
assembled f lo zero sent = []
assembled f lo (suc count) sent = or_nil (f lo) (newest lo sent) ++ assembled f (suc lo) count sent

-- no part number stands twice
abbrev pub IsMap : Parts → Type 0
IsMap [] = Unit
IsMap ((n, part) ∷ parts) = (find_part n parts ≡ none) × IsMap parts

abbrev Ascending : ℕ → Parts → Type 0
Ascending lo [] = Unit
Ascending lo ((n, part) ∷ parts) = (lo ≤ n) × Ascending (suc n) parts

pub find_part-delete_part :
    (k j : ℕ) (parts : Parts)
    → find_part j (delete_part k parts) ≡ (if k == j then none else find_part j parts)
unfolding find_part delete_part
find_part-delete_part k j [] = ground arith
find_part-delete_part k j ((i, part) ∷ parts) = ground (arith, find_part-delete_part k j parts)

delete_part-IsMap : (k : ℕ) (parts : Parts) → IsMap parts → IsMap (delete_part k parts)
unfolding delete_part
delete_part-IsMap k [] h = tt
delete_part-IsMap k ((i, part) ∷ parts) (h, hs) = elim (Bool-cases (i == k)) [
  | inl same ↦ rw same (delete_part-IsMap k parts hs)
  | inr other ↦
      rw other (ground (arith, h, find_part-delete_part k i parts), delete_part-IsMap k parts hs)
]

pub set_part-IsMap :
    (n : ℕ) (part : PartData) (parts : Parts) → IsMap parts → IsMap (set_part n part parts)
unfolding set_part
set_part-IsMap n part parts h =
    (ground (arith, find_part-delete_part n n parts), delete_part-IsMap n parts h)

pub find_part-set_part :
    (n j : ℕ) (part : PartData) (parts : Parts)
    → find_part j (set_part n part parts) ≡ (if n == j then some part else find_part j parts)
unfolding set_part find_part
find_part-set_part n j part parts = ground (arith, find_part-delete_part n j parts)

find_part-insert_sorted :
    (n j : ℕ) (part : PartData) (parts : Parts)
    → find_part n parts ≡ none
    → find_part j (insert_sorted n part parts) ≡ (if n == j then some part else find_part j parts)
unfolding find_part insert_sorted
find_part-insert_sorted n j part [] h = ground arith
find_part-insert_sorted n j part ((i, other) ∷ parts) h =
    ground (arith, h, find_part-insert_sorted n j part parts)

find_part-sorted_parts :
    (j : ℕ) (parts : Parts) → IsMap parts → find_part j (sorted_parts parts) ≡ find_part j parts
unfolding sorted_parts find_part
find_part-sorted_parts j [] h = refl
find_part-sorted_parts j ((n, part) ∷ parts) (h, hs) =
    let there = find_part-sorted_parts n parts hs ∙ h in
    find_part-insert_sorted n j part (sorted_parts parts) there
    ∙ ap (λ o. if n == j then some part else o) (find_part-sorted_parts j parts hs)

insert_sorted-Ascending :
    (lo n : ℕ) (part : PartData) (parts : Parts)
    → lo ≤ n
    → find_part n parts ≡ none
    → Ascending lo parts
    → Ascending lo (insert_sorted n part parts)
unfolding find_part insert_sorted
insert_sorted-Ascending lo n part [] l h a = (l, tt)
insert_sorted-Ascending lo n part ((i, other) ∷ parts) l h (a, above) =
    elim (Bool-cases (ltb n i)) [
      | inl before ↦ rw before (l, (ground (arith, before), above))
      | inr behind ↦ rw behind (
        a,
        insert_sorted-Ascending (suc i) n part parts (ground (arith, h, behind)) (ground (arith, h))
            above,
      )
    ]

sorted_parts-Ascending : (parts : Parts) → IsMap parts → Ascending 0 (sorted_parts parts)
unfolding sorted_parts
sorted_parts-Ascending [] h = tt
sorted_parts-Ascending ((n, part) ∷ parts) (h, hs) =
    insert_sorted-Ascending 0 n part (sorted_parts parts) (omega arith)
      (find_part-sorted_parts n parts hs ∙ h) (sorted_parts-Ascending parts hs)

find_part-below :
    (lo n : ℕ) (parts : Parts) → n < lo → Ascending lo parts → find_part n parts ≡ none
unfolding find_part
find_part-below lo n [] l a = refl
find_part-below lo n ((i, part) ∷ parts) l (a, above) =
    ground (arith, find_part-below (suc i) n parts (omega arith) above)

module _ (md5_sum : List ℕ → List ℕ) where
  -- what is kept of a part
  abbrev pub kept : ℕ → Option (List ℕ) → Option PartData
  kept n none = none
  kept n (some bytes) =
      some (record { block_id = block_id n; md5 = md5_sum bytes; etag = quoted (md5_sum bytes) })

  kept_some :
      (n : ℕ) (part : PartData) (o : Option (List ℕ))
      → kept n o ≡ some part
      → (bytes : List ℕ) × (o ≡ some bytes)
        × (part.block_id ≡ block_id n)
        × (part.md5 ≡ md5_sum bytes)
  kept_some n part none h = cc
  kept_some n part (some bytes) h =
      let made : PartData = record {
        block_id = block_id n;
        md5 = md5_sum bytes;
        etag = quoted (md5_sum bytes);
      } in
      let e : made ≡ part = cc in
      (bytes, refl, sym (ap (λ p. p.block_id) e), sym (ap (λ p. p.md5) e))

  kept_none : (n : ℕ) (o : Option (List ℕ)) → kept n o ≡ none → o ≡ none
  kept_none n none h = refl
  kept_none n (some bytes) h = cc

module _ (md5_sum : List ℕ → List ℕ) (stand : ℕ → List ℕ → List ℕ) (sent : History)
    (block : Text → Option (List ℕ))
    (staged : (n : ℕ) (bytes : List ℕ)
      → newest n sent ≡ some bytes
      → block (block_id n) ≡ some (stand n bytes)) where
  -- blocks and hashes of an ascending list of parts
  record Joined (lo count : ℕ) (parts : Parts) : Type 0 where
    bytes : joined block (block_ids parts) ≡ some (assembled stand lo count sent)
    hashes : digests parts ≡ assembled (λ n. md5_sum) lo count sent
    number : length parts ≡ length (assembled (λ n b. 0 ∷ []) lo count sent)

  absent-Joined :
      (count lo : ℕ) (parts : Parts)
      → newest lo sent ≡ none
      → Joined (suc lo) count parts
      → Joined lo (suc count) parts
  unfolding assembled
  absent-Joined count lo parts e j = record {
    bytes = rw e j.bytes;
    hashes = rw e j.hashes;
    number = rw e j.number;
  }

  present-Joined :
      (count lo n : ℕ) (bytes : List ℕ) (part : PartData) (parts : Parts)
      → newest lo sent ≡ some bytes
      → part.block_id ≡ block_id lo
      → part.md5 ≡ md5_sum bytes
      → Joined (suc lo) count parts
      → Joined lo (suc count) ((n, part) ∷ parts)
  unfolding assembled joined
  present-Joined count lo n bytes part parts e id hash j =
      let here : block part.block_id ≡ some (stand lo bytes) = ap block id ∙ staged lo bytes e in
      record {
        bytes = ground (arith, here, e, j.bytes);
        hashes = ground (arith, hash, e, j.hashes);
        number = rw e (ap suc j.number);
      }

  Ascending-Joined :
      (count lo : ℕ) (parts : Parts)
      → ((n : ℕ) → lo ≤ n → find_part n parts ≡ kept md5_sum n (newest n sent))
      → ((n : ℕ) → lo + count ≤ n → newest n sent ≡ none)
      → Ascending lo parts
      → Joined lo count parts
  Ascending-Joined zero lo [] same top a =
      unfold assembled joined in record { bytes = refl; hashes = refl; number = refl }
  Ascending-Joined zero lo ((n, part) ∷ parts) same top (l, above) =
      let f : find_part n ((n, part) ∷ parts) ≡ some part = unfold find_part in ground arith in
      let (bytes, e, _, _) = kept_some md5_sum n part (newest n sent) (sym (same n l) ∙ f) in
      let g = top n (omega (arith, l)) in cc
  Ascending-Joined (suc count) lo [] same top a =
      let f : find_part lo [] ≡ none = unfold find_part in refl in
      absent-Joined count lo []
        (kept_none md5_sum lo (newest lo sent) (sym (same lo (omega arith)) ∙ f))
        (Ascending-Joined count (suc lo) [] (λ n h. same n (omega (arith, h)))
          (λ n h. top n (omega (arith, h))) tt)
  Ascending-Joined (suc count) lo ((n, part) ∷ parts) same top (l, above) =
      elim (Bool-cases (lo == n)) [
        | inl here ↦
            let at : n ≡ lo = ground (arith, here) in
            let f : find_part lo ((n, part) ∷ parts) ≡ some part =
              unfold find_part in ground (arith, at) in
            let (bytes, e, id, hash) =
              kept_some md5_sum lo part (newest lo sent) (sym (same lo (omega arith)) ∙ f) in
            present-Joined count lo n bytes part parts e id hash (
              Ascending-Joined count (suc lo) parts
                (λ m h.
                  let g : find_part m ((n, part) ∷ parts) ≡ find_part m parts =
                    unfold find_part in ground (arith, at, h) in
                  sym g ∙ same m (omega (arith, h)))
                (λ m h. top m (omega (arith, h))) (subst (λ k. Ascending (suc k) parts) at above))
        | inr later ↦
            let up : suc lo ≤ n = ground (arith, later, l) in
            let f = find_part-below n lo ((n, part) ∷ parts) up (omega arith, above) in
            absent-Joined count lo ((n, part) ∷ parts)
              (kept_none md5_sum lo (newest lo sent) (sym (same lo (omega arith)) ∙ f))
              (Ascending-Joined count (suc lo) ((n, part) ∷ parts)
                (λ m h. same m (omega (arith, h))) (λ m h. top m (omega (arith, h))) (up, above))
      ]

  -- The blocks, the hashes and the number of the parts, in the order of CompleteMultipartUpload.
  pub sorted_parts-assembled :
      (bound : ℕ) (parts : Parts)
      → IsMap parts
      → ((n : ℕ) → find_part n parts ≡ kept md5_sum n (newest n sent))
      → ((n : ℕ) → bound ≤ n → newest n sent ≡ none)
      → (joined block (block_ids (sorted_parts parts)) ≡ some (assembled stand 0 bound sent))
        × (digests (sorted_parts parts) ≡ assembled (λ n. md5_sum) 0 bound sent)
        × (length (sorted_parts parts) ≡ length (assembled (λ n b. 0 ∷ []) 0 bound sent))
  sorted_parts-assembled bound parts map same top =
      let j =
        Ascending-Joined bound 0 (sorted_parts parts)
          (λ n h. find_part-sorted_parts n parts map ∙ same n) (λ n h. top n (omega (arith, h)))
          (sorted_parts-Ascending parts map) in
      (j.bytes, j.hashes, j.number)
