-- ===== src/Bandwidth/Starved.antt =====
-- When take waits for ever.
use mathlib.Core.Path.{subst}
use azs3_proxy.Prelude.{
  ℕ, zero, suc, ◌-◌, ◌<◌, ◌≡◌, refl, Bool-cases, true, false, some, inl, inr, arith, ltb, ◌==◌,
}
use azs3_proxy.Bandwidth.{
  Floats, TokenBucket, new_token_bucket, refill_locked, waiting, take_loop, take,
}

module _ (fl : Floats) where
  -- the order of float64: math.Min is at most its first argument
  abbrev pub MinBelow : Type 0
  MinBelow = (x y z : fl.Float) → fl.at_least (fl.lowest x y) z ≡ true → fl.at_least x z ≡ true

  -- the bucket never holds as many tokens as n
  abbrev pub IsSmall : ℕ → TokenBucket fl → Type 0
  IsSmall n tb =
      (fl.at_least tb.capacity (fl.of_count n) ≡ false)
      × (fl.at_least tb.tokens (fl.of_count n) ≡ false)

  refill_locked-IsSmall :
      (n now : ℕ) (tb : TokenBucket fl)
      → MinBelow
      → IsSmall n tb
      → IsSmall n (refill_locked fl now tb)
  unfolding refill_locked
  refill_locked-IsSmall n now tb min_below small =
      let grown = fl.earned tb.tokens tb.fill_rate (now - tb.last) in
      let low : fl.at_least (fl.lowest tb.capacity grown) (fl.of_count n) ≡ false =
        elim (Bool-cases (fl.at_least (fl.lowest tb.capacity grown) (fl.of_count n))) [
          | inl full ↦
              absurd (ground (arith, small.0, min_below tb.capacity grown (fl.of_count n) full))
          | inr short ↦ short
        ] in
      elim (Bool-cases (ltb tb.last now)) [
        | inr still ↦ rw (still, refill_locked) small
        | inl later ↦ rw (later, refill_locked) (small.0, low)
      ]

  take_loop-waiting :
      (rounds n : ℕ) (clock : ℕ → ℕ) (others : ℕ → TokenBucket fl → TokenBucket fl)
      (tb : TokenBucket fl)
      → MinBelow
      → ((i : ℕ) (t : TokenBucket fl) → IsSmall n t → IsSmall n (others i t))
      → IsSmall n tb
      → (t : TokenBucket fl) × (take_loop fl rounds n clock others tb ≡ waiting t) × IsSmall n t
  unfolding take_loop
  take_loop-waiting zero n clock others tb m keeps small = (tb, refl, small)
  take_loop-waiting (suc rounds) n clock others tb m keeps small =
      let t = refill_locked fl (clock rounds) tb in
      let small1 = refill_locked-IsSmall n (clock rounds) tb m small in
      let rest =
        take_loop-waiting rounds n clock others (others rounds t) m keeps (keeps rounds t small1) in
      rw (small1.1, take_loop) rest

  new_token_bucket-IsSmall :
      (bps : fl.Float) (now n : ℕ) (tb : TokenBucket fl)
      → new_token_bucket fl now bps ≡ some tb
      → fl.at_least bps (fl.of_count n) ≡ false
      → IsSmall n tb
  unfolding new_token_bucket
  new_token_bucket-IsSmall bps now n tb made low = elim (Bool-cases (fl.not_positive bps)) [
    | inl off ↦ absurd (ground (arith, made, off))
    | inr on ↦
        let full : TokenBucket fl = record {
          capacity = bps;
          tokens = bps;
          fill_rate = bps;
          last = now;
        } in
        let same : some full ≡ some tb = rw on at made in
        let eq : full ≡ tb = cc in subst (IsSmall n) eq (low, low)
  ]

  -- If a cap gives a bucket of fewer bytes than one Read brings, take never returns: after any number
  -- of rounds, at any readings of the clock, it still waits, as long as what others do to the bucket
  -- leaves it smaller than that Read.
  pub take-waiting :
      (bps : fl.Float) (now rounds n : ℕ) (clock : ℕ → ℕ)
      (others : ℕ → TokenBucket fl → TokenBucket fl) (tb : TokenBucket fl)
      → MinBelow
      → ((i : ℕ) (t : TokenBucket fl) → IsSmall n t → IsSmall n (others i t))
      → new_token_bucket fl now bps ≡ some tb
      → fl.at_least bps (fl.of_count n) ≡ false
      → 0 < n
      → (t : TokenBucket fl) × (take fl rounds n clock others tb ≡ waiting t) × IsSmall n t
  unfolding take
  take-waiting bps now rounds n clock others tb m keeps made low some_bytes =
      let asked : (n == 0) ≡ false = ground (arith, some_bytes) in
      rw (asked, take)
        (take_loop-waiting rounds n clock others tb m keeps
          (new_token_bucket-IsSmall bps now n tb made low))
