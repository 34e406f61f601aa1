-- ===== src/Tests/Throttled.antt =====
-- Runs of the token buckets, with natural numbers for the floats and seconds of one nanosecond.
use azs3_proxy.Prelude.{ℕ, ◌+◌, ◌-◌, ◌*◌, ◌≡◌, refl, min, ltb, leb, ◌==◌, arith}
use azs3_proxy.Bandwidth.{
  Floats, TokenBucket, took, waiting, new_token_bucket, refill_locked, take_loop, take,
}
use azs3_proxy.Bandwidth.Starved.{IsSmall, take-waiting}

abbrev pub counts : Floats
counts = record {
  Float = ℕ;
  of_count = λ n. n;
  infinity = 1000000000;
  not_positive = λ x. x == 0;
  more = λ x y. ltb y x;
  at_least = λ x y. leb y x;
  lowest = λ x y. min x y;
  minus = λ x y. x - y;
  earned = λ tokens rate elapsed. tokens + rate * elapsed;
  to_bps = λ mbps. mbps * 131072;
}

-- half a megabit
abbrev half : TokenBucket counts
half = record { capacity = 65536; tokens = 65536; fill_rate = 65536; last = 0 }

take_test :
    take counts 1 1000 (λ i. 1) (λ i t. t) half ≡ took (record half { tokens = 64536; last = 1 })
unfolding take take_loop refill_locked
take_test = refl

take-waiting_example :
    (t : TokenBucket counts) × (take counts 9 131072 (λ i. 10 - i) (λ i t. t) half ≡ waiting t)
    × IsSmall counts 131072 t
unfolding new_token_bucket
take-waiting_example =
    take-waiting counts 65536 0 9 131072 (λ i. 10 - i) (λ i t. t) half
      (λ x y z h. ground (arith, h)) (λ i t small. small) refl refl (omega arith)
