-- ===== src/Bandwidth.antt =====
-- BandwidthLimiter of internal/backend/common/ratelimit.go: the token buckets, the caps, and the
-- readers that wait for tokens. float64 is a parameter.
pub mod Starved
use azs3_proxy.Prelude.{
  ℕ, zero, suc, ◌-◌, Bool, true, false, Option, none, some, List, [], ◌∷◌, ◌++◌, length, map, ◌&&◌,
  ltb, leb, ◌==◌, if◌then◌else◌,
}

-- What the limiter does with float64 values: `not_positive x` is x <= 0, `at_least x y` is
-- x >= y, `more x y` is x > y, `lowest` is math.Min, and `earned` is tokens + fillRate*elapsed, from a number of nanoseconds.
pub record Floats : Type 1 where
  pub Float : Type 0
  pub of_count : ℕ → Float
  pub infinity : Float
  pub not_positive : Float → Bool
  pub more : Float → Float → Bool
  pub at_least : Float → Float → Bool
  pub lowest : Float → Float → Float
  pub minus : Float → Float → Float
  pub earned : Float → Float → ℕ → Float
  pub to_bps : Float → Float

-- 128 KiB
abbrev pub throttle_chunk : ℕ
throttle_chunk = 131072

module _ (fl : Floats) where
  pub record TokenBucket : Type 0 where
    pub capacity : fl.Float
    pub tokens : fl.Float
    pub fill_rate : fl.Float
    pub last : ℕ

  -- newTokenBucket
  unfoldable pub new_token_bucket : ℕ → fl.Float → Option TokenBucket
  new_token_bucket now bps =
      if fl.not_positive bps
      then none
      else some (record { capacity = bps; tokens = bps; fill_rate = bps; last = now })

  -- refillLocked, at a reading of the clock
  unfoldable pub refill_locked : ℕ → TokenBucket → TokenBucket
  refill_locked now tb =
      if ltb tb.last now
      then record tb {
        tokens = fl.lowest tb.capacity (fl.earned tb.tokens tb.fill_rate (now - tb.last));
        last = now;
      }
      else tb

  -- updateRate, with its two readings of the clock
  unfoldable pub update_rate : ℕ → ℕ → fl.Float → TokenBucket → TokenBucket
  update_rate now later bps tb =
      let t = refill_locked now tb in
      record {
        capacity = bps;
        tokens = if fl.more t.tokens bps then bps else t.tokens;
        fill_rate = bps;
        last = later;
      }

  -- disable
  unfoldable pub disable : ℕ → TokenBucket → TokenBucket
  disable now tb = record {
    capacity = fl.infinity;
    tokens = fl.infinity;
    fill_rate = fl.infinity;
    last = now;
  }

  -- updateBucket: the slot of the limiter, and the bucket that the readers made before hold
  unfoldable pub update_bucket :
      ℕ → ℕ → fl.Float → Option TokenBucket → Option TokenBucket × Option TokenBucket
  update_bucket now later bps none = (new_token_bucket now bps, none)
  update_bucket now later bps (some tb) =
      if fl.not_positive bps
      then (none, some (disable now tb))
      else (some (update_rate now later bps tb), some (update_rate now later bps tb))

  pub record BandwidthLimiter : Type 0 where
    pub download : Option TokenBucket
    pub upload : Option TokenBucket
    pub combined : Option TokenBucket

  -- NewBandwidthLimiter; `none` is nil
  unfoldable pub new_bandwidth_limiter :
      ℕ → fl.Float → fl.Float → fl.Float → Option BandwidthLimiter
  new_bandwidth_limiter now r w c =
      let made : BandwidthLimiter = record {
        download = new_token_bucket now (fl.to_bps r);
        upload = new_token_bucket now (fl.to_bps w);
        combined = new_token_bucket now (fl.to_bps c);
      } in
      if fl.not_positive r && (fl.not_positive w && fl.not_positive c) then none else some made

  -- UpdateCaps, what is in the limiter afterwards
  unfoldable pub update_caps :
      ℕ → ℕ → fl.Float → fl.Float → fl.Float → BandwidthLimiter → BandwidthLimiter
  update_caps now later r w c l = record {
    download = (update_bucket now later (fl.to_bps r) l.download).0;
    upload = (update_bucket now later (fl.to_bps w) l.upload).0;
    combined = (update_bucket now later (fl.to_bps c) l.combined).0;
  }

  abbrev listed : Option TokenBucket → List TokenBucket
  listed none = []
  listed (some tb) = tb ∷ []

  -- buckets
  unfoldable pub buckets : Bool → BandwidthLimiter → List TokenBucket
  buckets is_download l = listed (if is_download then l.download else l.upload) ++ listed l.combined

  -- the end of a number of rounds of take
  pub data Taken : Type 0 where
    took : TokenBucket → Taken
    waiting : TokenBucket → Taken

  -- The loop of take: `rounds` of it, each with a reading of the clock. `others` is what the other
  -- readers and UpdateCaps do to the bucket while it sleeps, when the lock is free.
  unfoldable pub take_loop : ℕ → ℕ → (ℕ → ℕ) → (ℕ → TokenBucket → TokenBucket) → TokenBucket → Taken
  take_loop zero n clock others tb = waiting tb
  take_loop (suc rounds) n clock others tb =
      let t = refill_locked (clock rounds) tb in
      let more = take_loop rounds n clock others (others rounds t) in
      if fl.at_least t.tokens (fl.of_count n)
      then took (record t { tokens = fl.minus t.tokens (fl.of_count n) })
      else more

  -- take
  unfoldable pub take : ℕ → ℕ → (ℕ → ℕ) → (ℕ → TokenBucket → TokenBucket) → TokenBucket → Taken
  take rounds n clock others tb =
      let more = take_loop rounds n clock others tb in if n == 0 then took tb else more

-- Read of the three throttled readers: what the source gives for a buffer of at most 128 KiB, and
-- the calls of take that follow, in their order. `src` gives the bytes and whether there is an error.
unfoldable pub throttled_read :
    {B : Type 0} → (ℕ → List ℕ × Bool) → List B → ℕ → (List ℕ × Bool) × List (B × ℕ)
throttled_read src bs p =
    let (bytes, err) = src (if ltb throttle_chunk p then throttle_chunk else p) in
    ((bytes, err), if length bytes == 0 then [] else map (λ b. (b, length bytes)) bs)
