-- ===== src/Limiter.antt =====
-- adaptiveConcurrencyLimiter of internal/server/concurrency.go.
pub mod Bounds
use azs3_proxy.Prelude.{
  ℕ, zero, suc, ◌+◌, ◌-◌, Bool, true, false, not, ◌&&◌, ◌||◌, List, [], ◌∷◌, leb, ltb, ◌==◌,
  if◌then◌else◌,
}

-- float64 and the operations that the limiter makes on it; `ratio a b` is the literal a/b.
pub record Floats : Type 1 where
  pub F : Type 0
  pub of_duration : ℕ → F
  pub ratio : ℕ → ℕ → F
  pub plus : F → F → F
  pub minus : F → F → F
  pub times : F → F → F
  pub less : F → F → Bool
  pub is_zero : F → Bool

module _ (fl : Floats) where
  open fl use {F, of_duration, ratio, plus, minus, times, less, is_zero}

  -- `min` and `max` are the fields `floor` and `ceiling`; durations are in nanoseconds.
  pub record Limiter : Type 0 where
    pub limit : ℕ
    pub floor : ℕ
    pub ceiling : ℕ
    pub in_flight : ℕ
    pub target : ℕ
    pub ema_nanos : F
    pub alpha : F

  -- 200 * time.Millisecond
  abbrev pub default_target : ℕ
  default_target = 200000000

  -- newAdaptiveConcurrencyLimiter; arguments that are not positive are 0
  unfoldable pub new_limiter : ℕ → ℕ → ℕ → Limiter
  new_limiter least most target =
      let floor = if ltb least 1 then 1 else least in
      record {
        limit = floor;
        floor = floor;
        ceiling = if ltb most floor then floor else most;
        in_flight = 0;
        target = if target == 0 then default_target else target;
        ema_nanos = ratio 0 1;
        alpha = ratio 2 10;
      }

  pub data Poll : Type 0 where
    acquired refused waits : Poll

  -- One round of the loop of Acquire, under the mutex. `ctx_err` says that the request's context is
  -- done. A request that waits releases the mutex, and polls again.
  unfoldable pub poll : Bool → Limiter → Limiter × Poll
  poll ctx_err l =
      if leb l.limit l.in_flight
      then (if ctx_err then (l, refused) else (l, waits))
      else (record l { in_flight = l.in_flight + 1 }, acquired)

  -- the moving average of Release
  unfoldable pub average : ℕ → Limiter → F
  average duration l =
      if duration == 0
      then l.ema_nanos
      else if is_zero l.ema_nanos
      then of_duration duration
      else plus (times l.alpha (of_duration duration))
          (times (minus (ratio 1 1) l.alpha) l.ema_nanos)

  -- the switch of Release
  unfoldable pub adjust : Bool → F → Limiter → ℕ
  adjust success ema l =
      let target = of_duration (if l.target == 0 then default_target else l.target) in
      let down = if ltb l.floor l.limit then l.limit - 1 else l.limit in
      let up = if ltb l.limit l.ceiling then l.limit + 1 else l.limit in
      if not success
      then down
      else if less (ratio 0 1) ema && less (times (ratio 15 10) target) ema
      then down
      else if less (ratio 0 1) ema && less ema (times (ratio 7 10) target)
      then up
      else l.limit

  -- Release
  unfoldable pub release : ℕ → Bool → Limiter → Limiter
  release duration success l =
      let ema = average duration l in
      record l {
        in_flight = if ltb 0 l.in_flight then l.in_flight - 1 else l.in_flight;
        ema_nanos = ema;
        limit = adjust success ema l;
      }
