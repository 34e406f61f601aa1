-- ===== src/Limiter/Bounds.antt =====
-- What the limiter promises to the requests that it admits, in any interleaving.
use azs3_proxy.Prelude.{ℕ, ◌+◌, ◌-◌, ◌≤◌, ◌<◌, ◌≡◌, Bool, arith}
use Prim.Native.Nat.{max}
use azs3_proxy.Limiter.{Floats, Limiter, new_limiter, acquired, poll, average, adjust, release}

module _ (fl : Floats) where
  -- The limiter, and the number of requests that have been admitted and have not been released.
  pub record System : Type 0 where
    pub limiter : Limiter fl
    pub running : ℕ

  abbrev pub initial : ℕ → ℕ → ℕ → System
  initial least most target = record { limiter = new_limiter fl least most target; running = 0 }

  -- A request polls, or one that runs ends; the middleware calls Release once for each Acquire.
  pub data Step : System → System → Type 0 where
    polls :
        (ctx_err : Bool) (s : System) {t : System}
        → t ≡ record {
          limiter = (poll fl ctx_err s.limiter).0;
          running = elim (poll fl ctx_err s.limiter).1 [ acquired ↦ s.running + 1 | _ ↦ s.running ];
        }
        → Step s t
    ends :
        (duration : ℕ) (success : Bool) (s : System) {t : System}
        → 0 < s.running
        → t ≡ record { limiter = release fl duration success s.limiter; running = s.running - 1 }
        → Step s t

  pub data Reachable (least most target : ℕ) : System → Type 0 where
    start : {s : System} → s ≡ initial least most target → Reachable least most target s
    next : {s t : System} → Reachable least most target s → Step s t → Reachable least most target t

  -- the largest of the two arguments and 1
  abbrev pub top : ℕ → ℕ → ℕ
  top least most = max (max least most) 1

  pub record IsBounded (cap : ℕ) (s : System) : Type 0 where
    pub ceiling_eq : s.limiter.ceiling ≡ cap
    pub floor_pos : 1 ≤ s.limiter.floor
    pub floor_le : s.limiter.floor ≤ s.limiter.limit
    pub limit_le : s.limiter.limit ≤ s.limiter.ceiling
    pub counted : s.limiter.in_flight ≡ s.running
    pub admitted : s.running ≤ s.limiter.ceiling

  initial-IsBounded :
      (least most target : ℕ) (s : System)
      → s ≡ initial least most target
      → IsBounded (top least most) s
  unfolding new_limiter
  initial-IsBounded least most target s h = rw h (ground arith)

  poll-IsBounded :
      (cap : ℕ) (ctx_err : Bool) (s : System)
      → IsBounded cap s
      → IsBounded cap (record {
        limiter = (poll fl ctx_err s.limiter).0;
        running = elim (poll fl ctx_err s.limiter).1 [ acquired ↦ s.running + 1 | _ ↦ s.running ];
      })
  unfolding poll
  poll-IsBounded cap ctx_err s b = ground arith

  adjust_bounds :
      (success : Bool) (ema : fl.F) (l : Limiter fl)
      → l.floor ≤ l.limit
      → l.limit ≤ l.ceiling
      → (l.floor ≤ adjust fl success ema l) × (adjust fl success ema l ≤ l.ceiling)
  unfolding adjust
  adjust_bounds success ema l h k = ground arith

  Step-IsBounded : (cap : ℕ) {s t : System} → Step s t → IsBounded cap s → IsBounded cap t
  Step-IsBounded cap (polls ctx_err s h) b = rw h (poll-IsBounded cap ctx_err s b)
  Step-IsBounded cap (ends duration success s some_run h) b =
      let l = s.limiter in
      let bounds = adjust_bounds success (average fl duration l) l b.floor_le b.limit_le in
      rw h (
        unfold release in
        record {
          ceiling_eq = b.ceiling_eq;
          floor_pos = b.floor_pos;
          floor_le = bounds.0;
          limit_le = bounds.1;
          counted = ground (arith, b.counted);
          admitted = omega (arith, b.admitted);
        })

  -- In every interleaving of requests that poll and requests that end, of any durations and
  -- outcomes, the limit stays between the floor, which is at least 1, and the ceiling; the counter is
  -- the number of requests that run; and no more of them run at once than the largest of the two
  -- configured bounds and 1.
  pub Reachable-IsBounded :
      (least most target : ℕ) (s : System)
      → Reachable least most target s
      → IsBounded (top least most) s
  Reachable-IsBounded least most target s (start h) = initial-IsBounded least most target s h
  Reachable-IsBounded least most target t (next {s} r st) =
      Step-IsBounded (top least most) st (Reachable-IsBounded least most target s r)

  -- Whenever nothing runs, the next request that polls is admitted, whatever has happened before.
  pub idle-admits :
      (least most target : ℕ) (s : System) (ctx_err : Bool)
      → Reachable least most target s
      → s.running ≡ 0
      → (poll fl ctx_err s.limiter).1 ≡ acquired
  unfolding poll
  idle-admits least most target s ctx_err r idle =
      ground (arith, Reachable-IsBounded least most target s r)
