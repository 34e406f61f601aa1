-- ===== src/Server/Busy.antt =====
-- concurrencyMiddleware and responseCapture of internal/server/server.go.
use azs3_proxy.Prelude.{
  ℕ, ◌-◌, ◌≤◌, ◌≡◌, ◌⊎◌, Text, codes, eq_text, Bool, true, false, not, ◌&&◌, ◌||◌, Option, none,
  some, List, [], ◌∷◌, ltb, ◌==◌, arith, if◌then◌else◌,
}
use azs3_proxy.Limiter.{Floats, Limiter, acquired, refused, waits, poll, adjust, release}

-- the paths that skip the limiter
unfoldable pub bypasses : Text → Bool
bypasses path =
    eq_text path (codes "/health")
    || (eq_text path (codes "/ping") || eq_text path (codes "/admin/caps"))

-- How a request fares: it goes on without a slot or with one, is answered 503, or polls again.
pub data Gated : Type 0 where
  unlimited admitted busy polls_again : Gated

-- a call of the ResponseWriter by a handler
pub data WriterCall : Type 0 where
  write_header : ℕ → WriterCall
  write : WriterCall

-- the status that responseCapture holds after the calls, in order; 0 before the first
unfoldable pub capture : List WriterCall → ℕ → ℕ
capture [] status = status
capture (write_header code ∷ calls) status = capture calls code
capture (write ∷ calls) status = capture calls (if status == 0 then 200 else status)

-- the test for success
abbrev pub is_success : ℕ → Bool
is_success status = ltb status 500 && not (status == 0)

module _ (fl : Floats) where
  -- concurrencyMiddleware before the handler, with one round of Acquire
  unfoldable pub concurrency_middleware :
      Text → Bool → Option (Limiter fl) → Option (Limiter fl) × Gated
  concurrency_middleware path ctx_err none = (none, unlimited)
  concurrency_middleware path ctx_err (some l) =
      let r = poll fl ctx_err l in
      if bypasses path
      then (some l, unlimited)
      else (some r.0, elim r.1 [ acquired ↦ admitted | refused ↦ busy | waits ↦ polls_again ])

  -- and behind the handler
  unfoldable pub finish : ℕ → List WriterCall → Limiter fl → Limiter fl
  finish duration calls l = release fl duration (is_success (capture calls 0)) l

  -- A request is answered that the server is busy only when the limiter is full and the time for
  -- waiting has run out, never on a path that skips the limiter, and it leaves the limiter as it was.
  pub concurrency_middleware_busy :
      (path : Text) (ctx_err : Bool) (l : Limiter fl) (after : Option (Limiter fl))
      → concurrency_middleware path ctx_err (some l) ≡ (after, busy)
      → (l.limit ≤ l.in_flight) × (ctx_err ≡ true) × (bypasses path ≡ false) × (after ≡ some l)
  unfolding concurrency_middleware poll
  concurrency_middleware_busy path ctx_err l after h = ground arith

  -- A handler whose last status is 500 or more, or that wrote nothing, does not raise the limit, and
  -- lowers it unless it is at the floor.
  pub finish_failed :
      (duration : ℕ) (calls : List WriterCall) (l : Limiter fl)
      → (500 ≤ capture calls 0) ⊎ (capture calls 0 ≡ 0)
      → (finish duration calls l).limit ≡ (if ltb l.floor l.limit then l.limit - 1 else l.limit)
  unfolding finish release adjust
  finish_failed duration calls l h = ground arith
