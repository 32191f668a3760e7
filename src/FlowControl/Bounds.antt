-- ===== src/FlowControl/Bounds.antt =====
-- internal/network/flowcontrol/rate_limiter.go: how much a token bucket lets through.
use p2p_folder_sync.Prelude.{
  ℕ, ◌+◌, ◌-◌, ◌≤◌, ◌<◌, ◌≡◌, refl, ◌⊎◌, inl, inr, Bool-cases, true, false, List, [], ◌∷◌, leb, ltb,
  if◌then◌else◌, arith,
}
use p2p_folder_sync.FlowControl.{RateLimiter, refill, try_consume, set_rate}

-- What can happen to a limiter, each at a time: an attempt to send `n` bytes, a tick of the refill
-- goroutine, a change of the rate.
pub data Event : Type 0 where
  consumes : ℕ → ℕ → Event
  ticks : ℕ → Event
  sets_rate : ℕ → Event

module _ (accrued : ℕ → ℕ → ℕ) where
  pub step : RateLimiter → Event → RateLimiter
  step rl (consumes now n) = (try_consume accrued now n rl).1
  step rl (ticks now) = refill accrued now rl
  step rl (sets_rate rate) = set_rate rate rl

  -- The bytes that an event lets through.
  granted : RateLimiter → Event → ℕ
  granted rl (consumes now n) = if (try_consume accrued now n rl).0 then n else 0
  granted rl (ticks now) = 0
  granted rl (sets_rate rate) = 0

  -- What a history may bring in, told from the times and rates in it and no state of a limiter:
  -- `since` is the last time at which tokens came in, and tokens come in for the time since then.
  pub entitled : ℕ → ℕ → List Event → ℕ
  entitled since rate [] = 0
  entitled since rate (consumes now n ∷ es) =
      let paid = accrued (now - since) rate + entitled now rate es in
      let unpaid = entitled since rate es in
      if ltb 0 (accrued (now - since) rate) then paid else unpaid
  entitled since rate (ticks now ∷ es) =
      let paid = accrued (now - since) rate + entitled now rate es in
      let unpaid = entitled since rate es in
      if ltb 0 (accrued (now - since) rate) then paid else unpaid
  entitled since rate (sets_rate rate' ∷ es) = entitled since rate' es

  pub run : RateLimiter → List Event → RateLimiter
  run rl [] = rl
  run rl (e ∷ es) = run (step rl e) es

  pub total_granted : RateLimiter → List Event → ℕ
  total_granted rl [] = 0
  total_granted rl (e ∷ es) = granted rl e + total_granted (step rl e) es

  step_budget :
      (rl : RateLimiter) (e : Event) (es : List Event)
      → let after = step rl e in
        granted rl e + after.tokens + entitled after.last_refill after.rate es
        ≤ rl.tokens + entitled rl.last_refill rl.rate (e ∷ es)
  unfolding step granted entitled try_consume refill set_rate
  step_budget rl (consumes now n) es = ground arith
  step_budget rl (ticks now) es = ground arith
  step_budget rl (sets_rate rate) es = omega arith

  -- Over any history the bytes let through, with the tokens left, are at most the tokens at the start
  -- and what the times and rates of the history entitle to: no stretch of time brings tokens twice.
  pub run_budget :
      (rl : RateLimiter) (es : List Event)
      → total_granted rl es + (run rl es).tokens ≤ rl.tokens + entitled rl.last_refill rl.rate es
  unfolding run total_granted
  run_budget rl [] = omega arith
  run_budget rl (e ∷ es) = omega (arith, step_budget rl e es, run_budget (step rl e) es)

  step_burst :
      (rl : RateLimiter) (e : Event)
      → rl.tokens ≤ rl.burst
      → ((step rl e).tokens ≤ rl.burst) × ((step rl e).burst ≡ rl.burst)
  unfolding step try_consume set_rate
  step_burst rl (consumes now n) h = ground arith
  step_burst rl (ticks now) h = ground arith
  step_burst rl (sets_rate rate) h = (h, refl)

  -- A bucket that holds no more than its burst never does.
  run_burst :
      (rl : RateLimiter) (es : List Event)
      → rl.tokens ≤ rl.burst
      → ((run rl es).tokens ≤ rl.burst) × ((run rl es).burst ≡ rl.burst)
  unfolding run
  run_burst rl [] h = (h, refl)
  run_burst rl (e ∷ es) h =
      let s = step_burst rl e h in ground (arith, s, run_burst (step rl e) es (omega arith))

  -- An attempt at a time after which the refilled bucket holds `n` tokens succeeds, and any other
  -- attempt takes nothing: the two branches of `tryConsume`.
  pub try_consume_iff :
      (now n : ℕ) (rl : RateLimiter)
      → (((try_consume accrued now n rl).0 ≡ true)
          × ((try_consume accrued now n rl).1.tokens + n ≡ (refill accrued now rl).tokens))
        ⊎ (((try_consume accrued now n rl).0 ≡ false)
            × ((refill accrued now rl).tokens < n)
            × ((try_consume accrued now n rl).1 ≡ refill accrued now rl))
  unfolding try_consume
  try_consume_iff now n rl = elim (Bool-cases (leb n (refill accrued now rl).tokens)) [
    | inl e ↦ inl (ground arith, ground arith)
    | inr e ↦ inr (ground arith, ground arith, ground arith)
  ]
