-- ===== src/Gpu/Poll.antt =====
-- poll_until_ready of lifecycle.py: probe, test the clock, sleep, until the endpoint is healthy or
-- the time is up.
pub mod Settles
use atlas_compliance_copilot.Prelude.{
  ℕ, zero, suc, ◌+◌, ◌≤◌, ◌<◌, ◌≡◌, ◌≢◌, refl, String, Bool, true, false, Option, none, some, arith,
  if◌then◌else◌, Bool-cases, inl, inr, ◌⊎◌,
}
use atlas_compliance_copilot.Float.{Float}
use atlas_compliance_copilot.Exec.{Error, timeout_error, Result, ok, raise, Exec}

-- What the loop is given: the health check, the clock and the sleep.
pub record Waiting (R : Float) (W : Type 0) : Type 0 where
  pub health_check : String → W → Bool × W
  pub now : W → R.F × W
  pub sleep : R.F → W → W

module _ (R : Float) {W : Type 0} (P : Waiting R W) (endpoint : String) (interval : R.F) where
  -- One turn: a failed probe with the clock behind it and, unless the deadline is reached, the
  -- sleep. `none` is the fuel that ran out.
  abbrev turn :
      R.F → (W → Option (Result (Unit {0}) × W)) → Bool × W → Option (Result (Unit {0}) × W)
  turn deadline more (true, w) = some (ok tt, w)
  turn deadline more (false, w) =
      let (t, w') = P.now w in
      if R.leb deadline t
      then some (raise (timeout_error "GPU not healthy"), w')
      else more (P.sleep interval w')

  unfoldable pub poll_loop : ℕ → R.F → W → Option (Result (Unit {0}) × W)
  poll_loop zero deadline w = none
  poll_loop (suc fuel) deadline w =
      turn deadline (poll_loop fuel deadline) (P.health_check endpoint w)

  -- The loop from the deadline that the clock gives at its start.
  unfoldable pub poll_until_ready : ℕ → R.F → W → Option (Result (Unit {0}) × W)
  poll_until_ready fuel timeout w = let (t, w') = P.now w in poll_loop fuel (R.add t timeout) w'

  -- The world after a whole turn without success.
  unfoldable pub next_turn : W → W
  next_turn w = P.sleep interval (P.now (P.health_check endpoint w).1).1

  -- The clock as the turn reads it.
  unfoldable pub reading : W → R.F
  reading w = (P.now (P.health_check endpoint w).1).0

  unfoldable pub turns : ℕ → W → W
  unfolding next_turn
  turns zero w = w
  turns (suc n) w = turns n (next_turn w)
