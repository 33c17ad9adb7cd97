-- ===== src/Gpu/Poll/Settles.antt =====
-- How the polling loop of poll_until_ready ends.
use mathlib.Core.Path.{subst}
use mathlib.Core.Option.{some-injective}
use atlas_compliance_copilot.Prelude.{
  sym, ◌∙◌, ℕ, zero, suc, ◌≡◌, ◌≢◌, refl, String, Bool, true, false, Option, none, some, arith,
  if◌then◌else◌, Bool-cases, Option-cases, inl, inr, ◌⊎◌,
}
use atlas_compliance_copilot.Float.{Float}
use atlas_compliance_copilot.Exec.{timeout_error, Result, ok, raise}
use atlas_compliance_copilot.Gpu.Poll.{Waiting, turn, poll_loop, next_turn, reading, turns}

module _ (R : Float) {W : Type 0} (P : Waiting R W) (endpoint : String) (interval : R.F) where
  -- How a turn goes on: healthy, late, or to the next one.
  turn-cases :
      (deadline : R.F) (more : W → Option (Result (Unit {0}) × W)) (w : W)
      → (((P.health_check endpoint w).0 ≡ true)
          × (turn R P endpoint interval deadline more (P.health_check endpoint w)
              ≡ some (ok tt, (P.health_check endpoint w).1)))
        ⊎ (((P.health_check endpoint w).0 ≡ false)
            × (turn R P endpoint interval deadline more (P.health_check endpoint w) ≡ (
                if R.leb deadline (reading R P endpoint interval w)
                then some (
                  raise (timeout_error "GPU not healthy"),
                  (P.now (P.health_check endpoint w).1).1,
                )
                else more (next_turn R P endpoint interval w))))
  unfolding next_turn reading
  turn-cases deadline more w = split (P.health_check endpoint w)
    where
      split :
          (h : Bool × W)
          → ((h.0 ≡ true) × (turn R P endpoint interval deadline more h ≡ some (ok tt, h.1)))
            ⊎ ((h.0 ≡ false)
                × (turn R P endpoint interval deadline more h ≡ (
                    if R.leb deadline (P.now h.1).0
                    then some (raise (timeout_error "GPU not healthy"), (P.now h.1).1)
                    else more (P.sleep interval (P.now h.1).1))))
      split (true, w') = inl (refl, refl)
      split (false, w') = inr (refl, refl)

  -- Where the clock has passed the deadline after n turns, n + 1 rounds of fuel end the loop.
  poll_loop-ne-none :
      (n : ℕ) (deadline : R.F) (w : W)
      → R.leb deadline (reading R P endpoint interval (turns R P endpoint interval n w)) ≡ true
      → poll_loop R P endpoint interval (suc n) deadline w ≢ none
  unfolding poll_loop turns
  poll_loop-ne-none zero deadline w late =
      ground (arith, turn-cases deadline (poll_loop R P endpoint interval zero deadline) w)
  poll_loop-ne-none (suc n) deadline w late = ground (
    arith,
    turn-cases deadline (poll_loop R P endpoint interval (suc n) deadline) w,
    poll_loop-ne-none n deadline (next_turn R P endpoint interval w) late,
  )

  -- What an outcome says of the turns before it.
  abbrev pub Settled : R.F → W → Result (Unit {0}) × W → Type 0
  Settled deadline w (ok _, w') =
      (k : ℕ) × (P.health_check endpoint (turns R P endpoint interval k w) ≡ (true, w'))
  Settled deadline w (raise e, w') =
      (k : ℕ) × ((P.health_check endpoint (turns R P endpoint interval k w)).0 ≡ false)
      × (R.leb deadline (reading R P endpoint interval (turns R P endpoint interval k w)) ≡ true)

  shift :
      (deadline : R.F) (w : W) (r : Result (Unit {0}) × W)
      → Settled deadline (next_turn R P endpoint interval w) r
      → Settled deadline w r
  unfolding turns
  shift deadline w (ok _, w') (k, h) = (suc k, h)
  shift deadline w (raise e, w') (k, h, l) = (suc k, h, l)

  -- A success comes right behind a probe that answered, in the world that the probe left; a
  -- failure behind a probe that did not answer, with the clock at the deadline or past it.
  poll_loop-Settled :
      (fuel : ℕ) (deadline : R.F) (w : W) (r : Result (Unit {0}) × W)
      → poll_loop R P endpoint interval fuel deadline w ≡ some r
      → Settled deadline w r
  unfolding poll_loop turns
  poll_loop-Settled zero deadline w r h = cc
  poll_loop-Settled (suc fuel) deadline w r h =
      elim (turn-cases deadline (poll_loop R P endpoint interval fuel deadline) w) [
        | inl (healthy, e) ↦
            subst (Settled deadline w) (some-injective _ _ (sym e ∙ h))
              (0, pair_of (P.health_check endpoint w) healthy)
        | inr (ill, e) ↦
            late (poll_loop-Settled fuel deadline (next_turn R P endpoint interval w) r) ill
              (sym e ∙ h) (Bool-cases (R.leb deadline (reading R P endpoint interval w)))
      ]
    where
      pair_of : (b : Bool × W) → b.0 ≡ true → b ≡ (true, b.1)
      pair_of (b, w') e = rw e

      late :
          (poll_loop R P endpoint interval fuel deadline (next_turn R P endpoint interval w)
              ≡ some r
            → Settled deadline (next_turn R P endpoint interval w) r)
          → (P.health_check endpoint w).0 ≡ false
          → (if R.leb deadline (reading R P endpoint interval w)
              then some
                  (raise (timeout_error "GPU not healthy"), (P.now (P.health_check endpoint w).1).1)
              else poll_loop R P endpoint interval fuel deadline
                  (next_turn R P endpoint interval w))
            ≡ some r
          → (R.leb deadline (reading R P endpoint interval w) ≡ true)
            ⊎ (R.leb deadline (reading R P endpoint interval w) ≡ false)
          → Settled deadline w r
      late ih ill e (inl t) =
          subst (Settled deadline w) (some-injective _ _ (rw t at e)) (0, ill, t)
      late ih ill e (inr f) = shift deadline w r (ih (rw f at e))

  -- Where the clock has passed the deadline after n turns, the loop returns on n + 1 rounds of fuel:
  -- with a success right behind a probe that answered, in the world that the probe left, or with a
  -- failure behind a probe that did not answer, with the clock at the deadline or past it.
  pub poll_loop_settles :
      (n : ℕ) (deadline : R.F) (w : W)
      → R.leb deadline (reading R P endpoint interval (turns R P endpoint interval n w)) ≡ true
      → (r : Result (Unit {0}) × W) × (poll_loop R P endpoint interval (suc n) deadline w ≡ some r)
        × Settled deadline w r
  poll_loop_settles n deadline w late =
      elim (Option-cases (poll_loop R P endpoint interval (suc n) deadline w)) [
        | inl e ↦ absurd (poll_loop-ne-none n deadline w late e)
        | inr (r, e) ↦ (r, e, poll_loop-Settled (suc n) deadline w r e)
      ]
