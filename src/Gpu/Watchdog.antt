-- ===== src/Gpu/Watchdog.antt =====
-- Watchdog of lifecycle.py: the deadline that pauses the GPU if the session does not.
use mathlib.Core.Path.{subst}
use mathlib.Core.Bool.{false≢true}
use mathlib.Core.Option.{some-injective}
use atlas_compliance_copilot.Prelude.{
  ℕ, zero, suc, ◌≡◌, ◌≢◌, refl, sym, ap, ◌∙◌, Bool, true, false, Option, none, some, arith,
  if◌then◌else◌, ◌⊎◌, inl, inr, Option-cases,
}
use atlas_compliance_copilot.Float.{Float}
use atlas_compliance_copilot.Exec.{Result, ok, raise, Exec}

pub record Watchdog (F : Type 0) : Type 0 where
  pub deadline : F
  pub fired : Bool

-- What the loop is given: whether the session cancelled it, the clock, the sleep and the pause.
pub record Watch (R : Float) (W : Type 0) : Type 0 where
  pub cancelled : W → Bool × W
  pub now : W → R.F × W
  pub sleep : W → W
  pub pause : Exec W (Unit {0})

module _ (R : Float) {W : Type 0} (P : Watch R W) where
  abbrev pub Outcome : Type 0
  Outcome = Result Bool × Watchdog R.F × W

  after_pause : Watchdog R.F → Result (Unit {0}) × W → Outcome
  after_pause d (ok _, w) = (ok true, record d { fired = true }, w)
  after_pause d (raise e, w) = (raise e, d, w)

  -- True only if this call paused.
  unfoldable pub fire : Watchdog R.F → W → Outcome
  unfolding after_pause
  fire d w = if d.fired then (ok false, d, w) else after_pause d (P.pause w)

  unfoldable pub expired : Watchdog R.F → R.F → Bool
  expired d t = R.leb d.deadline t

  watch : Watchdog R.F → (W → Option Outcome) → R.F × W → Option Outcome
  unfolding fire expired
  watch d more (t, w) = if expired d t then some (fire d w) else more (P.sleep w)

  -- `while not cancelled()`; none is the fuel that ran out.
  turn : Watchdog R.F → (W → Option Outcome) → Bool × W → Option Outcome
  unfolding watch
  turn d more (true, w) = some (ok false, d, w)
  turn d more (false, w) = watch d more (P.now w)

  unfoldable pub run : ℕ → Watchdog R.F → W → Option Outcome
  unfolding turn
  run zero d w = none
  run (suc fuel) d w = turn d (run fuel d) (P.cancelled w)

  -- The world after a whole turn that was neither cancelled nor late.
  unfoldable pub next_turn : W → W
  next_turn w = P.sleep (P.now (P.cancelled w).1).1

  unfoldable pub turns : ℕ → W → W
  turns zero w = w
  turns (suc n) w = turns n (next_turn w)

  -- What an outcome of an armed watchdog says. False: the session cancelled it, and the world is
  -- that of its test, with no pause. True: the clock had reached the deadline in a turn that was
  -- not cancelled, and the world is that of a pause that returned.
  abbrev pub Explains : Watchdog R.F → W → Outcome → Type 0
  Explains d w (ok false, d', w') = (k : ℕ) × (P.cancelled (turns k w) ≡ (true, w')) × (d' ≡ d)
  Explains d w (ok true, d', w') =
      (k : ℕ) × ((P.cancelled (turns k w)).0 ≡ false)
      × (expired d (P.now (P.cancelled (turns k w)).1).0 ≡ true)
      × (P.pause (P.now (P.cancelled (turns k w)).1).1 ≡ (ok tt, w'))
      × (d'.fired ≡ true)
  Explains d w (raise e, d', w') =
      (k : ℕ) × ((P.cancelled (turns k w)).0 ≡ false)
      × (expired d (P.now (P.cancelled (turns k w)).1).0 ≡ true)
      × (P.pause (P.now (P.cancelled (turns k w)).1).1 ≡ (raise e, w'))
      × (d'.fired ≡ false)

  shift : (d : Watchdog R.F) (w : W) (o : Outcome) → Explains d (next_turn w) o → Explains d w o
  unfolding turns
  shift d w (ok false, d', w') (k, h, e) = (suc k, h, e)
  shift d w (ok true, d', w') (k, c, t, p, f) = (suc k, c, t, p, f)
  shift d w (raise e, d', w') (k, c, t, p, f) = (suc k, c, t, p, f)

  fired_here :
      (d : Watchdog R.F) (w : W)
      → d.fired ≡ false
      → (P.cancelled w).0 ≡ false
      → expired d (P.now (P.cancelled w).1).0 ≡ true
      → Explains d w (fire d (P.now (P.cancelled w).1).1)
  unfolding fire turns
  fired_here d w armed c t = simp armed (split (P.pause (P.now (P.cancelled w).1).1) refl)
    where
      split :
          (r : Result (Unit {0}) × W)
          → P.pause (P.now (P.cancelled w).1).1 ≡ r
          → Explains d w (after_pause d r)
      split (ok _, w') e = (0, c, t, e, refl)
      split (raise x, w') e = (0, c, t, e, armed)

  abbrev pub late_reading : Watchdog R.F → W → Bool
  late_reading d w = expired d (P.now (P.cancelled w).1).0

  on_time :
      (d : Watchdog R.F) (w : W) (o : Outcome) (more : Option Outcome)
      → d.fired ≡ false
      → (P.cancelled w).0 ≡ false
      → (more ≡ some o → Explains d (next_turn w) o)
      → (if late_reading d w then some (fire d (P.now (P.cancelled w).1).1) else more) ≡ some o
      → Explains d w o
  on_time d w o more armed c ih h = split (late_reading d w) refl h
    where
      split :
          (b : Bool)
          → late_reading d w ≡ b
          → (if b then some (fire d (P.now (P.cancelled w).1).1) else more) ≡ some o
          → Explains d w o
      split true e k = subst (Explains d w) (some-injective _ _ k) (fired_here d w armed c e)
      split false e k = shift d w o (ih k)

  turn-Explains :
      (d : Watchdog R.F) (w : W) (o : Outcome) (more : W → Option Outcome)
      → d.fired ≡ false
      → (more (next_turn w) ≡ some o → Explains d (next_turn w) o)
      → turn d more (P.cancelled w) ≡ some o
      → Explains d w o
  unfolding turn watch next_turn turns
  turn-Explains d w o more armed ih h = split (P.cancelled w) refl h
    where
      split : (c : Bool × W) → P.cancelled w ≡ c → turn d more c ≡ some o → Explains d w o
      split (true, w') e k = subst (Explains d w) (some-injective _ _ k) (0, e, refl)
      split (false, w') e k =
          on_time d w o (more (next_turn w)) armed (ap (λ c. c.0) e) ih
            (ap (λ c. turn d more (false, c.1)) e ∙ k)

  -- How an armed watchdog ends: cancelled with no pause, or past the deadline with a pause that
  -- returned, or with the error of a pause.
  pub run-Explains :
      (fuel : ℕ) (d : Watchdog R.F) (w : W) (o : Outcome)
      → d.fired ≡ false
      → run fuel d w ≡ some o
      → Explains d w o
  unfolding run
  run-Explains zero d w o armed h = cc
  run-Explains (suc fuel) d w o armed h =
      turn-Explains d w o (run fuel d) armed (run-Explains fuel d (next_turn w) o armed) h

  -- Where the session cancels, or the clock reaches the deadline, in turn n, n + 1 rounds of fuel
  -- end the loop.
  pub run-ne-none :
      (n : ℕ) (d : Watchdog R.F) (w : W)
      → ((P.cancelled (turns n w)).0 ≡ true) ⊎ (late_reading d (turns n w) ≡ true)
      → run (suc n) d w ≢ none
  unfolding run turns turn watch next_turn
  run-ne-none zero d w h = ends (P.cancelled w) h
    where
      ends :
          (c : Bool × W)
          → (c.0 ≡ true) ⊎ (expired d (P.now c.1).0 ≡ true)
          → turn d (run zero d) c ≢ none
      ends (true, w') _ = λ e. cc
      ends (false, w') k = ground (arith, k)
  run-ne-none (suc n) d w h = go_on (P.cancelled w) (run-ne-none n d (next_turn w) h)
    where
      go_on :
          (c : Bool × W)
          → run (suc n) d (P.sleep (P.now c.1).1) ≢ none
          → turn d (run (suc n) d) c ≢ none
      go_on (true, w') k = λ e. cc
      go_on (false, w') k = ground (arith, k)

  -- While the clock stays below the deadline, the watchdog ends by cancellation only: it pauses
  -- nothing.
  pub run-unreached :
      (fuel : ℕ) (d : Watchdog R.F) (w : W) (o : Outcome)
      → d.fired ≡ false
      → ((k : ℕ) → late_reading d (turns k w) ≡ false)
      → run fuel d w ≡ some o
      → (k : ℕ) × (P.cancelled (turns k w) ≡ (true, o.2)) × (o.0 ≡ ok false)
  run-unreached fuel d w o armed early h = split o (run-Explains fuel d w o armed h)
    where
      split :
          (o : Outcome)
          → Explains d w o
          → (k : ℕ) × (P.cancelled (turns k w) ≡ (true, o.2)) × (o.0 ≡ ok false)
      split (ok false, d', w') (k, c, e) = (k, c, refl)
      split (ok true, d', w') (k, c, t, p, f) = absurd (false≢true (sym (early k) ∙ t))
      split (raise e, d', w') (k, c, t, p, f) = absurd (false≢true (sym (early k) ∙ t))

  -- Where the session cancels, or the clock reaches the deadline, in turn n, an armed watchdog ends on
  -- n + 1 rounds of fuel: cancelled with no pause, or past the deadline with a pause that returned, or
  -- with the error of a pause.
  pub run_explained :
      (n : ℕ) (d : Watchdog R.F) (w : W)
      → d.fired ≡ false
      → ((P.cancelled (turns n w)).0 ≡ true) ⊎ (late_reading d (turns n w) ≡ true)
      → (o : Outcome) × (run (suc n) d w ≡ some o) × Explains d w o
  run_explained n d w armed h = elim (Option-cases (run (suc n) d w)) [
    | inl e ↦ absurd (run-ne-none n d w h e)
    | inr (o, e) ↦ (o, e, run-Explains (suc n) d w o armed e)
  ]
