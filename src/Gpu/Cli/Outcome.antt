-- ===== src/Gpu/Cli/Outcome.antt =====
-- What an exit code of 0 says of a run, and how the detached watchdog ends.
use mathlib.Core.Option.{some-injective}
use atlas_compliance_copilot.Prelude.{
  ℕ, ◌≡◌, refl, sym, ap, ◌∙◌, String, Bool, true, false, Option, none, some, if◌then◌else◌, arith,
}
use atlas_compliance_copilot.Prelude.Int.{ℤ, pos}
use atlas_compliance_copilot.Float.{Float}
use atlas_compliance_copilot.Exec.{
  provider_error, timeout_error, exception, interrupt, Result, ok, raise, Exec,
}
use atlas_compliance_copilot.Gpu.Session.{Provider}
use atlas_compliance_copilot.Gpu.Session.Guard.{work, run_with_gpu-ok}
use atlas_compliance_copilot.Gpu.Watchdog.{Watchdog, run, turns, late_reading, run-unreached}
use atlas_compliance_copilot.Gpu.Cli.{caught, body, cmd_run, Lock, watch, cmd_watchdog, after_run}

module _ {W : Type 0} (actual echo : Provider W) (ready : String → Exec W (Unit {0}))
    (skip_health : Bool) (command : String → Exec W ℤ) where
  caught-ok : (r : Result ℤ × W) → (caught r).0 ≡ ok (pos 0) → r.0 ≡ ok (pos 0)
  unfolding caught
  caught-ok (ok code, w) h = h
  caught-ok (raise (provider_error m), w) h = ground arith
  caught-ok (raise (timeout_error m), w) h = ground arith
  caught-ok (raise (exception m), w) h = ground arith
  caught-ok (raise interrupt, w) h = ground arith

  -- The exit code is 0 only if the whole session worked: the resume, the discovery, the poll and
  -- the command, which ended with 0, and the pause behind them.
  pub cmd_run-ok :
      (w : W)
      → (cmd_run actual echo ready skip_health false (some command) w).0 ≡ ok (pos 0)
      → ((work actual ready skip_health command w).0 ≡ ok (pos 0))
        × ((actual.pause (work actual ready skip_health command w).1).0 ≡ ok tt)
  unfolding cmd_run body
  cmd_run-ok w h = run_with_gpu-ok actual ready skip_health command w (pos 0) (caught-ok _ h)

module _ (R : Float) {W : Type 0} (L : Lock R W) (now : W → R.F × W) (sleep : W → W)
    (pause : Exec W (Unit {0})) where
  -- The watchdog as the lock sets it, and the world that it starts in.
  unfoldable pub locked : W → Watchdog R.F
  locked w = record { deadline = L.deadline w; fired = false }

  -- While the monotonic clock stays below the lock's deadline, a detached watchdog that found the
  -- lock and ends has seen the lock gone, and has paused nothing: it exits with 0 in the world of
  -- that turn, less the lock.
  pub cmd_watchdog-unreached :
      (fuel : ℕ) (w : W) (o : Result ℤ × W)
      → L.exists w ≡ true
      → ((k : ℕ)
          → late_reading R
              (watch R L now sleep pause)
              (locked w)
              (turns R (watch R L now sleep pause) k (now w).1)
            ≡ false)
      → cmd_watchdog R L now sleep pause fuel w ≡ some o
      → (k : ℕ) × (L.exists (turns R (watch R L now sleep pause) k (now w).1) ≡ false)
        × (o ≡ (ok (pos 0), L.unlink (turns R (watch R L now sleep pause) k (now w).1)))
  unfolding cmd_watchdog locked watch after_run
  cmd_watchdog-unreached fuel w o held early h =
      split (run R (watch R L now sleep pause) fuel (locked w) (now w).1) refl (
        sym (
          ap
            (λ b.
              if b
              then after_run R L now sleep pause
                  (run R (watch R L now sleep pause) fuel (locked w) (now w).1)
              else some (ok (pos 0), w))
            held)
        ∙ h)
    where
      done :
          (r : Result Bool) (d : Watchdog R.F) (w' : W)
          → (k : ℕ) × ((watch R L now sleep pause).cancelled
                (turns R (watch R L now sleep pause) k (now w).1)
              ≡ (true, w'))
            × (r ≡ ok false)
          → after_run R L now sleep pause (some (r, d, w')) ≡ some o
          → (k : ℕ) × (L.exists (turns R (watch R L now sleep pause) k (now w).1) ≡ false)
            × (o ≡ (ok (pos 0), L.unlink (turns R (watch R L now sleep pause) k (now w).1)))
      done (ok f) d w' (k, c, z) j = (
        k,
        ground (arith, ap (λ p. p.0) c),
        sym (some-injective _ _ j) ∙ ap (λ v. (ok (pos 0), L.unlink v)) (sym (ap (λ p. p.1) c)),
      )
      done (raise x) d w' (k, c, z) j = cc

      split :
          (x : Option (Result Bool × Watchdog R.F × W))
          → run R (watch R L now sleep pause) fuel (locked w) (now w).1 ≡ x
          → after_run R L now sleep pause x ≡ some o
          → (k : ℕ) × (L.exists (turns R (watch R L now sleep pause) k (now w).1) ≡ false)
            × (o ≡ (ok (pos 0), L.unlink (turns R (watch R L now sleep pause) k (now w).1)))
      split none e j = cc
      split (some (r, d, w')) e j =
          done r d w'
            (run-unreached R (watch R L now sleep pause) fuel (locked w) (now w).1 (r, d, w') refl
              early e)
            j
