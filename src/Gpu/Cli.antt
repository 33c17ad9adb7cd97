-- ===== src/Gpu/Cli.antt =====
-- __main__.py: the commands run, down, teardown and _watchdog, and the arming of the watchdog.
pub mod Commands
pub mod Outcome
pub mod Up
use atlas_compliance_copilot.Prelude.{
  ℕ, String, Bool, true, false, not, Option, none, some, List, [], ◌∷◌, if◌then◌else◌,
}
use atlas_compliance_copilot.Prelude.Int.{ℤ, pos}
use atlas_compliance_copilot.Float.{Float}
use atlas_compliance_copilot.Exec.{
  Error, provider_error, timeout_error, exception, interrupt, Result, ok, raise, Exec, pure,
}
use atlas_compliance_copilot.Gpu.Session.{Provider, run_with_gpu}
use atlas_compliance_copilot.Gpu.Watchdog.{Watchdog, Watch, run}

module _ {W : Type 0} where
  -- `except (GpuProviderError, TimeoutError)` gives the exit code 1.
  unfoldable pub caught : Result ℤ × W → Result ℤ × W
  caught (ok code, w) = (ok code, w)
  caught (raise (provider_error m), w) = (ok (pos 1), w)
  caught (raise (timeout_error m), w) = (ok (pos 1), w)
  caught (raise (exception m), w) = (raise (exception m), w)
  caught (raise interrupt, w) = (raise interrupt, w)

  -- `command` is the subprocess: its exit code, with the URL in its environment.
  unfoldable pub body : Bool → (String → Exec W ℤ) → String → Exec W ℤ
  body dry_run command url = if dry_run then pure (pos 0) else command url

  -- `actual` is what make_provider gives, `echo` the provider of a dry run.
  unfoldable pub cmd_run :
      Provider W
      → Provider W
      → (String → Exec W (Unit {0}))
      → Bool
      → Bool
      → Option (String → Exec W ℤ)
      → Exec W ℤ
  unfolding caught body run_with_gpu
  cmd_run actual echo ready skip_health dry_run none w = (ok (pos 2), w)
  cmd_run actual echo ready skip_health dry_run (some command) w =
      if dry_run
      then caught (run_with_gpu echo ready true (body true command) w)
      else caught (run_with_gpu actual ready skip_health (body false command) w)

-- The lock file, whose absence cancels the watchdog and whose text is its deadline.
pub record Lock (R : Float) (W : Type 0) : Type 0 where
  pub exists : W → Bool
  pub deadline : W → R.F
  pub write : R.F → W → W
  pub unlink : W → W
  -- time.time, and the start of the detached process
  pub time : W → R.F × W
  pub spawn : W → W

module _ (R : Float) {W : Type 0} (L : Lock R W) (idle_timeout : R.F) where
  unfoldable pub armed_from : Bool → R.F × W → W
  armed_from no_watchdog (t, w) =
      let locked = L.write (R.add t idle_timeout) w in
      if no_watchdog then locked else L.spawn locked

  unfoldable pub arm_watchdog : Bool → W → W
  unfolding armed_from
  arm_watchdog no_watchdog w = armed_from no_watchdog (L.time w)

-- The watchdog's clock is time.monotonic.
module _ (R : Float) {W : Type 0} (L : Lock R W) (now : W → R.F × W) (sleep : W → W)
    (pause : Exec W (Unit {0})) where
  unfoldable pub watch : Watch R W
  watch = record { cancelled = λ w. (not (L.exists w), w); now = now; sleep = sleep; pause = pause }

  after_run : Option (Result Bool × Watchdog R.F × W) → Option (Result ℤ × W)
  after_run none = none
  after_run (some (ok fired, d, w)) = some (ok (pos 0), L.unlink w)
  after_run (some (raise e, d, w)) = some (raise e, w)

  -- The construction reads the clock for a deadline that the lock's one replaces.
  unfoldable pub cmd_watchdog : ℕ → W → Option (Result ℤ × W)
  unfolding after_run watch
  cmd_watchdog fuel w =
      if L.exists w
      then after_run
          (run R watch fuel (record { deadline = L.deadline w; fired = false }) (now w).1)
      else some (ok (pos 0), w)

module _ {W : Type 0} where
  exit_zero : Result (Unit {0}) × W → Result ℤ × W
  exit_zero (ok _, w) = (ok (pos 0), w)
  exit_zero (raise e, w) = (raise e, w)

  -- Only a GpuProviderError is caught.
  refused : Result ℤ × W → Result ℤ × W
  refused (ok code, w) = (ok code, w)
  refused (raise (provider_error m), w) = (ok (pos 1), w)
  refused (raise (timeout_error m), w) = (raise (timeout_error m), w)
  refused (raise (exception m), w) = (raise (exception m), w)
  refused (raise interrupt, w) = (raise interrupt, w)

  -- The lock goes first, then the instance is destroyed or paused.
  unfoldable pub cmd_teardown : (W → W) → Exec W (Unit {0}) → Exec W (Unit {0}) → Bool → Exec W ℤ
  unfolding refused exit_zero
  cmd_teardown unlink pause destroy destroying w =
      refused (exit_zero (if destroying then destroy (unlink w) else pause (unlink w)))

  unfoldable pub cmd_down : (W → W) → Exec W (Unit {0}) → Exec W ℤ
  unfolding exit_zero
  cmd_down unlink pause w = exit_zero (pause (unlink w))
