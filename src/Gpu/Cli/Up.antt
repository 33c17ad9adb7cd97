-- ===== src/Gpu/Cli/Up.antt =====
-- How the command up leaves the instance and the watchdog.
use atlas_compliance_copilot.Prelude.{◌≡◌, refl, ap, String, Bool, if◌then◌else◌, false, Option}
use atlas_compliance_copilot.Prelude.Int.{ℤ, pos}
use atlas_compliance_copilot.Float.{Float}
use atlas_compliance_copilot.Exec.{Error, continue-ok, returned, Result, ok, raise, Exec}
use atlas_compliance_copilot.Gpu.Jarvis.{Jarvis, Deps, call, lift, resume, endpoint}
use atlas_compliance_copilot.Gpu.Bootstrap.{Waiting}
use atlas_compliance_copilot.Gpu.Cli.{Lock, armed_from, arm_watchdog}
use atlas_compliance_copilot.Gpu.Cli.Commands.{armed, polled, written, cmd_up}

lift-ok :
    {W A : Type 0} (S : Deps W) (j : Jarvis) (x : Result A × W) (a : A) (s : Jarvis × W)
    → lift S j x ≡ (ok a, s)
    → x.0 ≡ ok a
unfolding lift
lift-ok S j x a s h = ap (λ p. p.0) h

module _ (R : Float) {W : Type 0} (S : Deps W) (P : Waiting R W) (L : Lock R W)
    (idle_timeout : R.F) where
  -- An up that returns, with the health check on, exits with 0: the resume worked, the endpoint was
  -- found, the health check answered for its URL, and the last step read the time, wrote the lock
  -- with the time that the idle timeout ends as its deadline, and, unless it is told not to, started
  -- the watchdog behind that.
  pub cmd_up-ok :
      (ready : String → Exec W (Unit {0})) (env_file : Option String) (no_watchdog : Bool)
      (s t : Jarvis × W) (n : ℤ)
      → cmd_up R S P L idle_timeout ready false env_file no_watchdog s ≡ (ok n, t)
      → (n ≡ pos 0)
        × (url : String) × (s1 : Jarvis × W) × (s2 : Jarvis × W) × (resume S s ≡ (ok tt, s1))
        × (endpoint S s1 ≡ (ok url, s2))
        × ((ready url s2.1).0 ≡ ok tt)
        × (w : W) × (t.1 ≡ (
            if no_watchdog
            then L.write (R.add (L.time w).0 idle_timeout) (L.time w).1
            else L.spawn (L.write (R.add (L.time w).0 idle_timeout) (L.time w).1)))
  unfolding cmd_up polled armed call arm_watchdog armed_from
  cmd_up-ok ready env_file no_watchdog s t n h =
      let (u, s1, resumed, h1) = continue-ok (resume S s) _ (n, t) h in
      let (url, s2, found, h2) = continue-ok (endpoint S s1) _ (n, t) h1 in
      let (v, s3, answered, h3) =
        continue-ok (polled R S P L idle_timeout ready false url s2) _ (n, t) h2 in
      let (x, s4, saved, h4) =
        continue-ok (written R S P L idle_timeout env_file url s3) _ (n, t) h3 in
      let (zero, same) =
        returned (pos 0) n (s4.0, arm_watchdog R L idle_timeout no_watchdog s4.1) t h4 in
      (
        zero,
        url,
        s1,
        s2,
        resumed,
        found,
        lift-ok S s2.0 (ready url s2.1) tt s3 answered,
        s4.1,
        ap (λ p. p.1) same,
      )

  -- A health check that fails ends the command in the world that the check left: the instance that
  -- was resumed is not paused, and no watchdog is armed.
  pub cmd_up-unready :
      (ready : String → Exec W (Unit {0})) (env_file : Option String) (no_watchdog : Bool)
      (s s1 : Jarvis × W) (url : String) (j : Jarvis) (w w' : W) (e : Error)
      → resume S s ≡ (ok tt, s1)
      → endpoint S s1 ≡ (ok url, (j, w))
      → ready url w ≡ (raise e, w')
      → cmd_up R S P L idle_timeout ready false env_file no_watchdog s ≡ (raise e, (j, w'))
  unfolding cmd_up polled call lift
  cmd_up-unready ready env_file no_watchdog s s1 url j w w' e h k l = rw (h, k, l) refl
