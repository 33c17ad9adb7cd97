-- ===== src/Gpu/Tests.antt =====
-- The lifecycle on a world that is a log or a clock, and the theorems at concrete runs.
use atlas_compliance_copilot.Prelude.{
  ℕ, suc, ◌≡◌, refl, String, Bool, true, false, not, some, List, [], ◌∷◌, ◌++◌, leb, ◌==◌, length,
  max, replicate, inr,
}
use atlas_compliance_copilot.Prelude.Int.{ℤ, pos}
use atlas_compliance_copilot.Float.Fixed.{fixed}
use atlas_compliance_copilot.Exec.{interrupt, Result, ok, raise, Exec, pure}
use atlas_compliance_copilot.Gpu.Poll.{Waiting, poll_loop, turns, reading, next_turn}
use atlas_compliance_copilot.Gpu.Poll.Settles.{Settled, poll_loop_settles}
use atlas_compliance_copilot.Gpu.Session.{Provider, run_with_gpu}
use atlas_compliance_copilot.Gpu.Session.Guard.{work, paused, run_with_gpu-paused}
use atlas_compliance_copilot.Gpu.Watchdog.{
  Watchdog, Watch, Explains, run, expired, run_explained, late_reading, turns as watch_turns,
  next_turn as watch_next_turn,
}
use atlas_compliance_copilot.Gpu.Cli.{Lock, watch, cmd_watchdog, cmd_run}
use atlas_compliance_copilot.Gpu.Cli.Outcome.{cmd_run-ok, cmd_watchdog-unreached, locked}
use atlas_compliance_copilot.Gpu.EnvFile.{Line, write_env, assignment}
use atlas_compliance_copilot.Gpu.EnvFile.Lines.{others, settings, write_env-others-settings}

abbrev Log : Type 0
Log = List String

abbrev logged : String → Exec Log (Unit {0})
logged what w = (ok tt, w ++ what ∷ [])

-- A provider that logs its calls.
abbrev logging : Provider Log
logging = record {
  resume = logged "resume";
  pause = logged "pause";
  endpoint = λ w. (ok "http://gpu", w ++ "endpoint" ∷ []);
}

abbrev answered : String → Exec Log (Unit {0})
answered url = logged "ready"

abbrev failing : String → Exec Log ℤ
failing url w = (raise interrupt, w ++ "body" ∷ [])

interrupted_run :
    run_with_gpu logging answered false failing []
    ≡ (raise interrupt, "resume" ∷ "endpoint" ∷ "ready" ∷ "body" ∷ "pause" ∷ [])
unfolding run_with_gpu
interrupted_run = refl

run_with_gpu-paused_example :
    (run_with_gpu logging answered false failing []).1
    ≡ paused logging answered false (work logging answered false failing []).1
run_with_gpu-paused_example = run_with_gpu-paused logging answered false failing []

-- A clock that the sleep moves on, and a server that comes up at 3.
abbrev ticking : Waiting fixed ℕ
ticking = record {
  health_check = λ url w. (leb 3 w, w);
  now = λ w. (pos w, w);
  sleep = λ interval w. suc w;
}

late_by_two :
    fixed.leb (pos 2) (reading fixed ticking "u" (pos 1) (turns fixed ticking "u" (pos 1) 2 0))
    ≡ true
unfolding reading turns next_turn
late_by_two = refl

-- A watchdog on the same clock, which the session never cancels.
abbrev uncancelled : Watch fixed ℕ
uncancelled = record {
  cancelled = λ w. (false, w);
  now = λ w. (pos w, w);
  sleep = suc;
  pause = λ w. (ok tt, w);
}

abbrev due_at_two : Watchdog ℤ
due_at_two = record { deadline = pos 2; fired = false }

-- "A=1", "# A=2", "B=3"
abbrev env_lines : List Line
env_lines =
    (b'A' ∷ b'=' ∷ b'1' ∷ [])
    ∷ (b'#' ∷ b' ' ∷ b'A' ∷ b'=' ∷ b'2' ∷ [])
    ∷ (b'B' ∷ b'=' ∷ b'3' ∷ [])
    ∷ []

abbrev is_blank : ℕ → Bool
is_blank c = c == 32

rewritten :
    write_env is_blank (b'A' ∷ []) (b'9' ∷ []) env_lines
    ≡ (b'A' ∷ b'=' ∷ b'9' ∷ [])
      ∷ (b'#' ∷ b' ' ∷ b'A' ∷ b'=' ∷ b'2' ∷ [])
      ∷ (b'B' ∷ b'=' ∷ b'3' ∷ [])
      ∷ []
unfolding write_env
rewritten = refl

write_env-others-settings_example :
    (others is_blank (b'A' ∷ []) (write_env is_blank (b'A' ∷ []) (b'9' ∷ []) env_lines)
      ≡ others is_blank (b'A' ∷ []) env_lines)
    × (settings is_blank (b'A' ∷ []) (write_env is_blank (b'A' ∷ []) (b'9' ∷ []) env_lines)
        ≡ replicate
            (max 1 (length (settings is_blank (b'A' ∷ []) env_lines)))
            (assignment (b'A' ∷ []) (b'9' ∷ [])))
write_env-others-settings_example =
    write_env-others-settings is_blank (b'A' ∷ []) (b'9' ∷ []) (refl, refl) env_lines

-- A lock whose deadline is 1_000_000 on the wall, over a monotonic clock that shows 3; the lock is gone at 2.
abbrev wall_lock : Lock fixed ℕ
wall_lock = record {
  exists = λ w. not (leb 2 w);
  deadline = λ w. pos 1_000_000;
  write = λ t w. w;
  unlink = λ w. w;
  time = λ w. (pos 999_000, w);
  spawn = λ w. w;
}

abbrev monotonic : ℕ → ℤ × ℕ
monotonic w = (pos 3, w)

monotonic_early :
    (k : ℕ)
    → late_reading fixed
        (watch fixed wall_lock monotonic suc (λ w. (ok tt, w)))
        (locked fixed wall_lock monotonic suc (λ w. (ok tt, w)) 0)
        (watch_turns fixed (watch fixed wall_lock monotonic suc (λ w. (ok tt, w))) k 0)
      ≡ false
unfolding locked watch expired
monotonic_early k = refl

cancelled_at_two :
    cmd_watchdog fixed wall_lock monotonic suc (λ w. (ok tt, w)) 4 0 ≡ some (ok (pos 0), 2)
unfolding cmd_watchdog run
cancelled_at_two = refl

cmd_watchdog-unreached_example :
    (k : ℕ) × (wall_lock.exists
        (watch_turns fixed (watch fixed wall_lock monotonic suc (λ w. (ok tt, w))) k 0)
      ≡ false)
    × (Path
        (Result ℤ × ℕ)
        (ok (pos 0), 2)
        (
          ok (pos 0),
          wall_lock.unlink
              (watch_turns fixed (watch fixed wall_lock monotonic suc (λ w. (ok tt, w))) k 0),
        ))
cmd_watchdog-unreached_example =
    cmd_watchdog-unreached fixed wall_lock monotonic suc (λ w. (ok tt, w)) 4 0 (ok (pos 0), 2) refl
      monotonic_early cancelled_at_two

cmd_run-ok_example :
    ((work logging answered false (λ url. pure (pos 0)) []).0 ≡ ok (pos 0))
    × ((logging.pause (work logging answered false (λ url. pure (pos 0)) []).1).0 ≡ ok tt)
unfolding cmd_run
cmd_run-ok_example = cmd_run-ok logging logging answered false (λ url. pure (pos 0)) [] exits
  where
    exits :
        (cmd_run logging logging answered false false (some (λ url. pure (pos 0))) []).0
        ≡ ok (pos 0)
    exits = refl

poll_loop_settles_example :
    (r : Result (Unit {0}) × ℕ) × (poll_loop fixed ticking "u" (pos 1) 3 (pos 2) 0 ≡ some r)
    × Settled fixed ticking "u" (pos 1) (pos 2) 0 r
poll_loop_settles_example = poll_loop_settles fixed ticking "u" (pos 1) 2 (pos 2) 0 late_by_two

run_explained_example :
    (o : Result Bool × Watchdog ℤ × ℕ) × (run fixed uncancelled 3 due_at_two 0 ≡ some o)
    × Explains fixed uncancelled due_at_two 0 o
unfolding watch_turns expired watch_next_turn
run_explained_example = run_explained fixed uncancelled 2 due_at_two 0 refl (inr due)
  where
    due : late_reading fixed uncancelled due_at_two (watch_turns fixed uncancelled 2 0) ≡ true
    due = refl
