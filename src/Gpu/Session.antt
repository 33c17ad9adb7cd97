-- ===== src/Gpu/Session.antt =====
-- GpuSession and run_with_gpu of lifecycle.py, over a provider and the readiness poll.
pub mod Guard
use atlas_compliance_copilot.Prelude.{String, Bool, true, false, Option, none, some, if◌then◌else◌}
use atlas_compliance_copilot.Exec.{
  Error, provider_error, timeout_error, exception, interrupt, Result, ok, raise, Exec, continue,
  ◌>>=◌, pure,
}

-- The GpuProvider protocol, over the world that its calls change.
pub record Provider (W : Type 0) : Type 0 where
  pub resume : Exec W (Unit {0})
  pub pause : Exec W (Unit {0})
  pub endpoint : Exec W String

pub record Session : Type 0 where
  pub base_url : Option String
  pub paused : Bool

-- A session's method returns the session too, whether it returns or raises.
abbrev pub Method : Type 0 → Type 0 → Type 0
Method W A = Session → W → Result A × Session × W

abbrev pub fresh : Session
fresh = record { base_url = none; paused = false }

module _ {W : Type 0} (P : Provider W) (ready : String → Exec W (Unit {0}))
    (skip_health : Bool) where
  after_pause : Session → Result (Unit {0}) × W → Result (Unit {0}) × Session × W
  after_pause s (ok _, w) = (ok tt, record s { paused = true }, w)
  after_pause s (raise e, w) = (raise e, s, w)

  -- Only a pause that returned is remembered.
  unfoldable pub pause : Method W (Unit {0})
  unfolding after_pause
  pause s w = if s.paused then (ok tt, s, w) else after_pause s (P.pause w)

  -- `except Exception`: a failed pause is logged, and the first error raised again. A
  -- KeyboardInterrupt in the pause is no Exception and takes its place.
  reraise : Error → Result (Unit {0}) × Session × W → Result String × Session × W
  reraise first (raise interrupt, s, w) = (raise interrupt, s, w)
  reraise first (raise (provider_error m), s, w) = (raise first, s, w)
  reraise first (raise (timeout_error m), s, w) = (raise first, s, w)
  reraise first (raise (exception m), s, w) = (raise first, s, w)
  reraise first (ok _, s, w) = (raise first, s, w)

  -- The guarded part of __enter__.
  unfoldable pub bring_up : Exec W String
  bring_up = P.resume >>= λ _.
      P.endpoint >>= λ url. (if skip_health then pure tt else ready url) >>= λ _. pure url

  after_bring_up : Session → Result String × W → Result String × Session × W
  unfolding reraise pause
  after_bring_up s (ok url, w) = (ok url, record s { base_url = some url }, w)
  after_bring_up s (raise e, w) = reraise e (pause s w)

  unfoldable pub enter : Method W String
  unfolding after_bring_up bring_up
  enter s w = after_bring_up s (bring_up w)

  -- What the pause on the way out does to the outcome of the body.
  after_exit : {A : Type 0} → Result A → Result (Unit {0}) × Session × W → Result A × W
  after_exit r (ok _, s, w) = (r, w)
  after_exit r (raise e, s, w) = (raise e, w)

  -- __exit__ pauses, and never swallows the body's exception.
  exit : {A : Type 0} → Session → Result A × W → Result A × W
  unfolding after_exit pause
  exit s (r, w) = after_exit r (pause s w)

  in_body : {A : Type 0} → (String → Exec W A) → Result String × Session × W → Result A × W
  unfolding exit
  in_body body (ok url, s, w) = exit s (body url w)
  in_body body (raise e, s, w) = (raise e, w)

  unfoldable pub run_with_gpu : {A : Type 0} → (String → Exec W A) → Exec W A
  unfolding in_body enter
  run_with_gpu body w = in_body body (enter fresh w)
