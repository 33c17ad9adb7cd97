-- ===== src/Gpu/Session/Guard.antt =====
-- run_with_gpu of lifecycle.py against its work without the guard.
use atlas_compliance_copilot.Prelude.{String, ◌≡◌, refl, sym, ap, ◌∙◌, Bool, false, some}
use atlas_compliance_copilot.Exec.{
  Error, provider_error, timeout_error, exception, interrupt, Result, ok, raise, Exec, ◌>>=◌,
  continue,
}
use atlas_compliance_copilot.Gpu.Session.{
  Provider, Session, fresh, pause, after_pause, reraise, bring_up, after_bring_up, enter,
  after_exit, exit, in_body, run_with_gpu,
}

module _ {W : Type 0} (P : Provider W) (ready : String → Exec W (Unit {0}))
    (skip_health : Bool) where
  -- The work without the guard: resume, discover, poll, and then the body.
  unfoldable pub work : {A : Type 0} → (String → Exec W A) → Exec W A
  unfolding bring_up
  work body = bring_up P ready skip_health >>= body

  -- The world in which the provider's pause leaves things.
  abbrev pub paused : W → W
  paused w = (P.pause w).1

  pause_world :
      (s : Session) (w : W) → s.paused ≡ false → (pause P ready skip_health s w).2 ≡ paused w
  unfolding pause
  pause_world s w h = simp h (split (P.pause w))
    where
      split : (r : Result (Unit {0}) × W) → (after_pause P ready skip_health s r).2 ≡ r.1
      split (ok _, w') = refl
      split (raise e, w') = refl

  reraise_world :
      (e : Error) (r : Result (Unit {0}) × Session × W) → (reraise P ready skip_health e r).2 ≡ r.2
  unfolding reraise
  reraise_world first (raise interrupt, s, w) = refl
  reraise_world first (raise (provider_error m), s, w) = refl
  reraise_world first (raise (timeout_error m), s, w) = refl
  reraise_world first (raise (exception m), s, w) = refl
  reraise_world first (ok _, s, w) = refl

  module _ {A : Type 0} (body : String → Exec W A) where
    exit_world :
        (s : Session) (r : Result A × W)
        → s.paused ≡ false
        → (exit P ready skip_health s r).1 ≡ paused r.1
    unfolding exit
    exit_world s (r, w) h = split (pause P ready skip_health s w) ∙ pause_world s w h
      where
        split : (q : Result (Unit {0}) × Session × W) → (after_exit P ready skip_health r q).1 ≡ q.2
        split (ok _, s', w') = refl
        split (raise e, s', w') = refl

    run_from :
        (r : Result String × W)
        → (in_body P ready skip_health body (after_bring_up P ready skip_health fresh r)).1
          ≡ paused (continue r body).1
    unfolding in_body after_bring_up
    run_from (ok url, w) =
        exit_world (record { base_url = some url; paused = false }) (body url w) refl
    run_from (raise e, w) = split (pause P ready skip_health fresh w) ∙ pause_world fresh w refl
      where
        split :
            (q : Result (Unit {0}) × Session × W)
            → (in_body P ready skip_health body (reraise P ready skip_health e q)).1 ≡ q.2
        split (raise interrupt, s', w') = refl
        split (raise (provider_error m), s', w') = refl
        split (raise (timeout_error m), s', w') = refl
        split (raise (exception m), s', w') = refl
        split (ok _, s', w') = refl

    -- However the resume, the discovery, the poll and the body end, the provider is paused once,
    -- last of all: the world left behind is what its pause makes of the world that they left.
    pub run_with_gpu-paused :
        (w : W) → (run_with_gpu P ready skip_health body w).1 ≡ paused (work body w).1
    unfolding run_with_gpu enter work
    run_with_gpu-paused w = run_from (bring_up P ready skip_health w)

    -- The outcome of a session, from that of its work and that of the pause.
    abbrev exit_outcome : Result A → Result (Unit {0}) → Result A
    exit_outcome r (ok _) = r
    exit_outcome r (raise e) = raise e

    abbrev enter_outcome : Error → Result (Unit {0}) → Result A
    enter_outcome first (raise interrupt) = raise interrupt
    enter_outcome first (raise (provider_error m)) = raise first
    enter_outcome first (raise (timeout_error m)) = raise first
    enter_outcome first (raise (exception m)) = raise first
    enter_outcome first (ok _) = raise first

    abbrev outcome : Result String × W → Result A
    outcome (ok url, w) = exit_outcome (body url w).0 (P.pause (body url w).1).0
    outcome (raise e, w) = enter_outcome e (P.pause w).0

    pause_result :
        (s : Session) (w : W) → s.paused ≡ false → (pause P ready skip_health s w).0 ≡ (P.pause w).0
    unfolding pause
    pause_result s w h = simp h (split (P.pause w))
      where
        split : (r : Result (Unit {0}) × W) → (after_pause P ready skip_health s r).0 ≡ r.0
        split (ok _, w') = refl
        split (raise e, w') = refl

    outcome_from :
        (r : Result String × W)
        → (in_body P ready skip_health body (after_bring_up P ready skip_health fresh r)).0
          ≡ outcome r
    unfolding in_body after_bring_up exit
    outcome_from (ok url, w) = split (body url w)
      where
        s : Session
        s = record { base_url = some url; paused = false }

        finish :
            (x : Result A) (q : Result (Unit {0}) × Session × W)
            → (after_exit P ready skip_health x q).0 ≡ exit_outcome x q.0
        finish x (ok _, s', w') = refl
        finish x (raise e, s', w') = refl

        split :
            (x : Result A × W) → (exit P ready skip_health s x).0 ≡ exit_outcome x.0 (P.pause x.1).0
        split (x, w') =
            finish x (pause P ready skip_health s w') ∙ ap (exit_outcome x) (pause_result s w' refl)
    outcome_from (raise e, w) =
        split (pause P ready skip_health fresh w) ∙ ap (enter_outcome e) (pause_result fresh w refl)
      where
        split :
            (q : Result (Unit {0}) × Session × W)
            → (in_body P ready skip_health body (reraise P ready skip_health e q)).0
              ≡ enter_outcome e q.0
        split (raise interrupt, s', w') = refl
        split (raise (provider_error m), s', w') = refl
        split (raise (timeout_error m), s', w') = refl
        split (raise (exception m), s', w') = refl
        split (ok _, s', w') = refl

    outcome_ok :
        (r : Result String × W)
        → (P.pause (continue r body).1).0 ≡ ok tt
        → outcome r ≡ (continue r body).0
    outcome_ok (ok url, w) h = rw h
    outcome_ok (raise e, w) h = rw h

    -- Where the pause succeeds, the session ends as its work does: with the body's result, or with
    -- the first exception, be it of the resume, the discovery, the poll or the body.
    pub run_with_gpu-outcome :
        (w : W)
        → (P.pause (work body w).1).0 ≡ ok tt
        → (run_with_gpu P ready skip_health body w).0 ≡ (work body w).0
    unfolding run_with_gpu enter work
    run_with_gpu-outcome w h =
        outcome_from (bring_up P ready skip_health w)
        ∙ outcome_ok (bring_up P ready skip_health w) h

    outcome-ok :
        (r : Result String × W) (a : A)
        → outcome r ≡ ok a
        → ((continue r body).0 ≡ ok a) × ((P.pause (continue r body).1).0 ≡ ok tt)
    outcome-ok (ok url, w) a h = split (body url w).0 (P.pause (body url w).1).0 h
      where
        split :
            (x : Result A) (y : Result (Unit {0}))
            → exit_outcome x y ≡ ok a
            → (x ≡ ok a) × (y ≡ ok tt)
        split x (ok _) k = (k, refl)
        split x (raise e) k = cc
    outcome-ok (raise e, w) a h = split (P.pause w).0 h
      where
        split : (y : Result (Unit {0})) → enter_outcome e y ≡ ok a → (raise e ≡ ok a) × (y ≡ ok tt)
        split (raise interrupt) k = cc
        split (raise (provider_error m)) k = cc
        split (raise (timeout_error m)) k = cc
        split (raise (exception m)) k = cc
        split (ok _) k = (k, refl)

    -- A session that returns a value has done its work with that value, and its pause succeeded.
    pub run_with_gpu-ok :
        (w : W) (a : A)
        → (run_with_gpu P ready skip_health body w).0 ≡ ok a
        → ((work body w).0 ≡ ok a) × ((P.pause (work body w).1).0 ≡ ok tt)
    unfolding run_with_gpu enter work
    run_with_gpu-ok w a h =
        outcome-ok (bring_up P ready skip_health w) a
          (sym (outcome_from (bring_up P ready skip_health w)) ∙ h)
