-- ===== src/Gpu/Bootstrap/Ready.antt =====
-- What a provisioning that returns has found.
use mathlib.Core.Path.{subst}
use mathlib.Core.Option.{some-injective}
use atlas_compliance_copilot.Prelude.{
  ℕ, zero, suc, ◌≡◌, ◌≢◌, refl, String, Bool, true, false, not, ◌&&◌, ◌||◌, Option, none, some,
  List, if◌then◌else◌, is_some, arith,
}
use atlas_compliance_copilot.Float.{Float}
use atlas_compliance_copilot.Exec.{
  provider_error, timeout_error, Result, ok, raise, continue, ◌>>=◌,
}
use atlas_compliance_copilot.Gpu.Roles.{Roles, get}
use atlas_compliance_copilot.Gpu.Script.{
  ServeTarget, wants_ollama, wants_vllm, ProvisionConfig, build_startup_script,
}
use atlas_compliance_copilot.Gpu.Jarvis.{Jarvis, Deps, discover_endpoints, create}
use atlas_compliance_copilot.Gpu.Bootstrap.{
  ProvisionResult, desired_roles, has_roles, Waiting, after_clock, after_discovery, wait_loop,
  wait_from, wait_for_roles, write_all, result_of, unusable, after_wait, after_create,
  provision_from_scratch,
}

module _ (R : Float) {W : Type 0} (S : Deps W) (P : Waiting R W) where
  abbrev Ready : List String → Result Roles × (Jarvis × W) → Type 0
  Ready desired (ok roles, s) = has_roles desired roles ≡ true
  Ready desired (raise e, s) = Unit

  wait_loop-Ready :
      (fuel : ℕ) (desired : List String) (deadline : R.F) (s : Jarvis × W)
      (r : Result Roles × (Jarvis × W))
      → wait_loop R S P fuel desired deadline s ≡ some r
      → Ready desired r
  unfolding wait_loop after_discovery after_clock
  wait_loop-Ready zero desired deadline s r h = cc
  wait_loop-Ready (suc fuel) desired deadline s r h =
      probed (discover_endpoints S true s) (wait_loop-Ready fuel desired deadline) h
    where
      timed :
          (j : Jarvis) (c : R.F × W)
          → ((s' : Jarvis × W) (r' : Result Roles × (Jarvis × W))
              → wait_loop R S P fuel desired deadline s' ≡ some r'
              → Ready desired r')
          → after_clock R S P deadline (wait_loop R S P fuel desired deadline) j c ≡ some r
          → Ready desired r
      timed j (t, w) ih k = late (R.leb deadline t) k
        where
          late :
              (b : Bool)
              → (if b
                  then some (raise (timeout_error "serve targets not ready"), (j, w))
                  else wait_loop R S P fuel desired deadline (j, P.sleep w))
                ≡ some r
              → Ready desired r
          late true k = subst (Ready desired) (some-injective _ _ k) tt
          late false k = ih (j, P.sleep w) r k

      probed :
          (d : Result Roles × (Jarvis × W))
          → ((s' : Jarvis × W) (r' : Result Roles × (Jarvis × W))
              → wait_loop R S P fuel desired deadline s' ≡ some r'
              → Ready desired r')
          → after_discovery R S P desired deadline (wait_loop R S P fuel desired deadline) d
            ≡ some r
          → Ready desired r
      probed (raise e, s') ih k = subst (Ready desired) (some-injective _ _ k) tt
      probed (ok roles, (j, w)) ih k = here (has_roles desired roles) refl k
        where
          here :
              (b : Bool)
              → has_roles desired roles ≡ b
              → (if b
                  then some (ok roles, (j, w))
                  else after_clock R S P deadline
                      (wait_loop R S P fuel desired deadline)
                      j
                      (P.now w))
                ≡ some r
              → Ready desired r
          here true e k = subst (Ready desired) (some-injective _ _ k) e
          here false e k = timed j (P.now w) ih k

  -- The world and the provider after a whole turn, and the clock as the turn reads it.
  unfoldable pub next_turn : Jarvis × W → Jarvis × W
  next_turn s =
      ((discover_endpoints S true s).1.0, P.sleep (P.now (discover_endpoints S true s).1.1).1)

  unfoldable pub turns : ℕ → Jarvis × W → Jarvis × W
  turns zero s = s
  turns (suc n) s = turns n (next_turn s)

  unfoldable pub reading : Jarvis × W → R.F
  reading s = (P.now (discover_endpoints S true s).1.1).0

  -- Where the clock has reached the deadline in turn n, n + 1 rounds of fuel end the wait.
  pub wait_loop-ne-none :
      (n : ℕ) (desired : List String) (deadline : R.F) (s : Jarvis × W)
      → R.leb deadline (reading (turns n s)) ≡ true
      → wait_loop R S P (suc n) desired deadline s ≢ none
  unfolding wait_loop turns reading next_turn after_discovery after_clock
  wait_loop-ne-none zero desired deadline s h = ends (discover_endpoints S true s) h
    where
      ends :
          (d : Result Roles × (Jarvis × W))
          → R.leb deadline (P.now d.1.1).0 ≡ true
          → after_discovery R S P desired deadline (wait_loop R S P zero desired deadline) d ≢ none
      ends (raise e, s') k = λ x. cc
      ends (ok roles, (j, w)) k = ground (arith, k)
  wait_loop-ne-none (suc n) desired deadline s h =
      go_on (discover_endpoints S true s) (wait_loop-ne-none n desired deadline (next_turn s) h)
    where
      go_on :
          (d : Result Roles × (Jarvis × W))
          → wait_loop R S P (suc n) desired deadline (d.1.0, P.sleep (P.now d.1.1).1) ≢ none
          → after_discovery R S P desired deadline (wait_loop R S P (suc n) desired deadline) d
            ≢ none
      go_on (raise e, s') k = λ x. cc
      go_on (ok roles, (j, w)) k = ground (arith, k)

  -- Every server that the target asks for has a URL in the result.
  unfoldable pub covers : ServeTarget → ProvisionResult → Bool
  covers target result =
      (not (wants_ollama target) || is_some result.ollama_base_url)
      && (not (wants_vllm target) || is_some result.vllm_base_url)

  has_roles-covers :
      (target : ServeTarget) (roles : Roles)
      → has_roles (desired_roles target) roles ≡ true
      → (not (wants_ollama target) || is_some (get "ollama" roles))
          && (not (wants_vllm target) || is_some (get "vllm" roles))
        ≡ true
  unfolding has_roles desired_roles wants_ollama wants_vllm
  has_roles-covers ServeTarget.ollama roles h = ground arith
  has_roles-covers ServeTarget.vllm roles h = ground arith
  has_roles-covers ServeTarget.both roles h = ground arith

  -- A result covers the target and names the instance as the provider has it.
  abbrev pub Serves : ServeTarget → Result ProvisionResult × (Jarvis × W) → Type 0
  Serves target (ok result, s) =
      (covers target result ≡ true) × (result.machine_id ≡ s.0.instance_id)
  Serves target (raise e, s) = Unit

  result_of-Serves :
      (target : ServeTarget) (roles : Roles) (script : String) (s : Jarvis × W)
      → has_roles (desired_roles target) roles ≡ true
      → Serves target (result_of R S P roles script s)
  unfolding result_of covers
  result_of-Serves target roles script (j, w) h =
      pick (unusable R S P (get "ollama" roles) && unusable R S P (get "vllm" roles))
    where
      done : Result ProvisionResult × (Jarvis × W)
      done = (
        ok (record {
          machine_id = j.instance_id;
          ollama_base_url = get "ollama" roles;
          vllm_base_url = get "vllm" roles;
          dry_run = false;
          script = script;
        }),
        (j, w),
      )

      pick :
          (b : Bool)
          → Serves target (
              if b
              then (raise (provider_error "provisioning produced no usable endpoint"), (j, w))
              else done)
      pick true = tt
      pick false = (has_roles-covers target roles h, refl)

  written-Serves :
      (target : ServeTarget) (env_file : Option String) (script : String)
      (d : Result Roles × (Jarvis × W))
      → Ready (desired_roles target) d
      → Serves target (
          continue d
            (λ roles. write_all R S P env_file roles >>= λ _. result_of R S P roles script))
  written-Serves target env_file script (raise e, s) h = tt
  written-Serves target env_file script (ok roles, s) h = after (write_all R S P env_file roles s)
    where
      after :
          (r : Result (Unit {0}) × (Jarvis × W))
          → Serves target (continue r (λ _. result_of R S P roles script))
      after (ok _, s') = result_of-Serves target roles script s' h
      after (raise e, s') = tt

  -- A provisioning that is no dry run and returns has a URL for every server that the target asks
  -- for, and the instance's id.
  pub provision_from_scratch-Serves :
      (fuel : ℕ) (config : ProvisionConfig) (env_file : Option String) (timeout : R.F)
      (s : Jarvis × W) (r : Result ProvisionResult × (Jarvis × W))
      → provision_from_scratch R S P fuel config env_file timeout false s ≡ some r
      → Serves config.target r
  unfolding provision_from_scratch after_create after_wait wait_for_roles wait_from
  provision_from_scratch-Serves fuel config env_file timeout s r h = created (create S config s) h
    where
      script : String
      script = build_startup_script S.show config

      waited :
          (o : Option (Result Roles × (Jarvis × W)))
          → ((d : Result Roles × (Jarvis × W)) → o ≡ some d → Ready (desired_roles config.target) d)
          → after_wait R S P env_file script o ≡ some r
          → Serves config.target r
      waited none ready k = cc
      waited (some d) ready k =
          subst (Serves config.target) (some-injective _ _ k)
            (written-Serves config.target env_file script d (ready d refl))

      created :
          {A : Type 0} (c : Result A × (Jarvis × W))
          → after_create R S P fuel config env_file timeout script c ≡ some r
          → Serves config.target r
      created (raise e, s') k = subst (Serves config.target) (some-injective _ _ k) tt
      created (ok _, (j, w)) k =
          waited (wait_for_roles R S P fuel config.target timeout (j, w))
            (λ d e.
              wait_loop-Ready fuel (desired_roles config.target) (R.add (P.now w).0 timeout)
                (j, (P.now w).1) d e)
            k
