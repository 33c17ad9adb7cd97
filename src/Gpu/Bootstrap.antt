-- ===== src/Gpu/Bootstrap.antt =====
-- bootstrap.py: the wait for the desired roles, and provisioning from nothing. The env file's writes
-- are calls on the world; what one does to the lines is EnvFile.write_env.
pub mod Ready
use atlas_compliance_copilot.Prelude.{
  ℕ, zero, suc, ◌≡◌, refl, String, Bool, true, false, not, ◌&&◌, ◌||◌, Option, none, some, List, [],
  ◌∷◌, ◌++◌, str_eq, if◌then◌else◌, all, is_some,
}
use atlas_compliance_copilot.Float.{Float}
use atlas_compliance_copilot.Exec.{
  Error, provider_error, timeout_error, Result, ok, raise, Exec, continue, ◌>>=◌, pure, throw,
}
use atlas_compliance_copilot.Gpu.Roles.{Roles, get}
use atlas_compliance_copilot.Gpu.Script.{
  ServeTarget, wants_ollama, wants_vllm, ProvisionConfig, build_startup_script,
}
use atlas_compliance_copilot.Gpu.Jarvis.{
  Jarvis, Deps, Method, lift, call, discover_endpoints, create,
}

pub record ProvisionResult : Type 0 where
  pub machine_id : String
  pub ollama_base_url : Option String
  pub vllm_base_url : Option String
  pub dry_run : Bool
  pub script : String

-- The set of the roles that a target asks for.
unfoldable pub desired_roles : ServeTarget → List String
unfolding wants_ollama wants_vllm
desired_roles target =
    (if wants_ollama target then "ollama" ∷ [] else [])
    ++ (if wants_vllm target then "vllm" ∷ [] else [])

-- desired.issubset(roles.keys())
unfoldable pub has_roles : List String → Roles → Bool
unfolding get
has_roles desired roles = all (λ role. is_some (get role roles)) desired

pub record Waiting (R : Float) (W : Type 0) : Type 0 where
  pub now : W → R.F × W
  pub sleep : W → W
  -- write_env(path, key, value)
  pub write_env : String → String → String → Exec W (Unit {0})

module _ (R : Float) {W : Type 0} (S : Deps W) (P : Waiting R W) where
  -- The clock behind a probe that missed a role; `none` is the fuel that ran out.
  after_clock :
      R.F
      → (Jarvis × W → Option (Result Roles × (Jarvis × W)))
      → Jarvis
      → R.F × W
      → Option (Result Roles × (Jarvis × W))
  after_clock deadline more j (t, w) =
      if R.leb deadline t
      then some (raise (timeout_error "serve targets not ready"), (j, w))
      else more (j, P.sleep w)

  after_discovery :
      List String
      → R.F
      → (Jarvis × W → Option (Result Roles × (Jarvis × W)))
      → Result Roles × (Jarvis × W)
      → Option (Result Roles × (Jarvis × W))
  unfolding after_clock has_roles
  after_discovery desired deadline more (raise e, s) = some (raise e, s)
  after_discovery desired deadline more (ok roles, (j, w)) =
      if has_roles desired roles
      then some (ok roles, (j, w))
      else after_clock deadline more j (P.now w)

  unfoldable pub wait_loop :
      ℕ → List String → R.F → Jarvis × W → Option (Result Roles × (Jarvis × W))
  unfolding after_discovery discover_endpoints
  wait_loop zero desired deadline s = none
  wait_loop (suc fuel) desired deadline s =
      after_discovery desired deadline (wait_loop fuel desired deadline)
        (discover_endpoints S true s)

  wait_from : ℕ → List String → R.F → Jarvis → R.F × W → Option (Result Roles × (Jarvis × W))
  unfolding wait_loop
  wait_from fuel desired timeout j (t, w) = wait_loop fuel desired (R.add t timeout) (j, w)

  unfoldable pub wait_for_roles :
      ℕ → ServeTarget → R.F → Jarvis × W → Option (Result Roles × (Jarvis × W))
  unfolding wait_from desired_roles
  wait_for_roles fuel target timeout (j, w) =
      wait_from fuel (desired_roles target) timeout j (P.now w)

  -- `if url: write_env(env_file, key, url)`
  write_url : String → String → Option String → Method W (Unit {0})
  unfolding call
  write_url path key none = pure tt
  write_url path key (some url) =
      if str_eq url "" then pure tt else call S (λ _. P.write_env path key url)

  unfoldable pub write_all : Option String → Roles → Method W (Unit {0})
  unfolding write_url get call
  write_all none roles = pure tt
  write_all (some path) roles =
      if str_eq path ""
      then pure tt
      else (write_url path "OLLAMA_BASE_URL" (get "ollama" roles) >>= λ _.
          write_url path "ATLAS_VLLM_BASE_URL" (get "vllm" roles) >>= λ _.
          call S (λ j. P.write_env path "GPU_INSTANCE_ID" j.instance_id))

  unusable : Option String → Bool
  unusable none = true
  unusable (some url) = str_eq url ""

  result_of : Roles → String → Method W ProvisionResult
  unfolding unusable get
  result_of roles script (j, w) =
      if unusable (get "ollama" roles) && unusable (get "vllm" roles)
      then (raise (provider_error "provisioning produced no usable endpoint"), (j, w))
      else (
        ok (record {
          machine_id = j.instance_id;
          ollama_base_url = get "ollama" roles;
          vllm_base_url = get "vllm" roles;
          dry_run = false;
          script = script;
        }),
        (j, w),
      )

  after_wait :
      Option String
      → String
      → Option (Result Roles × (Jarvis × W))
      → Option (Result ProvisionResult × (Jarvis × W))
  unfolding write_all result_of
  after_wait env_file script none = none
  after_wait env_file script (some r) =
      some (continue r (λ roles. write_all env_file roles >>= λ _. result_of roles script))

  after_create :
      {A : Type 0}
      → ℕ
      → ProvisionConfig
      → Option String
      → R.F
      → String
      → Result A × (Jarvis × W)
      → Option (Result ProvisionResult × (Jarvis × W))
  unfolding after_wait wait_for_roles
  after_create fuel config env_file timeout script (raise e, s) = some (raise e, s)
  after_create fuel config env_file timeout script (ok _, s) =
      after_wait env_file script (wait_for_roles fuel config.target timeout s)

  dry_result : String → ProvisionResult
  dry_result script = record {
    machine_id = "(dry-run)";
    ollama_base_url = none;
    vllm_base_url = none;
    dry_run = true;
    script = script;
  }

  unfoldable pub provision_from_scratch :
      ℕ
      → ProvisionConfig
      → Option String
      → R.F
      → Bool
      → Jarvis × W
      → Option (Result ProvisionResult × (Jarvis × W))
  unfolding build_startup_script after_create create dry_result
  provision_from_scratch fuel config env_file timeout dry_run s =
      let script = build_startup_script S.show config in
      if dry_run
      then some (ok (dry_result script), s)
      else after_create fuel config env_file timeout script (create S config s)
