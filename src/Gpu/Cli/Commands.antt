-- ===== src/Gpu/Cli/Commands.antt =====
-- __main__.py: the commands up and provision, with the reading of the environment that they need
-- (make_provider and CreateSpec.from_env of providers.py, ProvisionConfig.from_env of provision.py).
-- `int_of` is int on a text, none where it raises ValueError; the numbers are taken to be at least 0.
-- `normal` is strip and then lower.
use atlas_compliance_copilot.Prelude.{
  ℕ, String, Bool, true, false, not, ◌||◌, Option, none, some, [], str_eq, ◌==◌, if◌then◌else◌,
  or_default,
}
use atlas_compliance_copilot.Prelude.Int.{ℤ, pos}
use atlas_compliance_copilot.Float.{Float}
use atlas_compliance_copilot.Exec.{provider_error, exception, Result, ok, raise, Exec, ◌>>=◌, pure}
use atlas_compliance_copilot.Gpu.Script.{ServeTarget, parse_target, ProvisionConfig}
use atlas_compliance_copilot.Gpu.Jarvis.{CreateSpec, Jarvis, Deps, Method, call, resume, endpoint}
use atlas_compliance_copilot.Gpu.Bootstrap.{Waiting, ProvisionResult, provision_from_scratch}
use atlas_compliance_copilot.Gpu.Cli.{Lock, arm_watchdog, caught}

abbrev pub Env : Type 0
Env = String → Option String

is_set : Option String → Bool
is_set none = false
is_set (some t) = not (str_eq t "")

module _ (int_of : String → Option ℕ) (normal strip : String → String) where
  int_or : ℕ → Option String → Option ℕ
  int_or d none = some d
  int_or d (some t) = int_of t

  region_of : Option String → Option String
  region_of none = none
  region_of (some t) = if str_eq t "" then none else some t

  with_sizes : Env → Option ℕ → Option ℕ → Option CreateSpec
  unfolding region_of
  with_sizes env none storage = none
  with_sizes env (some gpus) none = none
  with_sizes env (some gpus) (some storage) = some (record {
    gpu_type = or_default "L4" (env "GPU_TYPE");
    num_gpus = gpus;
    template = or_default "pytorch" (env "GPU_TEMPLATE");
    storage_gb = storage;
    name = or_default "atlas-serving" (env "GPU_INSTANCE_NAME");
    region = region_of (env "GPU_REGION");
  })

  -- none is the ValueError of a number that int refuses.
  unfoldable pub spec_from_env : Env → Option CreateSpec
  unfolding int_or with_sizes
  spec_from_env env =
      with_sizes env (int_or 1 (env "GPU_NUM_GPUS")) (int_or 100 (env "GPU_STORAGE_GB"))

  first_set : Option String → String → String
  first_set none d = d
  first_set (some t) d = if str_eq t "" then d else t

  provider_of : Env → Option CreateSpec → Result Jarvis
  provider_of env none = raise (exception "ValueError")
  provider_of env (some spec) = ok (record {
    instance_id = or_default "" (env "GPU_INSTANCE_ID");
    create_spec = spec;
    roles = [];
  })

  -- make_provider() with no name given; the client is a parameter of the methods.
  unfoldable pub make_provider : Env → Result Jarvis
  unfolding first_set provider_of
  make_provider env =
      if not (str_eq (normal (first_set (env "GPU_PROVIDER") "jarvislabs")) "jarvislabs")
      then raise (provider_error "unsupported GPU_PROVIDER")
      else provider_of env (spec_from_env env)

  truthy : Option String → Bool
  truthy none = false
  truthy (some t) = is_true (normal t)
    where
      is_true : String → Bool
      is_true v = str_eq v "1" || (str_eq v "true" || (str_eq v "yes" || str_eq v "on"))

  with_numbers : Env → ServeTarget → Option ℕ → Option ℕ → Option ℕ → Option ProvisionConfig
  unfolding truthy
  with_numbers env target none loras rank = none
  with_numbers env target (some len) none rank = none
  with_numbers env target (some len) (some loras) none = none
  with_numbers env target (some len) (some loras) (some rank) = some (record {
    target = target;
    chat_model = or_default "qwen2.5:3b-instruct" (env "OLLAMA_CHAT_MODEL");
    embed_model = or_default "nomic-embed-text" (env "OLLAMA_EMBED_MODEL");
    vllm_model = or_default "Qwen/Qwen2.5-7B-Instruct-AWQ" (env "ATLAS_VLLM_MODEL");
    vllm_max_model_len = len;
    vllm_enable_lora = truthy (env "ATLAS_VLLM_ENABLE_LORA");
    vllm_lora_modules = strip (or_default "" (env "ATLAS_VLLM_LORA_MODULES"));
    vllm_max_loras = loras;
    vllm_max_lora_rank = rank;
    vllm_runtime_lora = truthy (env "ATLAS_VLLM_RUNTIME_LORA");
  })

  unfoldable pub config_from_env : ServeTarget → Env → Option ProvisionConfig
  unfolding int_or with_numbers
  config_from_env target env =
      with_numbers env target (int_or 8192 (env "ATLAS_VLLM_MAX_MODEL_LEN"))
        (int_or 1 (env "ATLAS_VLLM_MAX_LORAS")) (int_or 16 (env "ATLAS_VLLM_MAX_LORA_RANK"))

module _ (R : Float) {W : Type 0} (S : Deps W) (P : Waiting R W) (L : Lock R W)
    (idle_timeout : R.F) where
  unfoldable pub armed : Bool → Method W (Unit {0})
  unfolding arm_watchdog
  armed no_watchdog (j, w) = (ok tt, (j, arm_watchdog R L idle_timeout no_watchdog w))

  -- The poll of poll_until_ready, unless it is skipped.
  unfoldable pub polled : (String → Exec W (Unit {0})) → Bool → String → Method W (Unit {0})
  unfolding call
  polled ready true url = pure tt
  polled ready false url = call S (λ _. ready url)

  unfoldable pub written : Option String → String → Method W (Unit {0})
  unfolding call
  written none url = pure tt
  written (some path) url =
      if str_eq path ""
      then pure tt
      else (call S (λ _. P.write_env path "OLLAMA_BASE_URL" url) >>= λ _.
          call S (λ j. P.write_env path "GPU_INSTANCE_ID" j.instance_id))

  unfoldable pub cmd_up : (String → Exec W (Unit {0})) → Bool → Option String → Bool → Method W ℤ
  unfolding polled written armed resume endpoint
  cmd_up ready skip_health write_env no_watchdog = resume S >>= λ _. endpoint S >>= λ url.
      polled ready skip_health url >>= λ _.
      written write_env url >>= λ _. armed no_watchdog >>= λ _. pure (pos 0)

-- The options of provision, as argparse gives them.
pub record ProvisionArgs (F : Type 0) : Type 0 where
  pub serve : String
  pub gpu : Option String
  pub storage : Option ℕ
  pub name : Option String
  pub write_env : Option String
  pub ready_timeout : F
  pub dry_run : Bool
  pub no_watchdog : Bool

non_zero : Option ℕ → ℕ → ℕ
non_zero none d = d
non_zero (some n) d = if n == 0 then d else n

module _ {F : Type 0} where
  -- The options override the environment.
  unfoldable pub overridden : ProvisionArgs F → Jarvis → Jarvis
  unfolding non_zero is_set
  overridden args j =
      let spec = j.create_spec in
      record j {
        create_spec = record spec {
          gpu_type = (if is_set args.gpu then or_default "" args.gpu else spec.gpu_type);
          storage_gb = non_zero args.storage spec.storage_gb;
          name = (if is_set args.name then or_default "" args.name else spec.name);
        };
      }

module _ (R : Float) {W : Type 0} (S : Deps W) (P : Waiting R W) (L : Lock R W) (idle_timeout : R.F)
    (normal : String → String) where
  unfoldable pub after_provision :
      Bool → Option (Result ProvisionResult × (Jarvis × W)) → Option (Result ℤ × (Jarvis × W))
  unfolding caught arm_watchdog
  after_provision no_watchdog none = none
  after_provision no_watchdog (some (raise e, s)) = some (caught (raise e, s))
  after_provision no_watchdog (some (ok result, (j, w))) =
      if result.dry_run
      then some (ok (pos 0), (j, w))
      else some (ok (pos 0), (j, arm_watchdog R L idle_timeout no_watchdog w))

  unfoldable pub with_config :
      ℕ → ProvisionArgs R.F → Option ProvisionConfig → Jarvis × W → Option (Result ℤ × (Jarvis × W))
  unfolding after_provision provision_from_scratch
  with_config fuel args none s = some (raise (exception "ValueError"), s)
  with_config fuel args (some config) s =
      after_provision args.no_watchdog
        (provision_from_scratch R S P fuel config args.write_env args.ready_timeout args.dry_run s)

  unfoldable pub with_target :
      ℕ
      → ProvisionArgs R.F
      → (ServeTarget → Option ProvisionConfig)
      → Option ServeTarget
      → Jarvis × W
      → Option (Result ℤ × (Jarvis × W))
  unfolding with_config overridden
  with_target fuel args config none s = some (ok (pos 2), s)
  with_target fuel args config (some target) (j, w) =
      with_config fuel args (config target) (overridden args j, w)

  -- `config` is ProvisionConfig.from_env on the environment.
  unfoldable pub cmd_provision :
      ℕ
      → ProvisionArgs R.F
      → (ServeTarget → Option ProvisionConfig)
      → Jarvis × W
      → Option (Result ℤ × (Jarvis × W))
  unfolding with_target
  cmd_provision fuel args config s =
      with_target fuel args config (parse_target (normal args.serve)) s
