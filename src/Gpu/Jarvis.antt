-- ===== src/Gpu/Jarvis.antt =====
-- JarvisLabsProvider of providers.py: the instance it drives, whose id may change, and the URLs it
-- has found. The SDK's client and the probe are parameters.
pub mod Endpoint
use atlas_compliance_copilot.Prelude.{
  ℕ, ◌≡◌, refl, String, ◌<>◌, Bool, true, false, not, ◌&&◌, Option, none, some, List, [], ◌∷◌,
  str_eq, if◌then◌else◌,
}
use atlas_compliance_copilot.Exec.{
  Error, provider_error, Result, ok, raise, Exec, continue, ◌>>=◌, pure, throw,
}
use atlas_compliance_copilot.Gpu.Roles.{Roles, get, classify_endpoints}
use atlas_compliance_copilot.Gpu.Script.{
  ProvisionConfig, build_startup_script, http_ports, target_value,
}
use atlas_compliance_copilot.Gpu.Session.{Provider}

pub record InstanceInfo : Type 0 where
  pub machine_id : String
  pub status : String
  pub endpoints : List String

pub record CreateSpec : Type 0 where
  pub gpu_type : String
  pub num_gpus : ℕ
  pub template : String
  pub storage_gb : ℕ
  pub name : String
  pub region : Option String

pub record CreateCall : Type 0 where
  pub spec : CreateSpec
  pub http_ports : String
  pub script_id : String

-- The JlClient protocol.
pub record JlClient (W : Type 0) : Type 0 where
  pub get_instance : String → Exec W InstanceInfo
  pub resume_instance : String → Exec W InstanceInfo
  pub pause_instance : String → Exec W (Unit {0})
  pub destroy_instance : String → Exec W (Unit {0})
  pub create_instance : CreateCall → Exec W InstanceInfo
  pub add_script : String → String → Exec W String

pub record Jarvis : Type 0 where
  pub instance_id : String
  pub create_spec : CreateSpec
  pub roles : Roles

pub record Deps (W : Type 0) : Type 0 where
  pub client : JlClient W
  pub probe : String → W → Option String × W
  -- str.lower
  pub lower : String → String
  -- str of an int
  pub show : ℕ → String

-- A method of the provider, over its own fields and the world.
abbrev pub Method : Type 0 → Type 0 → Type 0
Method W A = Exec (Jarvis × W) A

module _ {W : Type 0} (S : Deps W) where
  -- A call that leaves the fields alone.
  unfoldable pub lift : {A : Type 0} → Jarvis → Result A × W → Result A × (Jarvis × W)
  lift j (r, w) = (r, (j, w))

  unfoldable pub call : {A : Type 0} → (Jarvis → Exec W A) → Method W A
  unfolding lift
  call f (j, w) = lift j (f j w)

  unfoldable pub update : (Jarvis → Jarvis) → Method W (Unit {0})
  update f (j, w) = (ok tt, (f j, w))

  unfoldable pub is_running : InstanceInfo → Bool
  is_running info = str_eq (S.lower info.status) "running"

  unfoldable pub status : Method W String
  unfolding call
  status = call (λ j. S.client.get_instance j.instance_id) >>= λ info. pure info.status

  needs_id : String → Method W (Unit {0})
  needs_id message (j, w) =
      if str_eq j.instance_id "" then (raise (provider_error message), (j, w)) else (ok tt, (j, w))

  -- The id can change on resume.
  unfoldable pub resume : Method W (Unit {0})
  unfolding needs_id call update is_running
  resume = needs_id "resume requires GPU_INSTANCE_ID (or create one first)" >>= λ _.
      call (λ j. S.client.get_instance j.instance_id) >>= λ info.
      if is_running info
      then update (λ j. record j { roles = [] })
      else (call (λ j. S.client.resume_instance j.instance_id) >>= λ resumed.
          update (λ j. record j { instance_id = resumed.machine_id; roles = [] }))

  unfoldable pub pause : Method W (Unit {0})
  unfolding needs_id call
  pause = needs_id "pause requires an instance id" >>= λ _.
      call (λ j. S.client.pause_instance j.instance_id)

  unfoldable pub destroy : Method W (Unit {0})
  unfolding needs_id call
  destroy = needs_id "destroy requires an instance id" >>= λ _.
      call (λ j. S.client.destroy_instance j.instance_id)

  is_empty : Roles → Bool
  is_empty [] = true
  is_empty (_ ∷ _) = false

  remember : Jarvis → Roles × W → Result Roles × (Jarvis × W)
  remember j (roles, w) = (ok roles, (record j { roles = roles }, w))

  classified : InstanceInfo → Method W Roles
  unfolding remember classify_endpoints
  classified info (j, w) = remember j (classify_endpoints S.probe info.endpoints w)

  unfoldable pub discover_endpoints : Bool → Method W Roles
  unfolding is_empty call classified
  discover_endpoints refresh (j, w) =
      if not (is_empty j.roles) && not refresh
      then (ok j.roles, (j, w))
      else (call (λ j. S.client.get_instance j.instance_id) >>= classified) (j, w)

  -- `roles.get("ollama") or roles.get("vllm")`, where an empty text is false.
  truthy : Option String → Option String
  truthy none = none
  truthy (some url) = if str_eq url "" then none else some url

  first_of : Option String → Option String → Option String
  first_of none o = o
  first_of (some url) o = some url

  unfoldable pub preferred : Roles → Option String
  unfolding truthy first_of get
  preferred roles = first_of (truthy (get "ollama" roles)) (truthy (get "vllm" roles))

  url_or_raise : Option String → Method W String
  url_or_raise none (j, w) = (
    raise (provider_error ("instance " <> j.instance_id <> " exposes no ready endpoint")),
    (j, w),
  )
  url_or_raise (some url) (j, w) = (ok url, (j, w))

  unfoldable pub endpoint : Method W String
  unfolding url_or_raise preferred discover_endpoints
  endpoint = discover_endpoints false >>= λ roles. url_or_raise (preferred roles)

  unfoldable pub create : ProvisionConfig → Method W InstanceInfo
  unfolding call update build_startup_script http_ports
  create config =
      call (λ _.
        S.client.add_script (build_startup_script S.show config)
          ("atlas-provision-" <> target_value config.target))
      >>= λ script_id.
          call (λ j. S.client.create_instance (record {
            spec = j.create_spec;
            http_ports = http_ports S.show config;
            script_id = script_id;
          }))
          >>= λ info. update (λ j. record j { instance_id = info.machine_id; roles = [] }) >>= λ _.
              pure info

  -- The provider as the session sees it.
  unfoldable pub provider : Provider (Jarvis × W)
  unfolding resume pause endpoint
  provider = record { resume = resume; pause = pause; endpoint = endpoint }
