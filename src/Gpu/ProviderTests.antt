-- ===== src/Gpu/ProviderTests.antt =====
-- The provider and the provisioning on a world that counts the calls, and the theorems at concrete
-- runs.
use atlas_compliance_copilot.Prelude.{
  ℕ, suc, ◌≡◌, ◌≢◌, refl, String, true, false, Option, none, some, [], ◌∷◌, str_eq, if◌then◌else◌,
}
use atlas_compliance_copilot.Prelude.Int.{pos}
use atlas_compliance_copilot.Float.Fixed.{fixed}
use atlas_compliance_copilot.Exec.{Result, ok}
use atlas_compliance_copilot.Gpu.Session.{run_with_gpu}
use atlas_compliance_copilot.Gpu.Roles.{get, classify_endpoints, answers, first_answer}
use atlas_compliance_copilot.Gpu.Script.{ProvisionConfig, ServeTarget, build_startup_script}
use atlas_compliance_copilot.Gpu.Jarvis.{
  CreateSpec, JlClient, Jarvis, Deps, call, provider, resume, endpoint, discover_endpoints,
  is_running,
}
use atlas_compliance_copilot.Gpu.Jarvis.Endpoint.{
  Prefers, endpoint-first_answer, run_with_gpu-pauses_resumed,
}
use atlas_compliance_copilot.Gpu.Bootstrap.{
  ProvisionResult, Waiting as Timing, wait_loop, provision_from_scratch,
}
use atlas_compliance_copilot.Gpu.Bootstrap.Ready.{
  Serves, wait_loop-ne-none, provision_from_scratch-Serves, reading as discovery_reading,
  turns as discovery_turns,
}
use atlas_compliance_copilot.Gpu.Cli.{Lock}
use atlas_compliance_copilot.Gpu.Cli.Commands.{cmd_up}
use atlas_compliance_copilot.Gpu.Cli.Up.{cmd_up-ok}

-- "a" and "c" answer as Ollama, "b" as vLLM, "d" not at all.
abbrev probing : String → ℕ → Option String × ℕ
probing url w =
    if str_eq url "b"
    then (some "vllm", suc w)
    else if str_eq url "d"
    then (none, suc w)
    else (some "ollama", suc w)

first_ollama : get "ollama" (classify_endpoints probing ("d" ∷ "b" ∷ "a" ∷ "c" ∷ []) 0).0 ≡ some "a"
unfolding get classify_endpoints
first_ollama = refl

-- A client whose instance stands paused as "7" and comes back as "8"; the world counts the calls.
abbrev drifting : JlClient ℕ
drifting = record {
  get_instance = λ id w.
      (ok (record { machine_id = id; status = "Paused"; endpoints = "d" ∷ "b" ∷ "a" ∷ [] }), suc w);
  resume_instance =
      λ id w. (ok (record { machine_id = "8"; status = "Running"; endpoints = [] }), suc w);
  pause_instance = λ id w. (ok tt, suc w);
  destroy_instance = λ id w. (ok tt, suc w);
  create_instance =
      λ c w. (ok (record { machine_id = "9"; status = "Running"; endpoints = [] }), suc w);
  add_script = λ script name w. (ok "s", suc w);
}

abbrev deps : Deps ℕ
deps = record { client = drifting; probe = probing; lower = λ s. s; show = λ n. "8000" }

abbrev spec : CreateSpec
spec = record {
  gpu_type = "L4";
  num_gpus = 1;
  template = "pytorch";
  storage_gb = 100;
  name = "atlas-serving";
  region = none;
}

abbrev seven : Jarvis
seven = record { instance_id = "7"; create_spec = spec; roles = [] }

endpoint-first_answer_example :
    Prefers deps
      (first_answer probing "ollama" (answers probing ("d" ∷ "b" ∷ "a" ∷ []) 1))
      (first_answer probing "vllm" (answers probing ("d" ∷ "b" ∷ "a" ∷ []) 1))
      "a"
unfolding endpoint is_running
endpoint-first_answer_example =
    endpoint-first_answer deps seven 0 1
      (record { machine_id = "7"; status = "Paused"; endpoints = "d" ∷ "b" ∷ "a" ∷ [] }) "a"
      (endpoint deps (seven, 0)).1 refl refl found
  where
    found : endpoint deps (seven, 0) ≡ (ok "a", (endpoint deps (seven, 0)).1)
    found = refl

run_with_gpu-pauses_resumed_example :
    (w' : ℕ) × ((run_with_gpu
        (provider deps)
        (λ url. call deps (λ _ w. (ok tt, suc w)))
        false
        (λ url. call deps (λ _ w. (ok (pos 0), suc w)))
        (seven, 0)).1.1
      ≡ (drifting.pause_instance "8" w').1)
unfolding is_running
run_with_gpu-pauses_resumed_example =
    run_with_gpu-pauses_resumed deps (λ url w. (ok tt, suc w)) false (λ url w. (ok (pos 0), suc w))
      seven 0 1 2 (record { machine_id = "7"; status = "Paused"; endpoints = "d" ∷ "b" ∷ "a" ∷ [] })
      (record { machine_id = "8"; status = "Running"; endpoints = [] }) refl refl stopped refl refl
  where
    stopped :
        is_running deps
          (record { machine_id = "7"; status = "Paused"; endpoints = "d" ∷ "b" ∷ "a" ∷ [] })
        ≡ false
    stopped = refl

abbrev timing : Timing fixed ℕ
timing = record {
  now = λ w. (pos w, w);
  sleep = suc;
  write_env = λ path key value w. (ok tt, suc w);
}

abbrev serve_both : ProvisionConfig
serve_both = record {
  target = ServeTarget.both;
  chat_model = "qwen";
  embed_model = "nomic";
  vllm_model = "qwen-awq";
  vllm_max_model_len = 8192;
  vllm_enable_lora = false;
  vllm_lora_modules = "";
  vllm_max_loras = 1;
  vllm_max_lora_rank = 16;
  vllm_runtime_lora = false;
}

served : ProvisionResult
served = record {
  machine_id = "9";
  ollama_base_url = some "a";
  vllm_base_url = some "b";
  dry_run = false;
  script = build_startup_script deps.show serve_both;
}

provisioned :
    provision_from_scratch fixed deps timing 3 serve_both (some ".env") (pos 100) false (seven, 0)
    ≡ some (
      ok served,
      (
        record {
          instance_id = "9";
          create_spec = spec;
          roles = ("vllm", "b") ∷ ("ollama", "a") ∷ [];
        },
        9,
      ),
    )
unfolding provision_from_scratch served
provisioned = refl

provision_from_scratch-Serves_example : Serves fixed deps timing ServeTarget.both (
  ok served,
  (
    record { instance_id = "9"; create_spec = spec; roles = ("vllm", "b") ∷ ("ollama", "a") ∷ [] },
    9,
  ),
)
provision_from_scratch-Serves_example =
    provision_from_scratch-Serves fixed deps timing 3 serve_both (some ".env") (pos 100) (seven, 0)
      (
        ok served,
        (
          record {
            instance_id = "9";
            create_spec = spec;
            roles = ("vllm", "b") ∷ ("ollama", "a") ∷ [];
          },
          9,
        ),
      )
      provisioned

wait_loop-ne-none_example : wait_loop fixed deps timing 1 ("other" ∷ []) (pos 2) (seven, 0) ≢ none
unfolding discovery_reading discovery_turns discover_endpoints
wait_loop-ne-none_example =
    wait_loop-ne-none fixed deps timing 0 ("other" ∷ []) (pos 2) (seven, 0) refl

-- A lock that counts its writes in the world.
abbrev counting_lock : Lock fixed ℕ
counting_lock = record {
  exists = λ w. true;
  deadline = λ w. pos 1_200;
  write = λ t w. suc w;
  unlink = λ w. w;
  time = λ w. (pos w, w);
  spawn = λ w. suc w;
}

abbrev answering : String → ℕ → Result (Unit {0}) × ℕ
answering url w = (ok tt, suc w)

cmd_up-ok_example :
    (pos 0 ≡ pos 0)
    × (url : String) × (s1 : Jarvis × ℕ) × (s2 : Jarvis × ℕ) × (resume deps (seven, 0)
        ≡ (ok tt, s1))
    × (endpoint deps s1 ≡ (ok url, s2))
    × ((answering url s2.1).0 ≡ ok tt)
    × (w : ℕ) × ((cmd_up fixed deps timing counting_lock
          (pos 1_200)
          answering
          false
          (some ".env")
          false
          (seven, 0)).1.1
        ≡ counting_lock.spawn (counting_lock.write (fixed.add (pos w) (pos 1_200)) w))
unfolding cmd_up
cmd_up-ok_example =
    cmd_up-ok fixed deps timing counting_lock (pos 1_200) answering (some ".env") false (seven, 0)
      (cmd_up fixed deps timing counting_lock (pos 1_200) answering false (some ".env") false
        (seven, 0)).1
      (pos 0) returned_zero
  where
    returned_zero :
        cmd_up fixed deps timing counting_lock
          (pos 1_200)
          answering
          false
          (some ".env")
          false
          (seven, 0)
        ≡ (
          ok (pos 0),
          (cmd_up fixed deps timing counting_lock
              (pos 1_200)
              answering
              false
              (some ".env")
              false
              (seven, 0)).1,
        )
    returned_zero = refl
