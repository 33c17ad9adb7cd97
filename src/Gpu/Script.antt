-- ===== src/Gpu/Script.antt =====
-- provision.py: what to serve, and the startup script for it. `show` is Python's str of an int.
use atlas_compliance_copilot.Prelude.{
  ℕ, ◌≡◌, Bool, true, false, not, ◌&&◌, ◌||◌, String, ◌<>◌, List, [], ◌∷◌, ◌++◌, str_eq,
  if◌then◌else◌, Option, none, some, arith,
}

pub data ServeTarget : Type 0 where
  ollama : ServeTarget
  vllm : ServeTarget
  both : ServeTarget

unfoldable pub wants_ollama : ServeTarget → Bool
wants_ollama ollama = true
wants_ollama vllm = false
wants_ollama both = true

unfoldable pub wants_vllm : ServeTarget → Bool
wants_vllm ollama = false
wants_vllm vllm = true
wants_vllm both = true

abbrev pub target_value : ServeTarget → String
target_value ollama = "ollama"
target_value vllm = "vllm"
target_value both = "both"

-- ServeTarget.parse, with raw.strip().lower() applied already; none is the ValueError.
unfoldable pub parse_target : String → Option ServeTarget
parse_target raw =
    if str_eq raw "ollama"
    then some ollama
    else if str_eq raw "vllm"
    then some vllm
    else if str_eq raw "both"
    then some both
    else none

pub record ProvisionConfig : Type 0 where
  pub target : ServeTarget
  pub chat_model : String
  pub embed_model : String
  pub vllm_model : String
  pub vllm_max_model_len : ℕ
  pub vllm_enable_lora : Bool
  pub vllm_lora_modules : String
  pub vllm_max_loras : ℕ
  pub vllm_max_lora_rank : ℕ
  pub vllm_runtime_lora : Bool

abbrev ollama_port : ℕ
ollama_port = 11434

abbrev vllm_port : ℕ
vllm_port = 8000

ports_of : ServeTarget → List ℕ
unfolding wants_ollama wants_vllm
ports_of target =
    (if wants_ollama target then ollama_port ∷ [] else [])
    ++ (if wants_vllm target then vllm_port ∷ [] else [])

-- sep.join(texts)
join : String → List String → String
join sep [] = ""
join sep (t ∷ []) = t
join sep (t ∷ u ∷ ts) = t <> sep <> join sep (u ∷ ts)

abbrev lines : List String → String
lines [] = ""
lines (t ∷ ts) = t <> "\n" <> lines ts

module _ (show : ℕ → String) where
  show_all : List ℕ → List String
  show_all [] = []
  show_all (n ∷ ns) = show n ∷ show_all ns

  unfoldable pub http_ports : ProvisionConfig → String
  unfolding ports_of join show_all
  http_ports config = join "," (show_all (ports_of config.target))

  -- The templates, filled in.
  unfoldable pub ollama_block : ProvisionConfig → String
  ollama_block config =
      let port = show ollama_port in
      lines (
        ("# --- Ollama (OpenAI-compatible on :" <> port <> ") ---------------------------------")
        ∷ ("export OLLAMA_HOST=0.0.0.0:" <> port)
        ∷ "# install ollama, retrying until the binary actually appears (early-boot races / PATH)"
        ∷ "for i in 1 2 3 4 5; do"
        ∷ "  command -v ollama >/dev/null 2>&1 && break"
        ∷ "  echo \"[atlas] installing ollama (attempt $i)\""
        ∷ "  if command -v curl >/dev/null 2>&1; then"
        ∷ "    curl -fsSL https://ollama.com/install.sh | sh || true"
        ∷ "  else"
        ∷ "    wget -qO- https://ollama.com/install.sh | sh || true"
        ∷ "  fi"
        ∷ "  sleep 5"
        ∷ "done"
        ∷ "command -v ollama >/dev/null 2>&1 || echo \"[atlas] ERROR: ollama install FAILED\""
        ∷ "if ! pgrep -x ollama >/dev/null 2>&1; then"
        ∷ "  echo \"[atlas] starting ollama serve\""
        ∷ "  nohup ollama serve > /var/log/atlas-ollama.log 2>&1 &"
        ∷ "fi"
        ∷ "# wait for the daemon, then pull models (idempotent — ollama skips if present)"
        ∷ "for i in $(seq 1 30); do"
        ∷ ("  curl -sf \"http://127.0.0.1:" <> port <> "/api/tags\" >/dev/null 2>&1 && break")
        ∷ "  sleep 2"
        ∷ "done"
        ∷ ("ollama pull \"" <> config.chat_model <> "\"")
        ∷ ("ollama pull \"" <> config.embed_model <> "\"")
        ∷ ("echo \"[atlas] ollama ready on :" <> port <> "\"")
        ∷ [])

  vllm_lora_args : ProvisionConfig → String
  unfolding wants_vllm join
  vllm_lora_args config =
      if not (wants_vllm config.target) || not config.vllm_enable_lora
      then ""
      else join " " (
          " \\\n    --enable-lora"
          ∷ ("--max-loras " <> show config.vllm_max_loras)
          ∷ ("--max-lora-rank " <> show config.vllm_max_lora_rank)
          ∷ (if str_eq config.vllm_lora_modules ""
              then []
              else ("--lora-modules " <> config.vllm_lora_modules) ∷ []))

  vllm_lora_env : ProvisionConfig → String
  unfolding wants_vllm
  vllm_lora_env config =
      if wants_vllm config.target && config.vllm_enable_lora && config.vllm_runtime_lora
      then "export VLLM_ALLOW_RUNTIME_LORA_UPDATING=1\n"
      else ""

  unfoldable pub vllm_block : ProvisionConfig → String
  unfolding vllm_lora_args vllm_lora_env
  vllm_block config =
      let port = show vllm_port in
      lines (
        ("# --- vLLM (OpenAI-compatible on :" <> port <> ") -----------------------------------")
        ∷ "if ! python -c \"import vllm\" >/dev/null 2>&1; then"
        ∷ "  echo \"[atlas] installing vllm\""
        ∷ "  pip install --quiet \"vllm>=0.6\""
        ∷ "fi"
        ∷ (vllm_lora_env config
            <> "if ! pgrep -f \"vllm.entrypoints.openai.api_server\" >/dev/null 2>&1; then")
        ∷ "  echo \"[atlas] starting vllm openai server\""
        ∷ "  nohup python -m vllm.entrypoints.openai.api_server \\"
        ∷ ("    --model \"" <> config.vllm_model <> "\" --host 0.0.0.0 --port " <> port <> " \\")
        ∷ ("    --max-model-len "
            <> show config.vllm_max_model_len
            <> " --served-model-name \""
            <> config.vllm_model
            <> "\""
            <> vllm_lora_args config
            <> " \\")
        ∷ "    > /var/log/atlas-vllm.log 2>&1 &"
        ∷ "fi"
        ∷ ("echo \"[atlas] vllm starting on :" <> port
            <> " (model load can take several minutes)\"")
        ∷ [])

  -- The script's parts; the list is joined by line ends, with one more behind it.
  script_parts : ProvisionConfig → List String
  unfolding ollama_block vllm_block wants_ollama wants_vllm
  script_parts config =
      "#!/bin/bash"
      ∷ "set -u"
      ∷ "export PATH=/usr/local/bin:/usr/bin:/bin:/opt/conda/bin:$PATH"
      ∷ "exec > /var/log/atlas-provision.log 2>&1"
      ∷ "set -x"
      ∷ ("echo \"[atlas] provisioning serve target: " <> target_value config.target <> "\"")
      ∷ ((if wants_ollama config.target then ollama_block config ∷ [] else [])
          ++ (if wants_vllm config.target then vllm_block config ∷ [] else [])
          ++ ("echo \"[atlas] provisioning script complete\"" ∷ []))

  unfoldable pub build_startup_script : ProvisionConfig → String
  unfolding script_parts join
  build_startup_script config = join "\n" (script_parts config) <> "\n"

  -- Without LoRA, whatever the other LoRA settings are, the script is the same.
  build_startup_script-no_lora :
      (config : ProvisionConfig) (modules : String) (loras rank : ℕ) (runtime : Bool)
      → config.vllm_enable_lora ≡ false
      → build_startup_script config
        ≡ build_startup_script (record config {
          vllm_lora_modules = modules;
          vllm_max_loras = loras;
          vllm_max_lora_rank = rank;
          vllm_runtime_lora = runtime;
        })
  unfolding build_startup_script script_parts vllm_block vllm_lora_args vllm_lora_env wants_vllm
  build_startup_script-no_lora config modules loras rank runtime h = ground (arith, h)
