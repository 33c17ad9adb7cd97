-- ===== src/Training/Tracker.antt =====
-- training/atlas_training/tracking.py: the logging of a run, and the registration of an adapter that
-- is pushed to the HF Hub first. The Hub and MLflow are parameters, whose calls change a world `W`
-- and may raise. TrackingError is an `exception`.
pub mod Source
use atlas_compliance_copilot.Prelude.{
  ℕ, ◌≡◌, ◌≢◌, refl, sym, ap, ◌∙◌, ◌⊎◌, inl, inr, String, Bool, true, false, not, ◌&&◌, ◌||◌,
  Option, none, some, List, [], ◌∷◌, ◌++◌, arith, ◌==◌, if◌then◌else◌, or_default, any, Bool-cases,
}
use atlas_compliance_copilot.Prelude.Int.{ℤ}
use atlas_compliance_copilot.Exec.{
  Error, exception, Result, ok, raise, Exec, ◌>>=◌, continue, pure, throw,
}
use atlas_compliance_copilot.Text.{Text, codes, has_prefix, after_prefix, mem_text}
use atlas_compliance_copilot.Training.Config.{RunConfig, Number, int}

pub record ModelVersion : Type 0 where
  pub name : Text
  pub version : Text
  pub source : Text
  pub run_id : Text

unfoldable pub is_empty : Text → Bool
is_empty [] = true
is_empty (c ∷ t) = false

unfoldable pub hf_source_uri : {W : Type 0} → Text → Text → Exec W Text
unfolding is_empty
hf_source_uri repo revision =
    if is_empty repo || is_empty revision
    then throw (exception "TrackingError")
    else pure (codes "hf://" ++ (repo ++ (codes "@" ++ revision)))

-- uri.split(sep, 1)[1], where there is a separator
unfoldable pub after_first : Text → Text → Option Text
after_first sep [] = after_prefix sep []
after_first sep (c ∷ t) = elim (after_prefix sep (c ∷ t)) [
  | none ↦ after_first sep t
  | some rest ↦ some rest
]

unfoldable pub is_hf_source : Text → Bool
unfolding after_first
is_hf_source uri =
    has_prefix (codes "hf://") uri
    && any (λ c. c == b'@') (or_default [] (after_first (codes "://") uri))

pub record HubClient (W : Type 0) : Type 0 where
  pub push : Text → Text → Bool → Text → Exec W Text

-- The values of run_params.
pub data Param : Type 0 where
  text : Text → Param
  boolean : Bool → Param
  number : Number → Param

pub record RegistryClient (F W : Type 0) : Type 0 where
  pub set_experiment : Text → Exec W (Unit {0})
  pub start_run : Text → Exec W Text
  pub log_params : List (String × Param) → Exec W (Unit {0})
  pub log_metrics : List (String × F) → Option ℕ → Exec W (Unit {0})
  pub end_run : Exec W (Unit {0})
  pub create_model_version : Text → Text → Text → Exec W Text

unfoldable pub sha_param : Option Text → List (String × Param)
sha_param none = []
sha_param (some []) = []
sha_param (some (c ∷ t)) = ("dataset.prompt_template_sha", text (c ∷ t)) ∷ []

unfoldable pub run_params : RunConfig → Option Text → List (String × Param)
unfolding sha_param
run_params config sha =
    (("base_model", text config.base_model)
      ∷ ("seed", number (int config.train.seed))
      ∷ ("quant.load_in_4bit", boolean config.quant.load_in_4bit)
      ∷ ("quant.bnb_4bit_quant_type", text config.quant.bnb_4bit_quant_type)
      ∷ ("quant.bnb_4bit_compute_dtype", text config.quant.bnb_4bit_compute_dtype)
      ∷ ("lora.r", number (int config.lora.r))
      ∷ ("lora.alpha", number (int config.lora.alpha))
      ∷ ("lora.dropout", number config.lora.dropout)
      ∷ ("train.epochs", number (int config.train.epochs))
      ∷ ("train.lr", number config.train.lr)
      ∷ ("train.batch_size", number (int config.train.batch_size))
      ∷ ("train.grad_accum", number (int config.train.grad_accum))
      ∷ ("train.max_seq_len", number (int config.train.max_seq_len))
      ∷ ("dataset.manifest", text config.dataset.manifest)
      ∷ ("dataset.train", text config.dataset.train)
      ∷ ("dataset.val", text config.dataset.val)
      ∷ [])
    ++ sha_param sha

pub record Tracker (F W : Type 0) : Type 0 where
  pub registry : RegistryClient F W
  pub hub : HubClient W
  pub hf_repo : Text
  pub hf_token : Text
  pub hf_private : Bool

unfoldable pub unset : Option Text → Bool
unfolding is_empty
unset none = true
unset (some t) = is_empty t

-- The environment's variables, and str.lower.
unfoldable pub from_env :
    {F W : Type 0}
    → (Text → Text)
    → (String → Option Text)
    → RegistryClient F W
    → HubClient W
    → Result (Tracker F W)
unfolding unset
from_env lower env registry hub =
    if unset (env "ATLAS_HF_ADAPTER_REPO")
    then raise (exception "TrackingError")
    else if unset (env "HF_TOKEN")
    then raise (exception "TrackingError")
    else ok (record {
      registry = registry;
      hub = hub;
      hf_repo = or_default [] (env "ATLAS_HF_ADAPTER_REPO");
      hf_token = or_default [] (env "HF_TOKEN");
      hf_private = not (
          mem_text (lower (or_default (codes "true") (env "HF_PRIVATE")))
            (codes "false" ∷ codes "0" ∷ codes "no" ∷ []));
    })

module _ {F W : Type 0} (self : Tracker F W) where
  unfoldable pub log_run : RunConfig → Option Text → Exec W Text
  log_run config sha = do
    _ ← self.registry.set_experiment config.mlflow.experiment
    run_id ← self.registry.start_run config.mlflow.run_name
    _ ← self.registry.log_params (run_params config sha)
    pure run_id

  unfoldable pub loss_metrics : F → Option F → List (String × F)
  loss_metrics train_loss none = ("train_loss", train_loss) ∷ []
  loss_metrics train_loss (some e) = ("train_loss", train_loss) ∷ ("eval_loss", e) ∷ []

  unfoldable pub log_loss : ℕ → F → Option F → Exec W (Unit {0})
  unfolding loss_metrics
  log_loss step train_loss eval_loss =
      self.registry.log_metrics (loss_metrics train_loss eval_loss) (some step)

  unfoldable pub log_metrics : List (String × F) → Exec W (Unit {0})
  log_metrics metrics = self.registry.log_metrics metrics none

  -- What comes after the defensive test of the source.
  unfoldable pub registered : Text → Text → Text → Exec W ModelVersion
  registered run_id register_as source = do
    version ← self.registry.create_model_version register_as source run_id
    _ ← self.registry.end_run
    pure (record { name = register_as; version = version; source = source; run_id = run_id })

  unfoldable pub checked : Text → Text → Text → Exec W ModelVersion
  unfolding registered
  checked run_id register_as source =
      if not (is_hf_source source)
      then throw (exception "TrackingError")
      else registered run_id register_as source

  unfoldable pub register_adapter : Text → Text → Text → Exec W ModelVersion
  unfolding checked hf_source_uri
  register_adapter run_id adapter_path register_as = do
    revision ← self.hub.push adapter_path self.hf_repo self.hf_private self.hf_token
    source ← hf_source_uri self.hf_repo revision
    checked run_id register_as source
