-- ===== src/Training/Config/Load.antt =====
-- The sections of a run config and load, of training/atlas_training/config.py.
use atlas_compliance_copilot.Prelude.{ℕ, Bool, List, [], ◌∷◌}
use atlas_compliance_copilot.Text.{Text, strip}
use atlas_compliance_copilot.Training.Config.{
  Value, text, sequence, mapping, Items, no_items, item, not_found, invalid_yaml, not_a_mapping,
  bad_modules, empty_model, Checked, ok, raise, ◌>>=◌, require, as_bool, as_int, as_number, as_text,
  choice, quant_types, compute_dtypes, early_stop_metrics, QuantConfig, LoraConfig, TrainConfig,
  EarlyStopping, DatasetRefs, MlflowConfig, RunConfig, read,
}

unfoldable pub quant : Value → Checked QuantConfig
unfolding require
quant raw = do
  load_in_4bit ← read raw "quant" "load_in_4bit" (as_bool "quant.load_in_4bit")
  quant_type ←
      read raw "quant" "bnb_4bit_quant_type" (choice quant_types "quant.bnb_4bit_quant_type")
  dtype ←
      read raw "quant" "bnb_4bit_compute_dtype"
        (choice compute_dtypes "quant.bnb_4bit_compute_dtype")
  double_quant ← read raw "quant" "double_quant" (as_bool "quant.double_quant")
  ok (record {
    load_in_4bit = load_in_4bit;
    bnb_4bit_quant_type = quant_type;
    bnb_4bit_compute_dtype = dtype;
    double_quant = double_quant;
  })

unfoldable pub also : Text → Checked (List Text) → Checked (List Text)
also t (ok ts) = ok (t ∷ ts)
also t (raise e) = raise e

-- Every item is a text.
unfoldable pub texts : Items → Checked (List Text)
unfolding also
texts no_items = ok []
texts (item (text t) is) = also t (texts is)
texts (item v is) = raise bad_modules

unfoldable pub modules : Value → Checked (List Text)
unfolding texts
modules (sequence (item v is)) = texts (item v is)
modules v = raise bad_modules

unfoldable pub lora : Value → Checked LoraConfig
unfolding require modules
lora raw = do
  targets ← read raw "lora" "target_modules" modules
  r ← read raw "lora" "r" (as_int "lora.r")
  alpha ← read raw "lora" "alpha" (as_int "lora.alpha")
  dropout ← read raw "lora" "dropout" (as_number "lora.dropout")
  ok (record { r = r; alpha = alpha; dropout = dropout; target_modules = targets })

unfoldable pub train : Value → Checked TrainConfig
unfolding require
train raw = do
  epochs ← read raw "train" "epochs" (as_int "train.epochs")
  lr ← read raw "train" "lr" (as_number "train.lr")
  batch_size ← read raw "train" "batch_size" (as_int "train.batch_size")
  grad_accum ← read raw "train" "grad_accum" (as_int "train.grad_accum")
  max_seq_len ← read raw "train" "max_seq_len" (as_int "train.max_seq_len")
  seed ← read raw "train" "seed" (as_int "train.seed")
  ok (record {
    epochs = epochs;
    lr = lr;
    batch_size = batch_size;
    grad_accum = grad_accum;
    max_seq_len = max_seq_len;
    seed = seed;
  })

unfoldable pub early_stopping : Value → Checked EarlyStopping
unfolding require
early_stopping raw = do
  metric ← read raw "early_stopping" "metric" (choice early_stop_metrics "early_stopping.metric")
  patience ← read raw "early_stopping" "patience" (as_int "early_stopping.patience")
  min_delta ← read raw "early_stopping" "min_delta" (as_number "early_stopping.min_delta")
  ok (record { metric = metric; patience = patience; min_delta = min_delta })

unfoldable pub dataset : Value → Checked DatasetRefs
unfolding require
dataset raw = do
  manifest ← read raw "dataset" "manifest" (as_text "dataset.manifest")
  train ← read raw "dataset" "train" (as_text "dataset.train")
  val ← read raw "dataset" "val" (as_text "dataset.val")
  ok (record { manifest = manifest; train = train; val = val })

unfoldable pub mlflow : Value → Checked MlflowConfig
unfolding require
mlflow raw = do
  experiment ← read raw "mlflow" "experiment" (as_text "mlflow.experiment")
  run_name ← read raw "mlflow" "run_name" (as_text "mlflow.run_name")
  register_as ← read raw "mlflow" "register_as" (as_text "mlflow.register_as")
  ok (record { experiment = experiment; run_name = run_name; register_as = register_as })

-- What is at the path: no file, a text that YAML refuses, or a value.
pub data File : Type 0 where
  absent : File
  malformed : File
  yaml : Value → File

unfoldable pub refuse_empty : Text → Text → Checked Text
refuse_empty base_model [] = raise empty_model
refuse_empty base_model (c ∷ t) = ok base_model

module _ (blank : ℕ → Bool) where
  unfoldable pub named : Text → Checked Text
  unfolding refuse_empty
  named base_model = refuse_empty base_model (strip blank base_model)

  unfoldable pub run_config : Value → Checked RunConfig
  unfolding named quant lora train early_stopping dataset mlflow
  run_config raw = do
    model ← read raw "" "base_model" (as_text "base_model")
    base_model ← named model
    q ← read raw "" "quant" quant
    l ← read raw "" "lora" lora
    t ← read raw "" "train" train
    e ← read raw "" "early_stopping" early_stopping
    d ← read raw "" "dataset" dataset
    m ← read raw "" "mlflow" mlflow
    ok (record {
      base_model = base_model;
      quant = q;
      lora = l;
      train = t;
      early_stopping = e;
      dataset = d;
      mlflow = m;
    })

  unfoldable pub load : File → Checked RunConfig
  unfolding run_config
  load absent = raise not_found
  load malformed = raise invalid_yaml
  load (yaml (mapping fs)) = run_config (mapping fs)
  load (yaml v) = raise (not_a_mapping "")
