-- ===== src/Training/Config/Pinned.antt =====
-- A run config that is written out as a mapping is read back as it was.
use atlas_compliance_copilot.Prelude.{ℕ, ◌≡◌, ◌≢◌, refl, ap, Bool, true, List, [], ◌∷◌}
use atlas_compliance_copilot.Text.{Text, strip, mem_text}
use atlas_compliance_copilot.Training.Config.{
  Value, boolean, integer, real, text, sequence, mapping, Items, no_items, item, no_fields, field,
  ok, require, lookup, present, as_bool, as_int, as_number, as_text, choice, Number, int, float,
  quant_types, compute_dtypes, early_stop_metrics, QuantConfig, LoraConfig, TrainConfig,
  EarlyStopping, DatasetRefs, MlflowConfig, RunConfig,
}
use atlas_compliance_copilot.Training.Config.Load.{
  also, texts, modules, quant, lora, train, early_stopping, yaml, run_config, load, named,
  refuse_empty,
}

abbrev of_number : Number → Value
of_number (int n) = integer n
of_number (float x) = real x

abbrev of_texts : List Text → Items
of_texts [] = no_items
of_texts (t ∷ ts) = item (text t) (of_texts ts)

abbrev of_quant : QuantConfig → Value
of_quant q = mapping (
    field "load_in_4bit" (boolean q.load_in_4bit) (
      field "bnb_4bit_quant_type" (text q.bnb_4bit_quant_type) (
        field "bnb_4bit_compute_dtype" (text q.bnb_4bit_compute_dtype)
          (field "double_quant" (boolean q.double_quant) no_fields))))

abbrev of_lora : LoraConfig → Value
of_lora l = mapping (
    field "r" (integer l.r) (
      field "alpha" (integer l.alpha) (
        field "dropout" (of_number l.dropout)
          (field "target_modules" (sequence (of_texts l.target_modules)) no_fields))))

abbrev of_train : TrainConfig → Value
of_train t = mapping (
    field "epochs" (integer t.epochs) (
      field "lr" (of_number t.lr) (
        field "batch_size" (integer t.batch_size) (
          field "grad_accum" (integer t.grad_accum) (
            field "max_seq_len" (integer t.max_seq_len)
              (field "seed" (integer t.seed) no_fields))))))

abbrev of_early_stopping : EarlyStopping → Value
of_early_stopping e = mapping (
    field "metric" (text e.metric)
      (field "patience" (integer e.patience) (field "min_delta" (of_number e.min_delta) no_fields)))

abbrev of_dataset : DatasetRefs → Value
of_dataset d = mapping (
    field "manifest" (text d.manifest)
      (field "train" (text d.train) (field "val" (text d.val) no_fields)))

abbrev of_mlflow : MlflowConfig → Value
of_mlflow m = mapping (
    field "experiment" (text m.experiment)
      (field "run_name" (text m.run_name) (field "register_as" (text m.register_as) no_fields)))

abbrev pub of_config : RunConfig → Value
of_config c = mapping (
    field "base_model" (text c.base_model) (
      field "quant" (of_quant c.quant) (
        field "lora" (of_lora c.lora) (
          field "train" (of_train c.train) (
            field "early_stopping" (of_early_stopping c.early_stopping) (
              field "dataset" (of_dataset c.dataset)
                (field "mlflow" (of_mlflow c.mlflow) no_fields)))))))

-- A config whose choices are allowed ones, with a target module and a named base model.
abbrev pub IsPinned : (ℕ → Bool) → RunConfig → Type 0
IsPinned blank c =
    (strip blank c.base_model ≢ [])
    × (mem_text c.quant.bnb_4bit_quant_type quant_types ≡ true)
    × (mem_text c.quant.bnb_4bit_compute_dtype compute_dtypes ≡ true)
    × (c.lora.target_modules ≢ [])
    × (mem_text c.early_stopping.metric early_stop_metrics ≡ true)

quant-of_quant :
    (q : QuantConfig)
    → mem_text q.bnb_4bit_quant_type quant_types ≡ true
    → mem_text q.bnb_4bit_compute_dtype compute_dtypes ≡ true
    → quant (of_quant q) ≡ ok q
unfolding quant require lookup present as_bool choice
quant-of_quant q h k = rw (h, k) refl

texts-of_texts : (ts : List Text) → texts (of_texts ts) ≡ ok ts
unfolding texts also
texts-of_texts [] = refl
texts-of_texts (t ∷ ts) = ap (also t) (texts-of_texts ts)

train-of_train : (t : TrainConfig) → train (of_train t) ≡ ok t
unfolding train require lookup present as_int as_number
train-of_train t = by_number t.lr
  where
    by_number : (n : Number) → train (of_train (record t { lr = n })) ≡ ok (record t { lr = n })
    by_number (int n) = refl
    by_number (float x) = refl

early_stopping-of_early_stopping :
    (e : EarlyStopping)
    → mem_text e.metric early_stop_metrics ≡ true
    → early_stopping (of_early_stopping e) ≡ ok e
unfolding early_stopping require lookup present as_int as_number choice
early_stopping-of_early_stopping e h = by_number e.min_delta
  where
    by_number :
        (n : Number)
        → early_stopping (of_early_stopping (record e { min_delta = n }))
          ≡ ok (record e { min_delta = n })
    by_number (int n) = rw h refl
    by_number (float x) = rw h refl

lora-of_lora : (l : LoraConfig) → l.target_modules ≢ [] → lora (of_lora l) ≡ ok l
unfolding lora require lookup present as_int as_number modules
lora-of_lora l h = by_number l.dropout l.target_modules h
  where
    by_number :
        (n : Number) (ts : List Text)
        → ts ≢ []
        → lora (of_lora (record l { dropout = n; target_modules = ts }))
          ≡ ok (record l { dropout = n; target_modules = ts })
    by_number n [] h = absurd (h refl)
    by_number (int n) (t ∷ ts) h = rw (texts-of_texts (t ∷ ts)) refl
    by_number (float x) (t ∷ ts) h = rw (texts-of_texts (t ∷ ts)) refl

module _ (blank : ℕ → Bool) where
  named_lem : (t : Text) → strip blank t ≢ [] → named blank t ≡ ok t
  unfolding named refuse_empty
  named_lem t h = by_text (strip blank t) h
    where
      by_text : (s : Text) → s ≢ [] → refuse_empty t s ≡ ok t
      by_text [] k = absurd (k refl)
      by_text (c ∷ s) k = refl

  -- A run config with a named base model, a target module and allowed choices, written out as a
  -- mapping, is loaded as it was: each field comes from its own key, with its type.
  pub load-of_config : (c : RunConfig) → IsPinned blank c → load blank (yaml (of_config c)) ≡ ok c
  unfolding load run_config require lookup present as_text
  load-of_config c (m, q, k, l, e) =
      rw
        (
          named_lem c.base_model m,
          quant-of_quant c.quant q k,
          lora-of_lora c.lora l,
          train-of_train c.train,
          early_stopping-of_early_stopping c.early_stopping e,
        )
        refl
