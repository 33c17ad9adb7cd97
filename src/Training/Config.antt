-- ===== src/Training/Config.antt =====
-- training/atlas_training/config.py: the validation of a pinned run config. A field is read from
-- the mapping that YAML gives; `real` is a float.
pub mod Load
pub mod Pinned
use atlas_compliance_copilot.Prelude.{
  ℕ, String, Bool, true, false, not, ◌&&◌, ◌||◌, Option, none, some, List, [], ◌∷◌, ◌++◌, str_eq,
  ◌==◌, if◌then◌else◌,
}
use atlas_compliance_copilot.Prelude.Int.{ℤ, pos}
use atlas_compliance_copilot.Text.{Text, codes, strip, text_eq, mem_text}

mutual
  pub data Value : Type 0 where
    null : Value
    boolean : Bool → Value
    integer : ℤ → Value
    real : ℕ → Value
    text : Text → Value
    sequence : Items → Value
    mapping : Fields → Value

  pub data Items : Type 0 where
    no_items : Items
    item : Value → Items → Items

  pub data Fields : Type 0 where
    no_fields : Fields
    field : String → Value → Fields → Fields

-- The ConfigError of each check, with the field, and the TypeError of a value that cannot be in a
-- set.
pub data ConfigError : Type 0 where
  not_found : ConfigError
  invalid_yaml : ConfigError
  not_a_mapping : String → ConfigError
  missing : String → String → ConfigError
  wrong_type : String → ConfigError
  bad_choice : String → ConfigError
  bad_modules : ConfigError
  empty_model : ConfigError
  unhashable : ConfigError

pub data Checked (A : Type 0) : Type 0 where
  ok : A → Checked A
  raise : ConfigError → Checked A

module _ {A B : Type 0} where
  infixl 5 ◌>>=◌
  abbrev pub ◌>>=◌ : Checked A → (A → Checked B) → Checked B
  ok a >>= f = f a
  raise e >>= f = raise e

unfoldable pub lookup : String → Fields → Value
lookup key no_fields = null
lookup key (field k v fs) = let rest = lookup key fs in if str_eq key k then v else rest

unfoldable pub present : String → String → Value → Checked Value
present key place null = raise (missing place key)
present key place v = ok v

unfoldable pub require : Value → String → String → Checked Value
unfolding lookup present
require (mapping fs) key place = present key place (lookup key fs)
require v key place = raise (not_a_mapping place)

-- _require_type for bool, int, (int, float) and str.
unfoldable pub as_bool : String → Value → Checked Bool
as_bool name (boolean b) = ok b
as_bool name v = raise (wrong_type name)

unfoldable pub as_int : String → Value → Checked ℤ
as_int name (integer n) = ok n
as_int name v = raise (wrong_type name)

pub data Number : Type 0 where
  int : ℤ → Number
  float : ℕ → Number

unfoldable pub as_number : String → Value → Checked Number
as_number name (integer n) = ok (int n)
as_number name (real x) = ok (float x)
as_number name v = raise (wrong_type name)

unfoldable pub as_text : String → Value → Checked Text
as_text name (text t) = ok t
as_text name v = raise (wrong_type name)

-- _require_choice: a list or a mapping is not hashable.
unfoldable pub choice : List Text → String → Value → Checked Text
choice set name (text t) = if mem_text t set then ok t else raise (bad_choice name)
choice set name (sequence is) = raise unhashable
choice set name (mapping fs) = raise unhashable
choice set name v = raise (bad_choice name)

abbrev pub quant_types : List Text
quant_types = codes "nf4" ∷ codes "fp4" ∷ []

abbrev pub compute_dtypes : List Text
compute_dtypes = codes "bfloat16" ∷ codes "float16" ∷ codes "float32" ∷ []

abbrev pub early_stop_metrics : List Text
early_stop_metrics = codes "eval_loss" ∷ codes "loss" ∷ []

pub record QuantConfig : Type 0 where
  pub load_in_4bit : Bool
  pub bnb_4bit_quant_type : Text
  pub bnb_4bit_compute_dtype : Text
  pub double_quant : Bool

pub record LoraConfig : Type 0 where
  pub r : ℤ
  pub alpha : ℤ
  pub dropout : Number
  pub target_modules : List Text

pub record TrainConfig : Type 0 where
  pub epochs : ℤ
  pub lr : Number
  pub batch_size : ℤ
  pub grad_accum : ℤ
  pub max_seq_len : ℤ
  pub seed : ℤ

pub record EarlyStopping : Type 0 where
  pub metric : Text
  pub patience : ℤ
  pub min_delta : Number

pub record DatasetRefs : Type 0 where
  pub manifest : Text
  pub train : Text
  pub val : Text

pub record MlflowConfig : Type 0 where
  pub experiment : Text
  pub run_name : Text
  pub register_as : Text

pub record RunConfig : Type 0 where
  pub base_model : Text
  pub quant : QuantConfig
  pub lora : LoraConfig
  pub train : TrainConfig
  pub early_stopping : EarlyStopping
  pub dataset : DatasetRefs
  pub mlflow : MlflowConfig

-- What a section reads of a mapping, with the type that the field must have.
abbrev pub read : {A : Type 0} → Value → String → String → (Value → Checked A) → Checked A
read raw place key check = require raw key place >>= check
