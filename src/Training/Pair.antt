-- ===== src/Training/Pair.antt =====
-- The record of a synthetic pair, SyntheticPair of training/atlas_training/data/synth.py.
use atlas_compliance_copilot.Prelude.{String}
use atlas_compliance_copilot.Text.{Text}

pub record SyntheticPair : Type 0 where
  pub question : Text
  pub context : Text
  pub answer : Text
  pub label : String
  pub provenance_ref : Text
  pub generator : String
