-- ===== src/Float.antt =====
-- Python's floats: the operations that the services call on them, as a parameter of the model,
-- and the laws of finite floats that some theorems need.

pub mod Fixed
use atlas_compliance_copilot.Prelude.{ℕ, ◌<◌, ◌^◌, ◌≡◌, Bool, true, not, List, String}

-- `ratio a b` is the float next to a / b: a literal such as 0.25 is `ratio 25 100`, and the true
-- division of two ints is `ratio` of them. `parse` is float(text), on text that names a number.
pub record Float : Type 1 where
  pub F : Type 0
  pub ltb : F → F → Bool
  pub leb : F → F → Bool
  pub add : F → F → F
  pub sub : F → F → F
  pub ratio : ℕ → ℕ → F
  pub parse : List ℕ → F
  pub render : F → String

-- The order of finite floats is total, and `<` is the complement of `>=`.
pub record IsOrdered (R : Float) : Type 0 where
  pub leb_refl : (a : R.F) → R.leb a a ≡ true
  pub leb_trans : (a b c : R.F) → R.leb a b ≡ true → R.leb b c ≡ true → R.leb a c ≡ true
  pub ltb-not : (a b : R.F) → R.ltb a b ≡ not (R.leb b a)
  pub ltb→leb : (a b : R.F) → R.ltb a b ≡ true → R.leb a b ≡ true

-- A ratio of two counts below 2^53, the smaller by the greater, rounds to a float below 1.0.
pub record IsUnitRatio (R : Float) : Type 0 where
  pub ratio_lt : (a b : ℕ) → a < b → b < 2 ^ 53 → R.ltb (R.ratio a b) (R.ratio 1 1) ≡ true
