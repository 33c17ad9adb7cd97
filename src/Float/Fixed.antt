-- ===== src/Float/Fixed.antt =====
-- Fixed-point numbers with nine decimal places: an instance of the float operations at which the
-- theorems are applied to concrete data.
use atlas_compliance_copilot.Prelude.{
  ℕ, ◌<◌, ◌≡◌, true, lt→ltb, ◌+◌, ◌-◌, ◌*◌, ◌/◌, Bool, List, [], ◌∷◌, arith, leb, ◌==◌,
  if◌then◌else◌,
}
use atlas_compliance_copilot.Prelude.Int.{ℤ, pos, ◌+ℤ◌, ◌-ℤ◌, ltb_ℤ, pos_part, neg_part}
use atlas_compliance_copilot.Float.{Float, IsOrdered, IsUnitRatio}
use native.Mathlib.Nat.{div-lt_iff_lt-mul}

abbrev scale : ℕ
scale = 1_000_000_000

-- The digits of a decimal, with the places behind the point that are left.
abbrev decimals : ℕ → ℕ → List ℕ → ℕ
decimals acc place [] = acc
decimals acc place (c ∷ t) = decimals (acc + (c - b'0') * place) (place / 10) t

abbrev whole : ℕ → List ℕ → ℕ
whole acc [] = acc * scale
whole acc (c ∷ t) =
    let rest = whole (acc * 10 + (c - b'0')) t in
    if c == b'.' then decimals (acc * scale) (scale / 10) t else rest

abbrev leb_ℤ : ℤ → ℤ → Bool
leb_ℤ a b = leb (pos_part a + neg_part b) (pos_part b + neg_part a)

abbrev pub fixed : Float
fixed = record {
  F = ℤ;
  ltb = ltb_ℤ;
  leb = leb_ℤ;
  add = ◌+ℤ◌;
  sub = ◌-ℤ◌;
  ratio = λ a b. pos (a * scale / b);
  parse = λ t. pos (whole 0 t);
  render = λ a. "0.0";
}

pub fixed-IsOrdered : IsOrdered fixed
fixed-IsOrdered = record {
  leb_refl = λ a. ground arith;
  leb_trans = λ a b c h k. ground arith;
  ltb-not = λ a b. ground arith;
  ltb→leb = λ a b h. ground arith;
}

pub fixed-IsUnitRatio : IsUnitRatio fixed
fixed-IsUnitRatio = record { ratio_lt = λ a b h k. below a b h }
  where
    quotient_lt : (a b : ℕ) → a < b → a * scale / b < scale
    quotient_lt a b h = (div-lt_iff_lt-mul (omega arith)).1 (omega arith)

    below : (a b : ℕ) → a < b → ltb_ℤ (pos (a * scale / b)) (pos (1 * scale / 1)) ≡ true
    below a b h = lt→ltb _ _ (omega (arith, quotient_lt a b h))
