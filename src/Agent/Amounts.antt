-- ===== src/Agent/Amounts.antt =====
-- amounts.py: the regular expression for USD amounts, as Python's re runs it (leftmost match,
-- greedy, with backtracking), over texts as lists of code points. What re takes for a digit and
-- for white space is a parameter.
pub mod Scan
pub mod RoundTrip
use atlas_compliance_copilot.Prelude.{
  ℕ, zero, suc, Bool, true, false, ◌&&◌, not, List, [], ◌∷◌, ◌++◌, map, Option, none, some, length,
  ◌==◌, if◌then◌else◌,
}
use atlas_compliance_copilot.Float.{Float}

abbrev pub Text : Type 0
Text = List ℕ

pub record Chars : Type 0 where
  pub is_digit : ℕ → Bool
  pub is_space : ℕ → Bool

-- A match and the text behind it.
abbrev pub Match : Type 0
Match = Text × Text

-- The second alternative is tried only if the first fails.
abbrev pub orelse {ℓ} : {A : Type ℓ} → Option A → Option A → Option A
orelse none b = b
orelse (some a) b = some a

module _ (C : Chars) where
  -- `\d*`, greedy.
  unfoldable pub digits : Text → Match
  digits [] = ([], [])
  digits (c ∷ t) = let rest = digits t in if C.is_digit c then (c ∷ rest.0, rest.1) else ([], c ∷ t)

  -- `(?:\.\d+)?` for a text that begins with c
  fraction_digits : ℕ → Text → Match → Match
  fraction_digits c t ([], rest) = ([], c ∷ t)
  fraction_digits c t (d ∷ ds, rest) = (c ∷ d ∷ ds, rest)

  unfoldable pub fraction : Text → Match
  unfolding fraction_digits
  fraction [] = ([], [])
  fraction (c ∷ t) = if c == b'.' then fraction_digits c t (digits t) else ([], c ∷ t)

  -- `(?:,\d{3})*`, greedy.
  unfoldable pub groups : Text → Match
  groups (c ∷ x ∷ y ∷ z ∷ t) =
      let rest = groups t in
      if c == b',' && C.is_digit x && C.is_digit y && C.is_digit z
      then (c ∷ x ∷ y ∷ z ∷ rest.0, rest.1)
      else ([], c ∷ x ∷ y ∷ z ∷ t)
  groups t = ([], t)

  -- `\d{k}`
  unfoldable pub exactly : ℕ → Text → Option Match
  exactly zero t = some ([], t)
  exactly (suc k) [] = none
  exactly (suc k) (c ∷ t) =
      let rest = exactly k t in
      if C.is_digit c then elim rest [ none ↦ none | some m ↦ some (c ∷ m.0, m.1) ] else none

  with_fraction : Text → Text → Match
  with_fraction whole rest = (whole ++ (fraction rest).0, (fraction rest).1)

  -- `(?:,\d{3})+(?:\.\d+)?` behind the leading digits.
  after_lead : Text → Match → Option Match
  after_lead lead ([], rest) = none
  after_lead lead (g ∷ gs, rest) = some (with_fraction (lead ++ (g ∷ gs)) rest)

  unfoldable pub grouped_at : ℕ → Text → Option Match
  unfolding after_lead with_fraction
  grouped_at k t = elim (exactly k t) [ none ↦ none | some m ↦ after_lead m.0 (groups m.1) ]

  plain_of : Match → Option Match
  plain_of ([], rest) = none
  plain_of (d ∷ ds, rest) = some (with_fraction (d ∷ ds) rest)

  -- `\d+(?:\.\d+)?`
  unfoldable pub plain : Text → Option Match
  unfolding plain_of with_fraction
  plain t = plain_of (digits t)

  -- The group of the expression: `\d{1,3}` is tried at three digits, then two, then one.
  unfoldable pub amount_at : Text → Option Match
  amount_at t =
      orelse (orelse (grouped_at 3 t) (orelse (grouped_at 2 t) (grouped_at 1 t))) (plain t)

  -- The optional white space is given back if the amount does not match behind it.
  unfoldable pub after_dollar : Text → Option Match
  after_dollar [] = amount_at []
  after_dollar (c ∷ t) =
      if C.is_space c then orelse (amount_at t) (amount_at (c ∷ t)) else amount_at (c ∷ t)

  unfoldable pub currency_at : Text → Option Match
  currency_at [] = none
  currency_at (c ∷ t) = if c == b'$' then after_dollar t else none

  -- findall: the fuel is at least the length of the text.
  unfoldable pub find_all : ℕ → Text → List Text
  find_all zero t = []
  find_all (suc fuel) [] = []
  find_all (suc fuel) (c ∷ t) = elim (currency_at (c ∷ t)) [
    | none ↦ find_all fuel t
    | some m ↦ m.0 ∷ find_all fuel m.1
  ]

  -- m.replace(",", "")
  unfoldable pub without_commas : Text → Text
  without_commas [] = []
  without_commas (c ∷ t) = let rest = without_commas t in if c == b',' then rest else c ∷ rest

  module _ (R : Float) where
    unfoldable pub amounts_in : Text → List R.F
    amounts_in t = map (λ m. R.parse (without_commas m)) (find_all (length t) t)

    -- The text may be absent.
    unfoldable pub extract_amounts : Option Text → List R.F
    extract_amounts none = []
    extract_amounts (some t) = amounts_in t
