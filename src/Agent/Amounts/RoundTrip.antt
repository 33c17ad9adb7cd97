-- ===== src/Agent/Amounts/RoundTrip.antt =====
-- Amounts written into a text, and what the scan finds there.
use mathlib.Core.List.{append-nil}
use atlas_compliance_copilot.Prelude.{
  ℕ, zero, suc, ◌≡◌, refl, sym, ap, ◌∙◌, true, false, [], ◌∷◌, ◌++◌, map, Option, none, some,
  length, arith, ◌==◌, all, mem_ℕ, Bool-cases, inl, inr,
}
use atlas_compliance_copilot.Float.{Float}
use atlas_compliance_copilot.Agent.Amounts.{
  Text, Chars, digits, fraction, groups, exactly, grouped_at, plain, amount_at, after_dollar,
  currency_at, find_all, amounts_in, extract_amounts, without_commas,
}
use atlas_compliance_copilot.Agent.Amounts.Scan.{find_all-skip, find_all-match}

-- The text does not go on as the amount would.
pub record Ends (C : Chars) (t : Text) : Type 0 where
  pub not_digit : (c : ℕ) (r : Text) → t ≡ c ∷ r → C.is_digit c ≡ false
  pub not_point : (c : ℕ) (r : Text) → t ≡ c ∷ r → (c == b'.') ≡ false
  pub not_comma : (c : ℕ) (r : Text) → t ≡ c ∷ r → (c == b',') ≡ false

module _ (C : Chars) where
  digits-append : (ds t : Text) → all C.is_digit ds ≡ true → Ends C t → digits C (ds ++ t) ≡ (ds, t)
  unfolding digits
  digits-append [] [] h e = refl
  digits-append [] (c ∷ t) h e = ground (arith, e.not_digit c t refl)
  digits-append (d ∷ ds) t h e = ground (arith, digits-append ds t (ground arith) e)

  fraction-Ends : (t : Text) → Ends C t → fraction C t ≡ ([], t)
  unfolding fraction
  fraction-Ends [] e = refl
  fraction-Ends (c ∷ t) e = rw (e.not_point c t refl)

  plain-append :
      (d : ℕ) (ds t : Text)
      → all C.is_digit (d ∷ ds) ≡ true
      → Ends C t
      → plain C (d ∷ ds ++ t) ≡ some (d ∷ ds ++ [], t)
  unfolding plain
  plain-append d ds t h e = rw (digits-append (d ∷ ds) t h e, fraction-Ends t e)

  groups-no_comma :
      (t : Text) → ((c : ℕ) (r : Text) → t ≡ c ∷ r → (c == b',') ≡ false) → groups C t ≡ ([], t)
  unfolding groups
  groups-no_comma (c ∷ x ∷ y ∷ z ∷ t) h = rw (h c _ refl)
  groups-no_comma [] h = refl
  groups-no_comma (c ∷ []) h = refl
  groups-no_comma (c ∷ x ∷ []) h = refl
  groups-no_comma (c ∷ x ∷ y ∷ []) h = refl

  -- No group of thousands follows.
  abbrev Stops : Option (Text × Text) → Type 0
  Stops none = Unit {0}
  Stops (some m) = groups C m.1 ≡ ([], m.1)

  module _ (comma : C.is_digit b',' ≡ false) where
    digit_not_comma : (d : ℕ) → C.is_digit d ≡ true → (d == b',') ≡ false
    digit_not_comma d h = elim (Bool-cases (d == b',')) [
      | inl e ↦ let same : d ≡ b',' = ground arith in cc (ap (λ c. C.is_digit c) same, comma, h)
      | inr e ↦ e
    ]

    exactly-Stops :
        (k : ℕ) (ds t : Text) → all C.is_digit ds ≡ true → Ends C t → Stops (exactly C k (ds ++ t))
    unfolding exactly
    exactly-Stops zero [] t h e = groups-no_comma t e.not_comma
    exactly-Stops zero (d ∷ ds) t h e =
        groups-no_comma (d ∷ ds ++ t) (λ c r same. ground (arith, digit_not_comma d (ground arith)))
    exactly-Stops (suc k) [] [] h e = tt
    exactly-Stops (suc k) [] (c ∷ t) h e = rw (e.not_digit c t refl) tt
    exactly-Stops (suc k) (d ∷ ds) t h e = ground (arith, exactly-Stops k ds t (ground arith) e)

    grouped_at-none :
        (k : ℕ) (ds t : Text)
        → all C.is_digit ds ≡ true
        → Ends C t
        → grouped_at C k (ds ++ t) ≡ none
    unfolding grouped_at
    grouped_at-none k ds t h e = ground (arith, exactly-Stops k ds t h e)

    without_commas-digits : (ds : Text) → all C.is_digit ds ≡ true → without_commas C ds ≡ ds
    unfolding without_commas
    without_commas-digits [] h = refl
    without_commas-digits (d ∷ ds) h =
        rw (digit_not_comma d (ground arith), without_commas-digits ds (ground arith))

    -- The whole match at the dollar sign is the run of digits.
    currency_at-plain :
        (d : ℕ) (ds t : Text)
        → C.is_space d ≡ false
        → all C.is_digit (d ∷ ds) ≡ true
        → Ends C t
        → currency_at C (b'$' ∷ (d ∷ ds ++ t)) ≡ some (d ∷ ds ++ [], t)
    unfolding currency_at after_dollar amount_at
    currency_at-plain d ds t s h e =
        rw
          (
            s,
            grouped_at-none 3 (d ∷ ds) t h e,
            grouped_at-none 2 (d ∷ ds) t h e,
            grouped_at-none 1 (d ∷ ds) t h e,
          )
          (plain-append d ds t h e)

    -- A dollar sign and digits, in a text with no dollar sign before them and with no digit, comma or
    -- full stop next behind them, are read back as the first amount, and the other amounts are those
    -- of the text behind. The digits are taken to be neither commas nor white space.
    pub extract_amounts-plain :
        (R : Float) (pre : Text) (d : ℕ) (ds t : Text)
        → mem_ℕ b'$' pre ≡ false
        → C.is_space d ≡ false
        → all C.is_digit (d ∷ ds) ≡ true
        → Ends C t
        → extract_amounts C R (some (pre ++ (b'$' ∷ (d ∷ ds ++ t))))
          ≡ R.parse (d ∷ ds) ∷ extract_amounts C R (some t)
    unfolding extract_amounts amounts_in
    extract_amounts-plain R pre d ds t skip s h e =
        ap (map (λ m. R.parse (without_commas C m))) (
          find_all-skip C pre _ skip
          ∙ find_all-match C (d ∷ ds ++ t) (d ∷ ds ++ []) t (currency_at-plain d ds t s h e))
        ∙ rw (append-nil, without_commas-digits (d ∷ ds) h)

  -- A text without a dollar sign has no amount.
  pub extract_amounts-nil :
      (R : Float) (t : Text) → mem_ℕ b'$' t ≡ false → extract_amounts C R (some t) ≡ []
  unfolding extract_amounts amounts_in find_all
  extract_amounts-nil R t h =
      ap (map (λ m. R.parse (without_commas C m)))
        (ap (λ u. find_all C (length u) u) (sym (append-nil t)) ∙ find_all-skip C t [] h)
