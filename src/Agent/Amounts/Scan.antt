-- ===== src/Agent/Amounts/Scan.antt =====
-- The scan of findall and its fuel.
use mathlib.Core.Path.{subst}
use atlas_compliance_copilot.Prelude.{
  ℕ, zero, suc, ◌≤◌, ◌≡◌, refl, ap, ◌∙◌, false, List, [], ◌∷◌, ◌++◌, Option, none, some, length,
  arith, ◌==◌, mem_ℕ, Bool-cases, inl, inr,
}
use atlas_compliance_copilot.Agent.Amounts.{
  Text, Chars, Match, orelse, digits, fraction, groups, exactly, grouped_at, plain, amount_at,
  after_dollar, currency_at, find_all, fraction_digits, after_lead, with_fraction, plain_of,
}

-- What is left is no longer than the text.
abbrev Shrinks : Text → Option Match → Type 0
Shrinks t none = Unit {0}
Shrinks t (some m) = length m.1 ≤ length t

Shrinks-orelse :
    (t : Text) (a b : Option Match) → Shrinks t a → Shrinks t b → Shrinks t (orelse a b)
Shrinks-orelse t none b h k = k
Shrinks-orelse t (some m) b h k = h

Shrinks-cons : (c : ℕ) (t : Text) (a : Option Match) → Shrinks t a → Shrinks (c ∷ t) a
Shrinks-cons c t none h = tt
Shrinks-cons c t (some m) h = omega arith

module _ (C : Chars) where
  length-digits : (t : Text) → length (digits C t).1 ≤ length t
  unfolding digits
  length-digits [] = omega arith
  length-digits (c ∷ t) = ground (arith, length-digits t)

  fraction_digits-le :
      (c : ℕ) (t : Text) (m : Match)
      → length m.1 ≤ length t
      → length (fraction_digits C c t m).1 ≤ length (c ∷ t)
  unfolding fraction_digits
  fraction_digits-le c t ([], rest) h = omega arith
  fraction_digits-le c t (d ∷ ds, rest) h = omega arith

  length-fraction : (t : Text) → length (fraction C t).1 ≤ length t
  unfolding fraction
  length-fraction [] = omega arith
  length-fraction (c ∷ t) = elim (Bool-cases (c == b'.')) [
    | inl e ↦ rw e (fraction_digits-le c t (digits C t) (length-digits t))
    | inr e ↦ rw e (omega arith)
  ]

  length-groups : (t : Text) → length (groups C t).1 ≤ length t
  unfolding groups
  length-groups (c ∷ x ∷ y ∷ z ∷ t) = ground (arith, length-groups t)
  length-groups t = omega arith

  exactly-Shrinks : (k : ℕ) (t : Text) → Shrinks t (exactly C k t)
  unfolding exactly
  exactly-Shrinks zero t = omega arith
  exactly-Shrinks (suc k) [] = tt
  exactly-Shrinks (suc k) (c ∷ t) = ground (arith, exactly-Shrinks k t)

  after_lead-Shrinks :
      (t lead : Text) (m : Match) → length m.1 ≤ length t → Shrinks t (after_lead C lead m)
  unfolding after_lead with_fraction
  after_lead-Shrinks t lead ([], rest) h = tt
  after_lead-Shrinks t lead (g ∷ gs, rest) h = omega (arith, length-fraction rest)

  plain_of-Shrinks : (t : Text) (m : Match) → length m.1 ≤ length t → Shrinks t (plain_of C m)
  unfolding plain_of with_fraction
  plain_of-Shrinks t ([], rest) h = tt
  plain_of-Shrinks t (d ∷ ds, rest) h = omega (arith, length-fraction rest)

  grouped_from :
      (t : Text) (m : Option Match)
      → Shrinks t m
      → Shrinks t (elim m [ none ↦ none | some m ↦ after_lead C m.0 (groups C m.1) ])
  grouped_from t none h = tt
  grouped_from t (some m) h =
      after_lead-Shrinks t m.0 (groups C m.1) (omega (arith, length-groups m.1))

  grouped_at-Shrinks : (k : ℕ) (t : Text) → Shrinks t (grouped_at C k t)
  unfolding grouped_at
  grouped_at-Shrinks k t = grouped_from t (exactly C k t) (exactly-Shrinks k t)

  amount_at-Shrinks : (t : Text) → Shrinks t (amount_at C t)
  unfolding amount_at plain
  amount_at-Shrinks t =
      Shrinks-orelse t _ _
        (Shrinks-orelse t _ _ (grouped_at-Shrinks 3 t)
          (Shrinks-orelse t _ _ (grouped_at-Shrinks 2 t) (grouped_at-Shrinks 1 t)))
        (plain_of-Shrinks t (digits C t) (length-digits t))

  after_dollar-Shrinks : (t : Text) → Shrinks t (after_dollar C t)
  unfolding after_dollar
  after_dollar-Shrinks [] = amount_at-Shrinks []
  after_dollar-Shrinks (c ∷ t) = elim (Bool-cases (C.is_space c)) [
    | inl e ↦ rw e (
        Shrinks-orelse (c ∷ t) _ _ (Shrinks-cons c t _ (amount_at-Shrinks t))
          (amount_at-Shrinks (c ∷ t)))
    | inr e ↦ rw e (amount_at-Shrinks (c ∷ t))
  ]

  -- A match consumes at least the dollar sign.
  currency_at-Shrinks : (c : ℕ) (t : Text) → Shrinks t (currency_at C (c ∷ t))
  unfolding currency_at
  currency_at-Shrinks c t = elim (Bool-cases (c == b'$')) [
    | inl e ↦ rw e (after_dollar-Shrinks t)
    | inr e ↦ rw e tt
  ]

  abbrev continue : ℕ → Text → Option Match → List Text
  continue f t none = find_all C f t
  continue f t (some m) = m.0 ∷ find_all C f m.1

  continue_enough :
      (f g : ℕ) (t : Text) (m : Option Match)
      → Shrinks t m
      → ((r : Text) → length r ≤ length t → find_all C f r ≡ find_all C g r)
      → continue f t m ≡ continue g t m
  continue_enough f g t none s ih = ih t (omega arith)
  continue_enough f g t (some m) s ih = ap (λ l. m.0 ∷ l) (ih m.1 s)

  find_all-suc :
      (f c : ℕ) (t : Text) → find_all C (suc f) (c ∷ t) ≡ continue f t (currency_at C (c ∷ t))
  unfolding find_all
  find_all-suc f c t = ground arith

  find_all-enough :
      (f g : ℕ) (t : Text) → length t ≤ f → length t ≤ g → find_all C f t ≡ find_all C g t
  unfolding find_all
  find_all-enough zero zero t h k = refl
  find_all-enough zero (suc g) [] h k = refl
  find_all-enough zero (suc g) (c ∷ t) h k = absurd (omega arith)
  find_all-enough (suc f) zero [] h k = refl
  find_all-enough (suc f) zero (c ∷ t) h k = absurd (omega arith)
  find_all-enough (suc f) (suc g) [] h k = refl
  find_all-enough (suc f) (suc g) (c ∷ t) h k =
      rw (find_all-suc f c t, find_all-suc g c t)
        (continue_enough f g t (currency_at C (c ∷ t)) (currency_at-Shrinks c t)
          (λ r s. find_all-enough f g r (omega arith) (omega arith)))

  -- Any fuel from the length of the text on gives the scan of the text.
  pub find_all-fuel : (f : ℕ) (t : Text) → length t ≤ f → find_all C f t ≡ find_all C (length t) t
  find_all-fuel f t h = find_all-enough f (length t) t h (omega arith)

  pub currency_at-none : (c : ℕ) (t : Text) → (c == b'$') ≡ false → currency_at C (c ∷ t) ≡ none
  unfolding currency_at
  currency_at-none c t h = rw h

  -- A text that is passed over has no match in it.
  pub find_all-skip :
      (pre t : Text)
      → mem_ℕ b'$' pre ≡ false
      → find_all C (length (pre ++ t)) (pre ++ t) ≡ find_all C (length t) t
  find_all-skip [] t h = refl
  find_all-skip (c ∷ pre) t h =
      find_all-suc _ c (pre ++ t)
      ∙ rw (currency_at-none c (pre ++ t) (ground arith)) (find_all-skip pre t (ground arith))

  -- The match at a dollar sign, and then the scan of what is behind it.
  pub find_all-match :
      (t m rest : Text)
      → currency_at C (b'$' ∷ t) ≡ some (m, rest)
      → find_all C (length (b'$' ∷ t)) (b'$' ∷ t) ≡ m ∷ find_all C (length rest) rest
  find_all-match t m rest h =
      find_all-suc (length t) b'$' t
      ∙ rw h (
          ap (λ l. m ∷ l)
            (find_all-fuel (length t) rest (subst (Shrinks t) h (currency_at-Shrinks b'$' t))))
