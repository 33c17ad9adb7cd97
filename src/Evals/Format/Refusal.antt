-- ===== src/Evals/Format/Refusal.antt =====
-- evals/atlas_evals/metrics/refusal.py: the scorer of refusals, on the detector of format_validity.
use atlas_compliance_copilot.Prelude.{
  ℕ, ◌+◌, ◌≡◌, ◌≢◌, ◌⊎◌, refl, ap, ◌↔◌, String, Bool, true, false, not, Option, none, some, List,
  [], ◌∷◌, ◌==◌, if◌then◌else◌, length, arith,
}
use atlas_compliance_copilot.Float.{Float}
use atlas_compliance_copilot.Regex.{Classes}
use atlas_compliance_copilot.Text.{Text, strip, strip-strip}
use atlas_compliance_copilot.Evals.Format.{
  answer, refusal, classify, classify_text, is_grounded_refusal, is_empty, cited_doc_ids,
  reads_as_refusal,
}

pub record RefusalCase : Type 0 where
  pub id : String
  pub question : String
  pub should_refuse : Bool
  pub clearance : Option String
  pub reason : Option String

module _ (C : Classes) (blank : ℕ → Bool) where
  unfoldable pub did_refuse : Text → Bool
  did_refuse output = is_grounded_refusal C blank output

  unfoldable pub score : RefusalCase → Text → Bool
  unfolding did_refuse
  score case output = if case.should_refuse then did_refuse output else not (did_refuse output)

  unfoldable pub correct : List RefusalCase → List Text → ℕ
  unfolding score
  correct (c ∷ cs) (o ∷ os) = (if score c o then 1 else 0) + correct cs os
  correct [] os = 0
  correct (c ∷ cs) [] = 0

  -- none is the ValueError of counts that differ.
  unfoldable pub score_rate : (R : Float) → List RefusalCase → List Text → Option R.F
  unfolding correct
  score_rate R cases outputs =
      if not (length outputs == length cases)
      then none
      else if length cases == 0
      then some (R.ratio 1 1)
      else some (R.ratio (correct cases outputs) (length cases))

  -- The detector sees the same in a text and in the stripped text.
  did_refuse-strip : (o : Text) → is_grounded_refusal C blank (strip blank o) ≡ did_refuse o
  unfolding did_refuse is_grounded_refusal
  did_refuse-strip o = ap (reads_as_refusal C blank) (strip-strip blank o)

  is_empty_lem : {A : Type 0} (l : List A) → (is_empty l ≡ true) ↔ (l ≡ [])
  unfolding is_empty
  is_empty_lem [] = (λ h. refl, λ h. refl)
  is_empty_lem (x ∷ l) = (λ h. cc, λ h. cc)

  -- An empty text is no refusal.
  empty_lem : (o : Text) → strip blank o ≡ [] → did_refuse o ≡ false
  unfolding did_refuse is_grounded_refusal reads_as_refusal is_empty
  empty_lem o e = rw e refl

  -- An output is classed as a refusal exactly where the scorer of refusals sees one and no document
  -- is cited, and what is classed as an answer is no refusal for that scorer.
  pub classify-did_refuse :
      (o : Text) (ids : Option (List Text))
      → ((classify C blank o ids ≡ refusal)
          ↔ ((did_refuse o ≡ true) × (cited_doc_ids (strip blank o) ≡ [])))
        × ((did_refuse o ≡ false) ⊎ (classify C blank o ids ≢ answer))
  unfolding classify classify_text
  classify-did_refuse o ids = ground (
    arith,
    did_refuse-strip o,
    is_empty_lem (cited_doc_ids (strip blank o)),
    is_empty_lem (strip blank o),
    empty_lem o,
  )
