-- ===== src/Evals/FormatTests.antt =====
-- The class of a refusal and of a cited answer, over ASCII letters in one case.
use atlas_compliance_copilot.Prelude.{
  ℕ, ◌≡◌, ◌≢◌, ◌⊎◌, refl, ◌↔◌, Bool, true, false, ◌&&◌, none, [], ◌==◌, leb,
}
use atlas_compliance_copilot.Regex.{Classes, search}
use atlas_compliance_copilot.Text.{Text, codes, strip, rstrip, lstrip}
use atlas_compliance_copilot.Evals.Format.{
  classify, cited_doc_ids, refusal, answer, is_grounded_refusal,
}
use atlas_compliance_copilot.Evals.Format.Refusal.{did_refuse, classify-did_refuse}

abbrev white : ℕ → Bool
white c = c == b' '

abbrev ascii : Classes
ascii = record { is_space = white; is_word = λ c. leb b'a' c && leb c b'z'; fold = λ c. c }

abbrev declined : Text
declined = codes "cannot answer from the provided sources"

classify-did_refuse_example :
    ((classify ascii white declined none ≡ refusal)
      ↔ ((did_refuse ascii white declined ≡ true) × (cited_doc_ids (strip white declined) ≡ [])))
    × ((did_refuse ascii white declined ≡ false) ⊎ (classify ascii white declined none ≢ answer))
classify-did_refuse_example = classify-did_refuse ascii white declined none

declined_refuses : did_refuse ascii white declined ≡ true
unfolding did_refuse is_grounded_refusal strip rstrip lstrip search
declined_refuses = refl
