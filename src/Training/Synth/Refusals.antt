-- ===== src/Training/Synth/Refusals.antt =====
-- templated_refusals and build_generated_dataset of training/atlas_training/data/synth.py.
-- `choice` is what a random.Random in the state `S` picks of a sequence.
use atlas_compliance_copilot.Prelude.{ℕ, zero, suc, Bool, List, [], ◌∷◌, ◌++◌}
use atlas_compliance_copilot.Text.{Text, codes}
use atlas_compliance_copilot.Training.Corpus.{Docs, TrustedDoc, values}
use atlas_compliance_copilot.Training.Pair.{SyntheticPair}
use atlas_compliance_copilot.Training.Synth.{Generator, context}
use atlas_compliance_copilot.Training.Synth.Generate.{Parsed, generate_all}

-- The templates as what stands before and behind {other}.
abbrev pub Template : Type 0
Template = Text × Text

abbrev pub out_of_scope : List Template
out_of_scope =
    (codes "What was ", codes "'s net income last year?")
    ∷ (codes "What is the current share price of ", codes "?")
    ∷ (codes "Summarize ", codes "'s litigation exposure.")
    ∷ (codes "What dividend did ", codes " pay this quarter?")
    ∷ []

abbrev pub other_entities : List Text
other_entities =
    codes "Tesla"
    ∷ codes "Nvidia"
    ∷ codes "JPMorgan"
    ∷ codes "Shell"
    ∷ codes "Pfizer"
    ∷ codes "Boeing"
    ∷ []

-- A seeded generator of choices.
pub record Random (S : Type 0) : Type 0 where
  pub seeded : ℕ → S
  pub choose_template : List Template → S → Template × S
  pub choose_entity : List Text → S → Text × S

module _ (blank : ℕ → Bool) {S : Type 0} (random : Random S) where
  unfoldable pub refusal_pair : TrustedDoc → Template → Text → SyntheticPair
  refusal_pair doc (before, behind) other = record {
    question = before ++ other ++ behind;
    context = context blank doc;
    answer =
        codes "I can't answer that from the provided sources: the context does not contain "
        ++ codes "information about "
        ++ other
        ++ codes ".";
    label = "refusal";
    provenance_ref = doc.doc_id;
    generator = "templated";
  }

  unfoldable pub refusals_for : TrustedDoc → ℕ → S → List SyntheticPair × S
  unfolding refusal_pair
  refusals_for doc zero s = ([], s)
  refusals_for doc (suc per_doc) s =
      let (tmpl, s1) = random.choose_template out_of_scope s in
      let (other, s2) = random.choose_entity other_entities s1 in
      let (rest, s3) = refusals_for doc per_doc s2 in (refusal_pair doc tmpl other ∷ rest, s3)

  unfoldable pub refusals_from : List TrustedDoc → ℕ → S → List SyntheticPair
  unfolding refusals_for
  refusals_from [] per_doc s = []
  refusals_from (d ∷ ds) per_doc s =
      let (pairs, s') = refusals_for d per_doc s in pairs ++ refusals_from ds per_doc s'

  unfoldable pub templated_refusals : Docs → ℕ → ℕ → List SyntheticPair
  unfolding refusals_from
  templated_refusals corpus per_doc seed =
      refusals_from (values corpus) per_doc (random.seeded seed)

  unfoldable pub build_generated_dataset :
      {W : Type 0}
      → (Text → Parsed)
      → (ℕ → Text)
      → (ℕ → Text)
      → Docs
      → Generator W
      → ℕ
      → ℕ
      → W
      → List SyntheticPair × W
  unfolding templated_refusals
  build_generated_dataset parse lower show corpus generator answers_per_doc refusals_per_doc w =
      let (pairs, w') =
        generate_all blank parse lower show (values corpus) answers_per_doc generator w in
      (pairs ++ templated_refusals corpus refusals_per_doc 42, w')
