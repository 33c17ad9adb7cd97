-- ===== src/Training/Synth/Authored.antt =====
-- The hand-authored seed of training/atlas_training/data/synth.py.
use mathlib.Core.Option.{map}
use atlas_compliance_copilot.Prelude.{ℕ, String, Bool, Option, none, some, List, [], ◌∷◌, ◌++◌}
use atlas_compliance_copilot.Text.{Text, codes}
use atlas_compliance_copilot.Training.Corpus.{Docs, TrustedDoc, resolve}
use atlas_compliance_copilot.Training.Pair.{SyntheticPair}
use atlas_compliance_copilot.Training.Synth.{context}

-- An identifier, a question and what is said to it.
abbrev pub Authored : Type 0
Authored = Text × (Text × Text)

abbrev entry : String → String → String → Authored
entry doc_id question said = (codes doc_id, (codes question, codes said))

unfoldable pub answer_table : List Authored
answer_table =
    entry "financebench_id_03029" "What was 3M's FY2018 capital expenditure (USD millions)?"
      "3M's FY2018 capital expenditure (purchases of property, plant and equipment) was $1,577 million [doc:financebench_id_03029]."
    ∷ entry "financebench_id_04672"
        "What was 3M's year-end FY2018 net property, plant and equipment (USD billions)?"
        "3M's year-end FY2018 net property, plant and equipment was about $8.70 billion [doc:financebench_id_04672]."
    ∷ entry "financebench_id_05718"
        "How much did American Water Works pay in cash dividends in FY2020 (USD billions)?"
        "American Water Works paid approximately $0.40 billion in cash dividends in FY2020 [doc:financebench_id_05718]."
    ∷ entry "financebench_id_01351"
        "How did American Express's effective tax rate change from FY2021 to FY2022?"
        "American Express's effective tax rate fell from 24.6% in FY2021 to 21.6% in FY2022 [doc:financebench_id_01351]."
    ∷ entry "l2-aml-policy-overview"
        "What is the SAR filing threshold and deadline under the AML policy?"
        "A SAR is filed when a transaction or pattern aggregating $5,000 or more is suspected of involving illegal funds or BSA evasion, and it must be filed within 30 calendar days of initial detection [doc:l2-aml-policy-overview]."
    ∷ entry "l2-bsa-regulatory-reference"
        "How long must records supporting CTRs and SARs be retained?"
        "Records supporting CTRs and SARs must be retained for five years [doc:l2-bsa-regulatory-reference]."
    ∷ []

unfoldable pub refusal_table : List Authored
refusal_table =
    entry "financebench_id_03029" "What was 3M's net income in FY2021?"
      "I can't answer that from the provided sources: the 3M cash-flow context covers FY2016–FY2018 only and does not contain FY2021 net income."
    ∷ entry "financebench_id_04672" "What was Activision Blizzard's total revenue in FY2019?"
        "I can't answer that from the provided sources: the context is 3M's FY2018 balance sheet and contains no Activision Blizzard revenue figures."
    ∷ entry "l2-aml-policy-overview"
        "What are the open AML exceptions on the Northwind Trading account this quarter?"
        "I can't answer that from the provided sources: the AML policy overview defines thresholds and procedures but contains no account-specific exception data for Northwind Trading."
    ∷ entry "l2-bsa-regulatory-reference"
        "What is the current OFAC sanctions status of Northwind Trading LLC?"
        "I can't answer that from the provided sources: the BSA regulatory reference does not include any OFAC screening results for a specific customer."
    ∷ []

module _ (blank : ℕ → Bool) where
  authored_pair : String → Text → Text → TrustedDoc → SyntheticPair
  authored_pair label question said doc = record {
    question = question;
    context = context blank doc;
    answer = said;
    label = label;
    provenance_ref = doc.doc_id;
    generator = "hand-authored";
  }

  also : Option SyntheticPair → Option (List SyntheticPair) → Option (List SyntheticPair)
  also none ps = none
  also (some p) none = none
  also (some p) (some ps) = some (p ∷ ps)

  -- The pairs of a table, none where a document is not in the corpus.
  unfoldable pub authored : String → List Authored → Docs → Option (List SyntheticPair)
  unfolding authored_pair also
  authored label [] corpus = some []
  authored label ((doc_id, (question, said)) ∷ rows) corpus =
      also (map (authored_pair label question said) (resolve corpus doc_id))
        (authored label rows corpus)

  both : Option (List SyntheticPair) → Option (List SyntheticPair) → Option (List SyntheticPair)
  both none rs = none
  both (some as_) none = none
  both (some as_) (some rs) = some (as_ ++ rs)

  unfoldable pub build_seed : Docs → Option (List SyntheticPair)
  unfolding authored both
  build_seed corpus =
      both (authored "answer" answer_table corpus) (authored "refusal" refusal_table corpus)
