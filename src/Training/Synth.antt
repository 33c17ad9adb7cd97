-- ===== src/Training/Synth.antt =====
-- training/atlas_training/data/synth.py: the synthetic pairs. This file has what all of them share:
-- the excerpt of a document and the context that it makes, and the prompt of one question.
pub mod Authored
pub mod Build
pub mod Citation
pub mod Fabricated
pub mod Generate
pub mod Grounded
pub mod Refusals
pub mod Trust
use atlas_compliance_copilot.Prelude.{
  ℕ, suc, ◌+◌, ◌≤◌, ◌≡◌, String, Bool, List, [], ◌∷◌, ◌++◌, arith, leb, if◌then◌else◌, length, take,
  length-append, length-take,
}
use atlas_compliance_copilot.Text.{Text, codes, split, join, rstrip, strip, length-rstrip}
use atlas_compliance_copilot.Training.Corpus.{TrustedDoc}
use atlas_compliance_copilot.Training.Pair.{SyntheticPair}

abbrev pub context_excerpt_chars : ℕ
context_excerpt_chars = 700

-- A generator of texts with its model's name. Its calls change what is outside, `W`, which is
-- what makes the answers of two calls differ.
pub record Generator (W : Type 0) : Type 0 where
  pub model_id : String
  pub call : Text → W → Text × W

module _ (blank : ℕ → Bool) where
  abbrev cut_to : ℕ → Text → Text
  cut_to limit t = if leb (length t) limit then t else rstrip blank (take limit t) ++ codes " …"

  unfoldable pub excerpt : ℕ → Text → Text
  excerpt limit text = cut_to limit (join (codes " ") (split blank text))

  -- An excerpt is at most two characters longer than its limit.
  pub length-excerpt : (limit : ℕ) (text : Text) → length (excerpt limit text) ≤ limit + 2
  unfolding excerpt
  length-excerpt limit text = bound (join (codes " ") (split blank text))
    where
      bound : (t : Text) → length (cut_to limit t) ≤ limit + 2
      bound t = ground (
        arith,
        length-append (rstrip blank (take limit t)) (codes " …"),
        length-rstrip blank (take limit t),
        length-take limit t,
      )

  unfoldable pub context : TrustedDoc → Text
  unfolding excerpt
  context doc = codes "[doc:" ++ doc.doc_id ++ codes "] " ++ excerpt context_excerpt_chars doc.text

  unfoldable pub build_prompt : TrustedDoc → Text → Text
  unfolding excerpt
  build_prompt doc question =
      codes
        "You are Atlas, an enterprise financial/compliance assistant. Answer the QUESTION using "
      ++ codes
          "ONLY the CONTEXT. Cite every supporting source inline with a [doc:<id>] marker using "
      ++ codes "the id shown in the context header. If the context does not contain the answer, "
      ++ codes "refuse and say which information is missing — never guess.\n\nCONTEXT:\n[doc:"
      ++ doc.doc_id
      ++ codes "] "
      ++ excerpt context_excerpt_chars doc.text
      ++ codes "\n\nQUESTION: "
      ++ question
      ++ codes "\n\nANSWER:"

  unfoldable pub generate_answer_pair :
      {W : Type 0} → TrustedDoc → Text → Generator W → W → SyntheticPair × W
  generate_answer_pair doc question generator w =
      let (reply, w') = generator.call (build_prompt doc question) w in
      (
        record {
          question = question;
          context = context doc;
          answer = strip blank reply;
          label = "answer";
          provenance_ref = doc.doc_id;
          generator = generator.model_id;
        },
        w',
      )
