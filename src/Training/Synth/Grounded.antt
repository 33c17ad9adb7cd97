-- ===== src/Training/Synth/Grounded.antt =====
-- Every pair that the generation makes is from a document of the corpus.
use atlas_compliance_copilot.Prelude.{
  ℕ, zero, suc, ◌≡◌, ◌≢◌, refl, inl, inr, String, Bool, false, Option, none, some, List, [], ◌∷◌,
  ◌++◌, arith, take, All, All-append, All-imp, Bool-cases,
}
use atlas_compliance_copilot.Text.{Text, text_eq, text_eq_refl, strip}
use atlas_compliance_copilot.Training.Corpus.{Docs, TrustedDoc, get, resolve, values}
use atlas_compliance_copilot.Training.Corpus.Load.{Meta, Yaml, loaded, load_corpus}
use atlas_compliance_copilot.Training.Corpus.Trust.{IsKeyed, IsSound, load_corpus-IsSound}
use atlas_compliance_copilot.Training.Manifest.{Manifest, validate}
use atlas_compliance_copilot.Training.Synth.{Generator}
use atlas_compliance_copilot.Training.Synth.Build.{Run, build_manifest, provenance_refs}
use atlas_compliance_copilot.Training.Synth.Generate.{
  Parsed, generate_all, generate_doc_pairs, pairs_of, parse_qa_array, normal, answer_pair,
  qa_gen_prompt,
}
use atlas_compliance_copilot.Training.Synth.Refusals.{
  Random, refusal_pair, refusals_for, refusals_from, templated_refusals, build_generated_dataset,
}
use atlas_compliance_copilot.Training.Synth.Trust.{IsGroundedIn, build_manifest-validate}

-- The document that is found under the identifier of the given one.
abbrev IsFound : Docs → TrustedDoc → Type 0
IsFound docs d = (e : TrustedDoc) × (resolve docs d.doc_id ≡ some e)

found_behind :
    (k : Text) (i : Text) (d : TrustedDoc) (ds : Docs)
    → ((e : TrustedDoc) × (get k ds ≡ some e))
    → (e : TrustedDoc) × (get k ((i, d) ∷ ds) ≡ some e)
unfolding get
found_behind k i d ds (e, p) = elim (Bool-cases (text_eq k i)) [
  | inl q ↦ (d, rw q refl)
  | inr q ↦ (e, rw q p)
]

values-All : (docs : Docs) → IsKeyed docs → All (IsFound docs) (values docs)
unfolding values resolve
values-All [] h = tt
values-All ((i, d) ∷ ds) h = (
  (d, rw (h.0, text_eq_refl d.doc_id) refl),
  All-imp (IsFound ds) (IsFound ((i, d) ∷ ds)) (values ds) (λ e p. found_behind e.doc_id i d ds p)
      (values-All ds h.1),
)

take-All {ℓ κ} : {A : Type ℓ} (P : A → Type κ) (n : ℕ) (xs : List A) → All P xs → All P (take n xs)
take-All P zero xs h = tt
take-All P (suc n) [] h = tt
take-All P (suc n) (x ∷ xs) h = (h.0, take-All P n xs h.1)

module _ (blank : ℕ → Bool) (corpus : Docs) where
  pairs_of-All :
      (lower : ℕ → Text) (doc : TrustedDoc) (model_id : String) (seen : List Text)
      (qas : List (Text × Text))
      → IsFound corpus doc
      → All (IsGroundedIn corpus) (pairs_of blank lower doc model_id seen qas)
  unfolding pairs_of answer_pair
  pairs_of-All lower doc model_id seen [] h = tt
  pairs_of-All lower doc model_id seen ((q, a) ∷ qas) h = ground (
    arith,
    pairs_of-All lower doc model_id seen qas h,
    pairs_of-All lower doc model_id (normal blank lower q ∷ seen) qas h,
  )

  module _ (parse : Text → Parsed) (lower : ℕ → Text) (show : ℕ → Text) {W : Type 0} where
    generate_all-All :
        (generator : Generator W) (n : ℕ) (docs : List TrustedDoc) (w : W)
        → All (IsFound corpus) docs
        → All (IsGroundedIn corpus) (generate_all blank parse lower show docs n generator w).0
    unfolding generate_all generate_doc_pairs
    generate_all-All generator n [] w h = tt
    generate_all-All generator n (d ∷ ds) w h =
        All-append (IsGroundedIn corpus) _ _
          (take-All (IsGroundedIn corpus) n _ (
            pairs_of-All lower d generator.model_id []
              (parse_qa_array blank parse (generator.call (qa_gen_prompt blank (show n) d) w).0)
              h.0))
          (generate_all-All generator n ds _ h.1)

  module _ {S : Type 0} (random : Random S) where
    refusals_for-All :
        (doc : TrustedDoc) (per_doc : ℕ) (s : S)
        → IsFound corpus doc
        → All (IsGroundedIn corpus) (refusals_for blank random doc per_doc s).0
    unfolding refusals_for refusal_pair
    refusals_for-All doc zero s h = tt
    refusals_for-All doc (suc per_doc) s h = ((inr refl, h), refusals_for-All doc per_doc _ h)

    refusals_from-All :
        (docs : List TrustedDoc) (per_doc : ℕ) (s : S)
        → All (IsFound corpus) docs
        → All (IsGroundedIn corpus) (refusals_from blank random docs per_doc s)
    unfolding refusals_from
    refusals_from-All [] per_doc s h = tt
    refusals_from-All (d ∷ ds) per_doc s h =
        All-append (IsGroundedIn corpus) _ _ (refusals_for-All d per_doc s h.0)
          (refusals_from-All ds per_doc _ h.1)

-- A part behind that is not empty.
append_ne {ℓ} : {A : Type ℓ} (xs ys : List A) → ys ≢ [] → xs ++ ys ≢ []
append_ne [] ys h e = h e
append_ne (x ∷ xs) ys h e = cc

refusals_ne :
    (blank : ℕ → Bool) {S : Type 0} (random : Random S) (corpus : Docs) (k seed : ℕ)
    → corpus ≢ []
    → templated_refusals blank random corpus (suc k) seed ≢ []
unfolding templated_refusals refusals_from refusals_for values
refusals_ne blank random [] k seed h e = h refl
refusals_ne blank random ((i, d) ∷ ds) k seed h e = cc

build_generated_dataset-validate :
    (blank : ℕ → Bool) {S W : Type 0} (random : Random S) (parse : Text → Parsed) (lower : ℕ → Text)
    (show : ℕ → Text) (corpus : Docs) (generator : Generator W) (answers_per_doc k : ℕ) (w : W)
    (run : Run)
    → blank b'd' ≡ false
    → strip blank run.dataset_version ≢ []
    → IsKeyed corpus
    → corpus ≢ []
    → let pairs =
        (build_generated_dataset blank random parse lower show corpus generator answers_per_doc
          (suc k)
          w).0 in
      (m : Manifest) × (build_manifest run pairs corpus ≡ some m)
      × (validate blank m corpus (some (provenance_refs pairs)) ≡ none)
unfolding build_generated_dataset templated_refusals
build_generated_dataset-validate blank random parse lower show corpus generator n k w run d v h ne =
    build_manifest-validate blank d run _ corpus v
      (append_ne _ _ (refusals_ne blank random corpus k 42 ne))
      (All-append (IsGroundedIn corpus) _ _
        (generate_all-All blank corpus parse lower show generator n (values corpus) w
          (values-All corpus h))
        (refusals_from-All blank corpus random (values corpus) (suc k) (random.seeded 42)
          (values-All corpus h)))

-- Where the loader returns a corpus and the version of the dataset is not blank, the dataset that is
-- generated from it, with a refusal or more for each document, has a manifest, and the guard passes it with the references of the pairs, whatever the
-- teacher answers and the seeded choices are.
pub load_corpus-validate :
    (blank : ℕ → Bool) (is_dir : Bool) (entries : Option (List Meta)) (read : Text → Option Text)
    (mds : Option (List (Text × Text))) (yaml : Text → Yaml) (corpus : Docs) {S W : Type 0}
    (random : Random S) (parse : Text → Parsed) (lower : ℕ → Text) (show : ℕ → Text)
    (generator : Generator W) (answers_per_doc k : ℕ) (w : W) (run : Run)
    → blank b'd' ≡ false
    → strip blank run.dataset_version ≢ []
    → load_corpus blank is_dir entries read mds yaml ≡ loaded corpus
    → let pairs =
        (build_generated_dataset blank random parse lower show corpus generator answers_per_doc
          (suc k)
          w).0 in
      (m : Manifest) × (build_manifest run pairs corpus ≡ some m)
      × (validate blank m corpus (some (provenance_refs pairs)) ≡ none)
load_corpus-validate blank is_dir entries read mds yaml corpus random parse lower show generator n k
      w run d v h =
    build_generated_dataset-validate blank random parse lower show corpus generator n k w run d v
      (All-imp _ (λ e. e.0 ≡ e.1.doc_id) corpus (λ e p. p.0) sound.0.0) sound.1
  where
    sound : IsSound corpus × (corpus ≢ [])
    sound = load_corpus-IsSound blank is_dir entries read mds yaml corpus h
