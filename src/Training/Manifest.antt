-- ===== src/Training/Manifest.antt =====
-- training/atlas_training/data/manifest.py: the provenance manifest of a dataset and its guard.
-- `blank` is what str.strip takes for white space.
pub mod Trust
use atlas_compliance_copilot.Prelude.{
  ℕ, String, Bool, true, false, not, ◌&&◌, ◌||◌, Option, none, some, List, [], ◌∷◌, ◌++◌, str_eq,
  ◌==◌, if◌then◌else◌, length, all, or_default,
}
use atlas_compliance_copilot.Prelude.Int.{ℤ, pos, negsuc, ltb_ℤ, ◌+ℤ◌}
use atlas_compliance_copilot.Text.{Text, codes, text_eq, mem_text, strip}
use atlas_compliance_copilot.Training.Corpus.{Docs, TrustedDoc, resolve}

pub record Source : Type 0 where
  pub kind : String
  pub license : String
  pub count : ℤ
  pub ids : List Text
  pub docs : List Text

abbrev pub members : Source → List Text
members s = s.ids ++ s.docs

pub record SyntheticMeta : Type 0 where
  pub generator_model : Text
  pub generator_provider : Text
  pub prompt_template_sha : Text
  pub count : ℤ
  pub answer_pairs : ℤ
  pub refusal_pairs : ℤ
  pub grounded_in : String

pub record Split : Type 0 where
  pub train : ℤ
  pub val : ℤ
  pub strategy : Text

-- What the seed of a manifest that is read from a file can be.
pub data Seed : Type 0 where
  integer : ℤ → Seed
  other : Seed

pub record Manifest : Type 0 where
  pub dataset_version : Text
  pub seed : Seed
  pub sources : List Source
  pub synthetic : SyntheticMeta
  pub split : Split
  pub generated_at : Text
  pub git_sha : Text

-- The members of a source stand one behind the other.
unfoldable pub listed_source_ids : List Source → List Text
listed_source_ids [] = []
listed_source_ids (s ∷ ss) = members s ++ listed_source_ids ss

pub data ManifestError : Type 0 where
  bad_seed : ManifestError
  no_version : ManifestError
  not_grounded : String → ManifestError
  no_sources : ManifestError
  bad_count : String → ℤ → ManifestError
  unknown_id : String → Text → ManifestError
  negative_count : ManifestError
  bad_total : ManifestError
  negative_split : ManifestError
  no_strategy : ManifestError
  -- with the references as they stand, before sorted({...})
  ungrounded : List Text → ManifestError

abbrev pub eq_ℤ : ℤ → ℤ → Bool
eq_ℤ a b = not (ltb_ℤ a b) && not (ltb_ℤ b a)

abbrev pub is_negative : ℤ → Bool
is_negative a = ltb_ℤ a (pos 0)

-- The first member of a source that does not resolve.
unfoldable pub first_unknown : Docs → List Text → Option Text
unfolding resolve
first_unknown corpus [] = none
first_unknown corpus (m ∷ ms) = elim (resolve corpus m) [
  | none ↦ some m
  | some d ↦ first_unknown corpus ms
]

-- What the round for a source raises.
unfoldable pub source_error : Docs → Source → Option ManifestError
source_error corpus s =
    if not (eq_ℤ s.count (pos (length (members s))))
    then some (bad_count s.kind s.count)
    else elim (first_unknown corpus (members s)) [
      | none ↦ none
      | some m ↦ some (unknown_id s.kind m)
    ]

-- The first error in the order of the sources.
unfoldable pub sources_error : Docs → List Source → Option ManifestError
unfolding source_error
sources_error corpus [] = none
sources_error corpus (s ∷ ss) = elim (source_error corpus s) [
  | none ↦ sources_error corpus ss
  | some e ↦ some e
]

unfoldable pub is_integer : Seed → Bool
is_integer (integer n) = true
is_integer other = false

unfoldable pub is_empty {ℓ} : {A : Type ℓ} → List A → Bool
is_empty [] = true
is_empty (x ∷ xs) = false

-- [r for r in refs if r not in allowed]
unfoldable pub unlisted : List Text → List Text → List Text
unlisted allowed [] = []
unlisted allowed (r ∷ rs) =
    let rest = unlisted allowed rs in if mem_text r allowed then rest else r ∷ rest

unfoldable pub refs_error : Manifest → Option (List Text) → Option ManifestError
unfolding is_empty listed_source_ids
refs_error m none = none
refs_error m (some refs) =
    if is_empty (unlisted (listed_source_ids m.sources) refs)
    then none
    else some (ungrounded (unlisted (listed_source_ids m.sources) refs))

-- Read from a check that passed to the next one.
abbrev pub or_else : Option ManifestError → Option ManifestError → Option ManifestError
or_else none e = e
or_else (some d) e = some d

abbrev pub require : Bool → ManifestError → Option ManifestError
require true e = none
require false e = some e

unfoldable pub meta_error : SyntheticMeta → Option ManifestError
meta_error syn =
    or_else
      (require
        (not
          (is_negative syn.count || is_negative syn.answer_pairs || is_negative syn.refusal_pairs))
        negative_count)
      (require (eq_ℤ syn.count (syn.answer_pairs +ℤ syn.refusal_pairs)) bad_total)

module _ (blank : ℕ → Bool) where
  abbrev pub is_text : Text → Bool
  is_text t = not (is_empty (strip blank t))

  unfoldable pub split_error : Split → Option ManifestError
  unfolding is_empty
  split_error s =
      or_else (require (not (is_negative s.train || is_negative s.val)) negative_split)
        (require (is_text s.strategy) no_strategy)

  unfoldable pub head_error : Manifest → Option ManifestError
  unfolding is_integer is_empty
  head_error m = or_else (require (is_integer m.seed) bad_seed) (
      or_else (require (is_text m.dataset_version) no_version) (
        or_else
          (require (str_eq m.synthetic.grounded_in "trusted-corpus-only")
            (not_grounded m.synthetic.grounded_in))
          (require (not (is_empty m.sources)) no_sources)))

  -- The error that validate raises, none where it returns.
  unfoldable pub validate : Manifest → Docs → Option (List Text) → Option ManifestError
  unfolding head_error meta_error split_error refs_error
  validate m corpus refs = or_else (head_error m) (
      or_else (sources_error corpus m.sources)
        (or_else (meta_error m.synthetic) (or_else (split_error m.split) (refs_error m refs))))
