-- ===== src/Training/Synth/Build.antt =====
-- build_manifest of training/atlas_training/data/synth.py, with dict.fromkeys over the references
-- and build of manifest.py. The time and the revision that build falls back on are parameters.
use mathlib.Core.Option.{map}
use atlas_compliance_copilot.Prelude.{
  ℕ, String, Option, none, some, List, [], ◌∷◌, ◌++◌, str_eq, ◌==◌, if◌then◌else◌, length, count_if,
}
use atlas_compliance_copilot.Prelude.Int.{ℤ, pos}
use atlas_compliance_copilot.Text.{Text, codes, distinct}
use atlas_compliance_copilot.Training.Corpus.{Docs, TrustedDoc, resolve}
use atlas_compliance_copilot.Training.Manifest.{Manifest, Source, integer}
use atlas_compliance_copilot.Training.Pair.{SyntheticPair}
use atlas_compliance_copilot.Training.Split.{planned_split}

unfoldable pub provenance_refs : List SyntheticPair → List Text
provenance_refs [] = []
provenance_refs (p ∷ ps) = p.provenance_ref ∷ provenance_refs ps

-- The lists with one more identifier, of the first layer or of another one.
unfoldable pub add :
    Text → Option TrustedDoc → Option (List Text × List Text) → Option (List Text × List Text)
add r none o = none
add r (some d) none = none
add r (some d) (some (fb_ids, l2_ids)) =
    if d.layer == 1 then some (r ∷ fb_ids, l2_ids) else some (fb_ids, r ∷ l2_ids)

-- The identifiers of the first layer and those of the others; none is the CorpusError.
unfoldable pub group : Docs → List Text → Option (List Text × List Text)
unfolding resolve add
group corpus [] = some ([], [])
group corpus (r ∷ rs) = add r (resolve corpus r) (group corpus rs)

unfoldable pub fb_source : List Text → List Source
fb_source [] = []
fb_source (i ∷ is) =
    record {
      kind = "financebench";
      license = "CC-BY-NC-4.0";
      count = pos (length (i ∷ is));
      ids = i ∷ is;
      docs = [];
    }
    ∷ []

unfoldable pub l2_source : List Text → List Source
l2_source [] = []
l2_source (i ∷ is) =
    record {
      kind = "layer2_overlay";
      license = "authored-internal";
      count = pos (length (i ∷ is));
      ids = [];
      docs = i ∷ is;
    }
    ∷ []

-- What build_manifest is told of the dataset, and what it takes from its surroundings: `fifth` is
-- round(n * 0.2), `now` the time and `git_sha` the revision.
pub record Run : Type 0 where
  pub dataset_version : Text
  pub seed : ℤ
  pub generator_model : Text
  pub generator_provider : Text
  pub prompt_template_sha : Text
  pub fifth : ℕ → ℕ
  pub now : Text
  pub git_sha : Text

unfoldable pub labelled : String → List SyntheticPair → ℕ
labelled label pairs = count_if (λ p. str_eq p.label label) pairs

unfoldable pub manifest_of : Run → List SyntheticPair → List Text × List Text → Manifest
unfolding fb_source l2_source labelled planned_split
manifest_of run pairs (fb_ids, l2_ids) = record {
  dataset_version = run.dataset_version;
  seed = integer run.seed;
  sources = fb_source fb_ids ++ l2_source l2_ids;
  synthetic = record {
    generator_model = run.generator_model;
    generator_provider = run.generator_provider;
    prompt_template_sha = run.prompt_template_sha;
    count = pos (length pairs);
    answer_pairs = pos (labelled "answer" pairs);
    refusal_pairs = pos (labelled "refusal" pairs);
    grounded_in = "trusted-corpus-only";
  };
  split = record {
    train = pos (planned_split run.fifth (length pairs)).0;
    val = pos (planned_split run.fifth (length pairs)).1;
    strategy = codes "deterministic-by-id";
  };
  generated_at = run.now;
  git_sha = run.git_sha;
}

-- The manifest of pairs, none where a reference does not resolve.
unfoldable pub build_manifest : Run → List SyntheticPair → Docs → Option Manifest
unfolding group manifest_of distinct provenance_refs
build_manifest run pairs corpus =
    map (manifest_of run pairs) (group corpus (distinct [] (provenance_refs pairs)))
