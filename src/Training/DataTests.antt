-- ===== src/Training/DataTests.antt =====
-- A corpus of two documents, the dataset that a teacher with one answer makes of it, and the
-- manifest of that dataset.
use atlas_compliance_copilot.Prelude.{
  ℕ, suc, ◌≡◌, ◌≢◌, refl, sym, ap, ◌∙◌, ◌↔◌, Bool, true, false, ◌||◌, ◌==◌, Option, none, some,
  List, [], ◌∷◌, ◌++◌, if◌then◌else◌, leb, ◌&&◌,
}
use atlas_compliance_copilot.Prelude.Int.{pos, ◌+ℤ◌}
use atlas_compliance_copilot.Exec
use atlas_compliance_copilot.Exec.{Exec}
use atlas_compliance_copilot.Regex.{Classes, search, ends}
use atlas_compliance_copilot.Text.{
  Text, codes, strip, lstrip, rstrip, strip_ne, text_eq, after_prefix,
}
use atlas_compliance_copilot.Evals.Format.{
  markers, remove, marker_at, closed, is_id, is_grounded_refusal, classify, answer,
}
use atlas_compliance_copilot.Evals.Format.Scan.{IsId}
use atlas_compliance_copilot.Training.Corpus.{Docs, insert}
use atlas_compliance_copilot.Training.Corpus.Load.{Meta, Yaml, mapping, loaded, load_corpus}
use atlas_compliance_copilot.Training.Corpus.Trust.{IsSound, load_corpus-IsSound}
use atlas_compliance_copilot.Training.Config.{RunConfig, int, float, ok}
use atlas_compliance_copilot.Training.Config.Load.{yaml, load}
use atlas_compliance_copilot.Training.Config.Pinned.{of_config, load-of_config}
use atlas_compliance_copilot.Training.Manifest.{
  Manifest, integer, validate, sources_error, first_unknown, unlisted,
}
use atlas_compliance_copilot.Training.Manifest.Trust.{IsTrusted, validate-IsTrusted}
use atlas_compliance_copilot.Training.Synth.{Generator}
use atlas_compliance_copilot.Training.Synth.Build.{Run, build_manifest, provenance_refs}
use atlas_compliance_copilot.Training.Synth.Citation.{classify-enforce_citation}
use atlas_compliance_copilot.Training.Synth.Fabricated.{
  answer_with, HasCitations, markers-enforce_citation,
}
use atlas_compliance_copilot.Training.Synth.Generate.{
  Parsed, array, qa, cleaned, cited, enforce_citation,
}
use atlas_compliance_copilot.Training.Synth.Grounded.{load_corpus-validate}
use atlas_compliance_copilot.Training.Synth.Refusals.{Random, build_generated_dataset}
use atlas_compliance_copilot.Training.Tracker.{
  ModelVersion, Tracker, is_hf_source, registered, register_adapter,
}
use atlas_compliance_copilot.Training.Tracker.Source.{
  uri, pushed, register_adapter-registered, register_adapter-pushed,
}

abbrev white : ℕ → Bool
white c = (c == b' ') || (c == b'\n')

abbrev of_file : Text → Option Text
of_file path = some (codes "Capital expenditure was 1,577.\n")

abbrev layer1 : Option (List Meta)
layer1 = some (
    record {
      doc_id = some (codes "fb_1");
      file = some (codes "fb_1.txt");
      clearance = some (codes "public");
      rest = [];
    }
    ∷ [])

abbrev layer2 : Option (List (Text × Text))
layer2 = some ((codes "l2-aml", codes "---\nclearance: analyst\n---\n\nFile a SAR.\n") ∷ [])

abbrev analyst : Text → Yaml
analyst block =
    mapping (record { doc_id = none; file = none; clearance = some (codes "analyst"); rest = [] })

corpus : Docs
corpus =
    (
      codes "fb_1",
      record {
        doc_id = codes "fb_1";
        layer = 1;
        clearance = codes "public";
        text = codes "Capital expenditure was 1,577.";
        source = codes "financebench:fb_1";
        metadata = [];
      },
    )
    ∷ (
      codes "l2-aml",
      record {
        doc_id = codes "l2-aml";
        layer = 2;
        clearance = codes "analyst";
        text = codes "File a SAR.";
        source = codes "layer2:l2-aml";
        metadata = [];
      },
    )
    ∷ []

corpus_loads : load_corpus white true layer1 of_file layer2 analyst ≡ loaded corpus
unfolding load_corpus corpus strip rstrip lstrip text_eq insert after_prefix
corpus_loads = refl

load_corpus-IsSound_example : IsSound corpus × (corpus ≢ [])
load_corpus-IsSound_example =
    load_corpus-IsSound white true layer1 of_file layer2 analyst corpus corpus_loads

abbrev teacher : Generator ℕ
teacher = record { model_id = "t"; call = λ prompt n. (codes "[]", suc n) }

abbrev one_qa : Text → Parsed
one_qa t = array (qa (codes "Q?") (codes "1,577 [doc:other].") ∷ [])

abbrev first : {A : Type 0} → A → List A → A
first d [] = d
first d (x ∷ xs) = x

abbrev always_first : Random ℕ
always_first = record {
  seeded = λ n. n;
  choose_template = λ ts s. (first ([], []) ts, s);
  choose_entity = λ es s. (first [] es, s);
}

abbrev run : Run
run = record {
  dataset_version = codes "v1";
  seed = pos 42;
  generator_model = codes "t";
  generator_provider = codes "ollama";
  prompt_template_sha = codes "0";
  fifth = λ n. 1;
  now = codes "now";
  git_sha = codes "sha";
}

load_corpus-validate_example :
    (m : Manifest) × (build_manifest run
        (build_generated_dataset white always_first one_qa
          (λ c. c ∷ [])
          (λ n. [])
          corpus
          teacher
          6
          1
          0).0
        corpus
      ≡ some m)
    × (validate white m corpus (
          some (
            provenance_refs
              (build_generated_dataset white always_first one_qa
                (λ c. c ∷ [])
                (λ n. [])
                corpus
                teacher
                6
                1
                0).0))
        ≡ none)
load_corpus-validate_example =
    load_corpus-validate white true layer1 of_file layer2 analyst corpus always_first one_qa
      (λ c. c ∷ []) (λ n. []) teacher 6 0 0 run refl named corpus_loads
  where
    named : strip white (codes "v1") ≢ []
    named e = strip_ne white b'v' (codes "1") refl e

abbrev manifest : Manifest
manifest = record {
  dataset_version = codes "v1";
  seed = integer (pos 42);
  sources =
      record {
        kind = "financebench";
        license = "CC-BY-NC-4.0";
        count = pos 1;
        ids = codes "fb_1" ∷ [];
        docs = [];
      }
      ∷ [];
  synthetic = record {
    generator_model = codes "t";
    generator_provider = codes "ollama";
    prompt_template_sha = codes "0";
    count = pos 2;
    answer_pairs = pos 1;
    refusal_pairs = pos 1;
    grounded_in = "trusted-corpus-only";
  };
  split = record { train = pos 1; val = pos 1; strategy = codes "deterministic-by-id" };
  generated_at = codes "now";
  git_sha = codes "sha";
}

validate-IsTrusted_example :
    (validate white manifest corpus (some (codes "fb_1" ∷ [])) ≡ none)
    ↔ IsTrusted white manifest corpus (some (codes "fb_1" ∷ []))
validate-IsTrusted_example = validate-IsTrusted white manifest corpus (some (codes "fb_1" ∷ []))

manifest_passes : validate white manifest corpus (some (codes "fb_1" ∷ [])) ≡ none
unfolding validate corpus strip rstrip lstrip sources_error first_unknown text_eq ◌+ℤ◌ unlisted
manifest_passes = refl

abbrev reply : Text
reply = codes "It was 1,577 [doc:other]. "

-- Characters in one case, with no word boundary but at a space.
abbrev ascii : Classes
ascii = record {
  is_space = white;
  is_word = λ c. leb b'a' c && leb c b'z';
  fold = λ c. if leb b'A' c && leb c b'Z' then c else c;
}

cleaned-reply : cleaned white reply ≡ codes "It was 1,577 "
unfolding cleaned remove marker_at after_prefix strip rstrip lstrip closed
cleaned-reply = refl

fb_1-IsId : IsId (codes "fb_1")
unfolding is_id
fb_1-IsId = (refl, (refl, (refl, (refl, tt))))

something_left : cleaned white reply ≢ []
something_left e = cc (sym cleaned-reply ∙ e)

no_marker_left : markers 0 (cleaned white reply) ≡ []
unfolding markers marker_at after_prefix
no_marker_left = ap (markers 0) cleaned-reply ∙ refl

no_refusal : is_grounded_refusal ascii white (enforce_citation white reply (codes "fb_1")) ≡ false
unfolding enforce_citation is_grounded_refusal strip rstrip lstrip search ends
no_refusal =
    ap (λ t. is_grounded_refusal ascii white (cited white t (codes "fb_1"))) cleaned-reply ∙ refl

-- Two citations that the teacher made up.
made_up : List (Text × Text)
made_up = (codes "fb_9", codes " and ") ∷ (codes "x", codes " done.") ∷ []

made_up-HasCitations : HasCitations (codes "It fell ") made_up
unfolding made_up is_id
made_up-HasCitations = (
  (refl, (refl, (refl, (refl, (refl, (refl, (refl, (refl, tt)))))))),
  (refl, (refl, (refl, (refl, tt)))),
  (λ e. cc),
  (
    (refl, (refl, (refl, (refl, (refl, tt))))),
    (refl, tt),
    (λ e. cc),
    (refl, (refl, (refl, (refl, (refl, (refl, tt)))))),
  ),
)

kept_answer : enforce_citation white (answer_with (codes "It fell ") made_up) (codes "fb_1") ≢ []
unfolding enforce_citation cited cleaned remove marker_at after_prefix strip rstrip lstrip closed
    made_up
kept_answer e = cc

markers-enforce_citation_example :
    markers 0 (enforce_citation white (answer_with (codes "It fell ") made_up) (codes "fb_1"))
    ≡ codes "fb_1" ∷ []
markers-enforce_citation_example =
    markers-enforce_citation white (codes "It fell ") made_up (codes "fb_1") made_up-HasCitations
      fb_1-IsId (λ e. cc) kept_answer

classify-enforce_citation_example :
    classify ascii white (enforce_citation white reply (codes "fb_1")) (some (codes "fb_1" ∷ []))
    ≡ answer
classify-enforce_citation_example =
    classify-enforce_citation white ascii reply (codes "fb_1") refl fb_1-IsId (λ e. cc)
      something_left no_marker_left no_refusal

abbrev pinned : RunConfig
pinned = record {
  base_model = codes "m";
  quant = record {
    load_in_4bit = true;
    bnb_4bit_quant_type = codes "nf4";
    bnb_4bit_compute_dtype = codes "bfloat16";
    double_quant = true;
  };
  lora = record {
    r = pos 16;
    alpha = pos 32;
    dropout = int (pos 0);
    target_modules = codes "q_proj" ∷ [];
  };
  train = record {
    epochs = pos 3;
    lr = float 7;
    batch_size = pos 2;
    grad_accum = pos 4;
    max_seq_len = pos 1024;
    seed = pos 42;
  };
  early_stopping = record { metric = codes "eval_loss"; patience = pos 2; min_delta = int (pos 0) };
  dataset = record { manifest = codes "a"; train = codes "b"; val = codes "c" };
  mlflow = record { experiment = codes "e"; run_name = codes "n"; register_as = codes "r" };
}

load-of_config_example : load white (yaml (of_config pinned)) ≡ ok pinned
unfolding text_eq
load-of_config_example =
    load-of_config white pinned (strip_ne white b'm' [] refl, refl, refl, (λ e. cc), refl)

-- A Hub and a registry that log their calls.
abbrev log : Text → Text → Exec (List Text) Text
log answer_ what w = (Exec.ok answer_, w ++ what ∷ [])

abbrev logged : Text → Exec (List Text) (Unit {0})
logged what w = (Exec.ok tt, w ++ what ∷ [])

abbrev tracker : Tracker ℕ (List Text)
tracker = record {
  registry = record {
    set_experiment = logged;
    start_run = log (codes "run");
    log_params = λ ps. logged (codes "params");
    log_metrics = λ ms step. logged (codes "metrics");
    end_run = logged (codes "end");
    create_model_version = λ name source run_id. log (codes "1") source;
  };
  hub = record { push = λ path repo private token. log (codes "abc") path };
  hf_repo = codes "o/r";
  hf_token = codes "t";
  hf_private = true;
}

abbrev registration : ModelVersion
registration = record {
  name = codes "m";
  version = codes "1";
  source = codes "hf://o/r@abc";
  run_id = codes "run";
}

register_adapter-registered_example :
    register_adapter tracker (codes "run") (codes "p") (codes "m") []
    ≡ registered tracker
        (codes "run")
        (codes "m")
        (uri (codes "o/r") (codes "abc"))
        (codes "p" ∷ [])
register_adapter-registered_example =
    register_adapter-registered tracker (codes "run") (codes "p") (codes "m") (codes "abc") []
      (codes "p" ∷ []) (λ e. cc) (λ e. cc) refl

registers :
    register_adapter tracker (codes "run") (codes "p") (codes "m") []
    ≡ (Exec.ok registration, codes "p" ∷ codes "hf://o/r@abc" ∷ codes "end" ∷ [])
unfolding registered
registers =
    register_adapter-registered tracker (codes "run") (codes "p") (codes "m") (codes "abc") []
      (codes "p" ∷ []) (λ e. cc) (λ e. cc) refl
    ∙ refl

register_adapter-pushed_example :
    (revision : Text) × (w1 : List Text) × (pushed tracker (codes "p") [] ≡ (Exec.ok revision, w1))
    × (registered tracker (codes "run") (codes "m") (uri (codes "o/r") revision) w1
        ≡ (Exec.ok registration, codes "p" ∷ codes "hf://o/r@abc" ∷ codes "end" ∷ []))
    × (registration.source ≡ uri (codes "o/r") revision)
    × (is_hf_source registration.source ≡ true)
register_adapter-pushed_example =
    register_adapter-pushed tracker (codes "run") (codes "p") (codes "m") []
      (codes "p" ∷ codes "hf://o/r@abc" ∷ codes "end" ∷ []) registration registers
