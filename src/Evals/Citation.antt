-- ===== src/Evals/Citation.antt =====
-- evals/atlas_evals/metrics: citation.py, samples.py and ragas_runner.py. `digit` is the value of a
-- character of the class \d, as int reads it.
use atlas_compliance_copilot.Prelude.{
  ℕ, zero, suc, ◌+◌, ◌*◌, ◌≤◌, ◌≡◌, refl, ◌↔◌, String, Bool, true, false, ◌&&◌, Option, none, some,
  List, [], ◌∷◌, ◌==◌, leb, if◌then◌else◌, length, count_if, mem_ℕ, or_default, arith, str_eq, map,
  All,
}
use atlas_compliance_copilot.Float.{Float}
use atlas_compliance_copilot.Text.{Text}

-- A number with the count of its digits, and what is behind it is the bracket.
more : Option ℕ → Option (ℕ × ℕ) → Option (ℕ × ℕ)
more none rest = none
more (some d) none = none
more (some d) (some (n, k)) = some (n, suc k)

module _ (digit : ℕ → Option ℕ) where
  -- The digits up to the bracket, with what they make behind the digits read so far.
  number : ℕ → Text → Option (ℕ × ℕ)
  unfolding more
  number acc [] = none
  number acc (c ∷ t) =
      let rest = number (acc * 10 + or_default 0 (digit c)) t in
      if c == b']' then some (acc, 0) else more (digit c) rest

  some_digits : Option (ℕ × ℕ) → Option (ℕ × ℕ)
  some_digits none = none
  some_digits (some (n, zero)) = none
  some_digits (some (n, suc k)) = some (n, suc k)

  -- The marker that the text starts with.
  marker_at : Text → Option (ℕ × ℕ)
  unfolding number some_digits
  marker_at [] = none
  marker_at (c ∷ t) = if c == b'[' then some_digits (number 0 t) else none

  -- _MARKER.findall: behind its first character a marker has its digits and the bracket.
  found : ℕ → Text → List ℕ
  unfolding marker_at
  found skip [] = []
  found (suc skip) (c ∷ t) = found skip t
  found zero (c ∷ t) = elim (marker_at (c ∷ t)) [
    | none ↦ found zero t
    | some m ↦ m.0 ∷ found (m.1 + 1) t
  ]

  -- The keys of the dict.
  distinct : List ℕ → List ℕ → List ℕ
  distinct seen [] = []
  distinct seen (n ∷ ns) = elim (mem_ℕ n seen) [
    | true ↦ distinct seen ns
    | false ↦ n ∷ distinct (n ∷ seen) ns
  ]

  unfoldable pub cited_markers : Text → List ℕ
  unfolding found distinct
  cited_markers answer = distinct [] (found 0 answer)

  is_source : ℕ → ℕ → Bool
  is_source num_contexts m = leb 1 m && leb m num_contexts

  unfoldable pub resolved : ℕ → List ℕ → ℕ
  unfolding is_source
  resolved num_contexts ms = count_if (is_source num_contexts) ms

  rate_of : (R : Float) → ℕ → List ℕ → R.F
  unfolding resolved
  rate_of R num_contexts [] = R.ratio 1 1
  rate_of R num_contexts (m ∷ ms) = R.ratio (resolved num_contexts (m ∷ ms)) (length (m ∷ ms))

  unfoldable pub citation_resolution_rate : (R : Float) → Text → ℕ → R.F
  unfolding rate_of
  citation_resolution_rate R answer num_contexts = rate_of R num_contexts (cited_markers answer)

  resolved_bound : (n : ℕ) (ms : List ℕ) → resolved n ms ≤ length ms
  unfolding resolved is_source
  resolved_bound n [] = omega arith
  resolved_bound n (m ∷ ms) = ground (arith, resolved_bound n ms)

  -- All the markers resolve exactly where as many resolve as there are.
  pub resolved-length :
      (n : ℕ) (ms : List ℕ) → (resolved n ms ≡ length ms) ↔ All (λ m. (1 ≤ m) × (m ≤ n)) ms
  unfolding resolved is_source
  resolved-length n [] = (λ h. tt, λ h. refl)
  resolved-length n (m ∷ ms) = ground (arith, resolved-length n ms, resolved_bound n ms)

pub record GoldenTuple : Type 0 where
  pub id : String
  pub question : Text
  pub ground_truth : Text

-- The parts of a response that are read; a context may have no text.
pub record Response : Type 0 where
  pub answer : Option Text
  pub contexts : Option (List (Option Text))

pub record EvalSample : Type 0 where
  pub id : String
  pub question : Text
  pub answer : Text
  pub contexts : List Text
  pub ground_truth : Text

sample_of : GoldenTuple → Response → EvalSample
sample_of t resp = record {
  id = t.id;
  question = t.question;
  answer = or_default [] resp.answer;
  contexts = map (or_default []) (or_default [] resp.contexts);
  ground_truth = t.ground_truth;
}

joined : GoldenTuple → Option Response → Option (List EvalSample) → Option (List EvalSample)
unfolding sample_of
joined t none rest = none
joined t (some resp) none = none
joined t (some resp) (some samples) = some (sample_of t resp ∷ samples)

-- none is the KeyError of a tuple with no response.
unfoldable pub build_samples :
    List GoldenTuple → (String → Option Response) → Option (List EvalSample)
unfolding joined
build_samples [] responses = some []
build_samples (t ∷ ts) responses = joined t (responses t.id) (build_samples ts responses)

pub record MetricReport (F : Type 0) : Type 0 where
  pub scores : List (String × F)
  pub n_samples : ℕ

-- scores[name] = value
unfoldable pub put : {F : Type 0} → String → F → List (String × F) → List (String × F)
put name v [] = (name, v) ∷ []
put name v ((k, w) ∷ ss) =
    let rest = put name v ss in if str_eq k name then (k, v) ∷ ss else (k, w) ∷ rest

module _ (digit : ℕ → Option ℕ) (R : Float) (fmean : List R.F → R.F) where
  unfoldable pub mean_resolution : List EvalSample → R.F
  mean_resolution [] = R.ratio 1 1
  mean_resolution (s ∷ ss) =
      fmean (map (λ e. citation_resolution_rate digit R e.answer (length e.contexts)) (s ∷ ss))

  -- What run makes of the samples.
  report_on : (List EvalSample → List (String × R.F)) → List EvalSample → MetricReport R.F
  unfolding put mean_resolution
  report_on scorer samples = record {
    scores = put "citation_correctness" (mean_resolution samples) (scorer samples);
    n_samples = length samples;
  }

  reported :
      (List EvalSample → List (String × R.F)) → Option (List EvalSample) → Option (MetricReport R.F)
  unfolding report_on
  reported scorer none = none
  reported scorer (some samples) = some (report_on scorer samples)

  unfoldable pub run :
      (List EvalSample → List (String × R.F))
      → List GoldenTuple
      → (String → Option Response)
      → Option (MetricReport R.F)
  unfolding reported
  run scorer tuples responses = reported scorer (build_samples tuples responses)
