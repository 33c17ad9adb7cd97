-- ===== src/Training/Synth/Fabricated.antt =====
-- What enforce_citation of training/atlas_training/data/synth.py does to the citations that a
-- teacher has put into its answer.
use mathlib.Core.Path.{subst}
use mathlib.Core.List.{append-nil}
use atlas_compliance_copilot.Prelude.{
  ℕ, zero, ◌≡◌, ◌≢◌, refl, sym, ap, ◌∙◌, Bool, true, false, none, List, [], ◌∷◌, ◌++◌, arith, ◌==◌,
  All, if◌then◌else◌,
}
use atlas_compliance_copilot.Text.{Text, codes, after_prefix, lstrip, rstrip, keep, strip}
use atlas_compliance_copilot.Evals.Format.{markers, marker_at, open_at, remove}
use atlas_compliance_copilot.Evals.Format.Scan.{IsId, markers-none, remove-none, remove_marker}
use atlas_compliance_copilot.Training.Synth.Generate.{cleaned, cited, enforce_citation}
use atlas_compliance_copilot.Training.Synth.Citation.{markers-enforce_cited}

-- A text with no opening bracket.
abbrev pub IsPlain : Text → Type 0
IsPlain = All (λ c. (c == b'[') ≡ false)

-- An answer with citations: a text, and behind it citations, each with the text that follows it.
abbrev pub answer_with : Text → List (Text × Text) → Text
answer_with before [] = before
answer_with before ((id, after) ∷ cs) =
    before ++ (codes "[doc:" ++ id ++ b']' ∷ answer_with after cs)

-- The identifiers of the citations are well-formed and there are no other brackets.
abbrev pub HasCitations : Text → List (Text × Text) → Type 0
HasCitations before [] = IsPlain before
HasCitations before ((id, after) ∷ cs) =
    IsPlain before × IsId id × (id ≢ []) × HasCitations after cs

-- The texts around the citations.
without : Text → List (Text × Text) → Text
without before [] = before
without before ((id, after) ∷ cs) = before ++ without after cs

no_marker : (c : ℕ) (t : Text) → (c == b'[') ≡ false → marker_at (c ∷ t) ≡ none
unfolding marker_at open_at after_prefix
no_marker c t h = ground (arith, h)

remove-plain : (t u : Text) → IsPlain t → remove zero (t ++ u) ≡ t ++ remove zero u
remove-plain [] u h = refl
remove-plain (c ∷ t) u h =
    remove-none c (t ++ u) (no_marker c (t ++ u) h.0) ∙ ap (λ l. c ∷ l) (remove-plain t u h.1)

markers-plain : (t : Text) → IsPlain t → markers zero t ≡ []
unfolding markers
markers-plain [] h = refl
markers-plain (c ∷ t) h = markers-none c t (no_marker c t h.0) ∙ markers-plain t h.1

append-IsPlain : (t u : Text) → IsPlain t → IsPlain u → IsPlain (t ++ u)
append-IsPlain [] u h k = k
append-IsPlain (c ∷ t) u h k = (h.0, append-IsPlain t u h.1 k)

without-IsPlain :
    (before : Text) (cs : List (Text × Text)) → HasCitations before cs → IsPlain (without before cs)
unfolding without
without-IsPlain before [] h = h
without-IsPlain before ((id, after) ∷ cs) (plain, ok, some_id, rest) =
    append-IsPlain before (without after cs) plain (without-IsPlain after cs rest)

remove-answer :
    (before : Text) (cs : List (Text × Text))
    → HasCitations before cs
    → remove zero (answer_with before cs) ≡ without before cs
unfolding without remove
remove-answer before [] h =
    ap (remove zero) (sym (append-nil before)) ∙ remove-plain before [] h ∙ append-nil before
remove-answer before (([], after) ∷ cs) (plain, ok, some_id, rest) = absurd (some_id refl)
remove-answer before ((c ∷ id, after) ∷ cs) (plain, ok, some_id, rest) =
    remove-plain before _ plain
    ∙ ap (λ l. before ++ l)
        (remove_marker c id (answer_with after cs) ok ∙ remove-answer after cs rest)

module _ (blank : ℕ → Bool) where
  lstrip-IsPlain : (t : Text) → IsPlain t → IsPlain (lstrip blank t)
  unfolding lstrip
  lstrip-IsPlain [] h = tt
  lstrip-IsPlain (c ∷ t) h = split (blank c) (lstrip-IsPlain t h.1)
    where
      split : (b : Bool) → IsPlain (lstrip blank t) → IsPlain (if b then lstrip blank t else c ∷ t)
      split true ih = ih
      split false ih = h

  rstrip-IsPlain : (t : Text) → IsPlain t → IsPlain (rstrip blank t)
  unfolding rstrip keep
  rstrip-IsPlain [] h = tt
  rstrip-IsPlain (c ∷ t) h = kept (rstrip blank t) (rstrip-IsPlain t h.1)
    where
      by_blank : (b : Bool) → IsPlain (if b then [] else c ∷ [])
      by_blank true = tt
      by_blank false = (h.0, tt)

      kept : (r : Text) → IsPlain r → IsPlain (keep blank c r)
      kept [] k = by_blank (blank c)
      kept (d ∷ r) k = (h.0, k)

module _ (blank : ℕ → Bool) where
  cleaned-IsPlain :
      (before : Text) (cs : List (Text × Text))
      → HasCitations before cs
      → IsPlain (cleaned blank (answer_with before cs))
  unfolding cleaned strip
  cleaned-IsPlain before cs h =
      rstrip-IsPlain (λ c. c == b'.') _
        (rstrip-IsPlain blank _ (
          lstrip-IsPlain blank _
            (subst IsPlain (sym (remove-answer before cs h)) (without-IsPlain before cs h))))

  -- However many citations a teacher has put into its answer, where there are no other brackets and
  -- the answer is kept, its one citation is that of the document, whose identifier is well-formed.
  pub markers-enforce_citation :
      (before : Text) (cs : List (Text × Text)) (doc_id : Text)
      → HasCitations before cs
      → IsId doc_id
      → doc_id ≢ []
      → enforce_citation blank (answer_with before cs) doc_id ≢ []
      → markers zero (enforce_citation blank (answer_with before cs) doc_id) ≡ doc_id ∷ []
  unfolding enforce_citation cited
  markers-enforce_citation before cs doc_id h ok named kept =
      markers-enforce_cited blank (answer_with before cs) doc_id ok named
        (λ e. kept (ap (λ t. cited blank t doc_id) e))
      ∙ ap (λ l. l ++ doc_id ∷ []) (markers-plain _ (cleaned-IsPlain before cs h))
