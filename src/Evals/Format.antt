-- ===== src/Evals/Format.antt =====
-- evals/atlas_evals/metrics/format_validity.py: the markers of an output and its class. A marker
-- is read where the scan stands, and the characters that it takes are then passed over, so that
-- `skip` counts the rest of a marker. `C` is what re takes for the classes of characters and
-- `blank` what str.strip takes for white space.
pub mod Refusal
pub mod Scan
use atlas_compliance_copilot.Prelude.{
  ℕ, zero, suc, ◌+◌, ◌≤◌, ◌≡◌, Bool, true, false, not, ◌&&◌, ◌||◌, Option, none, some, List, [],
  ◌∷◌, ◌++◌, ◌==◌, leb, if◌then◌else◌, length, any, all,
}
use atlas_compliance_copilot.Regex.{
  Pattern, nothing, boundary, then_, either, many, Classes, search, word, optional, spaces, char,
}
use atlas_compliance_copilot.Text.{Text, codes, text_eq, mem_text, after_prefix, distinct, strip}

-- [A-Za-z0-9_-]
unfoldable pub is_id : ℕ → Bool
is_id c =
    (leb b'A' c && leb c b'Z')
    || ((leb b'a' c && leb c b'z') || ((leb b'0' c && leb c b'9') || ((c == b'_') || (c == b'-'))))

unfoldable pub put : ℕ → Option Text → Option Text
put c none = none
put c (some t) = some (c ∷ t)

-- The characters of an identifier up to the bracket.
unfoldable pub closed : Text → Option Text
unfolding put is_id
closed [] = none
closed (c ∷ t) =
    let rest = closed t in if c == b']' then some [] else if is_id c then put c rest else none

unfoldable pub non_empty : Option Text → Option Text
non_empty none = none
non_empty (some []) = none
non_empty (some (c ∷ t)) = some (c ∷ t)

unfoldable pub open_at : Option Text → Option Text
unfolding closed non_empty
open_at none = none
open_at (some t) = non_empty (closed t)

-- The identifier of the marker that the text starts with.
unfoldable pub marker_at : Text → Option Text
unfolding open_at
marker_at t = open_at (after_prefix (codes "[doc:") t)

-- _DOC_MARKER.findall: behind its first character a marker has length id + 5 others.
unfoldable pub markers : ℕ → Text → List Text
markers skip [] = []
markers (suc skip) (c ∷ t) = markers skip t
markers zero (c ∷ t) = elim (marker_at (c ∷ t)) [
  | none ↦ markers zero t
  | some id ↦ id ∷ markers (length id + 5) t
]

-- _DOC_MARKER.sub("", t)
unfoldable pub remove : ℕ → Text → Text
remove skip [] = []
remove (suc skip) (c ∷ t) = remove skip t
remove zero (c ∷ t) = elim (marker_at (c ∷ t)) [
  | none ↦ c ∷ remove zero t
  | some id ↦ remove (length id + 5) t
]

unfoldable pub cited_doc_ids : Text → List Text
unfolding markers distinct
cited_doc_ids output = distinct [] (markers zero output)

-- The cues of _REFUSAL_CUES in their order, and _GROUNDING_REF.
abbrev pub sequence : List Pattern → Pattern
sequence [] = nothing
sequence (p ∷ ps) = then_ p (sequence ps)

abbrev pub one_of : Pattern → List Pattern → Pattern
one_of p [] = p
one_of p (q ∷ qs) = either p (one_of q qs)

abbrev pub cannot_answer : Pattern
cannot_answer = sequence (
    boundary
    ∷ one_of (then_ (word "can") (either (then_ (optional (word "'")) (word "t")) (word "not"))) (
        sequence (word "could" ∷ spaces ∷ word "not" ∷ [])
        ∷ word "cannot"
        ∷ sequence (word "unable" ∷ spaces ∷ word "to" ∷ [])
        ∷ sequence (word "not" ∷ spaces ∷ word "able" ∷ spaces ∷ word "to" ∷ [])
        ∷ [])
    ∷ spaces
    ∷ word "answer"
    ∷ [])

abbrev pub does_not_contain : Pattern
does_not_contain =
    sequence
      (boundary ∷ word "does" ∷ spaces ∷ word "not" ∷ spaces ∷ word "contain" ∷ boundary ∷ [])

abbrev pub no_information : Pattern
no_information = sequence (
    boundary
    ∷ one_of (word "no")
        (sequence (word "not" ∷ spaces ∷ word "enough" ∷ []) ∷ word "insufficient" ∷ [])
    ∷ spaces
    ∷ one_of (word "information") (word "context" ∷ word "data" ∷ [])
    ∷ boundary
    ∷ [])

abbrev pub not_in_sources : Pattern
not_in_sources = sequence (
    boundary
    ∷ word "not"
    ∷ spaces
    ∷ one_of (word "found") (word "present" ∷ word "available" ∷ [])
    ∷ spaces
    ∷ word "in"
    ∷ spaces
    ∷ word "the"
    ∷ spaces
    ∷ optional (then_ (word "provided") spaces)
    ∷ either (word "sources") (word "context")
    ∷ boundary
    ∷ [])

abbrev pub refusal_cues : List Pattern
refusal_cues = cannot_answer ∷ does_not_contain ∷ no_information ∷ not_in_sources ∷ []

abbrev pub grounding_ref : Pattern
grounding_ref = sequence (
    boundary
    ∷ optional (then_ (word "provided") spaces)
    ∷ one_of (then_ (word "source") (optional (char b's')))
        (word "context" ∷ then_ (word "document") (optional (char b's')) ∷ [])
    ∷ boundary
    ∷ [])

pub data Class : Type 0 where
  answer : Class
  refusal : Class
  invalid : Class

unfoldable pub is_empty : {A : Type 0} → List A → Bool
is_empty [] = true
is_empty (x ∷ xs) = false

-- all(i in allowed_ids for i in ids), where a set is given
unfoldable pub allowed : Option (List Text) → List Text → Bool
allowed none ids = true
allowed (some set) ids = all (λ i. mem_text i set) ids

unfoldable pub is_valid : Class → Bool
is_valid answer = true
is_valid refusal = true
is_valid invalid = false

module _ (C : Classes) (blank : ℕ → Bool) where
  -- The test on the stripped text.
  unfoldable pub reads_as_refusal : Text → Bool
  unfolding is_empty
  reads_as_refusal text =
      if is_empty text
      then false
      else any (λ cue. search C cue text) refusal_cues && search C grounding_ref text

  unfoldable pub is_grounded_refusal : Text → Bool
  unfolding reads_as_refusal
  is_grounded_refusal output = reads_as_refusal (strip blank output)

  unfoldable pub answer_text_without_markers : Text → Text
  unfolding remove
  answer_text_without_markers output = strip blank (remove zero output)

  -- What classify returns for a stripped text.
  unfoldable pub classify_text : Text → Option (List Text) → Class
  unfolding is_empty
  classify_text text allowed_ids =
      if is_empty text
      then invalid
      else if not (is_empty (cited_doc_ids text))
      then (if is_grounded_refusal text
          then invalid
          else if not (allowed allowed_ids (cited_doc_ids text))
          then invalid
          else if is_empty (answer_text_without_markers text)
          then invalid
          else answer)
      else if is_grounded_refusal text
      then refusal
      else invalid

  unfoldable pub classify : Text → Option (List Text) → Class
  unfolding classify_text
  classify output allowed_ids = classify_text (strip blank output) allowed_ids

  unfoldable pub score : Text → Option (List Text) → Bool
  unfolding is_valid
  score output allowed_ids = is_valid (classify output allowed_ids)
