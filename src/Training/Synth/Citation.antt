-- ===== src/Training/Synth/Citation.antt =====
-- What enforce_citation of training/atlas_training/data/synth.py makes of a teacher's answer, as
-- format_validity.py of the evaluation reads it.
use mathlib.Core.List.{append_assoc}
use atlas_compliance_copilot.Prelude.{
  ℕ, zero, ◌≡◌, ◌≢◌, refl, sym, ap, ◌∙◌, Bool, true, false, some, List, [], ◌∷◌, ◌++◌, arith, ◌==◌,
}
use atlas_compliance_copilot.Text.{
  Text, codes, text_eq_refl, distinct, lstrip, lstrip_head, rstrip, rstrip_head, rstrip_last, strip,
  strip_ne,
}
use atlas_compliance_copilot.Evals.Format.{
  markers, remove, cited_doc_ids, is_empty, allowed, answer, is_grounded_refusal,
  answer_text_without_markers, classify_text, classify,
}
use atlas_compliance_copilot.Evals.Format.Scan.{
  IsId, markers-space, markers_marker, markers_blank, markers_stop, remove-space, remove_clean,
  remove_marker, remove_blank, remove_stop,
}
use atlas_compliance_copilot.Regex.{Classes}
use atlas_compliance_copilot.Training.Synth.Generate.{cleaned, cited, enforce_citation}

-- What stands behind the answer.
abbrev citation : Text → Text
citation id = codes " [doc:" ++ (id ++ codes "].")

markers-citation :
    (c : ℕ) (id : Text) → IsId (c ∷ id) → markers zero (citation (c ∷ id)) ≡ (c ∷ id) ∷ []
markers-citation c id h =
    markers_blank _ ∙ markers_marker c id (codes ".") h ∙ ap (λ l. (c ∷ id) ∷ l) markers_stop

remove-citation : (c : ℕ) (id : Text) → IsId (c ∷ id) → remove zero (citation (c ∷ id)) ≡ codes " ."
remove-citation c id h =
    remove_blank _ ∙ ap (λ l. b' ' ∷ l) (remove_marker c id (codes ".") h ∙ remove_stop)

is_empty_ne : {A : Type 0} (l : List A) → l ≢ [] → is_empty l ≡ false
unfolding is_empty
is_empty_ne [] h = absurd (h refl)
is_empty_ne (x ∷ l) h = refl

module _ (blank : ℕ → Bool) where
  -- For a well-formed identifier, where something is left, the markers of the result are those that
  -- are left in the cleaned answer and then the one of the document.
  pub markers-enforce_cited :
      (reply doc_id : Text)
      → IsId doc_id
      → doc_id ≢ []
      → cleaned blank reply ≢ []
      → markers zero (enforce_citation blank reply doc_id)
        ≡ markers zero (cleaned blank reply) ++ doc_id ∷ []
  unfolding enforce_citation cited
  markers-enforce_cited reply [] h n e = absurd (n refl)
  markers-enforce_cited reply (c ∷ id) h n e = by_text (cleaned blank reply) e
    where
      by_text :
          (t : Text)
          → t ≢ []
          → markers zero (cited blank t (c ∷ id)) ≡ markers zero t ++ (c ∷ id) ∷ []
      by_text [] k = absurd (k refl)
      by_text (d ∷ t) k =
          markers-space zero (d ∷ t) _ (omega arith)
          ∙ ap (λ l. markers zero (d ∷ t) ++ l) (markers-citation c id h)

  module _ (C : Classes) where
    -- The five tests of classify for an answer.
    classify_text-answer :
        (t : Text) (ids : List Text)
        → is_empty t ≡ false
        → is_empty (cited_doc_ids t) ≡ false
        → is_grounded_refusal C blank t ≡ false
        → allowed (some ids) (cited_doc_ids t) ≡ true
        → is_empty (answer_text_without_markers C blank t) ≡ false
        → classify_text C blank t (some ids) ≡ answer
    unfolding classify_text
    classify_text-answer t ids e c r a m = rw (e, c, r, a, m) refl

    -- The first character of what is left of a reply is not blank.
    cleaned_head : (reply t : Text) (d : ℕ) → cleaned blank reply ≡ d ∷ t → blank d ≡ false
    unfolding cleaned strip
    cleaned_head reply t d e =
        let (u, p) =
          rstrip_head (λ c. c == b'.') (rstrip blank (lstrip blank (remove zero reply))) d t e in
        let (v, q) = rstrip_head blank (lstrip blank (remove zero reply)) d u p in
        lstrip_head blank (remove zero reply) d v q

    -- No white space stands at the ends of a cited answer.
    strip-cited :
        (d : ℕ) (t id : Text)
        → blank d ≡ false
        → blank b'.' ≡ false
        → strip blank ((d ∷ t) ++ citation id) ≡ (d ∷ t) ++ citation id
    unfolding strip lstrip
    strip-cited d t id h k =
        rw h (ap (rstrip blank) whole ∙ rstrip_last blank body b'.' k ∙ sym whole)
      where
        body : Text
        body = (d ∷ t) ++ (codes " [doc:" ++ (id ++ codes "]"))

        whole : (d ∷ t) ++ citation id ≡ body ++ b'.' ∷ []
        whole =
            ap (λ l. (d ∷ t) ++ (codes " [doc:" ++ l))
              (sym (append_assoc id (codes "]") (codes ".")))
            ∙ sym (append_assoc (d ∷ t) (codes " [doc:" ++ (id ++ codes "]")) (codes "."))

    -- For a document whose identifier is not empty and has only characters that a marker takes, a
    -- reply of which something, but no marker, is left by the cleaning, and that does not read as a
    -- refusal with its citation, becomes what classify takes for an answer with the document allowed.
    -- A full stop is taken not to be white space.
    pub classify-enforce_citation :
        (reply doc_id : Text)
        → blank b'.' ≡ false
        → IsId doc_id
        → doc_id ≢ []
        → cleaned blank reply ≢ []
        → markers zero (cleaned blank reply) ≡ []
        → is_grounded_refusal C blank (enforce_citation blank reply doc_id) ≡ false
        → classify C blank (enforce_citation blank reply doc_id) (some (doc_id ∷ [])) ≡ answer
    unfolding enforce_citation cited classify cited_doc_ids is_empty allowed
        answer_text_without_markers distinct
    classify-enforce_citation reply doc_id stop h n e m r =
        by_text (cleaned blank reply) doc_id refl h n e m r
      where
        by_text :
            (t id : Text)
            → cleaned blank reply ≡ t
            → IsId id
            → id ≢ []
            → t ≢ []
            → markers zero t ≡ []
            → is_grounded_refusal C blank (cited blank t id) ≡ false
            → classify C blank (cited blank t id) (some (id ∷ [])) ≡ answer
        by_text [] id p h n e m r = absurd (e refl)
        by_text (d ∷ t) [] p h n e m r = absurd (n refl)
        by_text (d ∷ t) (c ∷ id) p h n e m r =
            ap (λ x. classify_text C blank x (some ((c ∷ id) ∷ [])))
              (strip-cited d t (c ∷ id) (cleaned_head reply t d p) stop)
            ∙ classify_text-answer whole ((c ∷ id) ∷ []) refl (ap is_empty ids) r
                (ap (allowed (some ((c ∷ id) ∷ []))) ids ∙ ground (arith, text_eq_refl (c ∷ id)))
                (is_empty_ne _ (λ q.
                  strip_ne blank d (t ++ codes " .") (cleaned_head reply t d p)
                    (sym (ap (strip blank) left) ∙ q)))
          where
            whole : Text
            whole = (d ∷ t) ++ citation (c ∷ id)

            ids : cited_doc_ids whole ≡ (c ∷ id) ∷ []
            ids = ap (distinct []) (
                markers-space zero (d ∷ t) _ (omega arith)
                ∙ ap (λ l. l ++ markers zero (citation (c ∷ id))) m
                ∙ markers-citation c id h)

            left : remove zero whole ≡ (d ∷ t) ++ codes " ."
            left =
                remove-space zero (d ∷ t) _ (omega arith)
                ∙ ap (λ l. l ++ remove zero (citation (c ∷ id))) (remove_clean (d ∷ t) m)
                ∙ ap (λ l. (d ∷ t) ++ l) (remove-citation c id h)
