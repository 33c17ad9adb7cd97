-- ===== src/Training/Manifest/Trust.antt =====
-- What a manifest promises, and that the guard of manifest.py decides it.
use atlas_compliance_copilot.Prelude.{
  ℕ, ◌≡◌, ◌≢◌, refl, ◌↔◌, String, Bool, true, false, not, Option, none, some, List, [], ◌∷◌, eq_iff,
  arith, length, All,
}
use atlas_compliance_copilot.Prelude.Int.{ℤ, pos, ◌+ℤ◌, ◌≤ℤ◌, eq_of_parts}
use atlas_compliance_copilot.Text.{Text, mem_text, strip}
use atlas_compliance_copilot.Training.Corpus.{Docs, TrustedDoc, resolve}
use atlas_compliance_copilot.Training.Manifest.{
  Manifest, ManifestError, Source, SyntheticMeta, Split, members, validate, or_else, require,
  is_integer, is_empty, eq_ℤ, first_unknown, source_error, sources_error, unlisted,
  listed_source_ids, refs_error, meta_error, split_error, head_error, unknown_id,
}

-- A source counts its members, and each of them is a document of the corpus.
abbrev pub IsCommitted : Docs → Source → Type 0
IsCommitted corpus s =
    (s.count ≡ pos (length (members s)))
    × All (λ m. (d : TrustedDoc) × (resolve corpus m ≡ some d)) (members s)

abbrev pub IsCounted : SyntheticMeta → Type 0
IsCounted syn =
    (pos 0 ≤ℤ syn.count)
    × (pos 0 ≤ℤ syn.answer_pairs)
    × (pos 0 ≤ℤ syn.refusal_pairs)
    × (syn.count ≡ syn.answer_pairs +ℤ syn.refusal_pairs)

-- Every reference stands in a source; none is asked for where no reference is given.
abbrev pub Listed : List Source → Option (List Text) → Type 0
Listed sources none = Unit {0}
Listed sources (some refs) = All (λ r. mem_text r (listed_source_ids sources) ≡ true) refs

module _ (blank : ℕ → Bool) where
  abbrev pub IsNamed : Text → Type 0
  IsNamed t = strip blank t ≢ []

  abbrev pub IsTrusted : Manifest → Docs → Option (List Text) → Type 0
  IsTrusted m corpus refs =
      (is_integer m.seed ≡ true)
      × IsNamed m.dataset_version
      × (m.synthetic.grounded_in ≡ "trusted-corpus-only")
      × (m.sources ≢ [])
      × All (IsCommitted corpus) m.sources
      × IsCounted m.synthetic
      × ((pos 0 ≤ℤ m.split.train) × (pos 0 ≤ℤ m.split.val) × IsNamed m.split.strategy)
      × Listed m.sources refs

or_else_lem : (a b : Option ManifestError) → (or_else a b ≡ none) ↔ ((a ≡ none) × (b ≡ none))
or_else_lem none b = (λ h. (refl, h), λ h. h.1)
or_else_lem (some e) b = (λ h. cc, λ h. h.0)

require_lem : (b : Bool) (e : ManifestError) → (require b e ≡ none) ↔ (b ≡ true)
require_lem true e = (λ h. refl, λ h. refl)
require_lem false e = (λ h. cc, λ h. cc)

is_empty_lem {ℓ} : {A : Type ℓ} (l : List A) → (not (is_empty l) ≡ true) ↔ (l ≢ [])
unfolding is_empty
is_empty_lem [] = (λ h. cc, λ h. absurd (h refl))
is_empty_lem (x ∷ l) = (λ h e. cc, λ h. refl)

eq_ℤ→eq : (a b : ℤ) → (eq_ℤ a b ≡ true) ↔ (a ≡ b)
eq_ℤ→eq a b = (λ h. ground (arith, eq_of_parts a b), λ h. ground arith)

first_unknown_lem :
    (corpus : Docs) (ms : List Text)
    → (first_unknown corpus ms ≡ none)
      ↔ All (λ m. (d : TrustedDoc) × (resolve corpus m ≡ some d)) ms
unfolding first_unknown
first_unknown_lem corpus [] = (λ h. tt, λ h. refl)
first_unknown_lem corpus (m ∷ ms) = by_answer (resolve corpus m) refl (first_unknown_lem corpus ms)
  where
    by_answer :
        (o : Option TrustedDoc)
        → resolve corpus m ≡ o
        → ((first_unknown corpus ms ≡ none)
            ↔ All (λ i. (d : TrustedDoc) × (resolve corpus i ≡ some d)) ms)
        → (first_unknown corpus (m ∷ ms) ≡ none)
          ↔ All (λ i. (d : TrustedDoc) × (resolve corpus i ≡ some d)) (m ∷ ms)
    by_answer none e ih = (rw e (λ h. cc), λ h. cc)
    by_answer (some d) e ih = rw (first_unknown, e) (λ h. ((d, refl), ih.0 h), λ h. ih.1 h.1)

unlisted_lem :
    (allowed refs : List Text)
    → (unlisted allowed refs ≡ []) ↔ All (λ r. mem_text r allowed ≡ true) refs
unfolding unlisted
unlisted_lem allowed [] = (λ h. tt, λ h. refl)
unlisted_lem allowed (r ∷ rs) = ground (arith, unlisted_lem allowed rs)

-- The error that the first unknown member of a source makes.
abbrev named : String → Option Text → Option ManifestError
named kind none = none
named kind (some m) = some (unknown_id kind m)

source_error_lem :
    (corpus : Docs) (s : Source) → (source_error corpus s ≡ none) ↔ IsCommitted corpus s
unfolding source_error
source_error_lem corpus s = by_test (eq_ℤ s.count (pos (length (members s)))) refl
  where
    by_ids :
        (o : Option Text)
        → first_unknown corpus (members s) ≡ o
        → (named s.kind o ≡ none)
          ↔ All (λ m. (d : TrustedDoc) × (resolve corpus m ≡ some d)) (members s)
    by_ids none e = (λ h. (first_unknown_lem corpus (members s)).0 e, λ h. refl)
    by_ids (some m) e = (λ h. cc, λ h. cc ((first_unknown_lem corpus (members s)).1 h))

    by_test :
        (b : Bool)
        → eq_ℤ s.count (pos (length (members s))) ≡ b
        → (source_error corpus s ≡ none) ↔ IsCommitted corpus s
    by_test true e =
        rw e (λ h. ((eq_ℤ→eq _ _).0 e, (by_ids _ refl).0 h), λ h. (by_ids _ refl).1 h.1)
    by_test false e = (rw e (λ h. cc), λ h. cc ((eq_ℤ→eq _ _).1 h.0))

sources_error_lem :
    (corpus : Docs) (ss : List Source)
    → (sources_error corpus ss ≡ none) ↔ All (IsCommitted corpus) ss
unfolding sources_error
sources_error_lem corpus [] = (λ h. tt, λ h. refl)
sources_error_lem corpus (s ∷ ss) =
    by_error (source_error corpus s) refl (sources_error_lem corpus ss)
  where
    by_error :
        (o : Option ManifestError)
        → source_error corpus s ≡ o
        → ((sources_error corpus ss ≡ none) ↔ All (IsCommitted corpus) ss)
        → (sources_error corpus (s ∷ ss) ≡ none) ↔ All (IsCommitted corpus) (s ∷ ss)
    by_error none e ih =
        rw (sources_error, e) (λ h. ((source_error_lem corpus s).0 e, ih.0 h), λ h. ih.1 h.1)
    by_error (some d) e ih =
        (rw (sources_error, e) (λ h. cc), λ h. cc ((source_error_lem corpus s).1 h.0))

refs_error_lem :
    (m : Manifest) (refs : Option (List Text)) → (refs_error m refs ≡ none) ↔ Listed m.sources refs
unfolding refs_error is_empty
refs_error_lem m none = (λ h. tt, λ h. refl)
refs_error_lem m (some refs) = by_refs (unlisted (listed_source_ids m.sources) refs) refl
  where
    by_refs :
        (l : List Text)
        → unlisted (listed_source_ids m.sources) refs ≡ l
        → (refs_error m (some refs) ≡ none) ↔ Listed m.sources (some refs)
    by_refs [] e = (λ h. (unlisted_lem (listed_source_ids m.sources) refs).0 e, λ h. rw e refl)
    by_refs (r ∷ l) e =
        (rw e (λ h. cc), λ h. cc ((unlisted_lem (listed_source_ids m.sources) refs).1 h))

meta_error_lem : (syn : SyntheticMeta) → (meta_error syn ≡ none) ↔ IsCounted syn
unfolding meta_error
meta_error_lem syn = ground (arith, eq_ℤ→eq syn.count (syn.answer_pairs +ℤ syn.refusal_pairs))

module _ (blank : ℕ → Bool) where
  split_error_lem :
      (s : Split)
      → (split_error blank s ≡ none)
        ↔ ((pos 0 ≤ℤ s.train) × (pos 0 ≤ℤ s.val) × IsNamed blank s.strategy)
  unfolding split_error
  split_error_lem s = ground (arith, is_empty_lem (strip blank s.strategy))

  head_error_lem :
      (m : Manifest)
      → (head_error blank m ≡ none) ↔ (
          (is_integer m.seed ≡ true)
          × IsNamed blank m.dataset_version
          × (m.synthetic.grounded_in ≡ "trusted-corpus-only")
          × (m.sources ≢ []))
  unfolding head_error
  head_error_lem m = ground (
    arith,
    is_empty_lem (strip blank m.dataset_version),
    is_empty_lem m.sources,
    eq_iff m.synthetic.grounded_in "trusted-corpus-only",
  )

  -- The guard passes exactly what keeps the promise of a manifest.
  pub validate-IsTrusted :
      (m : Manifest) (corpus : Docs) (refs : Option (List Text))
      → (validate blank m corpus refs ≡ none) ↔ IsTrusted blank m corpus refs
  unfolding validate
  validate-IsTrusted m corpus refs = (
    λ h.
        let (a, h1) = (or_else_lem _ _).0 h in
        let (b, h2) = (or_else_lem _ _).0 h1 in
        let (c, h3) = (or_else_lem _ _).0 h2 in
        let (d, e) = (or_else_lem _ _).0 h3 in
        let (p, q, r, s) = (head_error_lem m).0 a in
        (
          p,
          q,
          r,
          s,
          (sources_error_lem corpus m.sources).0 b,
          (meta_error_lem m.synthetic).0 c,
          (split_error_lem m.split).0 d,
          (refs_error_lem m refs).0 e,
        ),
    λ h.
        let (p, q, r, s, b, c, d, e) = h in
        (or_else_lem _ _).1 (
          (head_error_lem m).1 (p, q, r, s),
          (or_else_lem _ _).1 (
            (sources_error_lem corpus m.sources).1 b,
            (or_else_lem _ _).1 (
              (meta_error_lem m.synthetic).1 c,
              (or_else_lem _ _).1 ((split_error_lem m.split).1 d, (refs_error_lem m refs).1 e),
            ),
          ),
        ),
  )
