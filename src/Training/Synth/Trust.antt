-- ===== src/Training/Synth/Trust.antt =====
-- The manifest that build_manifest makes passes the guard of manifest.py.
use mathlib.Core.List.{append-nil}
use mathlib.Core.Option.{map}
use atlas_compliance_copilot.Prelude.{
  ℕ, ◌+◌, ◌≡◌, ◌≢◌, refl, sym, ap, ◌∙◌, ◌⊎◌, inl, inr, Bool, true, false, ◌||◌, none, some, List,
  [], ◌∷◌, ◌++◌, arith, ◌==◌, length, All, All-append, Bool-cases,
}
use atlas_compliance_copilot.Prelude.Int.{pos, ◌+ℤ◌}
use atlas_compliance_copilot.Text.{
  distinct, Text, text_eq, text_eq→eq, text_eq_refl, mem_text, strip, strip_ne,
}
use atlas_compliance_copilot.Training.Corpus.{Docs, TrustedDoc, resolve}
use atlas_compliance_copilot.Training.Manifest.{
  Manifest, Source, listed_source_ids, validate, is_integer,
}
use atlas_compliance_copilot.Training.Manifest.Trust.{IsCommitted, validate-IsTrusted}
use atlas_compliance_copilot.Training.Pair.{SyntheticPair}
use atlas_compliance_copilot.Training.Synth.Build.{
  Run, provenance_refs, add, group, fb_source, l2_source, labelled, manifest_of, build_manifest,
}

-- The reference is a document of the corpus.
abbrev Resolves : Docs → Text → Type 0
Resolves corpus r = (d : TrustedDoc) × (resolve corpus r ≡ some d)

-- A pair is an answer or a refusal from a document of the corpus.
abbrev pub IsGroundedIn : Docs → SyntheticPair → Type 0
IsGroundedIn corpus p =
    ((p.label ≡ "answer") ⊎ (p.label ≡ "refusal")) × Resolves corpus p.provenance_ref

mem_text→eq : (r s : Text) (l : List Text) → mem_text r (s ∷ l) ≡ (text_eq r s || mem_text r l)
mem_text→eq r s l = refl

mem-append : (r : Text) (a b : List Text) → mem_text r (a ++ b) ≡ (mem_text r a || mem_text r b)
mem-append r [] b = refl
mem-append r (x ∷ a) b = ground (arith, mem-append r a b)

-- No reference is lost when they are made distinct.
mem-distinct :
    (r : Text) (seen rs : List Text)
    → mem_text r rs ≡ true
    → (mem_text r seen || mem_text r (distinct seen rs)) ≡ true
unfolding distinct
mem-distinct r seen [] h = cc
mem-distinct r seen (x ∷ rs) h = ground (
  arith,
  mem-distinct r seen rs,
  mem-distinct r (x ∷ seen) rs,
  λ (e : text_eq r x ≡ true). ap (λ t. mem_text t seen) (text_eq→eq r x e),
)

distinct-All : (P : Text → Type 0) (seen rs : List Text) → All P rs → All P (distinct seen rs)
unfolding distinct
distinct-All P seen [] h = tt
distinct-All P seen (x ∷ rs) h =
    ground (arith, distinct-All P seen rs h.1, distinct-All P (x ∷ seen) rs h.1)

-- The references that resolve are grouped, with each in one of the groups.
group_lem :
    (corpus : Docs) (rs : List Text)
    → All (Resolves corpus) rs
    → (g : List Text × List Text) × (group corpus rs ≡ some g)
      × All (Resolves corpus) g.0
      × All (Resolves corpus) g.1
      × ((r : Text) → mem_text r rs ≡ true → (mem_text r g.0 || mem_text r g.1) ≡ true)
unfolding group add
group_lem corpus [] h = (([], []), refl, tt, tt, λ r e. cc)
group_lem corpus (r ∷ rs) ((d, e), h) = with_ids (group_lem corpus rs h)
  where
    with_ids :
        (g : List Text × List Text) × (group corpus rs ≡ some g)
          × All (Resolves corpus) g.0
          × All (Resolves corpus) g.1
          × ((s : Text) → mem_text s rs ≡ true → (mem_text s g.0 || mem_text s g.1) ≡ true)
        → (g : List Text × List Text) × (group corpus (r ∷ rs) ≡ some g)
          × All (Resolves corpus) g.0
          × All (Resolves corpus) g.1
          × ((s : Text) → mem_text s (r ∷ rs) ≡ true → (mem_text s g.0 || mem_text s g.1) ≡ true)
    with_ids ((fb, l2), p, q, s, t) = elim (Bool-cases (d.layer == 1)) [
      | inl b ↦
          ((r ∷ fb, l2), ground (arith, e, p, b), ((d, e), q), s, λ k m. ground (arith, t k, m))
      | inr b ↦
          ((fb, r ∷ l2), ground (arith, e, p, b), q, ((d, e), s), λ k m. ground (arith, t k, m))
    ]

-- Each group that is not empty makes a source that keeps its promise.
fb_source-All :
    (corpus : Docs) (ids : List Text)
    → All (Resolves corpus) ids
    → All (IsCommitted corpus) (fb_source ids)
unfolding fb_source
fb_source-All corpus [] h = tt
fb_source-All corpus (i ∷ is) h = (
  (
    ap (λ l. pos (length l)) (sym (append-nil (i ∷ is))),
    All-append (Resolves corpus) (i ∷ is) [] h tt,
  ),
  tt,
)

l2_source-All :
    (corpus : Docs) (ids : List Text)
    → All (Resolves corpus) ids
    → All (IsCommitted corpus) (l2_source ids)
unfolding l2_source
l2_source-All corpus [] h = tt
l2_source-All corpus (i ∷ is) h = ((refl, h), tt)

mem-sources :
    (r : Text) (fb l2 : List Text)
    → mem_text r (listed_source_ids (fb_source fb ++ l2_source l2))
      ≡ (mem_text r fb || mem_text r l2)
unfolding fb_source l2_source listed_source_ids
mem-sources r [] [] = refl
mem-sources r [] (j ∷ js) = ground (arith, mem-append r js [])
mem-sources r (i ∷ is) [] = ground (arith, mem-append r (is ++ []) [], mem-append r is [])
mem-sources r (i ∷ is) (j ∷ js) =
    ground (arith, mem-append r (is ++ []) (j ∷ (js ++ [])), mem-append r is [], mem-append r js [])

-- The two labels make up the pairs.
labelled_sum :
    (corpus : Docs) (pairs : List SyntheticPair)
    → All (IsGroundedIn corpus) pairs
    → length pairs ≡ labelled "answer" pairs + labelled "refusal" pairs
unfolding labelled
labelled_sum corpus [] h = refl
labelled_sum corpus (p ∷ ps) ((inl e, r), h) = rw e (omega (arith, labelled_sum corpus ps h))
labelled_sum corpus (p ∷ ps) ((inr e, r), h) = rw e (omega (arith, labelled_sum corpus ps h))

refs-All :
    (corpus : Docs) (pairs : List SyntheticPair)
    → All (IsGroundedIn corpus) pairs
    → All (Resolves corpus) (provenance_refs pairs)
unfolding provenance_refs
refs-All corpus [] h = tt
refs-All corpus (p ∷ ps) h = (h.0.1, refs-All corpus ps h.1)

All-mem :
    (Q : Text → Type 0) (rs : List Text) → ((s : Text) → mem_text s rs ≡ true → Q s) → All Q rs
All-mem Q [] f = tt
All-mem Q (r ∷ rs) f =
    (f r (ground (arith, text_eq_refl r)), All-mem Q rs (λ s e. f s (ground arith)))

some_source :
    (sources : List Source) (pairs : List SyntheticPair)
    → pairs ≢ []
    → All (λ r. mem_text r (listed_source_ids sources) ≡ true) (provenance_refs pairs)
    → sources ≢ []
unfolding provenance_refs listed_source_ids
some_source sources [] ne h e = ne refl
some_source sources (p ∷ ps) ne h e =
    cc (sym (ap (λ ss. mem_text p.provenance_ref (listed_source_ids ss)) e) ∙ h.0)

-- Where every label is one of the two, every reference is a document and the version has a name,
-- build_manifest returns a manifest, and the guard passes it with the references of the pairs.
pub build_manifest-validate :
    (blank : ℕ → Bool)
    → blank b'd' ≡ false
    → (run : Run) (pairs : List SyntheticPair) (corpus : Docs)
    → strip blank run.dataset_version ≢ []
    → pairs ≢ []
    → All (IsGroundedIn corpus) pairs
    → (m : Manifest) × (build_manifest run pairs corpus ≡ some m)
      × (validate blank m corpus (some (provenance_refs pairs)) ≡ none)
unfolding build_manifest is_integer manifest_of ◌+ℤ◌
build_manifest-validate blank d run pairs corpus v ne h = with_ids (
    group_lem corpus (distinct [] refs)
      (distinct-All (Resolves corpus) [] refs (refs-All corpus pairs h)))
  where
    refs : List Text
    refs = provenance_refs pairs

    listed :
        (fb l2 : List Text)
        → ((s : Text)
            → mem_text s (distinct [] refs) ≡ true
            → (mem_text s fb || mem_text s l2) ≡ true)
        → All (λ r. mem_text r (listed_source_ids (fb_source fb ++ l2_source l2)) ≡ true) refs
    listed fb l2 t =
        All-mem (λ r. mem_text r (listed_source_ids (fb_source fb ++ l2_source l2)) ≡ true) refs
          (λ r e. mem-sources r fb l2 ∙ t r (mem-distinct r [] refs e))

    with_ids :
        (g : List Text × List Text) × (group corpus (distinct [] refs) ≡ some g)
          × All (Resolves corpus) g.0
          × All (Resolves corpus) g.1
          × ((s : Text)
              → mem_text s (distinct [] refs) ≡ true
              → (mem_text s g.0 || mem_text s g.1) ≡ true)
        → (m : Manifest) × (build_manifest run pairs corpus ≡ some m)
          × (validate blank m corpus (some refs) ≡ none)
    with_ids (g, p, q, s, t) = (
      manifest_of run pairs g,
      ap (map (manifest_of run pairs)) p,
      (validate-IsTrusted blank (manifest_of run pairs g) corpus (some refs)).1 (
        refl,
        v,
        refl,
        some_source _ pairs ne (listed g.0 g.1 t),
        All-append (IsCommitted corpus) (fb_source g.0) (l2_source g.1) (fb_source-All corpus g.0 q)
            (l2_source-All corpus g.1 s),
        (omega arith, omega arith, omega arith, ground (arith, labelled_sum corpus pairs h)),
        (omega arith, omega arith, strip_ne blank b'd' _ d),
        listed g.0 g.1 t,
      ),
    )
