-- ===== src/Training/Tracker/Source.antt =====
-- The source under which an adapter is registered.
use atlas_compliance_copilot.Prelude.{
  ◌≡◌, ◌≢◌, refl, sym, ap, ◌∙◌, true, false, ◌||◌, [], ◌∷◌, ◌++◌, arith, ◌==◌, any, Bool-cases, inl,
  inr,
}
use atlas_compliance_copilot.Exec.{Result, ok, raise, Exec, ◌>>=◌, continue, pure}
use atlas_compliance_copilot.Text.{Text, codes, has_prefix, after_prefix}
use atlas_compliance_copilot.Training.Tracker.{
  ModelVersion, is_empty, hf_source_uri, after_first, is_hf_source, Tracker, registered, checked,
  register_adapter,
}

abbrev pub uri : Text → Text → Text
uri repo revision = codes "hf://" ++ (repo ++ (codes "@" ++ revision))

any-at : (t u : Text) → any (λ c. c == b'@') (t ++ (codes "@" ++ u)) ≡ true
any-at [] u = refl
any-at (c ∷ t) u = ground (arith, any-at t u)

is_hf_source-uri : (repo revision : Text) → is_hf_source (uri repo revision) ≡ true
unfolding is_hf_source after_first has_prefix after_prefix
is_hf_source-uri repo revision = any-at repo revision

source_or : {W : Type 0} → Text → Result ModelVersion × W → Text
source_or source (ok mv, w) = mv.source
source_or source (raise e, w) = source

is_empty_ne : (t : Text) → t ≢ [] → is_empty t ≡ false
unfolding is_empty
is_empty_ne [] h = absurd (h refl)
is_empty_ne (c ∷ t) h = refl

module _ {F W : Type 0} (self : Tracker F W) where
  -- The push of the adapter.
  abbrev pub pushed : Text → Exec W Text
  pushed path = self.hub.push path self.hf_repo self.hf_private self.hf_token

  registered-source :
      (run_id register_as source : Text) (w w' : W) (mv : ModelVersion)
      → registered self run_id register_as source w ≡ (ok mv, w')
      → mv.source ≡ source
  unfolding registered source_or
  registered-source run_id register_as source w w' mv h =
      by_version (self.registry.create_model_version register_as source run_id w) h
    where
      by_end :
          (version : Text) (r : Result (Unit {0}) × W)
          → continue r (λ _.
            pure
              (record { name = register_as; version = version; source = source; run_id = run_id }))
            ≡ (ok mv, w')
          → mv.source ≡ source
      by_end version (ok u, w1) k = sym (ap (source_or source) k)
      by_end version (raise e, w1) k = cc

      by_version :
          (r : Result Text × W)
          → continue r (λ version. self.registry.end_run >>= (λ _.
            pure
              (record { name = register_as; version = version; source = source; run_id = run_id })))
            ≡ (ok mv, w')
          → mv.source ≡ source
      by_version (ok v, w1) k = by_end v (self.registry.end_run w1) k
      by_version (raise e, w1) k = cc

  -- Where the repository is named, what follows a push that returned a revision is the registration
  -- under its URI: the test for a source that is not on the Hub never refuses it.
  pub register_adapter-registered :
      (run_id path register_as revision : Text) (w w1 : W)
      → self.hf_repo ≢ []
      → revision ≢ []
      → pushed path w ≡ (ok revision, w1)
      → register_adapter self run_id path register_as w
        ≡ registered self run_id register_as (uri self.hf_repo revision) w1
  unfolding register_adapter hf_source_uri checked
  register_adapter-registered run_id path register_as revision w w1 n m h =
      rw
        (
          h,
          is_empty_ne self.hf_repo n,
          is_empty_ne revision m,
          is_hf_source-uri self.hf_repo revision,
        )
        refl

  -- An adapter that is registered was pushed before, and is registered under the repository and the
  -- revision that the push returned.
  pub register_adapter-pushed :
      (run_id path register_as : Text) (w w' : W) (mv : ModelVersion)
      → register_adapter self run_id path register_as w ≡ (ok mv, w')
      → (revision : Text) × (w1 : W) × (pushed path w ≡ (ok revision, w1))
        × (registered self run_id register_as (uri self.hf_repo revision) w1 ≡ (ok mv, w'))
        × (mv.source ≡ uri self.hf_repo revision)
        × (is_hf_source mv.source ≡ true)
  unfolding register_adapter hf_source_uri checked
  register_adapter-pushed run_id path register_as w w' mv h = by_push (pushed path w) refl h
    where
      sound :
          (revision : Text) (w1 : W)
          → (hf_source_uri self.hf_repo revision
                >>= (λ source. checked self run_id register_as source))
              w1
            ≡ (ok mv, w')
          → registered self run_id register_as (uri self.hf_repo revision) w1 ≡ (ok mv, w')
      sound revision w1 k = elim (Bool-cases (is_empty self.hf_repo || is_empty revision)) [
        | inl e ↦ cc (rw e at k)
        | inr e ↦ rw (e, is_hf_source-uri self.hf_repo revision) at k
      ]

      by_push :
          (r : Result Text × W)
          → pushed path w ≡ r
          → continue r (λ revision.
            hf_source_uri self.hf_repo revision
            >>= (λ source. checked self run_id register_as source))
            ≡ (ok mv, w')
          → (revision : Text) × (w1 : W) × (pushed path w ≡ (ok revision, w1))
            × (registered self run_id register_as (uri self.hf_repo revision) w1 ≡ (ok mv, w'))
            × (mv.source ≡ uri self.hf_repo revision)
            × (is_hf_source mv.source ≡ true)
      by_push (raise e, w1) p k = cc
      by_push (ok revision, w1) p k =
          let q : registered self run_id register_as (uri self.hf_repo revision) w1 ≡ (ok mv, w') =
            sound revision w1 k in
          let s : mv.source ≡ uri self.hf_repo revision =
            registered-source run_id register_as _ w1 w' mv q in
          (revision, w1, p, q, s, ap is_hf_source s ∙ is_hf_source-uri self.hf_repo revision)
