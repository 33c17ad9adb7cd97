-- ===== src/Training/Aliases.antt =====
-- promote and rollback of tracking.py. The registry is MLflow's: reading and setting a model's
-- alias, over a world that holds it.
use atlas_compliance_copilot.Prelude.{
  ◌≡◌, refl, sym, ap, ◌∙◌, String, Bool, false, not, Option, none, some, str_eq, if◌then◌else◌,
}
use atlas_compliance_copilot.Exec.{exception, Result, ok, raise}

pub record Registry (W : Type 0) : Type 0 where
  pub get_version_by_alias : String → String → W → Option String
  pub set_alias : String → String → String → W → W

-- An alias that was set is read back, and the others stay.
pub record IsLawful {W : Type 0} (S : Registry W) : Type 0 where
  pub get-set_self :
      (name alias version : String) (w : W)
      → S.get_version_by_alias name alias (S.set_alias name alias version w) ≡ some version
  pub get-set_ne :
      (name alias other version : String) (w : W)
      → str_eq alias other ≡ false
      → S.get_version_by_alias name other (S.set_alias name alias version w)
        ≡ S.get_version_by_alias name other w

pub record PromotionOutcome : Type 0 where
  pub name : String
  pub champion : String
  pub previous : Option String
  pub action : String

abbrev champion_alias : String
champion_alias = "champion"

abbrev previous_alias : String
previous_alias = "previous_champion"

module _ {W : Type 0} (S : Registry W) where
  is_version : Option String → String → Bool
  is_version none version = false
  is_version (some current) version = str_eq current version

  stash : String → Option String → W → W
  stash name none w = w
  stash name (some current) w = S.set_alias name previous_alias current w

  promoted_over : String → String → Option String → W → PromotionOutcome × W
  unfolding is_version stash
  promoted_over name version current w =
      if is_version current version
      then (record { name = name; champion = version; previous = none; action = "noop" }, w)
      else (
        record { name = name; champion = version; previous = current; action = "promote" },
        S.set_alias name champion_alias version (stash name current w),
      )

  unfoldable pub promote : String → String → W → PromotionOutcome × W
  unfolding promoted_over
  promote name version w =
      promoted_over name version (S.get_version_by_alias name champion_alias w) w

  swap : String → String → Option String → W → W
  swap name prev none w = w
  swap name prev (some current) w =
      if not (str_eq current prev) then S.set_alias name previous_alias current w else w

  rolled_back : String → Option String → Option String → W → Result PromotionOutcome × W
  unfolding swap
  rolled_back name none current w =
      (raise (exception "cannot roll back: nothing was promoted over"), w)
  rolled_back name (some prev) current w = (
    ok (record { name = name; champion = prev; previous = current; action = "rollback" }),
    swap name prev current (S.set_alias name champion_alias prev w),
  )

  unfoldable pub rollback : String → W → Result PromotionOutcome × W
  unfolding rolled_back
  rollback name w =
      rolled_back name (S.get_version_by_alias name previous_alias w)
        (S.get_version_by_alias name champion_alias w) w

  -- Both aliases of a model.
  unfoldable pub aliases : String → W → Option String × Option String
  aliases name w =
      (S.get_version_by_alias name champion_alias w, S.get_version_by_alias name previous_alias w)

  module _ (laws : IsLawful S) (name : String) where
    set_champion :
        (version : String) (w : W)
        → aliases name (S.set_alias name champion_alias version w)
          ≡ (some version, (aliases name w).1)
    unfolding aliases
    set_champion version w = rw (
      laws.get-set_self name champion_alias version w,
      laws.get-set_ne name champion_alias previous_alias version w refl,
    )

    set_previous :
        (version : String) (w : W)
        → aliases name (S.set_alias name previous_alias version w)
          ≡ ((aliases name w).0, some version)
    unfolding aliases
    set_previous version w = rw (
      laws.get-set_self name previous_alias version w,
      laws.get-set_ne name previous_alias champion_alias version w refl,
    )

    promote_world :
        (version current : String) (w : W)
        → S.get_version_by_alias name champion_alias w ≡ some current
        → str_eq current version ≡ false
        → (promote name version w).1
          ≡ S.set_alias name champion_alias version (S.set_alias name previous_alias current w)
    unfolding promote promoted_over is_version stash
    promote_world version current w h d = rw (h, d)

    rollback_world :
        (current prev : String) (w : W)
        → S.get_version_by_alias name champion_alias w ≡ some current
        → S.get_version_by_alias name previous_alias w ≡ some prev
        → str_eq current prev ≡ false
        → (rollback name w).1
          ≡ S.set_alias name previous_alias current (S.set_alias name champion_alias prev w)
    unfolding rollback rolled_back swap
    rollback_world current prev w h k d = rw (h, k, d)

    -- A promotion over another version makes that the rollback's target.
    promote-aliases :
        (version current : String) (w : W)
        → (aliases name w).0 ≡ some current
        → str_eq current version ≡ false
        → aliases name (promote name version w).1 ≡ (some version, some current)
    unfolding aliases
    promote-aliases version current w h d =
        ap (aliases name) (promote_world version current w h d)
        ∙ set_champion version (S.set_alias name previous_alias current w)
        ∙ ap (λ p. (some version, p.1)) (set_previous current w)

    -- A rollback swaps the two aliases.
    rollback-aliases :
        (current prev : String) (w : W)
        → aliases name w ≡ (some current, some prev)
        → str_eq current prev ≡ false
        → aliases name (rollback name w).1 ≡ (some prev, some current)
    unfolding aliases
    rollback-aliases current prev w h d =
        ap (aliases name) (rollback_world current prev w (ap (λ p. p.0) h) (ap (λ p. p.1) h) d)
        ∙ set_previous current (S.set_alias name champion_alias prev w)
        ∙ ap (λ p. (p.0, some current)) (set_champion prev w)

    -- A rollback right behind a promotion over another champion gives that champion back, and
    -- keeps the version that was promoted as the next rollback's target.
    pub rollback-promote :
        (version current : String) (w : W)
        → (aliases name w).0 ≡ some current
        → str_eq current version ≡ false
        → str_eq version current ≡ false
        → aliases name (rollback name (promote name version w).1).1 ≡ (some current, some version)
    rollback-promote version current w h d d' =
        rollback-aliases version current (promote name version w).1
          (promote-aliases version current w h d) d'

    -- Where both aliases are set, to different versions, two rollbacks undo each other.
    pub rollback-rollback :
        (current prev : String) (w : W)
        → aliases name w ≡ (some current, some prev)
        → str_eq current prev ≡ false
        → str_eq prev current ≡ false
        → aliases name (rollback name (rollback name w).1).1 ≡ aliases name w
    rollback-rollback current prev w h d d' =
        rollback-aliases prev current (rollback name w).1 (rollback-aliases current prev w h d) d'
        ∙ sym h
