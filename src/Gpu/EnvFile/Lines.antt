-- ===== src/Gpu/EnvFile/Lines.antt =====
-- The lines of an env file before and after write_env.
use atlas_compliance_copilot.Prelude.{
  ℕ, ◌≡◌, refl, ap, ◌∙◌, Bool, true, false, List, [], ◌∷◌, ◌++◌, map, arith, if◌then◌else◌, ◌==◌,
  sym, leb, replicate, max, any, length,
}
use atlas_compliance_copilot.Gpu.EnvFile.{
  Line, starts_with, lstrip, assigns, assignment, sets_key, write_line, write_env,
}

-- A variable's name is a name: its first character is neither blank nor a comment's.
abbrev pub IsName : (ℕ → Bool) → Line → Type 0
IsName blank [] = ⊥
IsName blank (c ∷ cs) = (blank c ≡ false) × ((b'#' == c) ≡ false)

append_nil : (ls : List Line) → ls ++ [] ≡ ls
append_nil [] = refl
append_nil (l ∷ ls) = rw (append_nil ls)

starts_with-append : (p rest : Line) → starts_with p (p ++ rest) ≡ true
unfolding starts_with
starts_with-append [] rest = refl
starts_with-append (c ∷ p) rest = ground (arith, starts_with-append p rest)

starts_with-assignment :
    (key value : Line) → starts_with (assigns key) (assignment key value) ≡ true
unfolding starts_with
starts_with-assignment [] value = refl
starts_with-assignment (c ∷ p) value = ground (arith, starts_with-assignment p value)

sets_key-assignment :
    (blank : ℕ → Bool) (key value : Line)
    → IsName blank key
    → sets_key blank key (assignment key value) ≡ true
unfolding sets_key lstrip starts_with
sets_key-assignment blank [] value h = absurd h
sets_key-assignment blank (c ∷ cs) value h =
    ground (arith, h, starts_with-assignment (c ∷ cs) value)

module _ (blank : ℕ → Bool) (key : Line) where
  -- The lines that do not set the key, in order, and those that do.
  pub others : List Line → List Line
  others [] = []
  others (line ∷ lines) =
      let rest = others lines in if sets_key blank key line then rest else line ∷ rest

  pub settings : List Line → List Line
  settings [] = []
  settings (line ∷ lines) =
      let rest = settings lines in if sets_key blank key line then line ∷ rest else rest

  others-append : (xs ys : List Line) → others (xs ++ ys) ≡ others xs ++ others ys
  unfolding others
  others-append [] ys = refl
  others-append (x ∷ xs) ys = ground (arith, others-append xs ys)

  settings-append : (xs ys : List Line) → settings (xs ++ ys) ≡ settings xs ++ settings ys
  unfolding settings
  settings-append [] ys = refl
  settings-append (x ∷ xs) ys = ground (arith, settings-append xs ys)

  module _ (value : Line) (h : IsName blank key) where
    sets_key-write_line :
        (line : Line)
        → sets_key blank key (write_line blank key value line) ≡ sets_key blank key line
    unfolding write_line
    sets_key-write_line line = ground (arith, sets_key-assignment blank key value h)

    write_line-write_line :
        (v line : Line)
        → write_line blank key v (write_line blank key value line) ≡ write_line blank key v line
    unfolding write_line
    write_line-write_line v line = ground (arith, sets_key-assignment blank key value h)

    any-map :
        (lines : List Line)
        → any (sets_key blank key) (map (write_line blank key value) lines)
          ≡ any (sets_key blank key) lines
    any-map [] = refl
    any-map (l ∷ ls) = rw (sets_key-write_line l, any-map ls)

    others-map :
        (lines : List Line) → others (map (write_line blank key value) lines) ≡ others lines
    unfolding others write_line
    others-map [] = refl
    others-map (l ∷ ls) = ground (arith, sets_key-assignment blank key value h, others-map ls)

    settings-map :
        (lines : List Line)
        → settings (map (write_line blank key value) lines)
          ≡ map (λ _. assignment key value) (settings lines)
    unfolding settings write_line
    settings-map [] = refl
    settings-map (l ∷ ls) = ground (arith, sets_key-assignment blank key value h, settings-map ls)

    -- The file once it holds the key, and before.
    write_env_held :
        (v : Line) (lines : List Line)
        → any (sets_key blank key) lines ≡ true
        → write_env blank key v lines ≡ map (write_line blank key v) lines
    unfolding write_env
    write_env_held v lines e = simp e (append_nil (map (write_line blank key v) lines))

    map_unheld :
        (v : Line) (lines : List Line)
        → any (sets_key blank key) lines ≡ false
        → map (write_line blank key v) lines ≡ lines
    unfolding write_line
    map_unheld v [] e = refl
    map_unheld v (l ∷ ls) e = ground (arith, map_unheld v ls)

    write_env_unheld :
        (v : Line) (lines : List Line)
        → any (sets_key blank key) lines ≡ false
        → write_env blank key v lines ≡ lines ++ assignment key v ∷ []
    unfolding write_env
    write_env_unheld v lines e =
        simp e (ap (λ ls. ls ++ assignment key v ∷ []) (map_unheld v lines e))

    any_added :
        (lines : List Line) → any (sets_key blank key) (lines ++ assignment key value ∷ []) ≡ true
    any_added [] = rw (sets_key-assignment blank key value h)
    any_added (l ∷ ls) = ground (arith, any_added ls)

    others_unheld :
        (lines : List Line) → any (sets_key blank key) lines ≡ false → others lines ≡ lines
    unfolding others
    others_unheld [] e = refl
    others_unheld (l ∷ ls) e = ground (arith, others_unheld ls)

    any-settings :
        (lines : List Line) → any (sets_key blank key) lines ≡ leb 1 (length (settings lines))
    unfolding settings
    any-settings [] = refl
    any-settings (l ∷ ls) = ground (arith, any-settings ls)

    settings_unheld :
        (lines : List Line) → any (sets_key blank key) lines ≡ false → settings lines ≡ []
    unfolding settings
    settings_unheld [] e = refl
    settings_unheld (l ∷ ls) e = ground (arith, settings_unheld ls)

    others_added : others (assignment key value ∷ []) ≡ []
    unfolding others
    others_added = rw (sets_key-assignment blank key value h)

    settings_added : settings (assignment key value ∷ []) ≡ assignment key value ∷ []
    unfolding settings
    settings_added = rw (sets_key-assignment blank key value h)

    map_const :
        (ls : List Line)
        → map (λ _. assignment key value) ls ≡ replicate (length ls) (assignment key value)
    map_const [] = refl
    map_const (l ∷ ls) = rw (map_const ls)

    map_twice :
        (v : Line) (lines : List Line)
        → map (write_line blank key v) (map (write_line blank key value) lines)
          ≡ map (write_line blank key v) lines
    map_twice v [] = refl
    map_twice v (l ∷ ls) = rw (write_line-write_line v l, map_twice v ls)

    map_added :
        (v : Line) (lines : List Line)
        → any (sets_key blank key) lines ≡ false
        → map (write_line blank key v) (lines ++ assignment key value ∷ [])
          ≡ lines ++ assignment key v ∷ []
    unfolding write_line
    map_added v [] e = rw (sets_key-assignment blank key value h)
    map_added v (l ∷ ls) e = ground (arith, map_added v ls)

    -- Every other line stays, in its order.
    others-write_env : (lines : List Line) → others (write_env blank key value lines) ≡ others lines
    others-write_env lines = split (any (sets_key blank key) lines) refl
      where
        split :
            (b : Bool)
            → any (sets_key blank key) lines ≡ b
            → others (write_env blank key value lines) ≡ others lines
        split true e = ap others (write_env_held value lines e) ∙ others-map lines
        split false e =
            ap others (write_env_unheld value lines e)
            ∙ others-append lines (assignment key value ∷ [])
            ∙ ap (λ ls. others lines ++ ls) others_added
            ∙ append_nil (others lines)

    -- The lines that set the key all set it to the value, in as many lines as before, or one.
    settings-write_env :
        (lines : List Line)
        → settings (write_env blank key value lines)
          ≡ replicate (max 1 (length (settings lines))) (assignment key value)
    settings-write_env lines = split (any (sets_key blank key) lines) refl
      where
        split :
            (b : Bool)
            → any (sets_key blank key) lines ≡ b
            → settings (write_env blank key value lines)
              ≡ replicate (max 1 (length (settings lines))) (assignment key value)
        split true e =
            ap settings (write_env_held value lines e)
            ∙ settings-map lines
            ∙ map_const (settings lines)
            ∙ ap (λ n. replicate n (assignment key value)) (ground (arith, any-settings lines, e))
        split false e =
            ap settings (write_env_unheld value lines e)
            ∙ settings-append lines (assignment key value ∷ [])
            ∙ ap (λ ls. ls ++ settings (assignment key value ∷ [])) (settings_unheld lines e)
            ∙ settings_added
            ∙ ap (λ ls. replicate (max 1 (length ls)) (assignment key value))
                (sym (settings_unheld lines e))

    -- For a key whose first character is neither blank nor '#', the last of two writes wins: the
    -- file is as if the first had not been.
    pub write_env-write_env :
        (v : Line) (lines : List Line)
        → write_env blank key v (write_env blank key value lines) ≡ write_env blank key v lines
    write_env-write_env v lines = split (any (sets_key blank key) lines) refl
      where
        split :
            (b : Bool)
            → any (sets_key blank key) lines ≡ b
            → write_env blank key v (write_env blank key value lines) ≡ write_env blank key v lines
        split true e =
            ap (write_env blank key v) (write_env_held value lines e)
            ∙ write_env_held v (map (write_line blank key value) lines) (any-map lines ∙ e)
            ∙ map_twice v lines
            ∙ sym (write_env_held v lines e)
        split false e =
            ap (write_env blank key v) (write_env_unheld value lines e)
            ∙ write_env_held v (lines ++ assignment key value ∷ []) (any_added lines)
            ∙ map_added v lines e
            ∙ sym (write_env_unheld v lines e)

    -- For a key whose first character is neither blank nor '#': the lines that do not set it stay,
    -- in their order, and those that set it afterwards are as many as before, or one where there
    -- was none, each of them the assignment of the value.
    pub write_env-others-settings :
        (lines : List Line)
        → (others (write_env blank key value lines) ≡ others lines)
          × (settings (write_env blank key value lines)
              ≡ replicate (max 1 (length (settings lines))) (assignment key value))
    write_env-others-settings lines = (others-write_env lines, settings-write_env lines)
