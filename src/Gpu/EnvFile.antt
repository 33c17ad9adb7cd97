-- ===== src/Gpu/EnvFile.antt =====
-- write_env of bootstrap.py, over the lines of the file. `blank` is the set of code points that
-- str.lstrip removes.
pub mod Lines
use atlas_compliance_copilot.Prelude.{
  ℕ, ◌≡◌, refl, ap, ◌∙◌, Bool, true, false, not, ◌&&◌, List, [], ◌∷◌, ◌++◌, map, arith,
  if◌then◌else◌, ◌==◌, sym, leb, replicate, max, any, length,
}

abbrev pub Line : Type 0
Line = List ℕ

starts_with : Line → Line → Bool
starts_with [] line = true
starts_with (p ∷ ps) [] = false
starts_with (p ∷ ps) (c ∷ cs) = p == c && starts_with ps cs

lstrip : (ℕ → Bool) → Line → Line
lstrip blank [] = []
lstrip blank (c ∷ cs) = let rest = lstrip blank cs in if blank c then rest else c ∷ cs

-- f"{key}=" and f"{key}={value}"
abbrev pub assigns : Line → Line
assigns key = key ++ b'=' ∷ []

abbrev pub assignment : Line → Line → Line
assignment key value = key ++ b'=' ∷ value

module _ (blank : ℕ → Bool) (key : Line) where
  -- line.startswith(f"{key}=") and not line.lstrip().startswith("#")
  unfoldable pub sets_key : Line → Bool
  unfolding starts_with lstrip
  sets_key line =
      starts_with (assigns key) line && not (starts_with (b'#' ∷ []) (lstrip blank line))

  write_line : Line → Line → Line
  unfolding sets_key
  write_line value line = if sets_key line then assignment key value else line

  -- A missing file has no lines.
  unfoldable pub write_env : Line → List Line → List Line
  unfolding write_line sets_key
  write_env value lines =
      map (write_line value) lines ++ (if any sets_key lines then [] else assignment key value ∷ [])
