-- ===== src/Regex.antt =====
-- The part of Python's re that the refusal cues use: whether a pattern matches somewhere. A search
-- for a Boolean answer does not depend on the order of the alternatives, so that a pattern is the
-- list of the cursors at which a match from a cursor may end.
use atlas_compliance_copilot.Prelude.{
  ℕ, zero, suc, String, Bool, true, false, not, Option, none, some, List, [], ◌∷◌, ◌++◌, ◌==◌,
  if◌then◌else◌, length,
}
use atlas_compliance_copilot.Text.{Text, codes}

pub data Pattern : Type 0 where
  nothing : Pattern
  -- one character, in either case
  char : ℕ → Pattern
  -- \s
  space : Pattern
  -- \b
  boundary : Pattern
  then_ : Pattern → Pattern → Pattern
  either : Pattern → Pattern → Pattern
  many : Pattern → Pattern

-- What re takes for a white space, a word character and the same letter in the other case.
pub record Classes : Type 0 where
  pub is_space : ℕ → Bool
  pub is_word : ℕ → Bool
  pub fold : ℕ → ℕ

-- The character before, and the text from here on.
abbrev pub Cursor : Type 0
Cursor = Option ℕ × Text

abbrev concat_map : (Cursor → List Cursor) → List Cursor → List Cursor
concat_map f [] = []
concat_map f (c ∷ cs) = f c ++ concat_map f cs

module _ (C : Classes) where
  word_before : Option ℕ → Bool
  word_before none = false
  word_before (some c) = C.is_word c

  word_after : Text → Bool
  word_after [] = false
  word_after (c ∷ t) = C.is_word c

  at_boundary : Cursor → Bool
  unfolding word_before word_after
  at_boundary (prev, t) = if word_before prev then not (word_after t) else word_after t

  step : (ℕ → Bool) → Cursor → List Cursor
  step p (prev, []) = []
  step p (prev, c ∷ t) = if p c then (some c, t) ∷ [] else []

  -- Any number of rounds, up to the fuel: a round of the patterns in use takes at least one
  -- character, so that the length of the text is enough.
  repeated : (Cursor → List Cursor) → ℕ → Cursor → List Cursor
  repeated f zero c = c ∷ []
  repeated f (suc fuel) c = c ∷ concat_map (repeated f fuel) (f c)

  unfoldable pub ends : Pattern → Cursor → List Cursor
  unfolding step repeated at_boundary
  ends nothing c = c ∷ []
  ends (char p) c = step (λ d. C.fold d == C.fold p) c
  ends space c = step C.is_space c
  ends boundary c = if at_boundary c then c ∷ [] else []
  ends (then_ p q) c = concat_map (ends q) (ends p c)
  ends (either p q) c = ends p c ++ ends q c
  ends (many p) c = repeated (ends p) (length c.1) c

  matches : List Cursor → Bool
  matches [] = false
  matches (c ∷ cs) = true

  search_from : Pattern → Option ℕ → Text → Bool
  unfolding ends matches
  search_from p prev [] = matches (ends p (prev, []))
  search_from p prev (c ∷ t) =
      let rest = search_from p (some c) t in if matches (ends p (prev, c ∷ t)) then true else rest

  unfoldable pub search : Pattern → Text → Bool
  unfolding search_from
  search p t = search_from p none t

-- A literal, and the composed forms.
abbrev pub literal : Text → Pattern
literal [] = nothing
literal (c ∷ t) = then_ (char c) (literal t)

abbrev pub word : String → Pattern
word s = literal (codes s)

abbrev pub optional : Pattern → Pattern
optional p = either p nothing

-- \s+
abbrev pub spaces : Pattern
spaces = then_ space (many space)
