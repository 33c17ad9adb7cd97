-- ===== src/Training/Split.antt =====
-- planned_split of synth.py and split_dataset of builder.py. `fifth` is round(n * 0.2), and
-- `shuffle` what random.Random(seed).shuffle makes of a list; seeds are taken to be at least 0.
use mathlib.Core.List.{Perm}
use mathlib.Core.List.Perm
use atlas_compliance_copilot.Prelude.{
  ℕ, true, false, ◌+◌, ◌-◌, ◌≤◌, ◌≡◌, max, min, String, Bool, not, ◌||◌, Option, none, some, List,
  [], ◌∷◌, ◌++◌, str_eq, ◌==◌, if◌then◌else◌, arith, ltb, length, take, drop,
}
use atlas_compliance_copilot.Text.{Text, codes, text_eq}
use atlas_compliance_copilot.Training.Pair.{SyntheticPair}

abbrev val_size : ℕ → ℕ → ℕ
val_size n val = if ltb 1 n then min val (n - 1) else 0

-- The sizes of the training and the validation part.
unfoldable pub planned_split : (ℕ → ℕ) → ℕ → ℕ × ℕ
planned_split fifth n =
    if n == 0 then (0, 0) else (n - val_size n (max 1 (fifth n)), val_size n (max 1 (fifth n)))

-- The two parts make up the whole, and neither is empty once there are two pairs.
pub planned_split-sum :
    (fifth : ℕ → ℕ) (n : ℕ)
    → ((planned_split fifth n).0 + (planned_split fifth n).1 ≡ n)
      × (min 1 (n - 1) ≤ (planned_split fifth n).1)
      × (min 1 n ≤ (planned_split fifth n).0)
unfolding planned_split
planned_split-sum fifth n = ground arith

pub record Message : Type 0 where
  pub role : String
  pub content : Text

pub record SftExample : Type 0 where
  pub messages : List Message
  pub label : String
  pub provenance_ref : Text

is_valid : String → Bool
is_valid label = str_eq label "answer" || str_eq label "refusal"

-- none is the ValueError of an unknown label.
unfoldable pub to_example : Text → SyntheticPair → Option SftExample
unfolding is_valid
to_example system pair =
    if not (is_valid pair.label)
    then none
    else some (record {
      messages =
          record { role = "system"; content = system }
          ∷ record { role = "user"; content = pair.question ++ codes "\n\n" ++ pair.context }
          ∷ record { role = "assistant"; content = pair.answer }
          ∷ [];
      label = pair.label;
      provenance_ref = pair.provenance_ref;
    })

also : Option SftExample → Option (List SftExample) → Option (List SftExample)
also none o = none
also (some e) none = none
also (some e) (some es) = some (e ∷ es)

unfoldable pub to_examples : Text → List SyntheticPair → Option (List SftExample)
unfolding also to_example
to_examples system [] = some []
to_examples system (p ∷ ps) = also (to_example system p) (to_examples system ps)

both :
    Option (List SftExample) → Option (List SftExample) → Option (List SftExample × List SftExample)
both none o = none
both (some t) none = none
both (some t) (some v) = some (t, v)

-- The order of Python's texts, by code points.
text_leb : Text → Text → Bool
text_leb [] u = true
text_leb (c ∷ t) [] = false
text_leb (c ∷ t) (d ∷ u) = let rest = text_leb t u in if c == d then rest else ltb c d

-- _stable_key(p) <= _stable_key(q)
key_leb : SyntheticPair → SyntheticPair → Bool
unfolding text_leb
key_leb p q =
    if text_eq p.provenance_ref q.provenance_ref
    then text_leb p.question q.question
    else text_leb p.provenance_ref q.provenance_ref

-- sorted(pairs, key=_stable_key): a stable sort.
insert : SyntheticPair → List SyntheticPair → List SyntheticPair
unfolding key_leb
insert p [] = p ∷ []
insert p (q ∷ qs) = let rest = insert p qs in if key_leb p q then p ∷ q ∷ qs else q ∷ rest

unfoldable pub sorted : List SyntheticPair → List SyntheticPair
unfolding insert
sorted [] = []
sorted (p ∷ ps) = insert p (sorted ps)

split_at : Text → ℕ → List SyntheticPair → Option (List SftExample × List SftExample)
unfolding both to_examples
split_at system n_val ordered =
    both (to_examples system (drop n_val ordered)) (to_examples system (take n_val ordered))

abbrev pub Shuffle : Type 0
Shuffle = ℕ → List SyntheticPair → List SyntheticPair

-- random.shuffle permutes the list in place.
pub record IsShuffle (shuffle : Shuffle) : Type 0 where
  pub permutes : (seed : ℕ) (ps : List SyntheticPair) → Perm (shuffle seed ps) ps

unfoldable pub split_dataset :
    (ℕ → ℕ) → Shuffle → Text → List SyntheticPair → ℕ → Option (List SftExample × List SftExample)
unfolding split_at planned_split sorted
split_dataset fifth shuffle system pairs seed =
    split_at system (planned_split fifth (length (shuffle seed (sorted pairs)))).1
      (shuffle seed (sorted pairs))
