-- ===== src/Training/Tests.antt =====
-- A registry in a table of aliases, and a split of five pairs.
use text.Mathlib.TextEquality.{eq_iff}
use mathlib.Core.List.{Perm}
use mathlib.Core.List.Perm
use atlas_compliance_copilot.Prelude.{
  ◌≡◌, refl, String, true, Option, none, some, List, [], ◌∷◌, str_eq, if◌then◌else◌,
}
use atlas_compliance_copilot.Training.Aliases.{
  Registry, IsLawful, aliases, promote, rollback, rollback-promote,
}
use atlas_compliance_copilot.Training.Split.{Shuffle, SftExample, to_example}
use atlas_compliance_copilot.Text.{codes}
use atlas_compliance_copilot.Training.Pair.{SyntheticPair}

-- The aliases of the one model that there is.
abbrev Table : Type 0
Table = String → Option String

abbrev table : Registry Table
table = record {
  get_version_by_alias = λ name alias t. t alias;
  set_alias = λ name alias version t a. if str_eq alias a then some version else t a;
}

same_text : (a : String) → str_eq a a ≡ true
same_text a = (eq_iff a a).1 refl

table-IsLawful : IsLawful table
table-IsLawful = record {
  get-set_self = λ name alias version t. rw (same_text alias);
  get-set_ne = λ name alias other version t d. rw d;
}

abbrev one_champion : Table
one_champion a = if str_eq a "champion" then some "1" else none

rollback-promote_example :
    aliases table "m" (rollback table "m" (promote table "m" "2" one_champion).1).1
    ≡ (some "1", some "2")
unfolding aliases
rollback-promote_example =
    rollback-promote table table-IsLawful "m" "2" "1" one_champion champion refl refl
  where
    champion : (aliases table "m" one_champion).0 ≡ some "1"
    champion = refl

abbrev pair : String → SyntheticPair
pair question = record {
  question = codes question;
  context = codes "c";
  answer = codes "a";
  label = "answer";
  provenance_ref = codes "p";
  generator = "g";
}

three_pairs : List SyntheticPair
three_pairs = pair "q3" ∷ pair "q1" ∷ pair "q2" ∷ []

examples : List String → List SftExample
examples [] = []
examples (q ∷ qs) = one (to_example (codes "s") (pair q)) (examples qs)
  where
    one : Option SftExample → List SftExample → List SftExample
    one none es = es
    one (some e) es = e ∷ es

-- A generator that exchanges the first two.
abbrev exchange : Shuffle
exchange seed [] = []
exchange seed (p ∷ []) = p ∷ []
exchange seed (p ∷ q ∷ ps) = q ∷ p ∷ ps
