-- ===== src/Training/Corpus.antt =====
-- training/atlas_training/data/corpus.py: the committed documents and their lookup. A dict is the
-- list of its entries in the order of their first insertion.
pub mod Load
pub mod Trust
use mathlib.Core.Option.{some-injective}
use atlas_compliance_copilot.Prelude.{
  ℕ, ◌≡◌, refl, sym, ap, ◌∙◌, Bool, true, false, not, ◌&&◌, Option, none, some, List, [], ◌∷◌,
  arith, ◌==◌, if◌then◌else◌, Bool-cases, inl, inr,
}
use atlas_compliance_copilot.Text.{Text, codes, text_eq, text_eq→eq, text_eq_refl, mem_text}

-- The values that stand in the metadata, which no code here looks into.
pub data Value : Type 0 where
  null : Value
  text : Text → Value
  other : ℕ → Value

pub record TrustedDoc : Type 0 where
  pub doc_id : Text
  pub layer : ℕ
  pub clearance : Text
  pub text : Text
  pub source : Text
  pub metadata : List (Text × Value)

abbrev pub Docs : Type 0
Docs = List (Text × TrustedDoc)

abbrev pub clearances : List Text
clearances = codes "public" ∷ codes "analyst" ∷ codes "compliance" ∷ codes "restricted" ∷ []

-- docs.get(doc_id)
unfoldable pub get : Text → Docs → Option TrustedDoc
get k [] = none
get k ((i, d) ∷ ds) = if text_eq k i then some d else get k ds

-- docs[doc_id] = doc
unfoldable pub insert : Text → TrustedDoc → Docs → Docs
insert k e [] = (k, e) ∷ []
insert k e ((i, d) ∷ ds) =
    let rest = insert k e ds in if text_eq k i then (i, e) ∷ ds else (i, d) ∷ rest

unfoldable pub values : Docs → List TrustedDoc
values [] = []
values ((i, d) ∷ ds) = d ∷ values ds

abbrev pub keys : Docs → List Text
keys [] = []
keys ((i, d) ∷ ds) = i ∷ keys ds

-- resolve, where none is the CorpusError
unfoldable pub resolve : Docs → Text → Option TrustedDoc
unfolding get
resolve docs doc_id = get doc_id docs

unfoldable pub by_layer : ℕ → List TrustedDoc → List TrustedDoc
by_layer n [] = []
by_layer n (d ∷ ds) = let rest = by_layer n ds in if d.layer == n then d ∷ rest else rest

-- What is found stands in the dict under an equal key.
pub get-insert :
    (k j : Text) (e : TrustedDoc) (ds : Docs)
    → get j (insert k e ds) ≡ (if text_eq j k then some e else get j ds)
unfolding get insert
get-insert k j e [] = refl
get-insert k j e ((i, d) ∷ ds) = ground (
  arith,
  get-insert k j e ds,
  text_eq→eq k i,
  text_eq→eq j i,
  text_eq→eq j k,
  text_eq_refl j,
  text_eq_refl k,
)
