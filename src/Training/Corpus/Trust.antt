-- ===== src/Training/Corpus/Trust.antt =====
-- What a corpus that the loader returns promises.
use mathlib.Core.Path.{subst}
use mathlib.Core.Option.{some-injective}
use atlas_compliance_copilot.Prelude.{
  ℕ, ◌≡◌, ◌≢◌, refl, ap, ◌⊎◌, inl, inr, Bool, true, false, ◌||◌, Option, none, some, List, [], ◌∷◌,
  All, arith,
}
use atlas_compliance_copilot.Text.{Text, codes, text_eq, text_eq→eq, mem_text, strip, after_prefix}
use atlas_compliance_copilot.Training.Corpus.{Value, TrustedDoc, Docs, clearances, insert, keys}
use atlas_compliance_copilot.Training.Corpus.Load.{
  Meta, Loaded, loaded, failed, Yaml, mapping, other, refused, checked, document, layer1_doc,
  layer2_doc, store, fence, some_docs, with_file, with_keys, entry_doc, entries, load_layer1,
  with_meta, with_parts, with_front, file_doc, files, load_layer2, overlap, update, merge,
  with_layers, load_corpus,
}

-- Each document stands under its own identifier.
abbrev pub IsKeyed : Docs → Type 0
IsKeyed docs = All (λ e. e.0 ≡ e.1.doc_id) docs

-- A document is of one of the layers, has a text, and a clearance that there is.
abbrev pub IsCommitted : TrustedDoc → Type 0
IsCommitted d =
    ((d.layer ≡ 1) ⊎ (d.layer ≡ 2)) × (d.text ≢ []) × (mem_text d.clearance clearances ≡ true)

-- No identifier stands twice.
abbrev pub IsDict : Docs → Type 0
IsDict [] = Unit {0}
IsDict ((i, d) ∷ ds) = (mem_text i (keys ds) ≡ false) × IsDict ds

abbrev pub IsSound : Docs → Type 0
IsSound docs = All (λ e. (e.0 ≡ e.1.doc_id) × IsCommitted e.1) docs × IsDict docs

mem-insert :
    (j k : Text) (e : TrustedDoc) (ds : Docs)
    → mem_text j (keys (insert k e ds)) ≡ (text_eq j k || mem_text j (keys ds))
unfolding insert
mem-insert j k e [] = refl
mem-insert j k e ((i, d) ∷ ds) =
    ground
      (arith, mem-insert j k e ds, λ (p : text_eq k i ≡ true). ap (text_eq j) (text_eq→eq k i p))

text_eq_comm : (t u : Text) → text_eq t u ≡ text_eq u t
unfolding text_eq
text_eq_comm [] [] = refl
text_eq_comm [] (d ∷ u) = refl
text_eq_comm (c ∷ t) [] = refl
text_eq_comm (c ∷ t) (d ∷ u) = ground (arith, text_eq_comm t u)

insert-IsDict : (k : Text) (e : TrustedDoc) (ds : Docs) → IsDict ds → IsDict (insert k e ds)
unfolding insert
insert-IsDict k e [] h = (refl, tt)
insert-IsDict k e ((i, d) ∷ ds) h =
    ground (arith, insert-IsDict k e ds h.1, mem-insert i k e ds, text_eq_comm k i)

insert-All :
    (P : Text × TrustedDoc → Type 0) (k : Text) (e : TrustedDoc) (ds : Docs)
    → P (k, e)
    → All P ds
    → All P (insert k e ds)
unfolding insert
insert-All P k e [] p h = (p, tt)
insert-All P k e ((i, d) ∷ ds) p h = ground (
  arith,
  insert-All P k e ds p h.1,
  λ (q : text_eq k i ≡ true). subst (λ t. P (t, e)) (text_eq→eq k i q) p,
)

checked_lem : (o : Option Text) (c : Text) → checked o ≡ some c → mem_text c clearances ≡ true
unfolding checked
checked_lem none c h = cc
checked_lem (some d) c h = ground (arith, h, λ (q : some d ≡ some c). some-injective d c q)

-- What holds of a result where there is one.
abbrev Ensures : {A : Type 0} → (A → Type 0) → Loaded A → Type 0
Ensures P (loaded a) = P a
Ensures P (failed e) = Unit {0}

abbrev IsGood : Docs → Type 0
IsGood docs = IsSound docs × (docs ≢ [])

layer1_doc-Ensures :
    (doc_id path t : Text) (o : Option Text) (rest : List (Text × Value))
    → Ensures IsCommitted (layer1_doc doc_id path t (checked o) rest)
unfolding layer1_doc document
layer1_doc-Ensures doc_id path [] o rest = tt
layer1_doc-Ensures doc_id path (c ∷ t) o rest = by_clearance (checked o) refl
  where
    by_clearance :
        (k : Option Text)
        → checked o ≡ k
        → Ensures IsCommitted (layer1_doc doc_id path (c ∷ t) k rest)
    by_clearance none e = tt
    by_clearance (some s) e = (inl refl, λ q. cc, checked_lem o s e)

layer2_doc-Ensures :
    (doc_id path t : Text) (o : Option Text) (rest : List (Text × Value))
    → Ensures IsCommitted (layer2_doc doc_id path t (checked o) rest)
unfolding layer2_doc document
layer2_doc-Ensures doc_id path t o rest = by_clearance (checked o) t refl
  where
    by_clearance :
        (k : Option Text) (u : Text)
        → checked o ≡ k
        → Ensures IsCommitted (layer2_doc doc_id path u k rest)
    by_clearance none u e = tt
    by_clearance (some s) [] e = tt
    by_clearance (some s) (c ∷ u) e = (inr refl, λ q. cc, checked_lem o s e)

store-Ensures :
    (docs : Docs) (r : Loaded TrustedDoc) (next : Docs → Loaded Docs)
    → Ensures IsCommitted r
    → IsSound docs
    → ((ds : Docs) → IsSound ds → Ensures IsGood (next ds))
    → Ensures IsGood (store docs r next)
unfolding store
store-Ensures docs (failed e) next h s f = tt
store-Ensures docs (loaded d) next h s f = f (insert d.doc_id d docs) (
  insert-All (λ e. (e.0 ≡ e.1.doc_id) × IsCommitted e.1) d.doc_id d docs (refl, h) s.0,
  insert-IsDict d.doc_id d docs s.1,
)

some_docs-Ensures : (docs : Docs) → IsSound docs → Ensures IsGood (some_docs docs)
unfolding some_docs
some_docs-Ensures [] s = tt
some_docs-Ensures (e ∷ es) s = (s, λ q. cc)

update-IsSound : (docs layer2 : Docs) → IsSound docs → IsSound layer2 → IsSound (update docs layer2)
unfolding update
update-IsSound docs [] s t = s
update-IsSound docs ((k, d) ∷ ds) s t =
    update-IsSound (insert k d docs) ds
      (
        insert-All (λ e. (e.0 ≡ e.1.doc_id) × IsCommitted e.1) k d docs t.0.0 s.0,
        insert-IsDict k d docs s.1,
      )
      (t.0.1, t.1.1)

insert_ne : (k : Text) (d : TrustedDoc) (docs : Docs) → insert k d docs ≢ []
unfolding insert
insert_ne k d [] e = cc
insert_ne k d ((i, c) ∷ ds) e = ground (arith, e)

update_ne : (docs layer2 : Docs) → docs ≢ [] → update docs layer2 ≢ []
unfolding update
update_ne docs [] h = h
update_ne docs ((k, d) ∷ ds) h = update_ne (insert k d docs) ds (insert_ne k d docs)

layers :
    (one two : Loaded Docs)
    → Ensures IsGood one
    → Ensures IsGood two
    → Ensures IsGood (with_layers one two)
unfolding with_layers merge
layers (failed e) two h k = tt
layers (loaded docs) (failed e) h k = tt
layers (loaded docs) (loaded layer2) h k = by_overlap (overlap docs (keys layer2))
  where
    by_overlap : (o : List Text) → Ensures IsGood (merge docs layer2 o)
    by_overlap [] = (update-IsSound docs layer2 h.0 k.0, update_ne docs layer2 h.1)
    by_overlap (i ∷ is) = tt

module _ (blank : ℕ → Bool) where
  entry_doc-Ensures :
      (read : Text → Option Text) (m : Meta) → Ensures IsCommitted (entry_doc blank read m)
  unfolding entry_doc with_keys with_file
  entry_doc-Ensures read m = by_keys m.doc_id m.file
    where
      by_file : (i p : Text) (o : Option Text) → Ensures IsCommitted (with_file blank m i p o)
      by_file i p none = tt
      by_file i p (some raw) = layer1_doc-Ensures i p (strip blank raw) m.clearance m.rest

      by_keys : (i p : Option Text) → Ensures IsCommitted (with_keys blank read m i p)
      by_keys none p = tt
      by_keys (some i) none = tt
      by_keys (some i) (some p) = by_file i p (read p)

  entries-Ensures :
      (read : Text → Option Text) (ms : List Meta) (docs : Docs)
      → IsSound docs
      → Ensures IsGood (entries blank read ms docs)
  unfolding entries
  entries-Ensures read [] docs s = some_docs-Ensures docs s
  entries-Ensures read (m ∷ ms) docs s =
      store-Ensures docs (entry_doc blank read m) (entries blank read ms) (entry_doc-Ensures read m)
        s (entries-Ensures read ms)

  file_doc-Ensures :
      (yaml : Text → Yaml) (stem raw : Text) → Ensures IsCommitted (file_doc blank yaml stem raw)
  unfolding file_doc with_front with_parts with_meta
  file_doc-Ensures yaml stem raw = by_front (after_prefix (codes "---") raw)
    where
      by_meta : (body : Text) (y : Yaml) → Ensures IsCommitted (with_meta blank stem body y)
      by_meta body (mapping m) = layer2_doc-Ensures _ stem _ m.clearance m.rest
      by_meta body other = tt
      by_meta body refused = tt

      by_parts : (o : Option (Text × Text)) → Ensures IsCommitted (with_parts blank yaml stem o)
      by_parts none = tt
      by_parts (some (block, body)) = by_meta body (yaml block)

      by_front : (o : Option Text) → Ensures IsCommitted (with_front blank yaml stem o)
      by_front none = tt
      by_front (some rest) = by_parts (fence rest)

  files-Ensures :
      (yaml : Text → Yaml) (mds : List (Text × Text)) (docs : Docs)
      → IsSound docs
      → Ensures IsGood (files blank yaml mds docs)
  unfolding files
  files-Ensures yaml [] docs s = some_docs-Ensures docs s
  files-Ensures yaml ((stem, raw) ∷ mds) docs s =
      store-Ensures docs (file_doc blank yaml stem raw) (files blank yaml mds)
        (file_doc-Ensures yaml stem raw) s (files-Ensures yaml mds)

  -- Where the loader returns a corpus, it has a document, no identifier stands twice in it, and each
  -- document stands under its own identifier, is of one of the two layers, and has a text and one of
  -- the four clearances.
  pub load_corpus-IsSound :
      (is_dir : Bool) (manifest : Option (List Meta)) (read : Text → Option Text)
      (mds : Option (List (Text × Text))) (yaml : Text → Yaml) (docs : Docs)
      → load_corpus blank is_dir manifest read mds yaml ≡ loaded docs
      → IsSound docs × (docs ≢ [])
  unfolding load_corpus load_layer1 load_layer2
  load_corpus-IsSound false manifest read mds yaml docs h = cc
  load_corpus-IsSound true manifest read mds yaml docs h = subst (Ensures IsGood) h (
      layers (load_layer1 blank manifest read) (load_layer2 blank mds yaml) (first manifest)
        (second mds))
    where
      first : (m : Option (List Meta)) → Ensures IsGood (load_layer1 blank m read)
      first none = tt
      first (some ms) = entries-Ensures read ms [] (tt, tt)

      second : (m : Option (List (Text × Text))) → Ensures IsGood (load_layer2 blank m yaml)
      second none = tt
      second (some ms) = files-Ensures yaml ms [] (tt, tt)
