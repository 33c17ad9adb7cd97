-- ===== src/Training/Corpus/Load.antt =====
-- The loading of training/atlas_training/data/corpus.py. The files are parameters: `read` is what
-- stands in a file of the first layer, none where there is no such file, and the second layer is
-- the list of its Markdown files in the order of their names. The decoders of JSON and YAML are
-- parameters too; the identifiers are texts.
use atlas_compliance_copilot.Prelude.{
  ℕ, Bool, Option, none, some, List, [], ◌∷◌, ◌++◌, ◌==◌, if◌then◌else◌,
}
use atlas_compliance_copilot.Text.{Text, codes, mem_text, strip, lstrip, after_prefix}
use atlas_compliance_copilot.Training.Corpus.{Value, TrustedDoc, Docs, clearances, insert, keys}

-- What an entry of the manifest, or the front matter of a document, says.
pub record Meta : Type 0 where
  pub doc_id : Option Text
  pub file : Option Text
  pub clearance : Option Text
  pub rest : List (Text × Value)

-- The CorpusError of each check; a missing key of an entry is a KeyError, a document that YAML
-- refuses a YAMLError.
pub data LoadError : Type 0 where
  no_root : LoadError
  no_manifest : LoadError
  missing_key : LoadError
  missing_file : Text → LoadError
  empty_doc : Text → LoadError
  bad_clearance : Text → LoadError
  no_documents : LoadError
  no_directory : LoadError
  no_front_matter : Text → LoadError
  malformed_front_matter : Text → LoadError
  not_a_mapping : Text → LoadError
  yaml_error : Text → LoadError
  collision : List Text → LoadError

pub data Loaded (A : Type 0) : Type 0 where
  loaded : A → Loaded A
  failed : LoadError → Loaded A

-- yaml.safe_load(...) or {}
pub data Yaml : Type 0 where
  mapping : Meta → Yaml
  other : Yaml
  refused : Yaml

-- clearance in CLEARANCES
unfoldable pub checked : Option Text → Option Text
checked none = none
checked (some c) = if mem_text c clearances then some c else none

unfoldable pub document : ℕ → Text → Text → Text → Text → List (Text × Value) → TrustedDoc
document layer kind doc_id text clearance rest = record {
  doc_id = doc_id;
  layer = layer;
  clearance = clearance;
  text = text;
  source = kind ++ codes ":" ++ doc_id;
  metadata = rest;
}

unfoldable pub layer1_doc :
    Text → Text → Text → Option Text → List (Text × Value) → Loaded TrustedDoc
unfolding document
layer1_doc doc_id path [] clearance rest = failed (empty_doc path)
layer1_doc doc_id path (c ∷ t) none rest = failed (bad_clearance doc_id)
layer1_doc doc_id path (c ∷ t) (some clearance) rest =
    loaded (document 1 (codes "financebench") doc_id (c ∷ t) clearance rest)

unfoldable pub layer2_doc :
    Text → Text → Text → Option Text → List (Text × Value) → Loaded TrustedDoc
unfolding document
layer2_doc doc_id path text none rest = failed (bad_clearance doc_id)
layer2_doc doc_id path [] (some clearance) rest = failed (empty_doc path)
layer2_doc doc_id path (c ∷ t) (some clearance) rest =
    loaded (document 2 (codes "layer2") doc_id (c ∷ t) clearance rest)

-- docs[doc_id] = ..., and on to the next round.
unfoldable pub store : Docs → Loaded TrustedDoc → (Docs → Loaded Docs) → Loaded Docs
store docs (failed e) next = failed e
store docs (loaded d) next = next (insert d.doc_id d docs)

unfoldable pub fence_or : ℕ → Option Text → Option (Text × Text) → Option (Text × Text)
fence_or c (some rest) later = some ([], rest)
fence_or c none none = none
fence_or c none (some (block, body)) = some (c ∷ block, body)

-- The part of a document behind the first `---` in it, and what stands before that.
unfoldable pub fence : Text → Option (Text × Text)
unfolding fence_or
fence [] = none
fence (c ∷ t) = fence_or c (after_prefix (codes "---") (c ∷ t)) (fence t)

-- some(doc_id), or the other name where it is missing or empty
unfoldable pub id_or : Text → Option Text → Text
id_or stem none = stem
id_or stem (some []) = stem
id_or stem (some (c ∷ t)) = c ∷ t

unfoldable pub some_docs : Docs → Loaded Docs
some_docs [] = failed no_documents
some_docs (e ∷ es) = loaded (e ∷ es)

-- docs.keys() & layer2.keys()
unfoldable pub overlap : Docs → List Text → List Text
overlap docs [] = []
overlap docs (k ∷ ks) =
    let rest = overlap docs ks in if mem_text k (keys docs) then k ∷ rest else rest

-- docs.update(layer2)
unfoldable pub update : Docs → Docs → Docs
update docs [] = docs
update docs ((k, d) ∷ ds) = update (insert k d docs) ds

unfoldable pub merge : Docs → Docs → List Text → Loaded Docs
unfolding update
merge docs layer2 [] = loaded (update docs layer2)
merge docs layer2 (k ∷ ks) = failed (collision (k ∷ ks))

unfoldable pub with_layers : Loaded Docs → Loaded Docs → Loaded Docs
unfolding merge overlap
with_layers (failed e) layer2 = failed e
with_layers (loaded docs) (failed e) = failed e
with_layers (loaded docs) (loaded layer2) = merge docs layer2 (overlap docs (keys layer2))

module _ (blank : ℕ → Bool) where
  unfoldable pub with_file : Meta → Text → Text → Option Text → Loaded TrustedDoc
  unfolding layer1_doc checked
  with_file entry doc_id path none = failed (missing_file path)
  with_file entry doc_id path (some raw) =
      layer1_doc doc_id path (strip blank raw) (checked entry.clearance) entry.rest

  unfoldable pub with_keys :
      (Text → Option Text) → Meta → Option Text → Option Text → Loaded TrustedDoc
  unfolding with_file
  with_keys read entry none file = failed missing_key
  with_keys read entry (some doc_id) none = failed missing_key
  with_keys read entry (some doc_id) (some path) = with_file entry doc_id path (read path)

  unfoldable pub entry_doc : (Text → Option Text) → Meta → Loaded TrustedDoc
  unfolding with_keys
  entry_doc read entry = with_keys read entry entry.doc_id entry.file

  unfoldable pub entries : (Text → Option Text) → List Meta → Docs → Loaded Docs
  unfolding entry_doc store some_docs
  entries read [] docs = some_docs docs
  entries read (m ∷ ms) docs = store docs (entry_doc read m) (entries read ms)

  unfoldable pub load_layer1 : Option (List Meta) → (Text → Option Text) → Loaded Docs
  unfolding entries
  load_layer1 none read = failed no_manifest
  load_layer1 (some manifest) read = entries read manifest []

  unfoldable pub with_meta : Text → Text → Yaml → Loaded TrustedDoc
  unfolding layer2_doc checked id_or
  with_meta stem body (mapping m) =
      layer2_doc (id_or stem m.doc_id) stem (strip blank (lstrip (λ c. c == b'\n') body))
        (checked m.clearance) m.rest
  with_meta stem body other = failed (not_a_mapping stem)
  with_meta stem body refused = failed (yaml_error stem)

  unfoldable pub with_parts : (Text → Yaml) → Text → Option (Text × Text) → Loaded TrustedDoc
  unfolding with_meta
  with_parts yaml stem none = failed (malformed_front_matter stem)
  with_parts yaml stem (some (block, body)) = with_meta stem body (yaml block)

  unfoldable pub with_front : (Text → Yaml) → Text → Option Text → Loaded TrustedDoc
  unfolding with_parts fence
  with_front yaml stem none = failed (no_front_matter stem)
  with_front yaml stem (some rest) = with_parts yaml stem (fence rest)

  -- _split_front_matter and the rest of the round for a file.
  unfoldable pub file_doc : (Text → Yaml) → Text → Text → Loaded TrustedDoc
  unfolding with_front
  file_doc yaml stem raw = with_front yaml stem (after_prefix (codes "---") raw)

  unfoldable pub files : (Text → Yaml) → List (Text × Text) → Docs → Loaded Docs
  unfolding file_doc store some_docs
  files yaml [] docs = some_docs docs
  files yaml ((stem, raw) ∷ mds) docs = store docs (file_doc yaml stem raw) (files yaml mds)

  unfoldable pub load_layer2 : Option (List (Text × Text)) → (Text → Yaml) → Loaded Docs
  unfolding files
  load_layer2 none yaml = failed no_directory
  load_layer2 (some mds) yaml = files yaml mds []

  unfoldable pub load_corpus :
      Bool
      → Option (List Meta)
      → (Text → Option Text)
      → Option (List (Text × Text))
      → (Text → Yaml)
      → Loaded Docs
  unfolding with_layers load_layer1 load_layer2
  load_corpus is_dir manifest read mds yaml =
      if is_dir
      then with_layers (load_layer1 manifest read) (load_layer2 mds yaml)
      else failed no_root
