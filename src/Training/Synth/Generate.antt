-- ===== src/Training/Synth/Generate.antt =====
-- The generation of training/atlas_training/data/synth.py by a teacher: the citation that is put
-- on an answer, the pairs of one document, and the refusals from templates. `parse` is json.loads,
-- `lower` what str.lower makes of a character.
use atlas_compliance_copilot.Prelude.{
  ℕ, zero, String, Bool, true, false, ◌||◌, Option, none, some, List, [], ◌∷◌, ◌++◌, ◌==◌,
  if◌then◌else◌, take,
}
use atlas_compliance_copilot.Text.{Text, codes, mem_text, split, join, strip, rstrip}
use atlas_compliance_copilot.Evals.Format.{remove}
use atlas_compliance_copilot.Training.Corpus.{TrustedDoc}
use atlas_compliance_copilot.Training.Pair.{SyntheticPair}
use atlas_compliance_copilot.Training.Synth.{Generator, excerpt, context, context_excerpt_chars}

-- What json.loads gives for the items of an array: the question and the answer where both are
-- texts in an object.
pub data Item : Type 0 where
  qa : Text → Text → Item
  malformed : Item

-- The result of json.loads.
pub data Parsed : Type 0 where
  array : List Item → Parsed
  not_array : Parsed
  decode_error : Parsed

put : ℕ → Option Text → Option Text
put c (some r) = some (c ∷ r)
put c none = if c == b']' then some (c ∷ []) else none

-- Up to the last closing bracket, if there is one.
to_last : Text → Option Text
unfolding put
to_last [] = none
to_last (c ∷ t) = put c (to_last t)

opened : ℕ → Option Text → Option Text → Option Text
opened c (some r) rest = some (c ∷ r)
opened c none rest = rest

-- _JSON_ARRAY.search: from the first opening bracket that a closing one comes after.
unfoldable pub json_array : Text → Option Text
unfolding to_last opened
json_array [] = none
json_array (c ∷ t) =
    let rest = json_array t in if c == b'[' then opened c (to_last t) rest else rest

module _ (blank : ℕ → Bool) where
  -- The answer less its markers, the white space around it and the full stops behind it.
  unfoldable pub cleaned : Text → Text
  unfolding remove
  cleaned answer = rstrip (λ c. c == b'.') (strip blank (remove zero answer))

  unfoldable pub cited : Text → Text → Text
  cited [] doc_id = []
  cited (c ∷ t) doc_id = (c ∷ t) ++ (codes " [doc:" ++ (doc_id ++ codes "]."))

  unfoldable pub enforce_citation : Text → Text → Text
  unfolding cited
  enforce_citation answer doc_id = cited (cleaned answer) doc_id

  stripped : List Item → List (Text × Text)
  stripped [] = []
  stripped (qa q a ∷ is) = (strip blank q, strip blank a) ∷ stripped is
  stripped (malformed ∷ is) = stripped is

  of_parsed : Parsed → List (Text × Text)
  unfolding stripped
  of_parsed (array is) = stripped is
  of_parsed not_array = []
  of_parsed decode_error = []

  of_match : (Text → Parsed) → Option Text → List (Text × Text)
  unfolding of_parsed
  of_match parse none = []
  of_match parse (some t) = of_parsed (parse t)

  unfoldable pub parse_qa_array : (Text → Parsed) → Text → List (Text × Text)
  unfolding of_match json_array
  parse_qa_array parse text = of_match parse (json_array text)

  -- A text lowered, with one space between its words.
  unfoldable pub normal : (ℕ → Text) → Text → Text
  normal lower t = join (codes " ") (split blank (lowered t))
    where
      lowered : Text → Text
      lowered [] = []
      lowered (c ∷ u) = lower c ++ lowered u

  unfoldable pub qa_gen_prompt : Text → TrustedDoc → Text
  qa_gen_prompt n doc =
      codes "You are creating training data for Atlas, a financial/compliance assistant. Read the "
      ++ codes "CONTEXT and write "
      ++ n
      ++ codes " DIVERSE question/answer pairs.\nRules:\n- Each question must be answerable SOLELY "
      ++ codes
          "from the CONTEXT.\n- Each answer is concise, factual, and ends with the citation [doc:"
      ++ doc.doc_id
      ++ codes "].\n- Vary the angle: specific figures, definitions, yes/no, short comparisons.\n"
      ++ codes
          "Return ONLY a JSON array, no prose: [{\"question\": \"...\", \"answer\": \"...\"}, ...]"
      ++ codes "\n\nCONTEXT:\n[doc:"
      ++ doc.doc_id
      ++ codes "] "
      ++ excerpt blank context_excerpt_chars doc.text
      ++ codes "\n"

  unfoldable pub answer_pair : TrustedDoc → String → Text → Text → SyntheticPair
  answer_pair doc model_id q a = record {
    question = q;
    context = context blank doc;
    answer = a;
    label = "answer";
    provenance_ref = doc.doc_id;
    generator = model_id;
  }

  unfoldable pub is_nil : Text → Bool
  is_nil [] = true
  is_nil (c ∷ t) = false

  -- The rounds of the loop over the parsed pairs; `seen` are the keys of the questions so far.
  unfoldable pub pairs_of :
      (ℕ → Text) → TrustedDoc → String → List Text → List (Text × Text) → List SyntheticPair
  unfolding answer_pair is_nil
  pairs_of lower doc model_id seen [] = []
  pairs_of lower doc model_id seen ((q, a) ∷ qas) =
      let skipped = pairs_of lower doc model_id seen qas in
      let kept =
        answer_pair doc model_id q (enforce_citation a doc.doc_id)
        ∷ pairs_of lower doc model_id (normal lower q ∷ seen) qas in
      if is_nil q || mem_text (normal lower q) seen
      then skipped
      else if is_nil (enforce_citation a doc.doc_id)
      then skipped
      else kept

  module _ (parse : Text → Parsed) (lower : ℕ → Text) (show : ℕ → Text) where
    unfoldable pub generate_doc_pairs :
        {W : Type 0} → TrustedDoc → ℕ → Generator W → W → List SyntheticPair × W
    unfolding pairs_of parse_qa_array qa_gen_prompt
    generate_doc_pairs doc n generator w =
        let (raw, w') = generator.call (qa_gen_prompt (show n) doc) w in
        (take n (pairs_of lower doc generator.model_id [] (parse_qa_array parse raw)), w')

    unfoldable pub generate_all :
        {W : Type 0} → List TrustedDoc → ℕ → Generator W → W → List SyntheticPair × W
    unfolding generate_doc_pairs
    generate_all [] n generator w = ([], w)
    generate_all (d ∷ ds) n generator w =
        let (pairs, w') = generate_doc_pairs d n generator w in
        let (rest, w'') = generate_all ds n generator w' in (pairs ++ rest, w'')
