-- ===== src/Evals/Cassettes.antt =====
-- cassettes.py CassetteStore: replay and record, over a directory of files and a world that live
-- calls change. json.dumps and json.loads are parameters; that the disk takes a write is assumed.
use mathlib.Core.Bool.{false≢true}
use text.Mathlib.TextEquality.{eq_iff}
use atlas_compliance_copilot.Prelude.{
  ◌≡◌, ◌≢◌, refl, sym, ap, ◌∙◌, String, Bool, true, false, Option, none, some, str_eq,
  if◌then◌else◌, is_some, arith,
}
use atlas_compliance_copilot.Exec.{exception, Result, ok, raise, Exec}

pub data Mode : Type 0 where
  off : Mode
  recording : Mode
  replay : Mode
  fill : Mode

ok_injective : {A : Type 0} (a b : A) → ◌≡◌ {A = Result A} (ok a) (ok b) → a ≡ b
ok_injective a b h = cc

-- What json.loads makes of a file: an object with a response, one without, or an error.
pub data Loaded (A : Type 0) : Type 0 where
  holding : A → Loaded A
  no_response : Loaded A
  decode_error : Loaded A

-- json.dumps of the object of the meta data and the response, none where it raises TypeError, and
-- json.loads; `T` are the texts of the files.
pub record Json (M A T : Type 0) : Type 0 where
  pub dumps : M → A → Option T
  pub loads : T → Loaded A

-- The directory: the text of the file under each key.
abbrev pub Cassettes : Type 0 → Type 0
Cassettes T = String → Option T

-- A call returns with the directory and the world.
abbrev pub Outcome : Type 0 → Type 0 → Type 0 → Type 0
Outcome T W A = Result A × Cassettes T × W

-- A response that json.loads gives back as json.dumps got it, as it does for JSON's own types with
-- keys that are texts, and not for a tuple or a number as a key.
pub record IsLossless {M A T : Type 0} (J : Json M A T) (response : A) : Type 0 where
  pub loads-dumps :
      (meta : M) (t : T) → J.dumps meta response ≡ some t → J.loads t ≡ holding response

module _ {M A T : Type 0} (J : Json M A T) where
  written : String → Cassettes T → Option T → Result (Unit {0}) × Cassettes T
  written key store none = (raise (exception "TypeError"), store)
  written key store (some t) = (ok tt, λ k. if str_eq key k then some t else store k)

  -- The text is made before the file is opened.
  unfoldable pub put : String → A → M → Cassettes T → Result (Unit {0}) × Cassettes T
  unfolding written
  put key response meta store = written key store (J.dumps meta response)

  response_of : Loaded A → Result A
  response_of (holding response) = ok response
  response_of no_response = raise (exception "KeyError")
  response_of decode_error = raise (exception "JSONDecodeError")

  -- The file of the key holds the response.
  Holds : String → A → Cassettes T → Type 0
  Holds key response store =
      (t : T) × (store key ≡ some t) × (response_of (J.loads t) ≡ ok response)

module _ {M W A T : Type 0} (J : Json M A T) where
  found : Cassettes T → W → Option T → Outcome T W A
  unfolding response_of
  found store w none = (raise (exception "cassette miss"), store, w)
  found store w (some t) = (response_of J (J.loads t), store, w)

  unfoldable pub get : String → Cassettes T → W → Outcome T W A
  unfolding found
  get key store w = found store w (store key)

  passed_through : Cassettes T → Result A × W → Outcome T W A
  passed_through store (r, w) = (r, store, w)

  after_put : A → W → Result (Unit {0}) × Cassettes T → Outcome T W A
  after_put response w (ok _, store) = (ok response, store, w)
  after_put response w (raise e, store) = (raise e, store, w)

  -- Only a response that was produced is recorded.
  recorded : String → M → Cassettes T → Result A × W → Outcome T W A
  unfolding put after_put
  recorded key meta store (ok response, w) = after_put response w (put J key response meta store)
  recorded key meta store (raise e, w) = (raise e, store, w)

  unfoldable pub record_or_replay : Mode → String → Exec W A → M → Cassettes T → W → Outcome T W A
  unfolding get passed_through recorded
  record_or_replay Mode.replay key produce meta store w = get key store w
  record_or_replay Mode.off key produce meta store w = passed_through store (produce w)
  record_or_replay Mode.fill key produce meta store w =
      if is_some (store key) then get key store w else recorded key meta store (produce w)
  record_or_replay Mode.recording key produce meta store w = recorded key meta store (produce w)

  found-Holds :
      (key : String) (store store' : Cassettes T) (w w' : W) (response : A)
      → get key store w ≡ (ok response, store', w')
      → Holds J key response store'
  unfolding get Holds
  found-Holds key store store' w w' response h = split (store key) refl h
    where
      split :
          (o : Option T)
          → store key ≡ o
          → found store w o ≡ (ok response, store', w')
          → (t : T) × (store' key ≡ some t) × (response_of J (J.loads t) ≡ ok response)
      split none e k = ground arith
      split (some t) e k = (t, ap (λ r. r.1 key) (sym k) ∙ e, ap (λ r. r.0) k)

  recorded-Holds :
      (key : String) (meta : M) (store store' : Cassettes T) (w' : W) (x : Result A × W)
      (response : A)
      → IsLossless J response
      → recorded key meta store x ≡ (ok response, store', w')
      → Holds J key response store'
  unfolding recorded Holds response_of
  recorded-Holds key meta store store' w' (raise e, w) response l h = ground arith
  recorded-Holds key meta store store' w' (ok a, w) response l h = split (J.dumps meta a) refl h
    where
      split :
          (o : Option T)
          → J.dumps meta a ≡ o
          → after_put a w (written J key store o) ≡ (ok response, store', w')
          → (t : T) × (store' key ≡ some t) × (response_of J (J.loads t) ≡ ok response)
      split none e k = ground arith
      split (some t) e k = (
        t,
        ap (λ r. r.1 key) (sym k)
            ∙ ap (λ b. if b then some t else store key) ((eq_iff key key).1 refl),
        ap (response_of J) (
            l.loads-dumps meta t
              (ap (J.dumps meta) (sym (ok_injective a response (ap (λ r. r.0) k))) ∙ e)),
      )

  found-store : (store : Cassettes T) (w : W) (o : Option T) → (found store w o).1 ≡ store
  unfolding found
  found-store store w none = refl
  found-store store w (some t) = refl

  returned-Holds :
      (mode : Mode) (key : String) (produce : Exec W A) (meta : M) (store store' : Cassettes T)
      (w w' : W) (response : A)
      → mode ≢ Mode.off
      → IsLossless J response
      → record_or_replay mode key produce meta store w ≡ (ok response, store', w')
      → Holds J key response store'
  unfolding record_or_replay
  returned-Holds Mode.off key produce meta store store' w w' response m l h = absurd (m refl)
  returned-Holds Mode.replay key produce meta store store' w w' response m l h =
      found-Holds key store store' w w' response h
  returned-Holds Mode.recording key produce meta store store' w w' response m l h =
      recorded-Holds key meta store store' w' (produce w) response l h
  returned-Holds Mode.fill key produce meta store store' w w' response m l h =
      split (is_some (store key)) h
    where
      split :
          (b : Bool)
          → (if b then get key store w else recorded key meta store (produce w))
            ≡ (ok response, store', w')
          → Holds J key response store'
      split true k = found-Holds key store store' w w' response k
      split false k = recorded-Holds key meta store store' w' (produce w) response l k

  -- After a call that returned a lossless response, in any mode but off, the replay of the same key
  -- gives the same response, with no live call and the store and the world unchanged.
  pub record_or_replay-record_or_replay :
      (mode : Mode) (key : String) (produce again : Exec W A) (meta meta' : M)
      (store store' : Cassettes T) (w w' v : W) (response : A)
      → mode ≢ Mode.off
      → IsLossless J response
      → record_or_replay mode key produce meta store w ≡ (ok response, store', w')
      → record_or_replay Mode.replay key again meta' store' v ≡ (ok response, store', v)
  unfolding record_or_replay get Holds
  record_or_replay-record_or_replay mode key produce again meta meta' store store' w w' v response m
        l h =
      let (t, there, read) =
        returned-Holds mode key produce meta store store' w w' response m l h in
      ap (found store' v) there ∙ ap (λ r. (r, store', v)) read

  recorded-kept :
      (key kept : String) (meta : M) (store : Cassettes T) (x : Result A × W) (t : T)
      → is_some (store key) ≡ false
      → store kept ≡ some t
      → (recorded key meta store x).1 kept ≡ some t
  unfolding recorded
  recorded-kept key kept meta store (raise e, w) t m h = h
  recorded-kept key kept meta store (ok a, w) t m h = by_text (J.dumps meta a)
    where
      split : (b : Bool) (u : T) → str_eq key kept ≡ b → (if b then some u else store kept) ≡ some t
      split true u e =
          absurd (
            false≢true (sym m ∙ ap (λ k. is_some (store k)) ((eq_iff key kept).0 e) ∙ ap is_some h))
      split false u e = h

      by_text : (o : Option T) → (after_put a w (written J key store o)).1 kept ≡ some t
      by_text none = h
      by_text (some u) = split (str_eq key kept) u refl

  -- A fill keeps every cassette that is there, whatever the call gives.
  pub record_or_replay-fill :
      (key kept : String) (produce : Exec W A) (meta : M) (store : Cassettes T) (w : W) (t : T)
      → store kept ≡ some t
      → (record_or_replay Mode.fill key produce meta store w).1 kept ≡ some t
  unfolding record_or_replay get
  record_or_replay-fill key kept produce meta store w t h = split (is_some (store key)) refl
    where
      split :
          (b : Bool)
          → is_some (store key) ≡ b
          → (if b then get key store w else recorded key meta store (produce w)).1 kept ≡ some t
      split true e = ap (λ s. s kept) (found-store store w (store key)) ∙ h
      split false e = recorded-kept key kept meta store (produce w) t e h
