-- ===== src/Text.antt =====
-- Texts as lists of code points, and the operations of Python's str that several services use.
-- `blank` is what str.strip and str.split take for white space.
use Prim.Native.Char.{code}
use atlas_compliance_copilot.Prelude.{
  ℕ, suc, ◌≤◌, ◌≡◌, ◌≢◌, refl, sym, ap, ◌∙◌, String, Bool, true, false, ◌&&◌, List, [], ◌∷◌, ◌++◌,
  Option, none, some, arith, ◌==◌, if◌then◌else◌, any, length, ◌⊎◌, inl, inr, Bool-cases,
}

abbrev pub Text : Type 0
Text = List ℕ

-- The code points of a literal.
abbrev pub codes : String → Text
codes String.[] = []
codes (String.◌∷◌ c s) = code c ∷ codes s

unfoldable pub text_eq : Text → Text → Bool
text_eq [] [] = true
text_eq [] (d ∷ u) = false
text_eq (c ∷ t) [] = false
text_eq (c ∷ t) (d ∷ u) = c == d && text_eq t u

pub text_eq→eq : (t u : Text) → text_eq t u ≡ true → t ≡ u
unfolding text_eq
text_eq→eq [] [] h = refl
text_eq→eq [] (d ∷ u) h = cc
text_eq→eq (c ∷ t) [] h = cc
text_eq→eq (c ∷ t) (d ∷ u) h = ground (arith, text_eq→eq t u)

pub text_eq_refl : (t : Text) → text_eq t t ≡ true
unfolding text_eq
text_eq_refl [] = refl
text_eq_refl (c ∷ t) = ground (arith, text_eq_refl t)

-- x in xs, for texts
abbrev pub mem_text : Text → List Text → Bool
mem_text t = any (λ u. text_eq t u)

-- list(dict.fromkeys(refs)): `seen` are the keys so far.
unfoldable pub distinct : List Text → List Text → List Text
distinct seen [] = []
distinct seen (r ∷ rs) = elim (mem_text r seen) [
  | true ↦ distinct seen rs
  | false ↦ r ∷ distinct (r ∷ seen) rs
]

-- t.startswith(p)
unfoldable pub has_prefix : Text → Text → Bool
has_prefix [] t = true
has_prefix (p ∷ ps) [] = false
has_prefix (p ∷ ps) (c ∷ t) = p == c && has_prefix ps t

-- p in t
unfoldable pub has_infix : Text → Text → Bool
unfolding has_prefix
has_infix p [] = has_prefix p []
has_infix p (c ∷ t) = let rest = has_infix p t in if has_prefix p (c ∷ t) then true else rest

-- What stands behind a prefix.
unfoldable pub after_prefix : Text → Text → Option Text
after_prefix [] t = some t
after_prefix (p ∷ ps) [] = none
after_prefix (p ∷ ps) (c ∷ t) = let rest = after_prefix ps t in if p == c then rest else none

head_eq : {c d : ℕ} {t u : Text} → c ∷ t ≡ d ∷ u → c ≡ d
head_eq e = cc

module _ (blank : ℕ → Bool) where
  unfoldable pub lstrip : Text → Text
  lstrip [] = []
  lstrip (c ∷ t) = let rest = lstrip t in if blank c then rest else c ∷ t

  -- A character stays at the end if it is not blank or one behind it stays.
  unfoldable pub keep : ℕ → Text → Text
  keep c [] = if blank c then [] else c ∷ []
  keep c (d ∷ t) = c ∷ d ∷ t

  unfoldable pub rstrip : Text → Text
  unfolding keep
  rstrip [] = []
  rstrip (c ∷ t) = keep c (rstrip t)

  unfoldable pub strip : Text → Text
  strip t = rstrip (lstrip t)

  pub length-rstrip : (t : Text) → length (rstrip t) ≤ length t
  unfolding rstrip keep
  length-rstrip [] = omega arith
  length-rstrip (c ∷ t) = kept (rstrip t) (length-rstrip t)
    where
      kept : (r : Text) → length r ≤ length t → length (keep c r) ≤ suc (length t)
      kept [] h = ground arith
      kept (d ∷ u) h = omega arith

  -- A text that starts with a character that is not blank is more than white space.
  pub strip_ne : (c : ℕ) (t : Text) → blank c ≡ false → strip (c ∷ t) ≢ []
  unfolding strip lstrip rstrip keep
  strip_ne c t h = rw h (kept (rstrip t))
    where
      kept : (r : Text) → keep c r ≢ []
      kept [] = ground arith
      kept (d ∷ r) = λ e. cc

  -- What is left starts with a character that is not blank.
  pub lstrip_head : (x : Text) (c : ℕ) (t : Text) → lstrip x ≡ c ∷ t → blank c ≡ false
  unfolding lstrip
  lstrip_head [] c t e = cc
  lstrip_head (d ∷ x) c t e =
      ground (
        arith,
        lstrip_head x c t,
        λ (q : ◌≡◌ {A = Text} (d ∷ x) (c ∷ t)). ap blank (sym (head_eq q)),
      )

  -- What is left starts as the text does.
  pub rstrip_head : (x : Text) (c : ℕ) (t : Text) → rstrip x ≡ c ∷ t → (u : Text) × (x ≡ c ∷ u)
  unfolding rstrip keep
  rstrip_head [] c t e = cc
  rstrip_head (d ∷ x) c t e = kept (rstrip x) e
    where
      kept : (r : Text) → keep d r ≡ c ∷ t → (u : Text) × (d ∷ x ≡ c ∷ u)
      kept [] k = (x, ap (λ h. h ∷ x) (only k))
        where
          only : keep d [] ≡ c ∷ t → d ≡ c
          only q = ground (arith, q)
      kept (h ∷ r) k = (x, ap (λ h. h ∷ x) (head_eq k))

  -- A text that ends with a character that is not blank is left as it is.
  pub rstrip_last : (t : Text) (d : ℕ) → blank d ≡ false → rstrip (t ++ d ∷ []) ≡ t ++ d ∷ []
  unfolding rstrip keep
  rstrip_last [] d h = rw h refl
  rstrip_last (c ∷ t) d h = ap (keep c) (rstrip_last t d h) ∙ more t
    where
      more : (s : Text) → keep c (s ++ d ∷ []) ≡ c ∷ (s ++ d ∷ [])
      more [] = refl
      more (e ∷ s) = refl

  rstrip-rstrip : (t : Text) → rstrip (rstrip t) ≡ rstrip t
  unfolding rstrip keep
  rstrip-rstrip [] = refl
  rstrip-rstrip (c ∷ t) = kept (rstrip t) (rstrip-rstrip t)
    where
      kept : (r : Text) → rstrip r ≡ r → rstrip (keep c r) ≡ keep c r
      kept [] h = ground arith
      kept (d ∷ u) h = ap (keep c) h

  lstrip-rstrip : (t : Text) → lstrip (rstrip (lstrip t)) ≡ rstrip (lstrip t)
  unfolding lstrip rstrip keep
  lstrip-rstrip [] = refl
  lstrip-rstrip (c ∷ t) = by_blank (Bool-cases (blank c)) (lstrip-rstrip t)
    where
      kept : (r : Text) → blank c ≡ false → lstrip (keep c r) ≡ keep c r
      kept [] h = ground arith
      kept (d ∷ r) h = rw h refl

      by_blank :
          (blank c ≡ true) ⊎ (blank c ≡ false)
          → lstrip (rstrip (lstrip t)) ≡ rstrip (lstrip t)
          → lstrip (rstrip (lstrip (c ∷ t))) ≡ rstrip (lstrip (c ∷ t))
      by_blank (inl e) ih = rw e ih
      by_blank (inr e) ih = rw e (kept (rstrip t) e)

  -- A stripped text is stripped.
  pub strip-strip : (t : Text) → strip (strip t) ≡ strip t
  unfolding strip
  strip-strip t = ap rstrip (lstrip-rstrip t) ∙ rstrip-rstrip (lstrip t)

  -- The words of str.split(); `word` is what the current one has so far, in reverse order.
  put_word : Text → List Text → List Text
  put_word [] ws = ws
  put_word (c ∷ t) ws = (c ∷ t) ∷ ws

  -- The first word, which may be empty, and the words behind the blank that ends it.
  cut : Text → Text × List Text
  unfolding put_word
  cut [] = ([], [])
  cut (c ∷ t) =
      let (word, words) = cut t in if blank c then ([], put_word word words) else (c ∷ word, words)

  unfoldable pub split : Text → List Text
  unfolding cut put_word
  split t = let (word, words) = cut t in put_word word words

-- sep.join(texts)
unfoldable pub join : Text → List Text → Text
join sep [] = []
join sep (t ∷ []) = t
join sep (t ∷ u ∷ ts) = t ++ sep ++ join sep (u ∷ ts)
