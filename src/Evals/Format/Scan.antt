-- ===== src/Evals/Format/Scan.antt =====
-- The scan for markers over a text that is put together at a space.
use mathlib.Core.Option.{some-injective, map}
use atlas_compliance_copilot.Prelude.{
  ℕ, zero, suc, ◌+◌, ◌≤◌, ◌≡◌, refl, sym, ap, ◌∙◌, true, false, Option, none, some, [], ◌∷◌, ◌++◌,
  arith, ◌==◌, length, All,
}
use atlas_compliance_copilot.Text.{Text, codes, after_prefix}
use atlas_compliance_copilot.Evals.Format.{
  is_id, put, closed, non_empty, open_at, marker_at, markers, remove,
}

-- A text that can stand in a marker.
abbrev pub IsId : Text → Type 0
IsId id = All (λ c. is_id c ≡ true) id

closed-space : (t u : Text) → closed (t ++ b' ' ∷ u) ≡ closed t
unfolding closed is_id
closed-space [] u = refl
closed-space (c ∷ t) u = ground (arith, closed-space t u)

after_prefix-space :
    (p t u : Text)
    → All (λ c. (c == b' ') ≡ false) p
    → after_prefix p (t ++ b' ' ∷ u) ≡ map (λ r. r ++ b' ' ∷ u) (after_prefix p t)
unfolding after_prefix
after_prefix-space [] t u h = refl
after_prefix-space (c ∷ p) [] u h = ground (arith, h.0)
after_prefix-space (c ∷ p) (d ∷ t) u h = ground (arith, after_prefix-space p t u h.1)

marker_at-space : (t u : Text) → marker_at (t ++ b' ' ∷ u) ≡ marker_at t
unfolding marker_at open_at
marker_at-space t u =
    ap open_at (after_prefix-space (codes "[doc:") t u (refl, (refl, (refl, (refl, (refl, tt))))))
    ∙ by_rest (after_prefix (codes "[doc:") t)
  where
    by_rest : (o : Option Text) → open_at (map (λ r. r ++ b' ' ∷ u) o) ≡ open_at o
    by_rest none = refl
    by_rest (some r) = ap non_empty (closed-space r u)

length-closed : (t id : Text) → closed t ≡ some id → length id + 1 ≤ length t
unfolding closed put
length-closed [] id h = cc
length-closed (c ∷ t) id h = by_rest (closed t) refl (length-closed t)
  where
    by_rest :
        (o : Option Text)
        → closed t ≡ o
        → ((r : Text) → closed t ≡ some r → length r + 1 ≤ length t)
        → length id + 1 ≤ suc (length t)
    by_rest none e ih = ground (
      arith,
      h,
      e,
      λ (p : ◌≡◌ {A = Option Text} (some []) (some id)). ap length (some-injective _ _ p),
    )
    by_rest (some r) e ih = ground (
      arith,
      h,
      e,
      ih r e,
      λ (p : ◌≡◌ {A = Option Text} (some []) (some id)). ap length (some-injective _ _ p),
      λ (p : some (c ∷ r) ≡ some id). ap length (some-injective _ _ p),
    )

length-after_prefix : (p t r : Text) → after_prefix p t ≡ some r → length r + length p ≡ length t
unfolding after_prefix
length-after_prefix [] t r h = ground (arith, ap length (some-injective _ _ h))
length-after_prefix (c ∷ p) [] r h = cc
length-after_prefix (c ∷ p) (d ∷ t) r h = ground (arith, length-after_prefix p t r)

length-marker_at : (t id : Text) → marker_at t ≡ some id → length id + 6 ≤ length t
unfolding marker_at open_at non_empty
length-marker_at t id h = by_rest (after_prefix (codes "[doc:") t) refl
  where
    by_closed :
        (o : Option Text) (r : Text)
        → closed r ≡ o
        → non_empty o ≡ some id
        → length id + 1 ≤ length r
    by_closed none r e k = cc
    by_closed (some []) r e k = cc
    by_closed (some (c ∷ i)) r e k = length-closed r id (e ∙ k)

    by_rest : (o : Option Text) → after_prefix (codes "[doc:") t ≡ o → length id + 6 ≤ length t
    by_rest none e = cc (sym h ∙ ap open_at e)
    by_rest (some r) e = omega (
      arith,
      by_closed (closed r) r refl (sym (ap open_at e) ∙ h),
      length-after_prefix (codes "[doc:") t r e,
    )

-- One step of the two scans.
pub markers-none :
    (c : ℕ) (t : Text) → marker_at (c ∷ t) ≡ none → markers zero (c ∷ t) ≡ markers zero t
unfolding markers
markers-none c t e = rw (markers, e) refl

markers-some :
    (c : ℕ) (t id : Text)
    → marker_at (c ∷ t) ≡ some id
    → markers zero (c ∷ t) ≡ id ∷ markers (length id + 5) t
unfolding markers
markers-some c t id e = rw (markers, e) refl

pub remove-none :
    (c : ℕ) (t : Text) → marker_at (c ∷ t) ≡ none → remove zero (c ∷ t) ≡ c ∷ remove zero t
unfolding remove
remove-none c t e = rw (remove, e) refl

remove-some :
    (c : ℕ) (t id : Text)
    → marker_at (c ∷ t) ≡ some id
    → remove zero (c ∷ t) ≡ remove (length id + 5) t
unfolding remove
remove-some c t id e = rw (remove, e) refl

-- A marker that starts in front of a space ends there.
pub markers-space :
    (skip : ℕ) (t u : Text)
    → skip ≤ length t
    → markers skip (t ++ b' ' ∷ u) ≡ markers skip t ++ markers zero (b' ' ∷ u)
unfolding markers
markers-space zero [] u h = refl
markers-space (suc skip) [] u h = ground arith
markers-space (suc skip) (c ∷ t) u h = markers-space skip t u (omega arith)
markers-space zero (c ∷ t) u h =
    by_marker (marker_at (c ∷ t)) refl (markers-space zero t u (omega arith))
      (λ skip. markers-space skip t u)
  where
    by_marker :
        (o : Option Text)
        → marker_at (c ∷ t) ≡ o
        → markers zero (t ++ b' ' ∷ u) ≡ markers zero t ++ markers zero (b' ' ∷ u)
        → ((skip : ℕ)
            → skip ≤ length t
            → markers skip (t ++ b' ' ∷ u) ≡ markers skip t ++ markers zero (b' ' ∷ u))
        → markers zero (c ∷ (t ++ b' ' ∷ u)) ≡ markers zero (c ∷ t) ++ markers zero (b' ' ∷ u)
    by_marker none e next skipped =
        markers-none c (t ++ b' ' ∷ u) (marker_at-space (c ∷ t) u ∙ e)
        ∙ next
        ∙ ap (λ l. l ++ markers zero (b' ' ∷ u)) (sym (markers-none c t e))
    by_marker (some id) e next skipped =
        markers-some c (t ++ b' ' ∷ u) id (marker_at-space (c ∷ t) u ∙ e)
        ∙ ap (λ l. id ∷ l) (skipped (length id + 5) (omega (arith, length-marker_at (c ∷ t) id e)))
        ∙ ap (λ l. l ++ markers zero (b' ' ∷ u)) (sym (markers-some c t id e))

not_bracket : (c : ℕ) → is_id c ≡ true → (c == b']') ≡ false
unfolding is_id
not_bracket c h = ground arith

-- The marker of a well-formed identifier is read whole.
closed-id : (id u : Text) → IsId id → closed (id ++ b']' ∷ u) ≡ some id
unfolding closed put
closed-id [] u h = refl
closed-id (c ∷ id) u h = ground (arith, closed-id id u h.1, h.0, not_bracket c h.0)

pub marker_at-id :
    (c : ℕ) (id u : Text)
    → IsId (c ∷ id)
    → marker_at (codes "[doc:" ++ (c ∷ id) ++ b']' ∷ u) ≡ some (c ∷ id)
unfolding marker_at open_at non_empty after_prefix
marker_at-id c id u h = ap non_empty (closed-id (c ∷ id) u h)

zero_plus : (k : ℕ) → 0 + k ≡ k
zero_plus k = omega arith

suc_plus : (n k : ℕ) → suc n + k ≡ suc (n + k)
suc_plus n k = omega arith

markers_over : (a u : Text) (k : ℕ) → markers (length a + k) (a ++ u) ≡ markers k u
unfolding markers
markers_over [] u k = ap (λ n. markers n u) (zero_plus k)
markers_over (c ∷ a) u k =
    ap (λ n. markers n (c ∷ (a ++ u))) (suc_plus (length a) k) ∙ markers_over a u k

five_more : (n : ℕ) → n + 5 ≡ suc (suc (suc (suc (n + 1))))
five_more n = omega arith

-- A marker that stands in front is read, and the scan goes on behind it.
pub markers_marker :
    (c : ℕ) (id u : Text)
    → IsId (c ∷ id)
    → markers zero (codes "[doc:" ++ (c ∷ id) ++ b']' ∷ u) ≡ (c ∷ id) ∷ markers zero u
unfolding markers
markers_marker c id u h =
    markers-some b'[' (codes "doc:" ++ (c ∷ id) ++ b']' ∷ u) (c ∷ id) (marker_at-id c id u h)
    ∙ ap (λ l. (c ∷ id) ∷ l)
        (ap (λ k. markers k (codes "doc:" ++ (c ∷ id) ++ b']' ∷ u)) (five_more (length (c ∷ id)))
          ∙ markers_over (c ∷ id) (b']' ∷ u) 1)

pub remove-space :
    (skip : ℕ) (t u : Text)
    → skip ≤ length t
    → remove skip (t ++ b' ' ∷ u) ≡ remove skip t ++ remove zero (b' ' ∷ u)
unfolding remove
remove-space zero [] u h = refl
remove-space (suc skip) [] u h = ground arith
remove-space (suc skip) (c ∷ t) u h = remove-space skip t u (omega arith)
remove-space zero (c ∷ t) u h =
    by_marker (marker_at (c ∷ t)) refl (remove-space zero t u (omega arith))
      (λ skip. remove-space skip t u)
  where
    by_marker :
        (o : Option Text)
        → marker_at (c ∷ t) ≡ o
        → remove zero (t ++ b' ' ∷ u) ≡ remove zero t ++ remove zero (b' ' ∷ u)
        → ((skip : ℕ)
            → skip ≤ length t
            → remove skip (t ++ b' ' ∷ u) ≡ remove skip t ++ remove zero (b' ' ∷ u))
        → remove zero (c ∷ (t ++ b' ' ∷ u)) ≡ remove zero (c ∷ t) ++ remove zero (b' ' ∷ u)
    by_marker none e next skipped =
        remove-none c (t ++ b' ' ∷ u) (marker_at-space (c ∷ t) u ∙ e)
        ∙ ap (λ l. c ∷ l) next
        ∙ ap (λ l. l ++ remove zero (b' ' ∷ u)) (sym (remove-none c t e))
    by_marker (some id) e next skipped =
        remove-some c (t ++ b' ' ∷ u) id (marker_at-space (c ∷ t) u ∙ e)
        ∙ skipped (length id + 5) (omega (arith, length-marker_at (c ∷ t) id e))
        ∙ ap (λ l. l ++ remove zero (b' ' ∷ u)) (sym (remove-some c t id e))

-- A text with no marker is left as it is.
pub remove_clean : (t : Text) → markers zero t ≡ [] → remove zero t ≡ t
unfolding remove markers
remove_clean [] h = refl
remove_clean (c ∷ t) h = by_marker (marker_at (c ∷ t)) refl (remove_clean t)
  where
    by_marker :
        (o : Option Text)
        → marker_at (c ∷ t) ≡ o
        → (markers zero t ≡ [] → remove zero t ≡ t)
        → remove zero (c ∷ t) ≡ c ∷ t
    by_marker none e next =
        remove-none c t e ∙ ap (λ l. c ∷ l) (next (sym (markers-none c t e) ∙ h))
    by_marker (some id) e next = cc (sym (markers-some c t id e) ∙ h)

remove_over : (a u : Text) (k : ℕ) → remove (length a + k) (a ++ u) ≡ remove k u
unfolding remove
remove_over [] u k = ap (λ n. remove n u) (zero_plus k)
remove_over (c ∷ a) u k =
    ap (λ n. remove n (c ∷ (a ++ u))) (suc_plus (length a) k) ∙ remove_over a u k

pub remove_marker :
    (c : ℕ) (id u : Text)
    → IsId (c ∷ id)
    → remove zero (codes "[doc:" ++ (c ∷ id) ++ b']' ∷ u) ≡ remove zero u
unfolding remove
remove_marker c id u h =
    remove-some b'[' (codes "doc:" ++ (c ∷ id) ++ b']' ∷ u) (c ∷ id) (marker_at-id c id u h)
    ∙ ap (λ k. remove k (codes "doc:" ++ (c ∷ id) ++ b']' ∷ u)) (five_more (length (c ∷ id)))
    ∙ remove_over (c ∷ id) (b']' ∷ u) 1

-- A space and a full stop start no marker.
pub markers_blank : (t : Text) → markers zero (b' ' ∷ t) ≡ markers zero t
unfolding marker_at open_at after_prefix
markers_blank t = markers-none b' ' t refl

pub remove_blank : (t : Text) → remove zero (b' ' ∷ t) ≡ b' ' ∷ remove zero t
unfolding marker_at open_at after_prefix
remove_blank t = remove-none b' ' t refl

pub markers_stop : markers zero (codes ".") ≡ []
unfolding marker_at open_at after_prefix markers
markers_stop = refl

pub remove_stop : remove zero (codes ".") ≡ codes "."
unfolding marker_at open_at after_prefix remove
remove_stop = refl
