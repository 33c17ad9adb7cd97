-- ===== src/Agent/Nodes/Assess.antt =====
-- The breach decision of assess.py, and the citations of its proposal.
use mathlib.Core.Path.{subst}
use mathlib.Core.Option.{some-injective}
use atlas_compliance_copilot.Prelude.{
  ℕ, or_default, ◌≡◌, refl, ◌∙◌, ap, Bool, true, false, not, ◌&&◌, ◌||◌, Option, none, some, List,
  [], ◌∷◌, ◌++◌, arith, any, mem_ℕ, if◌then◌else◌, sorted_set, IsIncreasing, mem-sorted_set,
  sorted_set-IsIncreasing,
}
use atlas_compliance_copilot.Float.{Float, IsOrdered}
use atlas_compliance_copilot.Agent.Amounts.{Text, extract_amounts}
use atlas_compliance_copilot.Agent.State.{Context, ProposedAction, AgentState, Services}
use atlas_compliance_copilot.Agent.Nodes.{
  numbers, joined_snippets, maximum, breaching_numbers, assess_node, is_empty, money_context,
  max_or_none, at_least, cited, when_breach, proposal, extract,
}

module _ (R : Float) where
  breaching_numbers-numbers :
      (t : R.F) (n : ℕ) (cs : List Context) (extract : Option Text → List R.F)
      → mem_ℕ n (breaching_numbers R t cs extract) ≡ true
      → mem_ℕ n (numbers cs) ≡ true
  unfolding breaching_numbers numbers
  breaching_numbers-numbers t n [] extract h = cc
  breaching_numbers-numbers t n (c ∷ cs) extract h =
      ground (arith, breaching_numbers-numbers t n cs extract)

  -- A context with a number and an amount that reaches the threshold is found wherever it stands.
  breaching_numbers-context :
      (t : R.F) (cs before after : List Context) (c : Context) (n : ℕ)
      (extract : Option Text → List R.F)
      → cs ≡ before ++ c ∷ after
      → c.n ≡ some n
      → any (λ a. R.leb t a) (extract c.snippet) ≡ true
      → mem_ℕ n (breaching_numbers R t cs extract) ≡ true
  unfolding breaching_numbers
  breaching_numbers-context t cs before after c n extract here named reaching =
      ap (λ l. mem_ℕ n (breaching_numbers R t l extract)) here ∙ split before
    where
      split :
          (before : List Context)
          → mem_ℕ n (breaching_numbers R t (before ++ c ∷ after) extract) ≡ true
      split [] = ground (arith, reaching, named)
      split (d ∷ ds) = ground (arith, split ds)

module _ (R : Float) (O : IsOrdered R) where
  -- Passing to the larger of two keeps whether one reaches the threshold.
  larger : (t a x : R.F) → R.leb t (if R.ltb a x then x else a) ≡ (R.leb t a || R.leb t x)
  larger t a x = ground (arith, O.ltb-not a x, O.leb_trans t a x, O.leb_trans t x a, O.ltb→leb a x)

  leb-maximum :
      (t a : R.F) (xs : List R.F) → R.leb t (maximum R a xs) ≡ any (λ x. R.leb t x) (a ∷ xs)
  unfolding maximum
  leb-maximum t a [] = ground arith
  leb-maximum t a (x ∷ xs) =
      leb-maximum t (if R.ltb a x then x else a) xs ∙ ground (arith, larger t a x)

  at_least-max :
      (t : R.F) (xs : List R.F) → at_least R t (max_or_none R xs) ≡ any (λ x. R.leb t x) xs
  unfolding at_least max_or_none
  at_least-max t [] = refl
  at_least-max t (a ∷ xs) = leb-maximum t a xs

mem_ℕ-append : (n : ℕ) (xs ys : List ℕ) → mem_ℕ n (xs ++ ys) ≡ (mem_ℕ n xs || mem_ℕ n ys)
mem_ℕ-append n [] ys = refl
mem_ℕ-append n (x ∷ xs) ys = ground (arith, mem_ℕ-append n xs ys)

-- A dollar sign stands in the joined snippets where it stands in one of them.
mem_ℕ-joined_snippets :
    (cs : List Context)
    → mem_ℕ b'$' (joined_snippets cs) ≡ any (λ c. mem_ℕ b'$' (or_default [] c.snippet)) cs
unfolding joined_snippets
mem_ℕ-joined_snippets [] = refl
mem_ℕ-joined_snippets (c ∷ []) = ground arith
mem_ℕ-joined_snippets (c ∷ d ∷ cs) =
    mem_ℕ-append b'$' (or_default [] c.snippet) (b' ' ∷ joined_snippets (d ∷ cs))
    ∙ ap (λ b. mem_ℕ b'$' (or_default [] c.snippet) || b) (mem_ℕ-joined_snippets (d ∷ cs))

module _ (E : Services) where
  open E use {float.{F, leb}}

  -- A dollar sign in the answer or in a snippet.
  abbrev pub has_dollar : AgentState F → Bool
  has_dollar s =
      mem_ℕ b'$' (or_default [] s.answer)
      || any (λ c. mem_ℕ b'$' (or_default [] c.snippet)) s.contexts

  money_context-has_dollar : (s : AgentState F) → money_context E s ≡ has_dollar s
  unfolding money_context
  money_context-has_dollar s =
      mem_ℕ-append b'$' (or_default [] s.answer) (joined_snippets s.contexts)
      ∙ ap (λ b. mem_ℕ b'$' (or_default [] s.answer) || b) (mem_ℕ-joined_snippets s.contexts)

  -- Some retrieved amount reaches the threshold.
  abbrev pub reaches : List F → Bool
  reaches = any (λ a. leb E.threshold a)

  -- With floats in order, the breach decision holds exactly when some extracted amount reaches the
  -- threshold, and the ambiguity flag exactly when there is no amount but a dollar sign in the answer
  -- or in a snippet.
  pub assess_node-breach :
      IsOrdered E.float
      → (s : AgentState F)
      → ((assess_node E s).breach ≡ reaches s.amounts)
        × ((assess_node E s).ambiguous ≡ (is_empty s.amounts && has_dollar s))
  unfolding assess_node
  assess_node-breach O s = (
    at_least-max E.float O E.threshold s.amounts,
    ambiguous s.amounts ∙ ap (λ b. is_empty s.amounts && b) (money_context-has_dollar s),
  )
    where
      ambiguous :
          (xs : List F)
          → (not (at_least E.float E.threshold (max_or_none E.float xs))
              && is_empty xs
              && money_context E s)
            ≡ (is_empty xs && money_context E s)
      ambiguous [] = refl
      ambiguous (x ∷ xs) = ground arith

  -- What a proposal may cite.
  pub record IsGrounded (cs : List Context) (citations : List ℕ) : Type 0 where
    pub increasing : IsIncreasing citations
    pub retrieved : (n : ℕ) → mem_ℕ n citations ≡ true → mem_ℕ n (numbers cs) ≡ true
    pub breaching :
        (before after : List Context) (c : Context) (n : ℕ)
        → cs ≡ before ++ c ∷ after
        → c.n ≡ some n
        → any (λ a. leb E.threshold a) (extract_amounts E.chars E.float c.snippet) ≡ true
        → mem_ℕ n citations ≡ true

  cited-IsGrounded : (cs : List Context) → IsGrounded cs (cited E cs)
  unfolding cited
  cited-IsGrounded cs = choose (sorted_set found) refl
    where
      found : List ℕ
      found = breaching_numbers E.float E.threshold cs (extract E)

      choose :
          (b : List ℕ)
          → sorted_set found ≡ b
          → IsGrounded cs (if is_empty b then sorted_set (numbers cs) else b)
      choose [] e = record {
        increasing = sorted_set-IsIncreasing (numbers cs);
        retrieved = λ n h. rw mem-sorted_set at h;
        breaching = λ before after c n here named reaching. cc (
          mem-sorted_set n found,
          ap (mem_ℕ n) e,
          breaching_numbers-context E.float E.threshold cs before after c n (extract E) here named
              reaching,
        );
      }
      choose (b ∷ bs) e = record {
        increasing = subst IsIncreasing e (sorted_set-IsIncreasing found);
        retrieved = λ n h.
            breaching_numbers-numbers E.float E.threshold n cs (extract E)
              (cc (mem-sorted_set n found, ap (mem_ℕ n) e, h));
        breaching = λ before after c n here named reaching. cc (
          mem-sorted_set n found,
          ap (mem_ℕ n) e,
          breaching_numbers-context E.float E.threshold cs before after c n (extract E) here named
              reaching,
        );
      }

  -- A proposal cites, in increasing order, only numbers of retrieved contexts, and the number of every
  -- retrieved context with an amount that reaches the threshold is among them; it is for the run's
  -- account and period.
  pub assess_node-IsGrounded :
      (s : AgentState F) (p : ProposedAction)
      → (assess_node E s).proposed_action ≡ some p
      → IsGrounded s.contexts p.args.citations
        × (p.args.account ≡ s.account)
        × (p.args.period ≡ s.period)
  unfolding assess_node proposal
  assess_node-IsGrounded s p h = choose _ _ h
    where
      choose :
          (b : Bool) (a : Option F)
          → when_breach E b a (proposal E s) ≡ some p
          → IsGrounded s.contexts p.args.citations
            × (p.args.account ≡ s.account)
            × (p.args.period ≡ s.period)
      choose true (some a) e =
          subst
            (λ q.
              IsGrounded s.contexts q.args.citations
              × (q.args.account ≡ s.account)
              × (q.args.period ≡ s.period))
            (some-injective _ _ e) (cited-IsGrounded s.contexts, refl, refl)
      choose true none e = cc
      choose false a e = cc
