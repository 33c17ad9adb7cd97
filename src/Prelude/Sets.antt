-- ===== src/Prelude/Sets.antt =====
-- sorted({...}) over numbers: a strictly increasing list with the members of the given one.
use Prim.Native.Nat.{ℕ, ◌<◌}
use mathlib.Core.Path.{◌≡◌, refl}
use mathlib.Core.Bool.{◌||◌}
use mathlib.Core.List.{List, [], ◌∷◌}
use native.Mathlib.Omega.{arith}
use atlas_compliance_copilot.Prelude.Tests.{ltb, ◌==◌, if◌then◌else◌}
use atlas_compliance_copilot.Prelude.Folds.{All, All-imp, mem_ℕ}

pub insert : ℕ → List ℕ → List ℕ
insert n [] = n ∷ []
insert n (m ∷ ms) =
    let rest = insert n ms in if ltb n m then n ∷ m ∷ ms else if n == m then m ∷ ms else m ∷ rest

unfoldable pub sorted_set : List ℕ → List ℕ
unfolding insert
sorted_set [] = []
sorted_set (n ∷ ns) = insert n (sorted_set ns)

abbrev pub IsIncreasing : List ℕ → Type 0
IsIncreasing [] = Unit {0}
IsIncreasing (n ∷ ns) = All (λ m. n < m) ns × IsIncreasing ns

mem-insert : (k n : ℕ) (ns : List ℕ) → mem_ℕ k (insert n ns) ≡ ((k == n) || mem_ℕ k ns)
unfolding insert
mem-insert k n [] = refl
mem-insert k n (m ∷ ms) = ground (arith, mem-insert k n ms)

-- The members are those of the list.
pub mem-sorted_set : (k : ℕ) (ns : List ℕ) → mem_ℕ k (sorted_set ns) ≡ mem_ℕ k ns
unfolding sorted_set
mem-sorted_set k [] = refl
mem-sorted_set k (n ∷ ns) = ground (arith, mem-insert k n (sorted_set ns), mem-sorted_set k ns)

All-insert : (b n : ℕ) (ns : List ℕ) → b < n → All (λ m. b < m) ns → All (λ m. b < m) (insert n ns)
unfolding insert
All-insert b n [] h k = (h, tt)
All-insert b n (m ∷ ms) h k = ground (arith, All-insert b n ms h k.1)

insert-IsIncreasing : (n : ℕ) (ns : List ℕ) → IsIncreasing ns → IsIncreasing (insert n ns)
unfolding insert
insert-IsIncreasing n [] h = (tt, tt)
insert-IsIncreasing n (m ∷ ms) h = ground (
  arith,
  insert-IsIncreasing n ms h.1,
  λ (p : m < n). All-insert m n ms p h.0,
  λ (p : n < m). All-imp (λ k. m < k) (λ k. n < k) ms (λ k q. omega arith) h.0,
)

-- No member stands twice, and they are in order.
pub sorted_set-IsIncreasing : (ns : List ℕ) → IsIncreasing (sorted_set ns)
unfolding sorted_set
sorted_set-IsIncreasing [] = tt
sorted_set-IsIncreasing (n ∷ ns) =
    insert-IsIncreasing n (sorted_set ns) (sorted_set-IsIncreasing ns)
