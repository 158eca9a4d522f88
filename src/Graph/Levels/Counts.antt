-- ===== src/Graph/Levels/Counts.antt =====
-- How many dependencies of an agent are still to be placed.
use aixgo.Common.{
  ℕ, suc, ◌+◌, ◌≡◌, ◌↔◌, inl, inr, List, [], ◌∷◌, String, ite, arith, ◌∈◌, All, dec_mem, count,
  length,
}

pub pending : List String → List String → ℕ
pending placed [] = 0
pending placed (d ∷ ds) = ite (dec_mem d placed) (pending placed ds) (suc (pending placed ds))

-- Placing one more name takes its occurrences off the count.
pub pending-cons :
    (name : String) (placed ds : List String)
    → ¬ (name ∈ placed)
    → pending (name ∷ placed) ds + count name ds ≡ pending placed ds
unfolding pending count
pending-cons name placed [] h = omega arith
pending-cons name placed (d ∷ ds) h = ground (arith, pending-cons name placed ds h)

pub pending-nil : (ds : List String) → pending [] ds ≡ length ds
unfolding pending
pending-nil [] = omega arith
pending-nil (d ∷ ds) = ground (arith, pending-nil ds)

pub pending-zero : (placed ds : List String) → (pending placed ds ≡ 0) ↔ All (λ d. d ∈ placed) ds
unfolding pending
pending-zero placed [] = ground arith
pending-zero placed (d ∷ ds) = ground (arith, pending-zero placed ds)

-- An agent of the list that is not placed, if some dependency is pending.
pub pending-some :
    (placed ds : List String) → ¬ (pending placed ds ≡ 0) → (d : String) × (d ∈ ds) × ¬ (d ∈ placed)
unfolding pending
pending-some placed [] h = absurd (ground arith)
pending-some placed (d ∷ ds) h = elim (dec_mem d placed) [
  | yes m ↦ let (c, i, n) = pending-some placed ds (ground arith) in (c, inr i, n)
  | no n ↦ (d, inl (λ i. d), n)
]
