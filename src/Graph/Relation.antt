-- ===== src/Graph/Relation.antt =====
-- The dependency relation of a graph, walks along it, and what it means to have no cycle. Nothing
-- here speaks of the algorithms of dependency.go.
use mathlib.Core.WellFounded.{Acc}
use aixgo.Common.{◌≡◌, List, [], ◌∷◌, ◌++◌, some, String, ◌∈◌, subst}
use aixgo.Common.Maps.{Map, lookup, keys}
use aixgo.Graph.{Node}

-- `a` lists `d` among its dependencies.
abbrev pub Edge : Map Node → String → String → Type 0
Edge nodes a d = (node : Node) × (lookup a nodes ≡ some node) × (d ∈ node.dependencies)

-- Every dependency is an agent of the graph.
abbrev pub IsKnown : Map Node → Type 0
IsKnown nodes = (a d : String) → Edge nodes a d → d ∈ keys nodes

-- No infinite chain of dependencies goes down from `a`.
abbrev pub IsGrounded : Map Node → String → Type 0
IsGrounded nodes = Acc (λ d a. Edge nodes a d)

abbrev pub IsAcyclic : Map Node → Type 0
IsAcyclic nodes = (a : String) → IsGrounded nodes a

-- Each agent of the list depends on the next.
abbrev pub IsWalk : Map Node → List String → Type 0
IsWalk nodes [] = Unit {0}
IsWalk nodes (a ∷ []) = Unit {0}
IsWalk nodes (a ∷ b ∷ rest) = Edge nodes a b × IsWalk nodes (b ∷ rest)

-- A walk of one step or more that ends where it began.
abbrev pub IsCycle : Map Node → List String → Type 0
IsCycle nodes path =
    (a : String) × (rest : List String) × (path ≡ a ∷ (rest ++ a ∷ [])) × IsWalk nodes path

module _ (nodes : Map Node) where
  pub IsWalk-snoc :
      (xs : List String) (a b : String)
      → IsWalk nodes (xs ++ a ∷ [])
      → Edge nodes a b
      → IsWalk nodes ((xs ++ a ∷ []) ++ b ∷ [])
  IsWalk-snoc [] a b w e = (e, tt)
  IsWalk-snoc (x ∷ []) a b w e = (w.0, (e, tt))
  IsWalk-snoc (x ∷ y ∷ xs) a b w e = (w.0, IsWalk-snoc (y ∷ xs) a b w.1 e)

  pub IsWalk-tail : (x : String) (xs : List String) → IsWalk nodes (x ∷ xs) → IsWalk nodes xs
  IsWalk-tail x [] w = tt
  IsWalk-tail x (y ∷ xs) w = w.1

  -- A grounded agent is on no cycle.
  grounded_no_cycle :
      (a : String)
      → IsGrounded nodes a
      → (rest : List String) → ¬ IsWalk nodes (a ∷ (rest ++ a ∷ []))
  grounded_no_cycle a (Acc.intro _ below) [] w = grounded_no_cycle a (below a w.0) [] w
  grounded_no_cycle a (Acc.intro _ below) (x ∷ rest) w =
      grounded_no_cycle x (below x w.0) (rest ++ a ∷ []) (IsWalk-snoc (x ∷ rest) a x w.1 w.0)

  pub cycle_not-IsAcyclic : (path : List String) → IsCycle nodes path → ¬ IsAcyclic nodes
  cycle_not-IsAcyclic path (a, rest, e, w) acyclic =
      grounded_no_cycle a (acyclic a) rest (subst (IsWalk nodes) e w)
