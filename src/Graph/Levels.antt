-- ===== src/Graph/Levels.antt =====
-- TopologicalLevels of internal/graph/dependency.go: Kahn's algorithm, level by level. `remaining`
-- is an int in the source; it is a natural number here, since the loop ends at 0 and below alike.
pub mod Counts
pub mod Dependents
pub mod Round
pub mod Correct
pub mod Verdict
use aixgo.Common.{ℕ, zero, suc, ◌-◌, List, [], ◌∷◌, ◌++◌, Option, none, some, String, length}
use aixgo.Common.Int.{ℤ, pos, negsuc, pred_ℤ}
use aixgo.Common.Maps.{Map, lookup, insert, delete}
use aixgo.Common.Sort.{sort_strings}
use aixgo.Graph.{Node, DependencyGraph}
use aixgo.Graph.Outcome.{Outcome, done, fails, panics, out_of_fuel, cycle_detected, ◌>>=◌}
use aixgo.Graph.Validate.{validate}

-- The in-degree of a node is its number of dependencies; each key is written once.
pub in_degrees : Map Node → Map ℤ
in_degrees [] = []
in_degrees ((name, node) ∷ rest) = (name, pos (length node.dependencies)) ∷ in_degrees rest

-- `m[k]` of a map of lists, nil for a missing key.
pub get_list : String → Map (List String) → List String
get_list k m = elim (lookup k m) [ some l ↦ l | none ↦ [] ]

pub add_dependents : String → List String → Map (List String) → Map (List String)
unfolding get_list
add_dependents name [] m = m
add_dependents name (dep ∷ deps) m =
    add_dependents name deps (insert dep (get_list dep m ++ name ∷ []) m)

-- The reverse adjacency list.
pub dependents_of : Map Node → Map (List String) → Map (List String)
unfolding add_dependents
dependents_of [] m = m
dependents_of ((name, node) ∷ rest) m = dependents_of rest (add_dependents name node.dependencies m)

-- The names whose in-degree is 0, in the order of the map.
pub ready : Map ℤ → List String
ready [] = []
ready ((name, degree) ∷ rest) = elim degree [
  | pos n ↦ elim n [ zero ↦ name ∷ ready rest | suc _ ↦ ready rest ]
  | negsuc _ ↦ ready rest
]

-- `m[k]` of a map of ints, 0 for a missing key.
pub get_int : String → Map ℤ → ℤ
get_int k m = elim (lookup k m) [ some z ↦ z | none ↦ pos 0 ]

-- `for _, dependent := range …  { inDegree[dependent]-- }`
pub decrement : List String → Map ℤ → Map ℤ
unfolding get_int
decrement [] m = m
decrement (k ∷ ks) m = decrement ks (insert k (pred_ℤ (get_int k m)) m)

-- A level taken out of the in-degrees, name by name.
pub remove_level : Map (List String) → List String → Map ℤ → Map ℤ
unfolding decrement get_list
remove_level dependents [] m = m
remove_level dependents (name ∷ level) m =
    remove_level dependents level (decrement (get_list name dependents) (delete name m))

pub rounds : ℕ → Map (List String) → ℕ → Map ℤ → List (List String) → Outcome (List (List String))
rounds fuel dependents zero m levels = done levels
rounds zero dependents (suc remaining) m levels = out_of_fuel
rounds (suc fuel) dependents (suc remaining) m levels = elim (ready m) [
  | [] ↦ fails cycle_detected
  | name ∷ names ↦
      let level = sort_strings (name ∷ names) in
      rounds fuel dependents (suc remaining - length level) (remove_level dependents level m)
        (levels ++ level ∷ [])
]

unfoldable pub topological_levels : DependencyGraph → Outcome (List (List String))
unfolding in_degrees dependents_of remove_level ready rounds sort_strings
topological_levels g = validate g >>= λ _.
    rounds (suc (length g.nodes)) (dependents_of g.nodes []) (length g.nodes) (in_degrees g.nodes)
      []
