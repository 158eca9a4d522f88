-- ===== src/Graph/Validate.antt =====
-- Validate of internal/graph/dependency.go: the check for unknown dependencies, and the depth-first
-- search with three colours that finds a cycle. A panic of the source (a slice from index -1, a nil
-- node) is an outcome of the model. The search is bounded by fuel, one more than there are agents.
pub mod Colors
pub mod Dfs
pub mod Unknown
pub mod Verdict
use aixgo.Common.{
  ℕ, zero, suc, List, [], ◌∷◌, ◌++◌, Option, none, some, String, ite, string_discrete, length,
}
use aixgo.Common.Maps.{Map, lookup, insert}
use aixgo.Graph.{Node, DependencyGraph}
use aixgo.Graph.Outcome.{
  Outcome, done, fails, panics, out_of_fuel, unknown_dependency, cycle_error, ◌>>=◌,
}

pub data Color : Type 0 where
  white gray black : Color

-- `colors[name]`, which is 0 (white) for a name that is not in the map.
pub get_color : Map Color → String → Color
get_color colors name = elim (lookup name colors) [ some c ↦ c | none ↦ white ]

pub record Search : Type 0 where
  pub colors : Map Color
  pub stack : List String

-- `stack[cycleStart:]`, from the first place where the name stands; `none` if it stands nowhere.
suffix_from : String → List String → Option (List String)
suffix_from name [] = none
suffix_from name (n ∷ rest) = ite (string_discrete n name) (some (n ∷ rest)) (suffix_from name rest)

-- `stack[:len(stack)-1]`
drop_last : List String → List String
drop_last [] = []
drop_last (x ∷ []) = []
drop_last (x ∷ y ∷ rest) = x ∷ drop_last (y ∷ rest)

found_gray : String → List String → Outcome Search
unfolding suffix_from
found_gray name stack = elim (suffix_from name stack) [
  | some path ↦ fails (cycle_error (path ++ name ∷ []))
  | none ↦ panics
]

enter : String → Search → Search
enter name s = record { colors = insert name gray s.colors; stack = s.stack ++ name ∷ [] }

leave : String → Search → Search
unfolding drop_last
leave name s = record { colors = insert name black s.colors; stack = drop_last s.stack }

-- The loop over the dependencies of a node.
each : (String → Search → Outcome Search) → List String → Search → Outcome Search
each visit [] s = done s
each visit (d ∷ ds) s = visit d s >>= each visit ds

-- One call of `dfs`, by the colour of its node.
visit : (String → Search → Outcome Search) → Map Node → String → Color → Search → Outcome Search
unfolding found_gray enter leave each
visit go nodes name gray s = found_gray name s.stack
visit go nodes name black s = done s
visit go nodes name white s = elim (lookup name nodes) [
  | some node ↦ each go node.dependencies (enter name s) >>= λ s'. done (leave name s')
  | none ↦ panics
]

unfoldable pub dfs : ℕ → Map Node → String → Search → Outcome Search
unfolding visit get_color
dfs zero nodes name s = out_of_fuel
dfs (suc fuel) nodes name s = visit (dfs fuel nodes) nodes name (get_color s.colors name) s

-- The loop over all nodes, which starts a search at each white one.
pub roots : ℕ → Map Node → Map Node → Search → Outcome Search
unfolding dfs get_color
roots fuel nodes [] s = done s
roots fuel nodes ((name, _) ∷ rest) s = elim (get_color s.colors name) [
  | white ↦ dfs fuel nodes name s >>= roots fuel nodes rest
  | _ ↦ roots fuel nodes rest s
]

first_missing : Map Node → List String → Option String
first_missing nodes [] = none
first_missing nodes (d ∷ ds) = elim (lookup d nodes) [
  | some _ ↦ first_missing nodes ds
  | none ↦ some d
]

-- The first loop of `Validate`: an agent and a dependency of it that is no agent.
pub find_unknown : Map Node → Map Node → Option (String × String)
unfolding first_missing
find_unknown nodes [] = none
find_unknown nodes ((name, node) ∷ rest) = elim (first_missing nodes node.dependencies) [
  | some d ↦ some (name, d)
  | none ↦ find_unknown nodes rest
]

unfoldable pub validate : DependencyGraph → Outcome Unit
unfolding roots find_unknown
validate g = elim (find_unknown g.nodes g.nodes) [
  | some (name, d) ↦ fails (unknown_dependency name d)
  | none ↦
      roots (suc (length g.nodes)) g.nodes g.nodes (record { colors = []; stack = [] }) >>= λ _.
      done tt
]
