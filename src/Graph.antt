-- ===== src/Graph.antt =====
-- internal/graph: which agents depend on which (dependency.go, errors.go). The read-write mutex of
-- the graph makes every method one step.
pub mod Outcome
pub mod Relation
pub mod Validate
pub mod Levels
pub mod Tests
use aixgo.Common.{ℕ, List, [], ◌∷◌, Option, none, some, String, length}
use aixgo.Common.Maps.{Map, lookup, insert, IsMap, insert-IsMap}

pub record Node : Type 0 where
  pub name : String
  pub dependencies : List String

pub record DependencyGraph : Type 0 where
  pub nodes : Map Node

unfoldable pub new_dependency_graph : DependencyGraph
new_dependency_graph = record { nodes = [] }

unfoldable pub add_node : DependencyGraph → String → List String → DependencyGraph
add_node g name dependencies = record {
  nodes = insert name (record { name = name; dependencies = dependencies }) g.nodes;
}

pub node_count : DependencyGraph → ℕ
node_count g = length g.nodes

-- `nil` for an unknown agent, which a caller cannot tell from an agent with no dependencies.
pub get_dependencies : DependencyGraph → String → List String
get_dependencies g name = elim (lookup name g.nodes) [ some node ↦ node.dependencies | none ↦ [] ]

-- The graph that a caller builds by calls of `AddNode`, one after the other.
unfoldable pub add_nodes : DependencyGraph → List (String × List String) → DependencyGraph
unfolding add_node
add_nodes g [] = g
add_nodes g ((name, deps) ∷ rest) = add_nodes (add_node g name deps) rest

pub add_nodes-IsMap :
    (calls : List (String × List String)) (g : DependencyGraph)
    → IsMap g.nodes
    → IsMap (add_nodes g calls).nodes
unfolding add_nodes
add_nodes-IsMap [] g h = h
add_nodes-IsMap ((name, deps) ∷ rest) g h =
    add_nodes-IsMap rest (add_node g name deps)
      (insert-IsMap name (record { name = name; dependencies = deps }) g.nodes h)

pub built-IsMap :
    (calls : List (String × List String)) → IsMap (add_nodes new_dependency_graph calls).nodes
unfolding new_dependency_graph
built-IsMap calls = add_nodes-IsMap calls new_dependency_graph tt
