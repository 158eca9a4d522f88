-- ===== src/Graph/Tests.antt =====
-- Graphs of the kind that dependency_test.go builds.
use aixgo.Common.{◌≡◌, refl, List, [], ◌∷◌, String, string_discrete}
use aixgo.Common.Maps.{lookup, insert, delete}
use aixgo.Graph.{DependencyGraph, new_dependency_graph, add_nodes, built-IsMap}
use aixgo.Graph.Outcome.{done, fails, cycle_error, unknown_dependency}
use aixgo.Graph.Validate.{validate}
use aixgo.Graph.Validate.Verdict.{Verdict, validate-Verdict}
use aixgo.Graph.Levels.{topological_levels}
use aixgo.Graph.Levels.Verdict.{LevelsVerdict, topological_levels-LevelsVerdict}

abbrev build : List (String × List String) → DependencyGraph
build = add_nodes new_dependency_graph

program : Unit {0}
unfolding add_nodes new_dependency_graph validate topological_levels lookup insert delete
    string_discrete
program = tt

abbrev diamond : List (String × List String)
diamond = ("d", "b" ∷ "c" ∷ []) ∷ ("c", "a" ∷ []) ∷ ("b", "a" ∷ []) ∷ ("a", []) ∷ []

levels_of_diamond :
    topological_levels (build diamond) ≡ done (("a" ∷ []) ∷ ("b" ∷ "c" ∷ []) ∷ ("d" ∷ []) ∷ [])
unfolding program
levels_of_diamond = refl

abbrev loop : List (String × List String)
loop = ("a", "b" ∷ []) ∷ ("b", "a" ∷ []) ∷ []

cycle_of_loop : validate (build loop) ≡ fails (cycle_error ("a" ∷ "b" ∷ "a" ∷ []))
unfolding program
cycle_of_loop = refl

dangling : validate (build (("a", "z" ∷ []) ∷ [])) ≡ fails (unknown_dependency "a" "z")
unfolding program
dangling = refl

validate-Verdict_example : Verdict (build diamond).nodes (validate (build diamond))
validate-Verdict_example = validate-Verdict (build diamond) (built-IsMap diamond)

topological_levels-LevelsVerdict_example :
    LevelsVerdict (build diamond) (topological_levels (build diamond))
topological_levels-LevelsVerdict_example =
    topological_levels-LevelsVerdict (build diamond) (built-IsMap diamond)
