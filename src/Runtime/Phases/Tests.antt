-- ===== src/Runtime/Phases/Tests.antt =====
-- Agents that are ready from tick 3 on, in a world that is a counter of ticks.
use aixgo.Common.{
  ℕ, ◌+◌, ◌≡◌, ◌⊎◌, refl, List, [], ◌∷◌, none, String, string_discrete, true, leb, arith, ◌∈◌, inl,
  inr, string_ne,
}
use mathlib.Core.List.Perm
use aixgo.Common.Maps.{Map, lookup, insert, delete}
use aixgo.Graph.{new_dependency_graph, add_nodes}
use aixgo.Graph.Outcome.{done}
use aixgo.Graph.Validate.{validate}
use aixgo.Graph.Levels.{topological_levels}
use aixgo.Graph.Levels.Verdict.{LevelsVerdict}
use aixgo.Runtime.LocalRuntime.{LocalRuntime}
use aixgo.Runtime.Agents.{AgentPackage, replies}
use aixgo.Runtime.Calls.{call_parallel, InOne, InNone, call_parallel-InOne}
use aixgo.Runtime.Phases.{
  Event, ticked, PhaseError, well, badly, wait_for_ready, start_agents_phased, Phases,
  start_agents_phased_well,
}
use aixgo.Runtime.Phases.Waiting.{Settles, finds_ready, later, wait_for_ready_ends}

abbrev agents : AgentPackage
agents = record {
  W = ℕ;
  A = String;
  M = ℕ;
  E = Unit {0};
  name = λ a. a;
  ready = λ a w. leb 3 w;
  execute = λ a m w. (w + 1, replies (m + w));
  start = λ a w. (w + 1, none);
  stop = λ a w. (w + 1, none);
}

abbrev launch : String → ℕ → ℕ
launch a w = w

abbrev poll : ℕ → ℕ × Event (Unit {0})
poll w = (w + 1, ticked)

abbrev runtime : LocalRuntime String ℕ
runtime = record {
  agents = ("a", "a") ∷ ("b", "b") ∷ [];
  channels = [];
  order = "a" ∷ "b" ∷ [];
  started = true;
  heap = [];
}

abbrev dependencies : Map (List String)
dependencies = ("b", "a" ∷ []) ∷ ("a", []) ∷ []

program : Unit {0}
unfolding start_agents_phased wait_for_ready topological_levels validate add_nodes
    new_dependency_graph lookup insert delete string_discrete
program = tt

abbrev in_turn : ℕ → List String → List String
in_turn i names = names

-- The end of a phase takes a tick.
abbrev cancel_group : ℕ → ℕ
cancel_group w = w + 1

starts_well :
    (start_agents_phased agents launch poll in_turn cancel_group 5 runtime dependencies 0).2 ≡ well
unfolding program
starts_well = refl

start_agents_phased_well_example :
    (true ≡ true)
    × (levels : List (List String)) × LevelsVerdict
        (add_nodes new_dependency_graph dependencies)
        (done levels)
    × Phases agents launch poll cancel_group runtime levels 0
        (start_agents_phased agents launch poll in_turn cancel_group 5 runtime dependencies 0).0
start_agents_phased_well_example =
    start_agents_phased_well agents launch poll in_turn cancel_group (λ i level. Perm.rfl) 5 runtime
      dependencies 0 starts_well

settles : Settles agents launch poll "a" 0 2
settles = later (later (finds_ready refl))

wait_for_ready_ends_example :
    let (w', e) = wait_for_ready agents launch poll 4 "a" "a" 0 in
    ((e ≡ well) × (leb 3 w' ≡ true)) ⊎ ((x : PhaseError (Unit {0})) × (e ≡ badly x))
wait_for_ready_ends_example =
    wait_for_ready_ends agents launch poll 4 2 "a" "a" 0 settles (omega arith)

abbrev targets : List String
targets = "a" ∷ "c" ∷ []

abbrev absent : String
absent = "c"

call_parallel-InOne_example :
    let (w', results, errors) = call_parallel agents runtime targets 1 5 in
    ((absent ∈ targets) × InOne agents absent results errors)
    ⊎ ((¬ (absent ∈ targets)) × InNone agents absent results errors)
call_parallel-InOne_example =
    call_parallel-InOne agents runtime targets 1 5 absent
      ((λ m. elim m [ inl e ↦ string_ne "a" "c" refl e | inr x ↦ x ]), ((λ m. m), tt))
