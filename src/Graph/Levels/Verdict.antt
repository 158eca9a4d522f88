-- ===== src/Graph/Levels/Verdict.antt =====
-- TopologicalLevels as a whole: validation, the two tables, and the rounds.
use aixgo.Common.{suc, ◌≡◌, List, [], ◌∷◌, String, arith, count, refl, length}
use aixgo.Common.Maps.{Map, lookup, keys, IsMap}
use aixgo.Graph.{Node, DependencyGraph}
use aixgo.Graph.Outcome.{Outcome, done, fails, panics, out_of_fuel, ◌>>=◌}
use aixgo.Graph.Relation.{IsKnown, IsAcyclic}
use aixgo.Graph.Validate.{validate}
use aixgo.Graph.Validate.Verdict.{Verdict, validate-Verdict}
use aixgo.Graph.Levels.{get_list, in_degrees, dependents_of, rounds, topological_levels}
use aixgo.Graph.Levels.Counts.{pending-nil}
use aixgo.Graph.Levels.Dependents.{count-dependents_of}
use aixgo.Graph.Levels.Round.{expected, Tracks}
use aixgo.Graph.Levels.Correct.{Levelled, rounds-Levelled}

keys-in_degrees : (m : Map Node) → keys (in_degrees m) ≡ keys m
unfolding in_degrees
keys-in_degrees [] = refl
keys-in_degrees ((k, node) ∷ m) = λ i. k ∷ keys-in_degrees m i

in_degrees-IsMap : (m : Map Node) → IsMap m → IsMap (in_degrees m)
unfolding in_degrees
in_degrees-IsMap [] h = tt
in_degrees-IsMap ((k, node) ∷ m) h = (rw (keys-in_degrees m) (h.0), in_degrees-IsMap m h.1)

in_degrees-expected : (m : Map Node) (n : String) → lookup n (in_degrees m) ≡ expected m [] n
unfolding in_degrees lookup
in_degrees-expected [] n = refl
in_degrees-expected ((k, node) ∷ m) n =
    ground (arith, in_degrees-expected m n, pending-nil node.dependencies)

in_degrees-Tracks : (m : Map Node) → IsMap m → Tracks m [] (in_degrees m)
in_degrees-Tracks m h = record {
  is_map = in_degrees-IsMap m h;
  entry = in_degrees-expected m;
  closed = λ n node i e. absurd i;
}

length-keys : (m : Map Node) → length (keys m) ≡ length m
length-keys [] = refl
length-keys (x ∷ m) = omega (arith, length-keys m)

-- What an answer of `TopologicalLevels` has to mean.
abbrev pub LevelsVerdict : DependencyGraph → Outcome (List (List String)) → Type 0
LevelsVerdict g (done levels) = IsKnown g.nodes × IsAcyclic g.nodes × Levelled g.nodes [] levels
LevelsVerdict g (fails e) = (validate g ≡ fails e) × Verdict g.nodes (fails e)
LevelsVerdict g panics = ⊥
LevelsVerdict g out_of_fuel = ⊥

from_rounds :
    (g : DependencyGraph)
    → IsMap g.nodes
    → IsKnown g.nodes × IsAcyclic g.nodes
    → LevelsVerdict g (
        rounds
          (suc (length g.nodes))
          (dependents_of g.nodes [])
          (length g.nodes)
          (in_degrees g.nodes)
          [])
unfolding get_list lookup count
from_rounds g h (known, acyclic) =
    let (levels, ends, good) =
      rounds-Levelled g.nodes known acyclic h (dependents_of g.nodes [])
        (λ d n. omega (arith, count-dependents_of g.nodes [] d n h)) (suc (length g.nodes))
        (length g.nodes) [] (in_degrees g.nodes) [] (in_degrees-Tracks g.nodes h)
        (omega (arith, pending-nil (keys g.nodes), length-keys g.nodes)) (omega arith) in
    rw ends (known, acyclic, good)

after_validate :
    (g : DependencyGraph) (v : Outcome Unit)
    → IsMap g.nodes
    → validate g ≡ v
    → Verdict g.nodes v
    → LevelsVerdict g (
        v >>= λ _.
        rounds
          (suc (length g.nodes))
          (dependents_of g.nodes [])
          (length g.nodes)
          (in_degrees g.nodes)
          [])
after_validate g (done _) h e v = from_rounds g h v
after_validate g (fails x) h e v = (e, v)
after_validate g panics h e v = v
after_validate g out_of_fuel h e v = v

-- What TopologicalLevels answers is true. On success every dependency is an agent, there is no
-- cycle, and the levels are the ones that the dependencies call for: each is not empty, holds no
-- agent twice, and holds exactly the agents that are in no earlier level and whose dependencies all
-- are, and every agent is in a level. An error is that of Validate, and a true one; in particular
-- ErrCycleDetected is never returned by itself. The method does not panic, and the fuel suffices.
pub topological_levels-LevelsVerdict :
    (g : DependencyGraph) → IsMap g.nodes → LevelsVerdict g (topological_levels g)
unfolding topological_levels
topological_levels-LevelsVerdict g h = after_validate g (validate g) h refl (validate-Verdict g h)
