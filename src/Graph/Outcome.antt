-- ===== src/Graph/Outcome.antt =====
-- How a method of internal/graph can end: with a value, with one of the package's errors, with a
-- Go panic, or (in the model only) by running out of fuel.
use aixgo.Common.{List, String}

pub data GraphError : Type 0 where
  -- ErrUnknownDependency, with the agent and the agent that it names.
  unknown_dependency : String → String → GraphError
  -- CycleError, with its path.
  cycle_error : List String → GraphError
  -- ErrCycleDetected by itself.
  cycle_detected : GraphError

pub data Outcome (A : Type 0) : Type 0 where
  done : A → Outcome A
  fails : GraphError → Outcome A
  panics : Outcome A
  out_of_fuel : Outcome A

infixl 5 ◌>>=◌
abbrev pub ◌>>=◌ : {A B : Type 0} → Outcome A → (A → Outcome B) → Outcome B
done a >>= f = f a
fails e >>= f = fails e
panics >>= f = panics
out_of_fuel >>= f = out_of_fuel
