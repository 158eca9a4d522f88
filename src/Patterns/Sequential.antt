-- ===== src/Patterns/Sequential.antt =====
-- SequentialPattern of internal/supervisor/patterns/sequential.go: agents one after the other, each on
-- the output of the one before. The executor and the context are read off a world `W`; durations and
-- the branching function, whose answer the source drops, are left out.
pub mod Chain
mod Tests
use aixgo.Common.{List, [], ◌∷◌, ◌++◌, Option, none, some, String}

pub data ErrorStrategy : Type 0 where
  stop_on_error continue_on_error : ErrorStrategy

pub record ExecutionResult (E : Type 0) : Type 0 where
  pub agent_name : String
  pub output : String
  pub error : Option E

module _ {W E : Type 0} (context_error : W → Option E)
    (executor : String → String → W → W × String × Option E) where
  -- The loop of `Execute`: the results in order, and the error that it returns.
  pub execute : ErrorStrategy → List String → String → W → W × List (ExecutionResult E) × Option E
  execute strategy [] input w = (w, [], none)
  execute strategy (agent ∷ agents) input w =
      let (w', output, failure) = executor agent input w in
      let result : ExecutionResult E = record {
        agent_name = agent;
        output = output;
        error = failure;
      } in
      let next : String = elim failure [ none ↦ output | some _ ↦ input ] in
      let (w'', rest, e') = execute strategy agents next w' in
      elim (context_error w) [
        | some e ↦ (w, [], some e)
        | none ↦ elim failure [
          | none ↦ (w'', result ∷ rest, e')
          | some e ↦ elim strategy [
            | stop_on_error ↦ (w', result ∷ [], some e)
            | continue_on_error ↦ (w'', result ∷ rest, e')
          ]
        ]
      ]

-- The loop of `GetFinalOutput` over the results from the last one on.
final_of : {E : Type 0} → List (ExecutionResult E) → String
final_of [] = ""
final_of (r ∷ rs) = elim r.error [ none ↦ r.output | some _ ↦ final_of rs ]

backwards : {A : Type 0} → List A → List A
backwards [] = []
backwards (x ∷ xs) = backwards xs ++ x ∷ []

pub get_final_output : {E : Type 0} → List (ExecutionResult E) → String
unfolding final_of backwards
get_final_output results = final_of (backwards results)
