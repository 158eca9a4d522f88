-- ===== src/Patterns/Sequential/Chain.antt =====
-- How the input goes from agent to agent.
use aixgo.Common.{◌≡◌, List, [], ◌∷◌, ◌++◌, Option, none, some, String, arith, refl, sym, ◌∙◌}
use aixgo.Patterns.Sequential.{
  ErrorStrategy, stop_on_error, continue_on_error, ExecutionResult, execute, final_of, backwards,
  get_final_output,
}

module _ {W E : Type 0} (context_error : W → Option E)
    (executor : String → String → W → W × String × Option E) where
  -- The output of the last result without an error, or what went in before.
  pub carried : String → List (ExecutionResult E) → String
  carried input [] = input
  carried input (r ∷ rs) = carried (elim r.error [ none ↦ r.output | some _ ↦ input ]) rs

  abbrev next_input : String → String → Option E → String
  next_input input output failure = elim failure [ none ↦ output | some _ ↦ input ]

  -- The same from the last result on, with what went in before in place of the empty text.
  final_or : String → List (ExecutionResult E) → String
  final_or input [] = input
  final_or input (r ∷ rs) = elim r.error [ none ↦ r.output | some _ ↦ final_or input rs ]

  final_or-append :
      (input : String) (rs : List (ExecutionResult E)) (r : ExecutionResult E)
      → final_or input (rs ++ r ∷ [])
        ≡ final_or (elim r.error [ none ↦ r.output | some _ ↦ input ]) rs
  unfolding final_or
  final_or-append input [] r = refl
  final_or-append input (x ∷ rs) r = ground (arith, final_or-append input rs r)

  carried-final_or :
      (input : String) (rs : List (ExecutionResult E))
      → carried input rs ≡ final_or input (backwards rs)
  unfolding carried backwards final_or
  carried-final_or input [] = refl
  carried-final_or input (r ∷ rs) =
      carried-final_or (next_input input r.output r.error) rs
      ∙ sym (final_or-append input (backwards rs) r)

  final_of-final_or : (rs : List (ExecutionResult E)) → final_of rs ≡ final_or "" rs
  unfolding final_of final_or
  final_of-final_or [] = refl
  final_of-final_or (r ∷ rs) = ground (arith, final_of-final_or rs)

  -- The final output, which is looked for from the last result on, is what the results carry from the
  -- empty text on: the output of the last agent that succeeded.
  get_final_output-carried : (rs : List (ExecutionResult E)) → get_final_output rs ≡ carried "" rs
  unfolding get_final_output
  get_final_output-carried rs = final_of-final_or (backwards rs) ∙ sym (carried-final_or "" rs)

  abbrev pub Outcome : Type 0
  Outcome = W × List (ExecutionResult E) × Option E

  -- One run after another, on what the first one carries; not at all after an error.
  pub then_run : ErrorStrategy → List String → String → Outcome → Outcome
  then_run strategy agents input (w, results, some e) = (w, results, some e)
  then_run strategy agents input (w, results, none) =
      let (w', results', e) =
        execute context_error executor strategy agents (carried input results) w in
      (w', results ++ results', e)

  prepend : ExecutionResult E → Outcome → Outcome
  prepend r (w, rs, e) = (w, r ∷ rs, e)

  then_run-prepend :
      (strategy : ErrorStrategy) (agents : List String) (input : String) (r : ExecutionResult E)
      (o : Outcome)
      → prepend r (then_run strategy agents (next_input input r.output r.error) o)
        ≡ then_run strategy agents input (prepend r o)
  unfolding then_run prepend carried
  then_run-prepend strategy agents input r (w, rs, some e) = refl
  then_run-prepend strategy agents input r (w, rs, none) = refl

  module _ (strategy : ErrorStrategy) (agents : List String) (a input : String) (w : W) where
    abbrev run : Outcome
    run = execute context_error executor strategy (a ∷ agents) input w

    execute_cancelled : (e : E) → context_error w ≡ some e → run ≡ (w, [], some e)
    unfolding execute
    execute_cancelled e q = ground arith

    module _ (w' : W) (output : String) where
      execute_succeeds :
          context_error w ≡ none
          → executor a input w ≡ (w', output, none)
          → run
            ≡ prepend
                (record { agent_name = a; output = output; error = none })
                (execute context_error executor strategy agents output w')
      unfolding execute prepend
      execute_succeeds q y = ground arith

      execute_stops :
          (e : E)
          → context_error w ≡ none
          → executor a input w ≡ (w', output, some e)
          → strategy ≡ stop_on_error
          → run ≡ (w', record { agent_name = a; output = output; error = some e } ∷ [], some e)
      unfolding execute
      execute_stops e q y z = ground arith

      execute_continues :
          (e : E)
          → context_error w ≡ none
          → executor a input w ≡ (w', output, some e)
          → strategy ≡ continue_on_error
          → run
            ≡ prepend
                (record { agent_name = a; output = output; error = some e })
                (execute context_error executor strategy agents input w')
      unfolding execute prepend
      execute_continues e q y z = ground arith

  module _ (strategy : ErrorStrategy) (agents others : List String) (a input : String) (w : W)
      (ih : (input : String) (w : W)
        → execute context_error executor strategy (agents ++ others) input w
          ≡ then_run strategy others input
              (execute context_error executor strategy agents input w)) where
    result : W × String × Option E → ExecutionResult E
    result (w', output, failure) = record { agent_name = a; output = output; error = failure }

    -- Both sides go on after this agent.
    after_agent :
        (w' : W) (output : String) (failure : Option E)
        → prepend (result (w', output, failure)) (
            execute context_error executor strategy
              (agents ++ others)
              (next_input input output failure)
              w')
          ≡ then_run strategy others input (
              prepend (result (w', output, failure)) (
                execute context_error executor strategy agents
                  (next_input input output failure)
                  w'))
    unfolding result
    after_agent w' output failure =
        rw (ih (next_input input output failure) w')
          (then_run-prepend strategy others input (result (w', output, failure)) _)

    by_cases :
        (c : Option E) (x : W × String × Option E)
        → context_error w ≡ c
        → executor a input w ≡ x
        → execute context_error executor strategy (a ∷ agents ++ others) input w
          ≡ then_run strategy others input
              (execute context_error executor strategy (a ∷ agents) input w)
    unfolding then_run result
    by_cases (some e) x q y =
        rw
          (
            execute_cancelled strategy (agents ++ others) a input w e q,
            execute_cancelled strategy agents a input w e q,
          )
          refl
    by_cases none (w', output, none) q y =
        rw
          (
            execute_succeeds strategy (agents ++ others) a input w w' output q y,
            execute_succeeds strategy agents a input w w' output q y,
          )
          (after_agent w' output none)
    by_cases none (w', output, some e) q y = by_strategy strategy refl
      where
        by_strategy :
            (s : ErrorStrategy)
            → strategy ≡ s
            → execute context_error executor strategy (a ∷ agents ++ others) input w
              ≡ then_run strategy others input
                  (execute context_error executor strategy (a ∷ agents) input w)
        by_strategy stop_on_error z =
            rw
              (
                execute_stops strategy (agents ++ others) a input w w' output e q y z,
                execute_stops strategy agents a input w w' output e q y z,
              )
              refl
        by_strategy continue_on_error z =
            rw
              (
                execute_continues strategy (agents ++ others) a input w w' output e q y z,
                execute_continues strategy agents a input w w' output e q y z,
              )
              (after_agent w' output (some e))

  -- Running two lists of agents one after the other is running the first, and then, unless it ended
  -- with an error, the second on the output of the last agent that succeeded, or on the input if none
  -- did.
  pub execute-append :
      (strategy : ErrorStrategy) (agents others : List String) (input : String) (w : W)
      → execute context_error executor strategy (agents ++ others) input w
        ≡ then_run strategy others input (execute context_error executor strategy agents input w)
  unfolding execute then_run carried
  execute-append strategy [] others input w = refl
  execute-append strategy (a ∷ agents) others input w =
      by_cases strategy agents others a input w (execute-append strategy agents others)
        (context_error w) (executor a input w) refl refl
