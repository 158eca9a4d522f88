-- ===== src/Patterns/Sequential/Tests.antt =====
-- Agents that put their name before the input; the one named `bad` fails.
use aixgo.Common.{
  ℕ, ◌+◌, ◌≡◌, refl, List, [], ◌∷◌, Option, none, some, String, string_discrete, ite,
}
use aixgo.Patterns.Sequential.{continue_on_error, ExecutionResult, execute, get_final_output}
use aixgo.Patterns.Sequential.Chain.{then_run, execute-append}

abbrev no_end : ℕ → Option (Unit {0})
no_end w = none

abbrev named : String → String → ℕ → ℕ × String × Option (Unit {0})
named agent input w = ite (string_discrete agent "bad") (w + 1, "", some tt) (w + 1, agent, none)

abbrev ran : List (ExecutionResult (Unit {0}))
ran = (execute no_end named continue_on_error ("a" ∷ "bad" ∷ []) "in" 0).1

a_is_final : get_final_output ran ≡ "a"
unfolding execute get_final_output string_discrete
a_is_final = refl

execute-append_example :
    execute no_end named continue_on_error ("a" ∷ "bad" ∷ "c" ∷ []) "in" 0
    ≡ then_run no_end named continue_on_error
        ("c" ∷ [])
        "in"
        (execute no_end named continue_on_error ("a" ∷ "bad" ∷ []) "in" 0)
execute-append_example =
    execute-append no_end named continue_on_error ("a" ∷ "bad" ∷ []) ("c" ∷ []) "in" 0
