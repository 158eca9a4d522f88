-- ===== src/Security/Breaker/Tests.antt =====
-- Runs of a breaker whose world is a clock that each call moves on.
use aixgo.Common.{ℕ, ◌+◌, ◌≡◌, ◌≢◌, ◌⊎◌, refl, List, [], ◌∷◌, Option, none, some, arith}
use aixgo.Security.Breaker.{
  closed, open_circuit, half_open, CircuitBreaker, breaker_is_open, new_circuit_breaker, execute,
  run,
}
use aixgo.Security.Breaker.Invariant.{Inv, Blocks, run-new_circuit_breaker-Inv, execute-refuses}
use aixgo.Security.Breaker.Runs.{Fails, execute-recovers}

-- A call that takes one tick and fails, and one that takes one tick and succeeds.
abbrev bad : ℕ → ℕ × Option (Unit {0})
bad w = (w + 1, some tt)

abbrev good : ℕ → ℕ × Option (Unit {0})
good w = (w + 1, none)

abbrev clock : ℕ → ℕ
clock w = w

bad-Fails : Fails bad
bad-Fails w = λ e. cc

abbrev twice : List (ℕ → ℕ × Option (Unit {0}))
twice = bad ∷ bad ∷ []

abbrev tripped : CircuitBreaker
tripped = record {
  max_failures = 2;
  reset_timeout = 10;
  failures = 2;
  last_failure_time = 2;
  state = open_circuit;
}

opens_after_two : (run clock (new_circuit_breaker 2 10) twice 0).0 ≡ tripped
unfolding run execute new_circuit_breaker
opens_after_two = refl

blocked_at_five : (execute clock tripped good 5).2 ≡ some breaker_is_open
unfolding execute
blocked_at_five = refl

run-new_circuit_breaker-Inv_example : Inv (run clock (new_circuit_breaker 2 10) twice 0).0
run-new_circuit_breaker-Inv_example = run-new_circuit_breaker-Inv clock 2 10 twice 0 (omega arith)

execute-recovers_example :
    let (cb', w', _) = execute clock tripped good 13 in
    (w' ≡ 14)
    × ((((good 13).1 ≡ none) × (cb'.state ≡ closed) × (cb'.failures ≡ 0))
        ⊎ (((good 13).1 ≢ none)
            × (cb'.failures ≡ 1)
            × (cb'.last_failure_time ≡ 14)
            × (cb'.state ≡ half_open)))
execute-recovers_example = execute-recovers clock tripped good 13 refl (omega arith)

execute-refuses_example :
    (Blocks tripped 5 × (execute clock tripped good 5 ≡ (tripped, 5, some breaker_is_open)))
    ⊎ ((¬ Blocks tripped 5)
        × ((execute clock tripped good 5).1 ≡ 6)
        × ((execute clock tripped good 5).2 ≢ some breaker_is_open))
execute-refuses_example = execute-refuses clock tripped good 5
