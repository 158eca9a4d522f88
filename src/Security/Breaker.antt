-- ===== src/Security/Breaker.antt =====
-- CircuitBreaker of pkg/security/ratelimit.go. The guarded function is a step on a world `W` that
-- may fail with an `E`; the clock is read off the world. Each method runs under the breaker's own
-- mutex, so a history of calls is a list. A `max_failures` or a timeout below 0 is not modelled.
pub mod Invariant
pub mod Runs
pub mod Tests
use aixgo.Common.{
  ℕ, ◌+◌, ◌-◌, ltb, leb, if◌then◌else◌, ◌&&◌, Bool, true, false, List, [], ◌∷◌, Option, none, some,
}

pub data CircuitState : Type 0 where
  closed open_circuit half_open : CircuitState

pub record CircuitBreaker : Type 0 where
  pub max_failures : ℕ
  pub reset_timeout : ℕ
  pub failures : ℕ
  pub last_failure_time : ℕ
  pub state : CircuitState

pub data BreakerError (E : Type 0) : Type 0 where
  breaker_is_open : BreakerError E
  call_failed : E → BreakerError E

abbrev pub is_open : CircuitState → Bool
is_open open_circuit = true
is_open _ = false

pub new_circuit_breaker : ℕ → ℕ → CircuitBreaker
new_circuit_breaker max_failures reset_timeout = record {
  max_failures = max_failures;
  reset_timeout = reset_timeout;
  failures = 0;
  last_failure_time = 0;
  state = closed;
}

-- The first test of `Execute`: an open circuit goes half open once the timeout has passed.
attempt_reset : ℕ → CircuitBreaker → CircuitBreaker
attempt_reset now cb =
    if is_open cb.state && ltb cb.reset_timeout (now - cb.last_failure_time)
    then record cb { state = half_open; failures = 0 }
    else cb

on_failure : ℕ → CircuitBreaker → CircuitBreaker
on_failure now cb =
    let cb' = record cb { failures = cb.failures + 1; last_failure_time = now } in
    if leb cb'.max_failures cb'.failures then record cb' { state = open_circuit } else cb'

on_success : CircuitBreaker → CircuitBreaker
on_success cb = record cb { failures = 0; state = closed }

pub get_state : CircuitBreaker → CircuitState
get_state cb = cb.state

pub reset : CircuitBreaker → CircuitBreaker
reset cb = record cb { failures = 0; state = closed }

module _ {W E : Type 0} (now : W → ℕ) where
  -- The part of `Execute` after the call, which left the world `w`.
  settle : CircuitBreaker → W × Option E → CircuitBreaker × W × Option (BreakerError E)
  unfolding on_failure on_success
  settle cb (w, none) = (on_success cb, w, none)
  settle cb (w, some e) = (on_failure (now w) cb, w, some (call_failed e))

  pub execute :
      CircuitBreaker → (W → W × Option E) → W → CircuitBreaker × W × Option (BreakerError E)
  unfolding attempt_reset settle
  execute cb fn w =
      let cb' = attempt_reset (now w) cb in
      if is_open cb'.state then (cb', w, some breaker_is_open) else settle cb' (fn w)

  -- The calls of a history, one after the other.
  pub run : CircuitBreaker → List (W → W × Option E) → W → CircuitBreaker × W
  run cb [] w = (cb, w)
  run cb (fn ∷ fns) w = let (cb', w', _) = execute cb fn w in run cb' fns w'
