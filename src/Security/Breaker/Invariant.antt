-- ===== src/Security/Breaker/Invariant.antt =====
-- What holds of a circuit breaker between two calls, and when it lets a call through.
use aixgo.Common.{ℕ, ◌-◌, ◌≤◌, ◌<◌, ◌≡◌, ◌≢◌, ◌⊎◌, List, [], ◌∷◌, Option, none, some, arith}
use aixgo.Security.Breaker.{
  open_circuit, CircuitBreaker, breaker_is_open, new_circuit_breaker, attempt_reset, reset, settle,
  execute, run,
}

-- The failure count tells an open circuit from one that is not.
pub record Inv (cb : CircuitBreaker) : Type 0 where
  pub limit : 0 < cb.max_failures
  pub counting : cb.state ≢ open_circuit → cb.failures < cb.max_failures
  pub tripped : cb.state ≡ open_circuit → cb.max_failures ≤ cb.failures

new_circuit_breaker-Inv :
    (max_failures reset_timeout : ℕ)
    → 0 < max_failures
    → Inv (new_circuit_breaker max_failures reset_timeout)
unfolding new_circuit_breaker
new_circuit_breaker-Inv max_failures reset_timeout h = ground arith

pub reset-Inv : (cb : CircuitBreaker) → Inv cb → Inv (reset cb)
unfolding reset
reset-Inv cb h = ground arith

attempt_reset-Inv : (now : ℕ) (cb : CircuitBreaker) → Inv cb → Inv (attempt_reset now cb)
unfolding attempt_reset
attempt_reset-Inv now cb h = ground arith

-- The circuit is open and its timeout has not passed.
abbrev pub Blocks : CircuitBreaker → ℕ → Type 0
Blocks cb time = (cb.state ≡ open_circuit) × (time - cb.last_failure_time ≤ cb.reset_timeout)

module _ {W E : Type 0} (now : W → ℕ) where
  settle-Inv :
      (cb : CircuitBreaker) (r : W × Option E)
      → cb.state ≢ open_circuit
      → Inv cb
      → Inv (settle now cb r).0
  unfolding settle
  settle-Inv cb (w, none) s h = ground arith
  settle-Inv cb (w, some e) s h = ground arith

  execute-Inv :
      (cb : CircuitBreaker) (fn : W → W × Option E) (w : W) → Inv cb → Inv (execute now cb fn w).0
  unfolding execute
  execute-Inv cb fn w h =
      ground (arith, attempt_reset-Inv (now w) cb h, settle-Inv (attempt_reset (now w) cb) (fn w))

  run-Inv :
      (cb : CircuitBreaker) (fns : List (W → W × Option E)) (w : W)
      → Inv cb
      → Inv (run now cb fns w).0
  unfolding run
  run-Inv cb [] w h = h
  run-Inv cb (fn ∷ fns) w h =
      run-Inv (execute now cb fn w).0 fns (execute now cb fn w).1 (execute-Inv cb fn w h)

  -- After any history of calls of a new breaker whose limit is not 0, the failure count is below
  -- the limit unless the circuit is open, and has reached it if the circuit is open.
  pub run-new_circuit_breaker-Inv :
      (max_failures reset_timeout : ℕ) (fns : List (W → W × Option E)) (w : W)
      → 0 < max_failures
      → Inv (run now (new_circuit_breaker max_failures reset_timeout) fns w).0
  run-new_circuit_breaker-Inv max_failures reset_timeout fns w h =
      run-Inv _ fns w (new_circuit_breaker-Inv max_failures reset_timeout h)

  -- A call is refused exactly when the circuit is open and its timeout has not passed: breaker and
  -- world stay as they were. Any other call runs the function, and leaves the world that it left.
  pub execute-refuses :
      (cb : CircuitBreaker) (fn : W → W × Option E) (w : W)
      → (Blocks cb (now w) × (execute now cb fn w ≡ (cb, w, some breaker_is_open)))
        ⊎ ((¬ Blocks cb (now w))
            × ((execute now cb fn w).1 ≡ (fn w).0)
            × ((execute now cb fn w).2 ≢ some breaker_is_open))
  unfolding execute settle attempt_reset
  execute-refuses cb fn w = ground arith
