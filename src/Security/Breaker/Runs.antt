-- ===== src/Security/Breaker/Runs.antt =====
-- How many failures in a row open the circuit, and how it closes again.
use aixgo.Common.{
  ℕ, ◌+◌, ◌-◌, ◌≤◌, ◌<◌, ◌≡◌, ◌≢◌, ◌⊎◌, refl, sym, ◌∙◌, List, [], ◌∷◌, Option, none, arith, All,
  length, ltb, if◌then◌else◌,
}
use aixgo.Security.Breaker.{
  closed, open_circuit, half_open, CircuitBreaker, attempt_reset, settle, execute, run,
}

abbrev pub Fails : {W E : Type 0} → (W → W × Option E) → Type 0
Fails {W} fn = (w : W) → (fn w).1 ≢ none

module _ {W E : Type 0} (now : W → ℕ) where
  -- One failing call of a circuit that is not open.
  execute-Fails :
      (cb : CircuitBreaker) (fn : W → W × Option E) (w : W)
      → Fails fn
      → cb.state ≢ open_circuit
      → let cb' = (execute now cb fn w).0 in
        (cb'.failures ≡ cb.failures + 1)
        × (cb'.max_failures ≡ cb.max_failures)
        × (cb.failures + 1 < cb.max_failures → cb'.state ≡ cb.state)
        × (cb.max_failures ≤ cb.failures + 1 → cb'.state ≡ open_circuit)
  unfolding execute settle attempt_reset
  execute-Fails cb fn w fails s = ground (arith, fails w)

  run-below :
      (cb : CircuitBreaker) (fns : List (W → W × Option E)) (w : W)
      → cb.state ≢ open_circuit
      → All Fails fns
      → cb.failures + length fns < cb.max_failures
      → ((run now cb fns w).0.state ≡ cb.state)
        × ((run now cb fns w).0.failures ≡ cb.failures + length fns)
  unfolding run
  run-below cb [] w s fails h = (refl, omega arith)
  run-below cb (fn ∷ fns) w s fails h =
      let (count, limit, kept, _) = execute-Fails cb fn w fails.0 s in
      let same = kept (omega arith) in
      let (state, sum) =
        run-below (execute now cb fn w).0 fns (execute now cb fn w).1 (λ e. s (sym same ∙ e))
          fails.1 (omega arith) in
      (state ∙ same, omega arith)

  run-reaches :
      (cb : CircuitBreaker) (fns : List (W → W × Option E)) (w : W)
      → cb.state ≢ open_circuit
      → cb.failures < cb.max_failures
      → All Fails fns
      → cb.failures + length fns ≡ cb.max_failures
      → (run now cb fns w).0.state ≡ open_circuit
  unfolding run
  run-reaches cb [] w s h fails e = absurd (omega arith)
  run-reaches cb (fn ∷ []) w s h fails e = (execute-Fails cb fn w fails.0 s).3 (omega arith)
  run-reaches cb (fn ∷ gn ∷ fns) w s h fails e =
      let (count, limit, kept, _) = execute-Fails cb fn w fails.0 s in
      let same = kept (omega arith) in
      run-reaches (execute now cb fn w).0 (gn ∷ fns) (execute now cb fn w).1 (λ o. s (sym same ∙ o))
        (omega arith) fails.1 (omega arith)

  -- From a circuit that is not open, failing calls are counted one by one: the circuit keeps its
  -- state while the count is below the limit, and the call that reaches the limit opens it.
  run-failures :
      (cb : CircuitBreaker) (fns : List (W → W × Option E)) (w : W)
      → cb.state ≢ open_circuit
      → cb.failures < cb.max_failures
      → All Fails fns
      → cb.failures + length fns ≤ cb.max_failures
      → (run now cb fns w).0.state
        ≡ (if ltb (cb.failures + length fns) cb.max_failures then cb.state else open_circuit)
  run-failures cb fns w s h fails l =
      ground (arith, run-below cb fns w s fails, run-reaches cb fns w s h fails)

  -- Once the timeout of an open circuit has passed, the next call runs the function. If it succeeds
  -- the circuit closes with a count of 0. If it fails the count is 1, so that the circuit opens
  -- again only if the limit is 1 or less, and stays half open otherwise.
  pub execute-recovers :
      (cb : CircuitBreaker) (fn : W → W × Option E) (w : W)
      → cb.state ≡ open_circuit
      → cb.reset_timeout < now w - cb.last_failure_time
      → let (cb', w', _) = execute now cb fn w in
        (w' ≡ (fn w).0)
        × ((((fn w).1 ≡ none) × (cb'.state ≡ closed) × (cb'.failures ≡ 0))
            ⊎ (((fn w).1 ≢ none)
                × (cb'.failures ≡ 1)
                × (cb'.last_failure_time ≡ now (fn w).0)
                × (cb'.state ≡ (if ltb 1 cb.max_failures then half_open else open_circuit))))
  unfolding execute settle attempt_reset
  execute-recovers cb fn w s t = ground arith
