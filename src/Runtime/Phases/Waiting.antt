-- ===== src/Runtime/Phases/Waiting.antt =====
-- When the wait for an agent ends.
use aixgo.Common.{ℕ, zero, suc, ◌<◌, ◌≡◌, ◌≢◌, ◌⊎◌, inl, inr, String, true, arith, refl, Bool-cases}
use aixgo.Runtime.Agents.{AgentPackage}
use aixgo.Runtime.Phases.{
  Event, context_done, timed_out, ticked, Ending, PhaseError, well, badly, wait_for_ready,
}

module _ (p : AgentPackage) (launch : p.A → p.W → p.W) (poll : p.W → p.W × Event p.E) where
  open p use {W, A, E}

  -- Within `k` more polls the context ends, the timeout fires, or a tick finds the agent ready.
  pub data Settles (a : A) : W → ℕ → Type 0 where
    stops : {w : W} {k : ℕ} → (poll w).1 ≢ ticked → Settles a w k
    finds_ready : {w : W} {k : ℕ} → p.ready a (poll w).0 ≡ true → Settles a w k
    later : {w : W} {k : ℕ} → Settles a (poll w).0 k → Settles a w (suc k)

  abbrev Ended : A → W × Ending E → Type 0
  Ended a (w', e) = ((e ≡ well) × (p.ready a w' ≡ true)) ⊎ ((x : PhaseError E) × (e ≡ badly x))

  poll_step :
      (fuel : ℕ) (name : String) (a : A) (w : W)
      → (((poll w).1 ≢ ticked) ⊎ (p.ready a (poll w).0 ≡ true))
        ⊎ Ended a (wait_for_ready p launch poll fuel name a (poll w).0)
      → Ended a (wait_for_ready p launch poll (suc fuel) name a w)
  unfolding wait_for_ready
  poll_step fuel name a w h = by_event (poll w).1 refl
    where
      by_event :
          (x : Event E)
          → (poll w).1 ≡ x
          → Ended a (wait_for_ready p launch poll (suc fuel) name a w)
      by_event (context_done e) q = rw (wait_for_ready, q) (inr (_, refl))
      by_event timed_out q = rw (wait_for_ready, q) (inr (_, refl))
      by_event ticked q = elim (Bool-cases (p.ready a (poll w).0)) [
        | inl y ↦ rw (wait_for_ready, q, y) (inl (refl, y))
        | inr y ↦
            rw (wait_for_ready, q, y)
              (elim h [
                | inl g ↦ elim g [ inl n ↦ absurd (n q) | inr y' ↦ absurd (ground arith) ]
                | inr r ↦ r
              ])
      ]

  -- If within `k` more polls the context ends, the timeout fires or a tick finds the agent ready, the
  -- wait ends with fuel above `k`; it ends well only with the agent ready, and else with an error.
  pub wait_for_ready_ends :
      (fuel k : ℕ) (name : String) (a : A) (w : W)
      → Settles a w k
      → k < fuel
      → let (w', e) = wait_for_ready p launch poll fuel name a w in
        ((e ≡ well) × (p.ready a w' ≡ true)) ⊎ ((x : PhaseError E) × (e ≡ badly x))
  unfolding wait_for_ready
  wait_for_ready_ends zero k name a w s h = absurd (omega arith)
  wait_for_ready_ends (suc fuel) k name a w (stops n) h = poll_step fuel name a w (inl (inl n))
  wait_for_ready_ends (suc fuel) k name a w (finds_ready y) h =
      poll_step fuel name a w (inl (inr y))
  wait_for_ready_ends (suc fuel) (suc k) name a w (later s) h =
      poll_step fuel name a w (inr (wait_for_ready_ends fuel k name a (poll w).0 s (omega arith)))
