-- ===== src/Runtime/Calls.antt =====
-- Call and CallParallel of agent/local_runtime.go. The goroutines of CallParallel run here one after
-- the other; the theorems hold for every list of targets, so for every such order.
use aixgo.Common.{
  ◌≡◌, ◌≢◌, ◌⊎◌, inl, inr, List, [], ◌∷◌, none, some, String, if◌then◌else◌, ◌∈◌, Nodup, dec_mem,
  arith, refl, sym, ◌∙◌,
}
use aixgo.Common.Maps.{Map, lookup, insert, lookup-insert}
use aixgo.Runtime.LocalRuntime.{LocalRuntime, agent_not_found, agent_not_ready}
use aixgo.Runtime.Agents.{AgentPackage, CallError, runtime_error, Reply, replies, refuses}

module _ (p : AgentPackage) where
  open p use {W, A, M, E}

  pub call : LocalRuntime A M → String → M → W → W × Reply M E
  call r target input w = elim (lookup target r.agents) [
    | none ↦ (w, refuses (runtime_error (agent_not_found target)))
    | some a ↦
        if p.ready a w
        then p.execute a input w
        else (w, refuses (runtime_error (agent_not_ready target)))
  ]

  -- The two maps of the answer, with the reply of one more target.
  record_reply : String → Reply M E → Map M × Map (CallError E) → Map M × Map (CallError E)
  record_reply t (replies m) (results, errors) = (insert t m results, errors)
  record_reply t (refuses e) (results, errors) = (results, insert t e errors)

  pub call_all :
      LocalRuntime A M
      → List String
      → M
      → W
      → Map M × Map (CallError E)
      → W × Map M × Map (CallError E)
  unfolding call record_reply
  call_all r [] input w (results, errors) = (w, results, errors)
  call_all r (t ∷ targets) input w answers =
      let (w', reply) = call r t input w in
      call_all r targets input w' (record_reply t reply answers)

  pub call_parallel : LocalRuntime A M → List String → M → W → W × Map M × Map (CallError E)
  unfolding call_all
  call_parallel r targets input w = call_all r targets input w ([], [])

  -- A name is in the results, in the errors, or in neither, and never in both.
  abbrev pub InOne : String → Map M → Map (CallError E) → Type 0
  InOne t results errors =
      ((lookup t results ≢ none) × (lookup t errors ≡ none))
      ⊎ ((lookup t results ≡ none) × (lookup t errors ≢ none))

  abbrev pub InNone : String → Map M → Map (CallError E) → Type 0
  InNone t results errors = (lookup t results ≡ none) × (lookup t errors ≡ none)

  record_reply-InOne :
      (t : String) (reply : Reply M E) (results : Map M) (errors : Map (CallError E))
      → InNone t results errors
      → InOne t
          (record_reply t reply (results, errors)).0
          (record_reply t reply (results, errors)).1
  unfolding record_reply
  record_reply-InOne t (replies m) results errors h = ground (arith, lookup-insert t t m results)
  record_reply-InOne t (refuses e) results errors h = ground (arith, lookup-insert t t e errors)

  record_reply_other :
      (t n : String) (reply : Reply M E) (results : Map M) (errors : Map (CallError E))
      → t ≢ n
      → (lookup n (record_reply t reply (results, errors)).0 ≡ lookup n results)
        × (lookup n (record_reply t reply (results, errors)).1 ≡ lookup n errors)
  unfolding record_reply
  record_reply_other t n (replies m) results errors h = ground (arith, lookup-insert t n m results)
  record_reply_other t n (refuses e) results errors h = ground (arith, lookup-insert t n e errors)

  call_all_other :
      (r : LocalRuntime A M) (targets : List String) (input : M) (w : W) (n : String)
      (results : Map M) (errors : Map (CallError E))
      → ¬ (n ∈ targets)
      → let (w', results', errors') = call_all r targets input w (results, errors) in
        (lookup n results' ≡ lookup n results) × (lookup n errors' ≡ lookup n errors)
  unfolding call_all
  call_all_other r [] input w n results errors h = (refl, refl)
  call_all_other r (t ∷ targets) input w n results errors h =
      let (w', reply) = call r t input w in
      let (results', errors') = record_reply t reply (results, errors) in
      let first = record_reply_other t n reply results errors (λ e. h (inl (sym e))) in
      let rest = call_all_other r targets input w' n results' errors' (λ m. h (inr m)) in
      (rest.0 ∙ first.0, rest.1 ∙ first.1)

  call_all-InOne :
      (r : LocalRuntime A M) (targets : List String) (input : M) (w : W) (n : String)
      (results : Map M) (errors : Map (CallError E))
      → Nodup targets
      → n ∈ targets
      → InNone n results errors
      → let (w', results', errors') = call_all r targets input w (results, errors) in
        InOne n results' errors'
  unfolding call_all
  call_all-InOne r [] input w n results errors d h clean = absurd h
  call_all-InOne r (t ∷ targets) input w n results errors d (inl e) clean =
      let (w', reply) = call r t input w in
      let (results', errors') = record_reply t reply (results, errors) in
      let one = record_reply-InOne n reply results errors clean in
      let rest = call_all_other r targets input w' n results' errors' (λ m. d.0 (ground arith)) in
      ground arith
  call_all-InOne r (t ∷ targets) input w n results errors d (inr h) clean =
      let (w', reply) = call r t input w in
      let (results', errors') = record_reply t reply (results, errors) in
      let first = record_reply_other t n reply results errors (λ e. d.0 (ground arith)) in
      call_all-InOne r targets input w' n results' errors' d.1 h (ground arith)

  -- For targets without repetition, whatever order their calls take, each target has exactly one of
  -- a result and an error, and no other name has either.
  pub call_parallel-InOne :
      (r : LocalRuntime A M) (targets : List String) (input : M) (w : W) (n : String)
      → Nodup targets
      → let (w', results, errors) = call_parallel r targets input w in
        ((n ∈ targets) × InOne n results errors) ⊎ ((¬ (n ∈ targets)) × InNone n results errors)
  unfolding call_parallel lookup
  call_parallel-InOne r targets input w n d = elim (dec_mem n targets) [
    | yes h ↦ inl (h, call_all-InOne r targets input w n [] [] d h (refl, refl))
    | no h ↦ inr (h, call_all_other r targets input w n [] [] h)
  ]
