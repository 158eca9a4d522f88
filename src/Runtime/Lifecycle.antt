-- ===== src/Runtime/Lifecycle.antt =====
-- Start and Stop of agent/local_runtime.go. The goroutines that start or stop the agents run here one
-- after the other, and of several errors the first one of the list counts.
use aixgo.Common.{
  ◌≡◌, ◌≢◌, ◌⊎◌, inl, inr, List, [], ◌∷◌, Option, none, some, String, true, false, if◌then◌else◌,
  ◌∈◌, arith, Bool-cases,
}
use aixgo.Common.Maps.{Map, lookup, insert}
use aixgo.Runtime.LocalRuntime.{LocalRuntime, already_started, not_started}
use aixgo.Runtime.LocalRuntime.Valid.{IsValid}
use aixgo.Runtime.Agents.{
  AgentPackage, CallError, runtime_error, agent_error, failed_to_start, started_but_not_ready,
}

module _ (p : AgentPackage) where
  open p use {W, A, M, E}

  -- The agents of a list of names; a name without an agent is passed over.
  pub collect : Map A → List String → List A
  collect agents [] = []
  collect agents (n ∷ names) = elim (lookup n agents) [
    | none ↦ collect agents names
    | some a ↦ a ∷ collect agents names
  ]

  pub start_all : List A → W → Map E → W × Map E
  start_all [] w errors = (w, errors)
  start_all (a ∷ agents) w errors =
      let (w', e) = p.start a w in
      start_all agents w' (elim e [ none ↦ errors | some x ↦ insert (p.name a) x errors ])

  pub first_not_ready : List A → W → Option (CallError E)
  first_not_ready [] w = none
  first_not_ready (a ∷ agents) w =
      if p.ready a w then first_not_ready agents w else some (started_but_not_ready (p.name a))

  verdict : List A → W → Map E → Option (CallError E)
  unfolding first_not_ready
  verdict agents w [] = first_not_ready agents w
  verdict agents w ((n, x) ∷ _) = some (failed_to_start n x)

  pub start : LocalRuntime A M → W → LocalRuntime A M × W × Option (CallError E)
  unfolding collect start_all verdict
  start r w =
      if r.started
      then (r, w, some (runtime_error already_started))
      else (let agents = collect r.agents r.order in
          let (w', errors) = start_all agents w [] in
          (record r { started = true }, w', verdict agents w' errors))

  values : Map A → List A
  values [] = []
  values ((_, a) ∷ agents) = a ∷ values agents

  pub stop_all : List A → W → Option E → W × Option E
  stop_all [] w first = (w, first)
  stop_all (a ∷ agents) w first =
      let (w', e) = p.stop a w in stop_all agents w' (elim first [ some x ↦ some x | none ↦ e ])

  pub stop : LocalRuntime A M → W → LocalRuntime A M × W × Option (CallError E)
  unfolding stop_all values
  stop r w =
      if r.started
      then (let (w', e) = stop_all (values r.agents) w none in
          (
            record r { started = false },
            w',
            elim e [ none ↦ none | some x ↦ some (agent_error x) ],
          ))
      else (r, w, some (runtime_error not_started))

  collect-mem :
      (agents : Map A) (names : List String) (n : String) (a : A)
      → n ∈ names
      → lookup n agents ≡ some a
      → a ∈ collect agents names
  unfolding collect
  collect-mem agents [] n a m h = absurd m
  collect-mem agents (k ∷ names) n a m h = ground (arith, collect-mem agents names n a)

  first_not_ready-none :
      (agents : List A) (w : W) (a : A)
      → first_not_ready agents w ≡ none
      → a ∈ agents
      → p.ready a w ≡ true
  unfolding first_not_ready
  first_not_ready-none [] w a e m = absurd m
  first_not_ready-none (b ∷ agents) w a e m = ground (arith, first_not_ready-none agents w a)

  verdict-none :
      (agents : List A) (w : W) (errors : Map E) (a : A)
      → verdict agents w errors ≡ none
      → a ∈ agents
      → p.ready a w ≡ true
  unfolding verdict
  verdict-none agents w [] a e m = first_not_ready-none agents w a e m
  verdict-none agents w ((n, x) ∷ errors) a e m = cc

  -- A runtime that is started refuses a second start and starts nothing. Any other start leaves the
  -- runtime started, also where it reports an error; it changes no agents; and where it reports none,
  -- every registered agent is ready at its end.
  start_ready :
      (r : LocalRuntime A M) (w : W) (n : String) (a : A)
      → IsValid A M r
      → lookup n r.agents ≡ some a
      → let (r', w', e) = start r w in
        ((r.started ≡ true) × (r' ≡ r) × (w' ≡ w) × (e ≡ some (runtime_error already_started)))
        ⊎ ((r.started ≡ false)
            × (r' ≡ record r { started = true })
            × ((e ≢ none) ⊎ (p.ready a w' ≡ true)))
  unfolding start
  start_ready r w n a v h = elim (Bool-cases r.started) [
    | inl y ↦ ground arith
    | inr y ↦
        let agents = collect r.agents r.order in
        let (w', errors) = start_all agents w [] in
        let listed : n ∈ r.order = (v.listed n).1 (λ e. ground arith) in
        let mem = collect-mem r.agents r.order n a listed h in
        ground (arith, verdict-none agents w' errors a)
  ]

  -- Stopping a started runtime makes it ready for a new start, also where an agent reports an error;
  -- a start after a start, or a stop after a stop, is refused.
  pub start-stop :
      (r : LocalRuntime A M) (w w' w'' : W)
      → let (r', _, _) = start r w in
        let (r'', _, _) = stop r' w' in
        (r'.started ≡ true)
        × (start r' w' ≡ (r', w', some (runtime_error already_started)))
        × (r'' ≡ record r { started = false })
        × (stop r'' w'' ≡ (r'', w'', some (runtime_error not_started)))
  unfolding start stop
  start-stop r w w' w'' = elim (Bool-cases r.started) [
    | inl y ↦ ground arith
    | inr y ↦ ground arith
  ]
