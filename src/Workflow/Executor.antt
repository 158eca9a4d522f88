-- ===== src/Workflow/Executor.antt =====
-- The Executor of internal/workflow/executor.go. The world `W` holds what the source takes from
-- outside: the clock, the context, the supply of ids, and whatever the steps' handlers act on. The
-- store is state of its own, which a handler cannot reach. A handler is given the context map itself,
-- so it hands back what it left of it. The main loop of the source has no bound; here it has fuel.
pub mod Retry
pub mod Termination
pub mod Recovery
pub mod Control
pub mod Outcome
pub mod Pausing
mod Tests
use aixgo.Common.{
  ℕ, zero, suc, ◌+◌, List, [], ◌∷◌, Option, none, some, String, string_discrete, ite, Bool, true,
  false, if◌then◌else◌,
}
use aixgo.Common.Maps.{Map, lookup, insert}
use aixgo.Workflow.Types.{
  Status, Status-discrete, running, paused, completed, failed, cancelled, StepError, no_handler,
  handler_error, wait_ended, WorkflowError, id_required, start_step_required, start_step_not_found,
  workflow_not_found, step_not_found, load_state, save_initial_state, save_checkpoint_error,
  save_state, store_error, context_done, step_failed, cannot_pause, cannot_resume, Result, ok, err,
  State, Checkpoint,
}
use aixgo.Workflow.Store.{Store}

module _ (V E W : Type 0) where
  -- What the executor takes from outside.
  pub record Environment : Type 0 where
    pub now : W → ℕ
    pub new_id : W → String × W
    -- `ctx.Err()` where the loop looks at the context.
    pub context_error : W → Option E
    -- The wait before a retry, of so many seconds under a step timeout: the error if the context ends.
    pub wait_retry : ℕ → ℕ → W → W × Option E
    -- An output map as a value of type `any`.
    pub box : Map V → V

  -- A handler's world, the context map as it left it, and its output or error.
  abbrev pub Handler : Type 0
  Handler = ℕ → Map V → W → W × Map V × Result E (Map V)

  pub record Step : Type 0 where
    pub id : String
    pub handler : Option Handler
    pub next_steps : List String
    pub retries : ℕ
    pub timeout : ℕ

  pub record Workflow : Type 0 where
    pub id : String
    pub steps : Map Step
    pub start_step : String

  module _ (env : Environment) (store : Store V E) where
    open store use {S}

    -- The retry loop: `attempt` counts from 0, and `left` attempts remain after this one.
    pub attempts : Handler → ℕ → ℕ → ℕ → Map V → W → W × Map V × Result (StepError E) (Map V)
    attempts h timeout attempt zero context w =
        let (w', context', r) = h timeout context w in
        (w', context', elim r [ ok output ↦ ok output | err e ↦ err (handler_error e) ])
    attempts h timeout attempt (suc left) context w =
        let (w', context', r) = h timeout context w in
        elim r [
          | ok output ↦ (w', context', ok output)
          | err _ ↦
              let (w'', ended) = env.wait_retry (attempt + 1) timeout w' in
              elim ended [
                | some e ↦ (w'', context', err (wait_ended e))
                | none ↦ attempts h timeout (attempt + 1) left context' w''
              ]
        ]

    -- No retries, or a negative number of them, is one attempt.
    retries_left : ℕ → ℕ
    retries_left zero = 0
    retries_left (suc n) = n

    pub execute_step : Step → Map V → W → W × Map V × Result (StepError E) (Map V)
    unfolding attempts retries_left
    execute_step step context w = elim step.handler [
      | none ↦ (w, context, err (no_handler step.id))
      | some h ↦ attempts h step.timeout 0 (retries_left step.retries) context w
    ]

    -- `for k, v := range output { context[k] = v }`
    pub merge : Map V → Map V → Map V
    merge [] context = context
    merge ((k, v) ∷ output) context = merge output (insert k v context)

    pub first_next : List String → String
    first_next [] = ""
    first_next (name ∷ _) = name

    -- What the loop works on.
    pub record Conf : Type 0 where
      pub state : State V E
      pub store_state : S
      pub world : W

    pub data Progress : Type 0 where
      goes_on : Conf → Progress
      -- The loop is left, with an error or with none.
      ends : Conf → Option (WorkflowError E) → Progress

    pub complete : Conf → Progress
    complete c =
        let t = env.now c.world in
        let st = record c.state { status = completed; completed_at = some t } in
        let (s', st', e) = store.save st t c.store_state in
        ends (record c { state = st'; store_state = s' })
          (elim e [ none ↦ none | some x ↦ some (store_error x) ])

    -- After the handler: its output is kept and merged, and the state moves on and is saved.
    pub finish_step : Step → Conf → Map V → Progress
    unfolding merge first_next
    finish_step step c output =
        let t = env.now c.world in
        let st = record c.state {
          step_states = insert step.id (env.box output) c.state.step_states;
          context = merge output c.state.context;
          current_step = first_next step.next_steps;
          updated_at = t;
        } in
        let (s', st', e) = store.save st t c.store_state in
        let c' : Conf = record c { state = st'; store_state = s' } in
        elim e [ none ↦ goes_on c' | some x ↦ ends c' (some (save_state x)) ]

    pub run_handler : Step → Conf → Progress
    unfolding execute_step finish_step
    run_handler step c =
        let (w', context', r) = execute_step step c.state.context c.world in
        let c' : Conf = record c { state = record c.state { context = context' }; world = w' } in
        elim r [
          | err e ↦ ends c' (some (step_failed step.id e))
          | ok output ↦ finish_step step c' output
        ]

    -- The checkpoint before a step: its name, and the step states so far.
    pub checkpoint_first : Step → Conf → Progress
    unfolding run_handler
    checkpoint_first step c =
        let (id, w') = env.new_id c.world in
        let cp : Checkpoint V E = record {
          id = id;
          step_id = c.state.current_step;
          state = c.state.step_states;
          created_at = 0;
        } in
        let (s', e) = store.save_checkpoint c.state.id cp (env.now w') c.store_state in
        let c' : Conf = record c { store_state = s'; world = w' } in
        elim e [ some x ↦ ends c' (some (save_checkpoint_error x)) | none ↦ run_handler step c' ]

    -- One turn of the loop of `runLoop`, at a step whose name is not empty.
    pub take_step : Workflow → Conf → Progress
    unfolding checkpoint_first
    take_step wf c = elim (env.context_error c.world) [
      | some e ↦
          ends (record c { state = record c.state { status = cancelled } }) (some (context_done e))
      | none ↦ elim (lookup c.state.current_step wf.steps) [
        | none ↦ ends c (some (step_not_found c.state.current_step))
        | some step ↦ checkpoint_first step c
      ]
    ]

    pub turn : Workflow → Conf → Progress
    unfolding complete take_step
    turn wf c = ite (string_discrete c.state.current_step "") (complete c) (take_step wf c)

    pub data Run : Type 0 where
      stopped : Conf → Option (WorkflowError E) → Run
      out_of_fuel : Run

    pub run_loop : ℕ → Workflow → Conf → Run
    unfolding turn
    run_loop zero wf c = out_of_fuel
    run_loop (suc fuel) wf c = elim (turn wf c) [
      | goes_on c' ↦ run_loop fuel wf c'
      | ends c' e ↦ stopped c' e
    ]

    pub record ExecuteOptions : Type 0 where
      pub resume_from_checkpoint : Bool
      pub context : Map V
      pub execution_id : String

    -- What `Execute` hands back: the state, if there is one, and the error.
    pub record Answer : Type 0 where
      pub state : Option (State V E)
      pub error : Option (WorkflowError E)
      pub store_state : S
      pub world : W

    refuse : WorkflowError E → S → W → Answer
    refuse e s w = record { state = none; error = some e; store_state = s; world = w }

    fresh_state : Workflow → String → ExecuteOptions → String → ℕ → State V E
    fresh_state wf workflow_id opts id t = record {
      id = id;
      workflow_id = workflow_id;
      status = running;
      current_step = wf.start_step;
      step_states = [];
      context = opts.context;
      started_at = t;
      updated_at = t;
      completed_at = none;
      error = none;
      checkpoints = [];
    }

    -- The latest checkpoint, if one can be read, says where to go on, and with which step states.
    pub restore : State V E → Result E (Option (Checkpoint V E)) → State V E
    restore st (ok (some cp)) = record st { current_step = cp.step_id; step_states = cp.state }
    restore st _ = st

    -- A failed run is marked and saved; an error of that save is dropped.
    pub close : Run → Option Answer
    close out_of_fuel = none
    close (stopped c none) = some (record {
      state = some c.state;
      error = none;
      store_state = c.store_state;
      world = c.world;
    })
    close (stopped c (some e)) =
        let st = record c.state { status = failed; error = some e } in
        let (s', st', _) = store.save st (env.now c.world) c.store_state in
        some (record { state = some st'; error = some e; store_state = s'; world = c.world })

    -- From the state on that `Execute` has made or loaded. `none`: the fuel ran out.
    pub start : ℕ → Workflow → State V E → S → W → Option Answer
    unfolding refuse close run_loop
    start fuel wf st s w =
        let (s', st', e) = store.save (record st { status = running }) (env.now w) s in
        elim e [
          | some x ↦ some (refuse (save_initial_state x) s' w)
          | none ↦ close (run_loop fuel wf (record { state = st'; store_state = s'; world = w }))
        ]

    pub resume_state : String → S → Result (WorkflowError E) (State V E)
    unfolding restore
    resume_state id s = elim (store.load id s) [
      | err e ↦ err (load_state e)
      | ok st ↦ ok (restore st (store.load_latest_checkpoint id s))
    ]

    begin_new : ℕ → Workflow → String → ExecuteOptions → S → W → Option Answer
    unfolding start fresh_state
    begin_new fuel wf workflow_id opts s w =
        ite (string_discrete opts.execution_id "")
          (let (id, w') = env.new_id w in
            start fuel wf (fresh_state wf workflow_id opts id (env.now w')) s w')
          (start fuel wf (fresh_state wf workflow_id opts opts.execution_id (env.now w)) s w)

    begin_again : ℕ → Workflow → String → S → W → Option Answer
    unfolding resume_state start refuse
    begin_again fuel wf id s w = elim (resume_state id s) [
      | err e ↦ some (refuse e s w)
      | ok st ↦ start fuel wf st s w
    ]

    pub execute : ℕ → Map Workflow → String → ExecuteOptions → S → W → Option Answer
    unfolding begin_new begin_again refuse
    execute fuel workflows workflow_id opts s w = elim (lookup workflow_id workflows) [
      | none ↦ some (refuse (workflow_not_found workflow_id) s w)
      | some wf ↦
          ite (string_discrete opts.execution_id "") (begin_new fuel wf workflow_id opts s w) (
            if opts.resume_from_checkpoint
            then begin_again fuel wf opts.execution_id s w
            else begin_new fuel wf workflow_id opts s w)
    ]

    pub register_workflow : Workflow → Map Workflow → Map Workflow × Option (WorkflowError E)
    register_workflow wf workflows =
        ite (string_discrete wf.id "") (workflows, some id_required)
          (ite (string_discrete wf.start_step "") (workflows, some start_step_required)
            (elim (lookup wf.start_step wf.steps) [
              | none ↦ (workflows, some (start_step_not_found wf.start_step))
              | some _ ↦ (insert wf.id wf workflows, none)
            ]))

    pub pause : String → S → W → S × Option (WorkflowError E)
    pause id s w = elim (store.load id s) [
      | err e ↦ (s, some (store_error e))
      | ok st ↦
          ite (Status-discrete st.status running)
            (let (s', _, e) = store.save (record st { status = paused }) (env.now w) s in
              (s', elim e [ none ↦ none | some x ↦ some (store_error x) ]))
            (s, some (cannot_pause st.status))
    ]

    pub resume : ℕ → Map Workflow → String → S → W → Option Answer
    unfolding execute refuse
    resume fuel workflows id s w = elim (store.load id s) [
      | err e ↦ some (refuse (store_error e) s w)
      | ok st ↦
          ite (Status-discrete st.status paused)
            (execute fuel workflows st.workflow_id
              (record { resume_from_checkpoint = true; context = []; execution_id = id }) s w)
            (some (refuse (cannot_resume st.status) s w))
    ]
