-- ===== src/Workflow/Executor/Recovery.antt =====
-- A run that fails at a step can be taken up again at that step.
use aixgo.Common.{
  ℕ, zero, suc, ◌≡◌, ◌≢◌, none, some, String, arith, refl, Option-cases, sym, ◌∙◌, inl, inr,
}
use aixgo.Common.Maps.{Map, lookup}
use aixgo.Workflow.Types.{State, Checkpoint, StepError, step_failed, failed, Result, ok, err}
use aixgo.Workflow.Store.{Store, Laws}
use aixgo.Workflow.Executor.{
  Environment, Step, Workflow, Conf, Progress, goes_on, ends, stopped, turn, take_step,
  checkpoint_first, run_handler, finish_step, complete, run_loop, execute_step, close, resume_state,
  restore, Answer,
}

module _ (V E W : Type 0) (env : Environment V E W) (store : Store V E) where
  -- The latest checkpoint is of the current step, with the step states as they were before it.
  pub record IsRecoverable (wf : Workflow V E W) (sid : String) (c : Conf V E W env store)
      : Type 0 where
    pub step : Step V E W
    pub found : lookup c.state.current_step wf.steps ≡ some step
    pub named : step.id ≡ sid
    pub checkpoint : Checkpoint V E
    pub latest : store.load_latest_checkpoint c.state.id c.store_state ≡ ok (some checkpoint)
    pub at_step : checkpoint.step_id ≡ c.state.current_step
    pub same_states : checkpoint.state ≡ c.state.step_states

  module _ (laws : Laws V E store) where
    finish_step_not_failed :
        (s : Step V E W) (c c' : Conf V E W env store) (output : Map V) (sid : String)
        (x : StepError E)
        → finish_step V E W env store s c output ≢ ends c' (some (step_failed sid x))
    unfolding finish_step
    finish_step_not_failed s c c' output sid x e = ground arith

    run_handler_failed :
        (s : Step V E W) (c c' : Conf V E W env store) (sid : String) (x : StepError E)
        → run_handler V E W env store s c ≡ ends c' (some (step_failed sid x))
        → (s.id ≡ sid)
          × (c'.state.id ≡ c.state.id)
          × (c'.state.current_step ≡ c.state.current_step)
          × (c'.state.step_states ≡ c.state.step_states)
          × (c'.store_state ≡ c.store_state)
    unfolding run_handler
    run_handler_failed s c c' sid x e =
        by_result (execute_step V E W env store s c.state.context c.world) refl
      where
        by_result :
            (r : W × Map V × Result (StepError E) (Map V))
            → execute_step V E W env store s c.state.context c.world ≡ r
            → (s.id ≡ sid)
              × (c'.state.id ≡ c.state.id)
              × (c'.state.current_step ≡ c.state.current_step)
              × (c'.state.step_states ≡ c.state.step_states)
              × (c'.store_state ≡ c.store_state)
        by_result (w', context', ok output) q = absurd (
            finish_step_not_failed s
              (record c { state = record c.state { context = context' }; world = w' }) c' output sid
              x (ground arith))
        by_result (w', context', err y) q = ground arith

    checkpoint_first_failed :
        (wf : Workflow V E W) (s : Step V E W) (c c' : Conf V E W env store) (sid : String)
        (x : StepError E)
        → lookup c.state.current_step wf.steps ≡ some s
        → checkpoint_first V E W env store s c ≡ ends c' (some (step_failed sid x))
        → IsRecoverable wf sid c'
    unfolding checkpoint_first
    checkpoint_first_failed wf s c c' sid x found e =
        let (id, w') = env.new_id c.world in
        let cp : Checkpoint V E = record {
          id = id;
          step_id = c.state.current_step;
          state = c.state.step_states;
          created_at = 0;
        } in
        let (s', failure) = store.save_checkpoint c.state.id cp (env.now w') c.store_state in
        let saved : failure ≡ none = ground arith in
        let run : run_handler V E W env store s (record c { store_state = s'; world = w' })
            ≡ ends c' (some (step_failed sid x)) =
          ground arith in
        let (named, same_id, same_step, same_states, same_store) =
          run_handler_failed s (record c { store_state = s'; world = w' }) c' sid x run in
        let (at, latest) =
          laws.latest-save_checkpoint c.state.id cp (env.now w') c.store_state saved in
        record {
          step = s;
          found = rw same_step found;
          named = named;
          checkpoint = record cp { created_at = at };
          latest = rw (same_id, same_store) latest;
          at_step = sym same_step;
          same_states = sym same_states;
        }

    turn_failed :
        (wf : Workflow V E W) (c c' : Conf V E W env store) (sid : String) (x : StepError E)
        → turn V E W env store wf c ≡ ends c' (some (step_failed sid x))
        → IsRecoverable wf sid c'
    unfolding turn take_step complete
    turn_failed wf c c' sid x e = elim (Option-cases (lookup c.state.current_step wf.steps)) [
      | inl n ↦ absurd (ground arith)
      | inr (s, found) ↦ checkpoint_first_failed wf s c c' sid x found (ground arith)
    ]

    run_loop-IsRecoverable :
        (fuel : ℕ) (wf : Workflow V E W) (c c' : Conf V E W env store) (sid : String)
        (x : StepError E)
        → run_loop V E W env store fuel wf c ≡ stopped c' (some (step_failed sid x))
        → IsRecoverable wf sid c'
    unfolding run_loop
    run_loop-IsRecoverable zero wf c c' sid x e = cc
    run_loop-IsRecoverable (suc fuel) wf c c' sid x e =
        by_turn (turn V E W env store wf c) refl (run_loop-IsRecoverable fuel)
      where
        by_turn :
            (p : Progress V E W env store)
            → turn V E W env store wf c ≡ p
            → ((wf : Workflow V E W) (c c' : Conf V E W env store) (sid : String) (x : StepError E)
                → run_loop V E W env store fuel wf c ≡ stopped c' (some (step_failed sid x))
                → IsRecoverable wf sid c')
            → IsRecoverable wf sid c'
        by_turn (ends d y) q ih = turn_failed wf c c' sid x (ground arith)
        by_turn (goes_on d) q ih = ih wf d c' sid x (ground arith)

    -- When the loop fails in a step, and the failed state can be saved, a later `Execute` that
    -- resumes the execution starts at that step, with the step states as they were before the step
    -- and the context as it was left.
    pub run_loop-resumes :
        (fuel : ℕ) (wf : Workflow V E W) (c c' : Conf V E W env store) (sid : String)
        (x : StepError E) (a : Answer V E W env store)
        → run_loop V E W env store fuel wf c ≡ stopped c' (some (step_failed sid x))
        → close V E W env store (stopped c' (some (step_failed sid x))) ≡ some a
        → (store.save
            (record c'.state { status = failed; error = some (step_failed sid x) })
            (env.now c'.world)
            c'.store_state).2
          ≡ none
        → (st : State V E) × (resume_state V E W env store c'.state.id a.store_state ≡ ok st)
          × (st.current_step ≡ c'.state.current_step)
          × (st.step_states ≡ c'.state.step_states)
          × (st.context ≡ c'.state.context)
          × (s : Step V E W) × (lookup st.current_step wf.steps ≡ some s)
          × (s.id ≡ sid)
    unfolding close resume_state restore
    run_loop-resumes fuel wf c c' sid x a e closed saved =
        let r = run_loop-IsRecoverable fuel wf c c' sid x e in
        let st = record c'.state { status = failed; error = some (step_failed sid x) } in
        let t = env.now c'.world in
        let loaded = laws.load-save st t c'.store_state saved in
        let kept = laws.saved_state st t c'.store_state in
        let latest = laws.latest-save st t c'.store_state c'.state.id ∙ r.latest in
        (
          record (store.save st t c'.store_state).1 {
            current_step = r.checkpoint.step_id;
            step_states = r.checkpoint.state;
          },
          ground arith,
          r.at_step,
          r.same_states,
          ground arith,
          r.step,
          rw r.at_step r.found,
          r.named,
        )
