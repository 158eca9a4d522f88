-- ===== src/Workflow/Executor/Control.antt =====
-- What the store holds between two turns of the loop, and after its last.
use aixgo.Common.{ℕ, zero, suc, ◌≡◌, ◌≢◌, inl, inr, none, some, arith, refl, Option-cases, sym, ◌∙◌}
use aixgo.Common.Maps.{Map, lookup, insert}
use aixgo.Workflow.Types.{State, Checkpoint, StepError, completed, Result, ok, err}
use aixgo.Workflow.Store.{Store, Laws}
use aixgo.Workflow.Executor.{
  Environment, Step, Workflow, Conf, Progress, goes_on, ends, stopped, turn, take_step,
  checkpoint_first, run_handler, finish_step, complete, run_loop, execute_step, merge, first_next,
}

module _ (V E W : Type 0) (env : Environment V E W) (store : Store V E) where
  -- What the loop never changes in a state.
  pub record Kept (st st' : State V E) : Type 0 where
    pub id : st'.id ≡ st.id
    pub workflow_id : st'.workflow_id ≡ st.workflow_id
    pub started_at : st'.started_at ≡ st.started_at
    pub error : st'.error ≡ st.error

  pub Kept-trans : (a b c : State V E) → Kept a b → Kept b c → Kept a c
  Kept-trans a b c p q = record {
    id = q.id ∙ p.id;
    workflow_id = q.workflow_id ∙ p.workflow_id;
    started_at = q.started_at ∙ p.started_at;
    error = q.error ∙ p.error;
  }

  -- What a turn that goes on leaves: the state is in the store as it is, under its own name.
  pub record GoesOn (c c' : Conf V E W env store) : Type 0 where
    pub kept : Kept c.state c'.state
    pub status : c'.state.status ≡ c.state.status
    pub stored : store.load c.state.id c'.store_state ≡ ok c'.state

  -- What a turn that ends the loop with no error leaves.
  pub record Ends (c c' : Conf V E W env store) : Type 0 where
    pub kept : Kept c.state c'.state
    pub status : c'.state.status ≡ completed
    pub at_end : c'.state.current_step ≡ ""
    pub stored : store.load c.state.id c'.store_state ≡ ok c'.state

  module _ (laws : Laws V E store) where
    finish_step-GoesOn :
        (s : Step V E W) (c c' : Conf V E W env store) (output : Map V)
        → finish_step V E W env store s c output ≡ goes_on c'
        → GoesOn c c'
    unfolding finish_step
    finish_step-GoesOn s c c' output e =
        let st : State V E = record c.state {
          step_states = insert s.id (env.box output) c.state.step_states;
          context = merge V E W env store output c.state.context;
          current_step = first_next V E W env store s.next_steps;
          updated_at = env.now c.world;
        } in
        let t = env.now c.world in
        let same = laws.saved_state st t c.store_state in
        let loads = laws.load-save st t c.store_state in
        record {
          kept = record {
            id = ground arith;
            workflow_id = ground arith;
            started_at = ground arith;
            error = ground arith;
          };
          status = ground arith;
          stored = ground arith;
        }

    run_handler-GoesOn :
        (s : Step V E W) (c c' : Conf V E W env store)
        → run_handler V E W env store s c ≡ goes_on c'
        → GoesOn c c'
    unfolding run_handler
    run_handler-GoesOn s c c' e =
        by_result (execute_step V E W env store s c.state.context c.world) refl
      where
        by_result :
            (r : W × Map V × Result (StepError E) (Map V))
            → execute_step V E W env store s c.state.context c.world ≡ r
            → GoesOn c c'
        by_result (w', context', ok output) q =
            let g =
              finish_step-GoesOn s
                (record c { state = record c.state { context = context' }; world = w' }) c' output
                (ground arith) in
            record {
              kept = record {
                id = g.kept.id;
                workflow_id = g.kept.workflow_id;
                started_at = g.kept.started_at;
                error = g.kept.error;
              };
              status = g.status;
              stored = g.stored;
            }
        by_result (w', context', err x) q = absurd (ground arith)

    checkpoint_first-GoesOn :
        (s : Step V E W) (c c' : Conf V E W env store)
        → checkpoint_first V E W env store s c ≡ goes_on c'
        → GoesOn c c'
    unfolding checkpoint_first
    checkpoint_first-GoesOn s c c' e =
        let (id, w') = env.new_id c.world in
        let cp : Checkpoint V E = record {
          id = id;
          step_id = c.state.current_step;
          state = c.state.step_states;
          created_at = 0;
        } in
        let (s', failure) = store.save_checkpoint c.state.id cp (env.now w') c.store_state in
        let g =
          run_handler-GoesOn s (record c { store_state = s'; world = w' }) c' (ground arith) in
        record { kept = g.kept; status = g.status; stored = g.stored }

    -- When a turn of the loop goes on, the store holds exactly the state of the loop under the
    -- execution's name, and the status is the one the loop had: whatever the store held before the
    -- turn, such as a status that `Pause` wrote there, is gone.
    pub turn-GoesOn :
        (wf : Workflow V E W) (c c' : Conf V E W env store)
        → turn V E W env store wf c ≡ goes_on c'
        → GoesOn c c'
    unfolding turn take_step complete
    turn-GoesOn wf c c' e = elim (Option-cases (lookup c.state.current_step wf.steps)) [
      | inl n ↦ absurd (ground arith)
      | inr (s, found) ↦ checkpoint_first-GoesOn s c c' (ground arith)
    ]

    run_handler_ends :
        (s : Step V E W) (c c' : Conf V E W env store)
        → run_handler V E W env store s c ≢ ends c' none
    unfolding run_handler finish_step
    run_handler_ends s c c' e = ground arith

    checkpoint_first_ends :
        (s : Step V E W) (c c' : Conf V E W env store)
        → checkpoint_first V E W env store s c ≢ ends c' none
    unfolding checkpoint_first
    checkpoint_first_ends s c c' e =
        let (id, w') = env.new_id c.world in
        let cp : Checkpoint V E = record {
          id = id;
          step_id = c.state.current_step;
          state = c.state.step_states;
          created_at = 0;
        } in
        let (s', failure) = store.save_checkpoint c.state.id cp (env.now w') c.store_state in
        run_handler_ends s (record c { store_state = s'; world = w' }) c' (ground arith)

    take_step_ends :
        (wf : Workflow V E W) (c c' : Conf V E W env store)
        → take_step V E W env store wf c ≢ ends c' none
    unfolding take_step
    take_step_ends wf c c' e = elim (Option-cases (lookup c.state.current_step wf.steps)) [
      | inl n ↦ absurd (ground arith)
      | inr (s, found) ↦ checkpoint_first_ends s c c' (ground arith)
    ]

    turn-Ends :
        (wf : Workflow V E W) (c c' : Conf V E W env store)
        → turn V E W env store wf c ≡ ends c' none
        → Ends c c'
    unfolding turn complete
    turn-Ends wf c c' e =
        let t = env.now c.world in
        let st : State V E = record c.state { status = completed; completed_at = some t } in
        let same = laws.saved_state st t c.store_state in
        let loads = laws.load-save st t c.store_state in
        let at : c.state.current_step ≡ "" = ground (arith, take_step_ends wf c c') in
        record {
          kept = record {
            id = ground arith;
            workflow_id = ground arith;
            started_at = ground arith;
            error = ground arith;
          };
          status = ground arith;
          at_end = ground arith;
          stored = ground arith;
        }

    pub run_loop-Ends :
        (fuel : ℕ) (wf : Workflow V E W) (c c' : Conf V E W env store)
        → run_loop V E W env store fuel wf c ≡ stopped c' none
        → Ends c c'
    unfolding run_loop
    run_loop-Ends zero wf c c' e = cc
    run_loop-Ends (suc fuel) wf c c' e =
        by_turn (turn V E W env store wf c) refl (run_loop-Ends fuel)
      where
        by_turn :
            (p : Progress V E W env store)
            → turn V E W env store wf c ≡ p
            → ((wf : Workflow V E W) (c c' : Conf V E W env store)
                → run_loop V E W env store fuel wf c ≡ stopped c' none
                → Ends c c')
            → Ends c c'
        by_turn (ends d y) q ih = turn-Ends wf c c' (ground arith)
        by_turn (goes_on d) q ih =
            let g = turn-GoesOn wf c d q in
            let r = ih wf d c' (ground arith) in
            record {
              kept = Kept-trans c.state d.state c'.state g.kept r.kept;
              status = r.status;
              at_end = r.at_end;
              stored = rw (sym g.kept.id) r.stored;
            }
