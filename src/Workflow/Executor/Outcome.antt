-- ===== src/Workflow/Executor/Outcome.antt =====
-- How an execution that `Execute` starts ends.
use aixgo.Common.{ℕ, ◌≡◌, Option, none, some, arith, refl, sym}
use aixgo.Workflow.Types.{State, WorkflowError, save_initial_state, running, completed, failed, ok}
use aixgo.Workflow.Store.{Store, Laws}
use aixgo.Workflow.Executor.{
  Environment, Workflow, Conf, Run, stopped, out_of_fuel, run_loop, close, start, refuse, Answer,
}
use aixgo.Workflow.Executor.Control.{Kept, Kept-trans, run_loop-Ends}

module _ (V E W : Type 0) (env : Environment V E W) (store : Store V E) where
  -- A completed state that the store holds, at the end of the steps; or an error, with no state or
  -- with a state that is marked failed with this error.
  pub data Outcome (st : State V E) : Answer V E W env store → Type 0 where
    completes :
        {a : Answer V E W env store} (st' : State V E)
        → a.error ≡ none
        → a.state ≡ some st'
        → st'.status ≡ completed
        → st'.current_step ≡ ""
        → Kept V E W env store st st'
        → store.load st.id a.store_state ≡ ok st'
        → Outcome st a
    refused :
        {a : Answer V E W env store} (x : WorkflowError E)
        → a.error ≡ some x
        → a.state ≡ none
        → Outcome st a
    fails_with :
        {a : Answer V E W env store} (x : WorkflowError E) (st' : State V E)
        → a.error ≡ some x
        → a.state ≡ some st'
        → st'.status ≡ failed
        → st'.error ≡ some x
        → Outcome st a

  module _ (laws : Laws V E store) where
    close-Outcome :
        (st : State V E) (r : Run V E W env store) (a : Answer V E W env store)
        → ((c' : Conf V E W env store)
            → r ≡ stopped c' none
            → Kept V E W env store st c'.state
              × (c'.state.status ≡ completed)
              × (c'.state.current_step ≡ "")
              × (store.load st.id c'.store_state ≡ ok c'.state))
        → close V E W env store r ≡ some a
        → Outcome st a
    unfolding close
    close-Outcome st out_of_fuel a h e = cc
    close-Outcome st (stopped c none) a h e =
        let (kept, status, at_end, stored) = h c refl in
        completes c.state (ground arith) (ground arith) status at_end kept (ground arith)
    close-Outcome st (stopped c (some x)) a h e =
        let st' = record c.state { status = failed; error = some x } in
        let t = env.now c.world in
        let same = laws.saved_state st' t c.store_state in
        fails_with x (store.save st' t c.store_state).1 (ground arith) (ground arith) (ground arith)
          (ground arith)

    -- An execution that is started from a made or loaded state `st` answers with a completed state
    -- at the end of the steps, which the store holds and which has the name, the workflow, the start
    -- time and the error text of `st`; or with an error, and then with no state where the first save
    -- failed and else with a state that is marked failed with this error.
    pub start-Outcome :
        (fuel : ℕ) (wf : Workflow V E W) (st : State V E) (s : store.S) (w : W)
        (a : Answer V E W env store)
        → start V E W env store fuel wf st s w ≡ some a
        → Outcome st a
    unfolding start refuse
    start-Outcome fuel wf st s w a e =
        by_save (store.save (record st { status = running }) (env.now w) s) refl
      where
        by_save :
            (r : store.S × State V E × Option E)
            → store.save (record st { status = running }) (env.now w) s ≡ r
            → Outcome st a
        by_save (s', st', some x) q = refused (save_initial_state x) (ground arith) (ground arith)
        by_save (s', st', none) q =
            let same = laws.saved_state (record st { status = running }) (env.now w) s in
            let c : Conf V E W env store = record { state = st'; store_state = s'; world = w } in
            let named : st'.id ≡ st.id = ground arith in
            let first : Kept V E W env store st st' = record {
              id = named;
              workflow_id = ground arith;
              started_at = ground arith;
              error = ground arith;
            } in
            close-Outcome st (run_loop V E W env store fuel wf c) a
              (λ c' h.
                let r = run_loop-Ends V E W env store laws fuel wf c c' h in
                (
                  Kept-trans V E W env store st st' c'.state first r.kept,
                  r.status,
                  r.at_end,
                  rw (sym named) r.stored,
                ))
              (ground arith)
