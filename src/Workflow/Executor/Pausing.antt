-- ===== src/Workflow/Executor/Pausing.antt =====
-- Pausing a run and resuming it.
use aixgo.Common.{ℕ, ◌≡◌, none, some, String, arith, [], true}
use aixgo.Common.Maps.{Map}
use aixgo.Workflow.Types.{State, running, paused, cannot_pause, ok}
use aixgo.Workflow.Store.{Store, Laws}
use aixgo.Workflow.Executor.{Environment, Workflow, execute, pause, resume}

module _ (V E W : Type 0) (env : Environment V E W) (store : Store V E)
    (laws : Laws V E store) where
  pause_done :
      (id : String) (s s' : store.S) (w : W) (st : State V E)
      → store.load id s ≡ ok st
      → st.id ≡ id
      → pause V E W env store id s w ≡ (s', none)
      → (st.status ≡ running)
        × (st' : State V E) × (store.load id s' ≡ ok st')
        × (st'.status ≡ paused)
        × (st'.workflow_id ≡ st.workflow_id)
  unfolding pause
  pause_done id s s' w st loaded named e =
      let st' = record st { status = paused } in
      let same = laws.saved_state st' (env.now w) s in
      let loads = laws.load-save st' (env.now w) s in
      (ground arith, (store.save st' (env.now w) s).1, ground arith, ground arith, ground arith)

  -- When `Pause` reports no error for a stored state that carries its own name, that state was
  -- running; a second `Pause` is refused because the status is paused; and `Resume` goes on to
  -- `Execute` the same workflow from the latest checkpoint.
  pub pause-resume :
      (fuel : ℕ) (workflows : Map (Workflow V E W)) (id : String) (s s' : store.S) (w w' : W)
      (st : State V E)
      → store.load id s ≡ ok st
      → st.id ≡ id
      → pause V E W env store id s w ≡ (s', none)
      → (st.status ≡ running)
        × (pause V E W env store id s' w' ≡ (s', some (cannot_pause paused)))
        × (resume V E W env store fuel workflows id s' w'
            ≡ execute V E W env store fuel workflows st.workflow_id
                (record { resume_from_checkpoint = true; context = []; execution_id = id })
                s'
                w')
  unfolding pause resume
  pause-resume fuel workflows id s s' w w' st loaded named e =
      let (was, st', loaded', status, wf) = pause_done id s s' w st loaded named e in
      (was, ground arith, ground arith)
