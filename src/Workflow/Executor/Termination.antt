-- ===== src/Workflow/Executor/Termination.antt =====
-- When the main loop ends: it follows the first next step of each step.
use aixgo.Common.{
  ℕ, zero, suc, ◌<◌, ◌≡◌, ◌≢◌, inl, inr, none, some, String, arith, refl, Option-cases, sym, ◌∙◌,
  subst, ap,
}
use aixgo.Common.Maps.{Map, lookup, insert}
use aixgo.Workflow.Types.{Checkpoint, StepError, Result, ok, err}
use aixgo.Workflow.Store.{Store, Laws}
use aixgo.Workflow.Executor.{
  Environment, Step, Workflow, Conf, Progress, goes_on, ends, out_of_fuel, first_next, turn,
  take_step, checkpoint_first, run_handler, finish_step, complete, run_loop, merge, execute_step,
}

module _ (V E W : Type 0) (env : Environment V E W) (store : Store V E) where
  -- From the step of this name the first next steps lead to an end within `k` steps. A name that is
  -- no step of the workflow is an end too: the loop stops there with an error.
  pub data Leads (wf : Workflow V E W) : String → ℕ → Type 0 where
    end : {name : String} {k : ℕ} → name ≡ "" → Leads wf name k
    missing : {name : String} {k : ℕ} → lookup name wf.steps ≡ none → Leads wf name k
    step :
        {name next : String} {k : ℕ} (s : Step V E W)
        → lookup name wf.steps ≡ some s
        → next ≡ first_next V E W env store s.next_steps
        → Leads wf next k
        → Leads wf name (suc k)

  module _ (laws : Laws V E store) where
    finish_step_goes_on :
        (s : Step V E W) (c c' : Conf V E W env store) (output : Map V)
        → finish_step V E W env store s c output ≡ goes_on c'
        → c'.state.current_step ≡ first_next V E W env store s.next_steps
    unfolding finish_step
    finish_step_goes_on s c c' output e = ground (
      arith,
      laws.saved_state
          (record c.state {
            step_states = insert s.id (env.box output) c.state.step_states;
            context = merge V E W env store output c.state.context;
            current_step = first_next V E W env store s.next_steps;
            updated_at = env.now c.world;
          })
          (env.now c.world) c.store_state,
    )

    run_handler_goes_on :
        (s : Step V E W) (c c' : Conf V E W env store)
        → run_handler V E W env store s c ≡ goes_on c'
        → c'.state.current_step ≡ first_next V E W env store s.next_steps
    unfolding run_handler
    run_handler_goes_on s c c' e =
        by_result (execute_step V E W env store s c.state.context c.world) refl
      where
        by_result :
            (r : W × Map V × Result (StepError E) (Map V))
            → execute_step V E W env store s c.state.context c.world ≡ r
            → c'.state.current_step ≡ first_next V E W env store s.next_steps
        by_result (w', context', ok output) q =
            finish_step_goes_on s
              (record c { state = record c.state { context = context' }; world = w' }) c' output
              (ground arith)
        by_result (w', context', err x) q = absurd (ground arith)

    checkpoint_first_goes_on :
        (s : Step V E W) (c c' : Conf V E W env store)
        → checkpoint_first V E W env store s c ≡ goes_on c'
        → c'.state.current_step ≡ first_next V E W env store s.next_steps
    unfolding checkpoint_first
    checkpoint_first_goes_on s c c' e =
        let (id, w') = env.new_id c.world in
        let cp : Checkpoint V E = record {
          id = id;
          step_id = c.state.current_step;
          state = c.state.step_states;
          created_at = 0;
        } in
        let (s', failed) = store.save_checkpoint c.state.id cp (env.now w') c.store_state in
        ground (arith, run_handler_goes_on s (record c { store_state = s'; world = w' }) c')

    -- A turn that goes on was at a step, and moved to its first next step.
    turn_goes_on :
        (wf : Workflow V E W) (c c' : Conf V E W env store)
        → turn V E W env store wf c ≡ goes_on c'
        → (s : Step V E W) × (c.state.current_step ≢ "")
          × (lookup c.state.current_step wf.steps ≡ some s)
          × (c'.state.current_step ≡ first_next V E W env store s.next_steps)
    unfolding turn take_step complete
    turn_goes_on wf c c' e = elim (Option-cases (lookup c.state.current_step wf.steps)) [
      | inl n ↦ absurd (ground arith)
      | inr (s, found) ↦ (s, ground arith, found, ground (arith, checkpoint_first_goes_on s c c'))
    ]

    Leads-step :
        (wf : Workflow V E W) (name : String) (k : ℕ) (s : Step V E W)
        → Leads wf name k
        → name ≢ ""
        → lookup name wf.steps ≡ some s
        → (j : ℕ) × (k ≡ suc j) × Leads wf (first_next V E W env store s.next_steps) j
    Leads-step wf name k s (end e) ne found = absurd (ne e)
    Leads-step wf name k s (missing e) ne found = cc
    Leads-step wf name (suc k) s (step s' found' next l) ne found =
        let same : s' ≡ s = ground arith in
        let onward = λ (x : Step V E W). first_next V E W env store x.next_steps in
        (k, refl, subst (λ n. Leads wf n k) (next ∙ ap onward same) l)

    -- If the first next steps lead to an end within `k` steps, the loop ends with fuel above `k`.
    pub run_loop-ends :
        (fuel k : ℕ) (wf : Workflow V E W) (c : Conf V E W env store)
        → Leads wf c.state.current_step k
        → k < fuel
        → run_loop V E W env store fuel wf c ≢ out_of_fuel
    unfolding run_loop
    run_loop-ends zero k wf c l h = absurd (omega arith)
    run_loop-ends (suc fuel) k wf c l h =
        by_turn (turn V E W env store wf c) refl (run_loop-ends fuel)
      where
        by_turn :
            (p : Progress V E W env store)
            → turn V E W env store wf c ≡ p
            → ((k : ℕ) (wf : Workflow V E W) (c : Conf V E W env store)
                → Leads wf c.state.current_step k
                → k < fuel
                → run_loop V E W env store fuel wf c ≢ out_of_fuel)
            → run_loop V E W env store (suc fuel) wf c ≢ out_of_fuel
        by_turn (ends c' x) q ih = rw (q, run_loop) (λ e. cc)
        by_turn (goes_on c') q ih =
            let (s, ne, found, moved) = turn_goes_on wf c c' q in
            let (j, less, l') = Leads-step wf c.state.current_step k s l ne found in
            rw (q, run_loop) (ih j wf c' (subst (λ n. Leads wf n j) (sym moved) l') (omega arith))
