-- ===== src/Runtime/Phases.antt =====
-- StartAgentsPhased of agent/local_runtime.go: the agents start level by level, as the dependency graph
-- of internal/graph says. The goroutines of a level run here one after the other, each with its poll
-- loop, in any order, which `schedule` gives for each phase. `launch` is `go a.Start(gctx)`, whose error
-- is only logged, `poll` the next event that the `select` of waitForReady takes, in a loop that has
-- fuel, and `cancel_group` what it does that `g.Wait` cancels gctx at the end of a phase, the context of
-- the phase's agents. The log lines that tell the phases and the ready agents are kept.
pub mod Waiting
mod Tests
use aixgo.Common.{
  ℕ, zero, suc, ◌+◌, ◌<◌, ◌≡◌, ◌≢◌, ◌⊎◌, inl, inr, List, [], ◌∷◌, ◌++◌, Option, none, some, String,
  Bool, true, false, if◌then◌else◌, All, arith, refl, Option-cases, Bool-cases, sym, ◌∙◌, subst, ap,
}
use mathlib.Core.List.{Perm}
use aixgo.Common.Maps.{Map, lookup}
use aixgo.Graph.{DependencyGraph, new_dependency_graph, add_nodes, built-IsMap}
use aixgo.Graph.Outcome.{Outcome, GraphError, done, fails, panics, out_of_fuel}
use aixgo.Graph.Levels.{topological_levels}
use aixgo.Graph.Levels.Verdict.{LevelsVerdict, topological_levels-LevelsVerdict}
use aixgo.Runtime.LocalRuntime.{LocalRuntime}
use aixgo.Runtime.Agents.{AgentPackage}

pub data Event (E : Type 0) : Type 0 where
  context_done : E → Event E
  timed_out ticked : Event E

pub data LogLine : Type 0 where
  starting_phase : ℕ → List String → LogLine
  agent_is_ready : String → LogLine
  phase_complete : ℕ → LogLine

pub data PhaseError (E : Type 0) : Type 0 where
  runtime_not_started : PhaseError E
  graph_error : GraphError → PhaseError E
  not_registered not_ready_in_time : String → PhaseError E
  wait_cancelled : String → E → PhaseError E
  -- A phase, with the first error of its agents.
  startup_failed : ℕ → PhaseError E → PhaseError E

-- How a part of the start ends: well, with an error, or not at all.
pub data Ending (E : Type 0) : Type 0 where
  well : Ending E
  badly : PhaseError E → Ending E
  panicked never : Ending E

module _ (p : AgentPackage) (launch : p.A → p.W → p.W) (poll : p.W → p.W × Event p.E) where
  open p use {W, A, M, E}

  -- `name` is the agent's, for the error texts.
  pub wait_for_ready : ℕ → String → A → W → W × Ending E
  wait_for_ready zero name a w = (w, never)
  wait_for_ready (suc fuel) name a w =
      let (w', event) = poll w in
      elim event [
        | context_done e ↦ (w', badly (wait_cancelled name e))
        | timed_out ↦ (w', badly (not_ready_in_time name))
        | ticked ↦ if p.ready a w' then (w', well) else wait_for_ready fuel name a w'
      ]

  pub start_member : ℕ → LocalRuntime A M → String → W → W × Ending E
  unfolding wait_for_ready
  start_member fuel r name w = elim (lookup name r.agents) [
    | none ↦ (w, badly (not_registered name))
    | some a ↦ wait_for_ready fuel name a (launch a w)
  ]

  -- What `g.Wait` gives for two goroutines: it never returns if one never ends, and else it gives the
  -- first error.
  join : Ending E → Ending E → Ending E
  join never e = never
  join panicked e = panicked
  join well e = e
  join (badly x) never = never
  join (badly x) panicked = panicked
  join (badly x) e = badly x

  ready_lines : String → Ending E → List LogLine
  ready_lines name well = agent_is_ready name ∷ []
  ready_lines name e = []

  pub start_level : ℕ → LocalRuntime A M → List String → W → W × List LogLine × Ending E
  unfolding start_member join ready_lines
  start_level fuel r [] w = (w, [], well)
  start_level fuel r (name ∷ names) w =
      let (w', e) = start_member fuel r name w in
      let (w'', lines, e') = start_level fuel r names w' in
      (w'', ready_lines name e ++ lines, join e e')

  module _ (schedule : ℕ → List String → List String) (cancel_group : W → W) where
    pub start_levels :
        ℕ → LocalRuntime A M → ℕ → List (List String) → W → W × List LogLine × Ending E
    unfolding start_level
    start_levels fuel r i [] w = (w, [], well)
    start_levels fuel r i (level ∷ levels) w =
        let (w', lines, e) = start_level fuel r (schedule i level) w in
        let (w'', rest, e') = start_levels fuel r (i + 1) levels (cancel_group w') in
        elim e [
          | well ↦ (w'', starting_phase i level ∷ lines ++ phase_complete i ∷ rest, e')
          | badly x ↦ (cancel_group w', starting_phase i level ∷ lines, badly (startup_failed i x))
          | panicked ↦ (w', starting_phase i level ∷ lines, panicked)
          | never ↦ (w', starting_phase i level ∷ lines, never)
        ]

    pub start_agents_phased :
        ℕ → LocalRuntime A M → Map (List String) → W → W × List LogLine × Ending E
    unfolding start_levels
    start_agents_phased fuel r dependencies w =
        if r.started
        then (elim (topological_levels (add_nodes new_dependency_graph dependencies)) [
          | done levels ↦ start_levels fuel r 0 levels w
          | fails e ↦ (w, [], badly (graph_error e))
          | panics ↦ (w, [], panicked)
          | out_of_fuel ↦ (w, [], never)
        ])
        else (w, [], badly runtime_not_started)

  join_well : (e e' : Ending E) → join e e' ≡ well → (e ≡ well) × (e' ≡ well)
  unfolding join
  join_well well e' h = (refl, h)
  join_well (badly x) well h = cc
  join_well (badly x) (badly y) h = cc
  join_well (badly x) panicked h = cc
  join_well (badly x) never h = cc
  join_well panicked e' h = cc
  join_well never e' h = cc

  -- Ticks, at each of which the agent is asked, until it is ready for the first time.
  pub data BecomesReady (a : A) : W → W → Type 0 where
    is_ready :
        {w : W} → (poll w).1 ≡ ticked → p.ready a (poll w).0 ≡ true → BecomesReady a w (poll w).0
    not_yet :
        {w w' : W}
        → (poll w).1 ≡ ticked
        → p.ready a (poll w).0 ≡ false
        → BecomesReady a (poll w).0 w'
        → BecomesReady a w w'

  -- The agents of a phase, each of which is registered, is launched, and becomes ready.
  pub data Started (r : LocalRuntime A M) : List String → W → W → Type 0 where
    no_more : {w : W} → Started r [] w w
    starts :
        {name : String} {names : List String} {a : A} {w w' w'' : W}
        → lookup name r.agents ≡ some a
        → BecomesReady a (launch a w) w'
        → Started r names w' w''
        → Started r (name ∷ names) w w''

  -- The phases, each of which begins when all agents of the one before, in some order, have become
  -- ready.
  pub data Phases (cancel_group : W → W) (r : LocalRuntime A M)
      : List (List String) → W → W → Type 0 where
    all_phases : {w : W} → Phases cancel_group r [] w w
    phase :
        {level names : List String} {levels : List (List String)} {w w' w'' : W}
        → Perm level names
        → Started r names w w'
        → Phases cancel_group r levels (cancel_group w') w''
        → Phases cancel_group r (level ∷ levels) w w''

  wait_for_ready-BecomesReady :
      (fuel : ℕ) (name : String) (a : A) (w : W)
      → (wait_for_ready fuel name a w).1 ≡ well
      → BecomesReady a w (wait_for_ready fuel name a w).0
  unfolding wait_for_ready
  wait_for_ready-BecomesReady zero name a w h = cc
  wait_for_ready-BecomesReady (suc fuel) name a w h =
      by_event (poll w).1 refl (wait_for_ready-BecomesReady fuel name a (poll w).0) h
    where
      by_event :
          (x : Event E)
          → (poll w).1 ≡ x
          → ((wait_for_ready fuel name a (poll w).0).1 ≡ well
              → BecomesReady a (poll w).0 (wait_for_ready fuel name a (poll w).0).0)
          → (wait_for_ready (suc fuel) name a w).1 ≡ well
          → BecomesReady a w (wait_for_ready (suc fuel) name a w).0
      by_event (context_done e) q rest = rw (wait_for_ready, q) (λ h. cc)
      by_event timed_out q rest = rw (wait_for_ready, q) (λ h. cc)
      by_event ticked q rest = elim (Bool-cases (p.ready a (poll w).0)) [
        | inl y ↦ rw (wait_for_ready, q, y) (λ h. is_ready q y)
        | inr y ↦ rw (wait_for_ready, q, y) (λ h. not_yet q y (rest h))
      ]

  start_member-Ready :
      (fuel : ℕ) (r : LocalRuntime A M) (name : String) (w : W)
      → (start_member fuel r name w).1 ≡ well
      → (a : A) × (lookup name r.agents ≡ some a)
        × BecomesReady a (launch a w) (start_member fuel r name w).0
  unfolding start_member
  start_member-Ready fuel r name w = elim (Option-cases (lookup name r.agents)) [
    | inl e ↦ rw (start_member, e) (λ h. cc)
    | inr (a, e) ↦
        rw (start_member, e)
          (λ h. (a, refl, wait_for_ready-BecomesReady fuel name a (launch a w) h))
  ]

  start_level-Started :
      (fuel : ℕ) (r : LocalRuntime A M) (names : List String) (w : W)
      → (start_level fuel r names w).2 ≡ well
      → Started r names w (start_level fuel r names w).0
  unfolding start_level
  start_level-Started fuel r [] w h = no_more
  start_level-Started fuel r (name ∷ names) w h =
      let (w', e) = start_member fuel r name w in
      let (one, others) = join_well e (start_level fuel r names w').2 h in
      let (a, there, ready) = start_member-Ready fuel r name w one in
      starts there ready (start_level-Started fuel r names w' others)

  module _ (schedule : ℕ → List String → List String) (cancel_group : W → W)
      (orders : (i : ℕ) (level : List String) → Perm level (schedule i level)) where
    start_levels-Phases :
        (fuel : ℕ) (r : LocalRuntime A M) (i : ℕ) (levels : List (List String)) (w : W)
        → (start_levels schedule cancel_group fuel r i levels w).2 ≡ well
        → Phases cancel_group r levels w (start_levels schedule cancel_group fuel r i levels w).0
    unfolding start_levels
    start_levels-Phases fuel r i [] w h = all_phases
    start_levels-Phases fuel r i (level ∷ levels) w h =
        let (w', lines, e) = start_level fuel r (schedule i level) w in
        by_ending e refl (start_level-Started fuel r (schedule i level) w)
          (start_levels-Phases fuel r (i + 1) levels (cancel_group w')) h
      where
        ran : W × List LogLine × Ending E
        ran = start_level fuel r (schedule i level) w

        by_ending :
            (e : Ending E)
            → ran.2 ≡ e
            → (ran.2 ≡ well → Started r (schedule i level) w ran.0)
            → ((start_levels schedule cancel_group fuel r (i + 1) levels (cancel_group ran.0)).2
                  ≡ well
                → Phases cancel_group r levels
                    (cancel_group ran.0)
                    (start_levels schedule cancel_group fuel r
                      (i + 1)
                      levels
                      (cancel_group ran.0)).0)
            → (start_levels schedule cancel_group fuel r i (level ∷ levels) w).2 ≡ well
            → Phases cancel_group r
                (level ∷ levels)
                w
                (start_levels schedule cancel_group fuel r i (level ∷ levels) w).0
        by_ending well q first rest =
            rw (start_levels, q) (λ h. phase (orders i level) (first q) (rest h))
        by_ending (badly x) q first rest = rw (start_levels, q) (λ h. cc)
        by_ending panicked q first rest = rw (start_levels, q) (λ h. cc)
        by_ending never q first rest = rw (start_levels, q) (λ h. cc)

    -- When the phased start ends well, in whatever order the agents of each phase run, the runtime was
    -- started and the levels of the dependency graph exist: they list every agent of the graph once,
    -- after its dependencies. The phases went through them in their order; in each phase every agent
    -- was registered, was launched, and was asked at ticks until it answered that it is ready, before
    -- any agent of the next phase was launched.
    pub start_agents_phased_well :
        (fuel : ℕ) (r : LocalRuntime A M) (dependencies : Map (List String)) (w : W)
        → (start_agents_phased schedule cancel_group fuel r dependencies w).2 ≡ well
        → (r.started ≡ true)
          × (levels : List (List String)) × LevelsVerdict
              (add_nodes new_dependency_graph dependencies)
              (done levels)
          × Phases cancel_group r levels w
              (start_agents_phased schedule cancel_group fuel r dependencies w).0
    unfolding start_agents_phased
    start_agents_phased_well fuel r dependencies w h =
        by_levels (topological_levels g) refl
          (topological_levels-LevelsVerdict g (built-IsMap dependencies))
      where
        g : DependencyGraph
        g = add_nodes new_dependency_graph dependencies

        by_levels :
            (x : Outcome (List (List String)))
            → topological_levels g ≡ x
            → LevelsVerdict g (topological_levels g)
            → (r.started ≡ true)
              × (levels : List (List String)) × LevelsVerdict g (done levels)
              × Phases cancel_group r levels w
                  (start_agents_phased schedule cancel_group fuel r dependencies w).0
        by_levels (done levels) q l =
            let s = start_levels-Phases fuel r 0 levels w in
            elim (Bool-cases r.started) [
              | inl t ↦
                  let run : start_agents_phased schedule cancel_group fuel r dependencies w
                      ≡ start_levels schedule cancel_group fuel r 0 levels w =
                    rw (start_agents_phased, t, q) refl in
                  (
                    t,
                    levels,
                    subst (LevelsVerdict g) q l,
                    subst (λ x. Phases cancel_group r levels w x.0) (sym run)
                        (s (ap (λ x. x.2) (sym run) ∙ h)),
                  )
              | inr t ↦ absurd (ground arith)
            ]
        by_levels (fails e) q l = absurd (ground arith)
        by_levels panics q l = absurd (ground arith)
        by_levels out_of_fuel q l = absurd (ground arith)
