-- ===== src/Workflow/Executor/Tests.antt =====
-- A workflow of two steps on the memory store, whose world is a counter of ticks. The second step
-- fails until the tick that its handler is made with.
use aixgo.Common.{
  ℕ, ◌+◌, ◌≡◌, ◌≢◌, refl, List, [], ◌∷◌, Option, none, some, String, string_discrete, ltb,
  if◌then◌else◌, true, length, arith,
}
use aixgo.Common.Maps.{lookup, insert, delete}
use aixgo.Workflow.Types.{
  State, handler_error, step_failed, cannot_pause, running, paused, failed, Status-discrete, ok,
  err,
}
use aixgo.Workflow.Store.{Store, Laws}
use aixgo.Workflow.MemoryStore.{
  Json, deep_copy, MemoryStore, new_memory_store, save, load, save_checkpoint,
  load_latest_checkpoint,
}
use aixgo.Workflow.MemoryStore.IsStore.{memory_store, memory_store-Laws}
use aixgo.Workflow.MemoryStore.Held.{
  Call, saves, deletes, apply_all, written, checked, loaded, apply_all-written,
}
use aixgo.Workflow.Executor.{
  Environment, Handler, Step, Workflow, Conf, Progress, goes_on, ends, Run, stopped, out_of_fuel,
  execute_step, turn, run_loop, close, start, resume_state, Answer, execute, pause, resume,
}
use aixgo.Workflow.Executor.Retry.{Comes, execute_step-Comes}
use aixgo.Workflow.Executor.Termination.{Leads, end, step, run_loop-ends}
use aixgo.Workflow.Executor.Recovery.{run_loop-resumes}
use aixgo.Workflow.Executor.Control.{GoesOn, turn-GoesOn}
use aixgo.Workflow.Executor.Outcome.{Outcome, start-Outcome}
use aixgo.Workflow.Executor.Pausing.{pause-resume}

abbrev Fault : Type 0
Fault = Unit {0}

-- JSON that gives back every state, as it does for states of plain values.
abbrev plain_json : Json ℕ Fault
plain_json = record { Bytes = State ℕ Fault; marshal = λ st. st; unmarshal = λ st. st }

abbrev memory : Store ℕ Fault
memory = memory_store ℕ Fault plain_json tt

memory-Laws : Laws ℕ Fault memory
unfolding deep_copy
memory-Laws = memory_store-Laws ℕ Fault plain_json tt (λ st. refl)

abbrev ticks : Environment ℕ Fault ℕ
ticks = record {
  now = λ w. w;
  new_id = λ w. ("id", w + 1);
  context_error = λ w. none;
  wait_retry = λ seconds timeout w. (w + seconds, none);
  box = λ output. length output;
}

-- It fails before the given tick, and gives an output from then on.
abbrev from_tick : ℕ → Handler ℕ Fault ℕ
from_tick t timeout context w = (w + 1, context, if ltb w t then err tt else ok (("seen", w) ∷ []))

abbrev step_of : String → ℕ → List String → ℕ → Step ℕ Fault ℕ
step_of id t next retries = record {
  id = id;
  handler = some (from_tick t);
  next_steps = next;
  retries = retries;
  timeout = 0;
}

abbrev two_steps : ℕ → Workflow ℕ Fault ℕ
two_steps t = record {
  id = "flow";
  steps = ("one", step_of "one" 0 ("two" ∷ []) 0) ∷ ("two", step_of "two" t [] 1) ∷ [];
  start_step = "one";
}

abbrev begun : State ℕ Fault
begun = record {
  id = "run";
  workflow_id = "flow";
  status = running;
  current_step = "one";
  step_states = [];
  context = [];
  started_at = 0;
  updated_at = 0;
  completed_at = none;
  error = none;
  checkpoints = [];
}

abbrev begin : Conf ℕ Fault ℕ ticks memory
begin = record { state = begun; store_state = new_memory_store ℕ Fault plain_json; world = 0 }

program : Unit {0}
unfolding new_memory_store save load save_checkpoint load_latest_checkpoint lookup insert delete
    deep_copy string_discrete Status-discrete run_loop turn execute_step start execute pause resume
    close resume_state
program = tt

conf_of : Run ℕ Fault ℕ ticks memory → Conf ℕ Fault ℕ ticks memory
conf_of (stopped c e) = c
conf_of out_of_fuel = begin

-- With retries the second step gets past tick 4: it is tried at ticks 3 and 5.
retried : (execute_step ℕ Fault ℕ ticks memory (step_of "two" 4 [] 3) [] 3).0 ≡ 6
unfolding program
retried = refl

abbrev broken : Run ℕ Fault ℕ ticks memory
broken = run_loop ℕ Fault ℕ ticks memory 3 (two_steps 9) begin

broken_at_two : broken ≡ stopped (conf_of broken) (some (step_failed "two" (handler_error tt)))
unfolding program conf_of
broken_at_two = refl

execute_step-Comes_example :
    Comes ℕ Fault ℕ ticks memory
      (from_tick 4)
      0
      0
      2
      []
      3
      (execute_step ℕ Fault ℕ ticks memory (step_of "two" 4 [] 3) [] 3)
execute_step-Comes_example =
    execute_step-Comes ℕ Fault ℕ ticks memory (step_of "two" 4 [] 3) (from_tick 4) [] 3 refl

Leads-on : Leads ℕ Fault ℕ ticks memory (two_steps 9) "one" 2
unfolding program
Leads-on = step _ refl refl (step _ refl refl (end refl))

run_loop-ends_example : broken ≢ out_of_fuel
run_loop-ends_example =
    run_loop-ends ℕ Fault ℕ ticks memory memory-Laws 3 2 (two_steps 9) begin Leads-on (omega arith)

abbrev failed_answer : Answer ℕ Fault ℕ ticks memory
failed_answer = record {
  state = some (record (conf_of broken).state {
    status = failed;
    error = some (step_failed "two" (handler_error tt));
    updated_at = 4;
  });
  error = some (step_failed "two" (handler_error tt));
  store_state =
      (memory.save
        (record (conf_of broken).state {
          status = failed;
          error = some (step_failed "two" (handler_error tt));
        })
        4 (conf_of broken).store_state).0;
  world = 4;
}

closed_broken : close ℕ Fault ℕ ticks memory broken ≡ some failed_answer
unfolding program conf_of
closed_broken = refl

saved_broken :
    (memory.save
      (record (conf_of broken).state {
        status = failed;
        error = some (step_failed "two" (handler_error tt));
      })
      4
      (conf_of broken).store_state).2
    ≡ none
unfolding program
saved_broken = refl

run_loop-resumes_example :
    (st : State ℕ Fault) × (resume_state ℕ Fault ℕ ticks memory
        (conf_of broken).state.id
        failed_answer.store_state
      ≡ ok st)
    × (st.current_step ≡ (conf_of broken).state.current_step)
    × (st.step_states ≡ (conf_of broken).state.step_states)
    × (st.context ≡ (conf_of broken).state.context)
    × (s : Step ℕ Fault ℕ) × (lookup st.current_step (two_steps 9).steps ≡ some s)
    × (s.id ≡ "two")
unfolding program conf_of
run_loop-resumes_example =
    run_loop-resumes ℕ Fault ℕ ticks memory memory-Laws 3 (two_steps 9) begin (conf_of broken) "two"
      (handler_error tt) failed_answer broken_at_two closed_broken saved_broken

-- The state that the loop has after the first step, and what `Pause` left in the store before it.
abbrev interrupted : Conf ℕ Fault ℕ ticks memory
interrupted = record begin {
  store_state =
      (pause ℕ Fault ℕ ticks memory "run"
        (memory.save begun 0 (new_memory_store ℕ Fault plain_json)).0 0).0;
}

after : Progress ℕ Fault ℕ ticks memory → Conf ℕ Fault ℕ ticks memory
after (goes_on c) = c
after (ends c e) = c

abbrev second : Conf ℕ Fault ℕ ticks memory
second = after (turn ℕ Fault ℕ ticks memory (two_steps 0) interrupted)

goes_to_second : turn ℕ Fault ℕ ticks memory (two_steps 0) interrupted ≡ goes_on second
unfolding program after
goes_to_second = refl

pause_is_lost : second.state.status ≡ running
unfolding program after
pause_is_lost = refl

turn-GoesOn_example : GoesOn ℕ Fault ℕ ticks memory interrupted second
turn-GoesOn_example =
    turn-GoesOn ℕ Fault ℕ ticks memory memory-Laws (two_steps 0) interrupted second goes_to_second

value : {A : Type 0} → A → Option A → A
value d none = d
value d (some x) = x

abbrev answer : Answer ℕ Fault ℕ ticks memory
answer =
    value failed_answer
      (start ℕ Fault ℕ ticks memory 3 (two_steps 0) begun (new_memory_store ℕ Fault plain_json) 0)

answered :
    start ℕ Fault ℕ ticks memory 3 (two_steps 0) begun (new_memory_store ℕ Fault plain_json) 0
    ≡ some answer
unfolding program value
answered = refl

start-Outcome_example : Outcome ℕ Fault ℕ ticks memory begun answer
start-Outcome_example =
    start-Outcome ℕ Fault ℕ ticks memory memory-Laws 3 (two_steps 0) begun
      (new_memory_store ℕ Fault plain_json) 0 answer answered

abbrev saved_begun : MemoryStore ℕ Fault plain_json
saved_begun = (memory.save begun 0 (new_memory_store ℕ Fault plain_json)).0

begun_loads : memory.load "run" saved_begun ≡ ok begun
unfolding program
begun_loads = refl

begun_pauses :
    pause ℕ Fault ℕ ticks memory "run" saved_begun 0
    ≡ ((pause ℕ Fault ℕ ticks memory "run" saved_begun 0).0, none)
unfolding program
begun_pauses = refl

pause-resume_example :
    (begun.status ≡ running)
    × (pause ℕ Fault ℕ ticks memory "run" interrupted.store_state 1
        ≡ (interrupted.store_state, some (cannot_pause paused)))
    × (resume ℕ Fault ℕ ticks memory 3 [] "run" interrupted.store_state 1
        ≡ execute ℕ Fault ℕ ticks memory 3 [] "flow"
            (record { resume_from_checkpoint = true; context = []; execution_id = "run" })
            interrupted.store_state
            1)
pause-resume_example =
    pause-resume ℕ Fault ℕ ticks memory memory-Laws 3 [] "run" saved_begun interrupted.store_state 0
      1 begun begun_loads refl begun_pauses

abbrev calls : List (Call ℕ Fault plain_json tt)
calls = saves begun 4 ∷ deletes "other" ∷ saves (record begun { current_step = "two" }) 9 ∷ []

apply_all-written_example :
    let s = apply_all ℕ Fault plain_json tt calls (new_memory_store ℕ Fault plain_json) in
    (load ℕ Fault plain_json tt "run" s
      ≡ loaded ℕ Fault plain_json tt (written ℕ Fault plain_json tt "run" calls none))
    × (load_latest_checkpoint ℕ Fault plain_json "run" s
        ≡ ok (checked ℕ Fault plain_json tt "run" calls none))
apply_all-written_example = apply_all-written ℕ Fault plain_json tt "run" calls
