-- ===== src/Workflow/Types.antt =====
-- The data of internal/workflow. `V` is what Go's `any` holds, `E` the errors that come from outside
-- (the store, the context, a step's handler). Times are numbers.
use aixgo.Common.{ℕ, List, Option, String}
use aixgo.Common.Maps.{Map}

pub data Status : Type 0 where
  pending running paused completed failed cancelled : Status

unfoldable pub Status-discrete : Discrete Status
Status-discrete = hlevel

pub data StepError (E : Type 0) : Type 0 where
  no_handler : String → StepError E
  handler_error : E → StepError E
  wait_ended : E → StepError E

pub data WorkflowError (E : Type 0) : Type 0 where
  id_required start_step_required : WorkflowError E
  start_step_not_found workflow_not_found step_not_found : String → WorkflowError E
  load_state save_initial_state save_checkpoint_error save_state store_error : E → WorkflowError E
  context_done : E → WorkflowError E
  step_failed : String → StepError E → WorkflowError E
  cannot_pause cannot_resume : Status → WorkflowError E

-- A Go result `(value, error)`.
pub data Result {ℓ κ} (E : Type κ) (A : Type ℓ) : Type (ℓ ⊔ κ) where
  ok : A → Result E A
  err : E → Result E A

module _ (V E : Type 0) where
  pub record Checkpoint : Type 0 where
    pub id : String
    pub step_id : String
    pub state : Map V
    pub created_at : ℕ

  -- `error` is the error whose text the source keeps, and `none` stands for the empty text.
  pub record State : Type 0 where
    pub id : String
    pub workflow_id : String
    pub status : Status
    pub current_step : String
    pub step_states : Map V
    pub context : Map V
    pub started_at : ℕ
    pub updated_at : ℕ
    pub completed_at : Option ℕ
    pub error : Option (WorkflowError E)
    pub checkpoints : List Checkpoint
