-- ===== src/Workflow/MemoryStore.antt =====
-- MemoryStore of internal/workflow/persistence.go. encoding/json is a parameter. Checkpoints are held by
-- pointer in the source, and are values here.
pub mod IsStore
pub mod Held
use aixgo.Common.{ℕ, List, [], ◌∷◌, ◌++◌, Option, none, some, String, string_discrete, ite}
use aixgo.Common.Maps.{Map, lookup, insert, delete}
use aixgo.Workflow.Types.{Result, ok, err, State, Checkpoint}

-- encoding/json: the bytes that Marshal gives, none if it fails, and what Unmarshal leaves in a zero
-- State, also where it fails.
pub record Json (V E : Type 0) : Type 1 where
  pub Bytes : Type 0
  pub marshal : State V E → Bytes
  pub unmarshal : Bytes → State V E

-- The deep copies, which drop the errors of both.
unfoldable pub deep_copy : {V E : Type 0} → Json V E → State V E → State V E
deep_copy json st = json.unmarshal (json.marshal st)

module _ (V E : Type 0) (json : Json V E) where
  pub record MemoryStore : Type 0 where
    pub states : Map (State V E)
    pub checkpoints : Map (List (Checkpoint V E))

  unfoldable pub new_memory_store : MemoryStore
  new_memory_store = record { states = []; checkpoints = [] }

  unfoldable pub save : State V E → ℕ → MemoryStore → MemoryStore × State V E × Option E
  save st now s =
      let st' = record st { updated_at = now } in
      (record s { states = insert st.id (deep_copy json st') s.states }, st', none)

  unfoldable pub load : E → String → MemoryStore → Result E (State V E)
  load not_found id s = elim (lookup id s.states) [
    | some st ↦ ok (deep_copy json st)
    | none ↦ err not_found
  ]

  -- The states of one workflow, or all of them for the empty name.
  select : String → Map (State V E) → List (State V E)
  select workflow_id [] = []
  select workflow_id ((_, st) ∷ rest) =
      ite (string_discrete workflow_id "") (deep_copy json st ∷ select workflow_id rest) (
        ite (string_discrete st.workflow_id workflow_id)
          (deep_copy json st ∷ select workflow_id rest) (select workflow_id rest))

  pub list : String → MemoryStore → Result E (List (State V E))
  unfolding select
  list workflow_id s = ok (select workflow_id s.states)

  pub delete_state : String → MemoryStore → MemoryStore × Option E
  delete_state id s =
      (record { states = delete id s.states; checkpoints = delete id s.checkpoints }, none)

  get_checkpoints : String → MemoryStore → List (Checkpoint V E)
  get_checkpoints id s = elim (lookup id s.checkpoints) [ some cps ↦ cps | none ↦ [] ]

  unfoldable pub save_checkpoint :
      String → Checkpoint V E → ℕ → MemoryStore → MemoryStore × Option E
  unfolding get_checkpoints
  save_checkpoint id cp now s =
      let cp' = record cp { created_at = now } in
      (record s { checkpoints = insert id (get_checkpoints id s ++ cp' ∷ []) s.checkpoints }, none)

  pub last : List (Checkpoint V E) → Option (Checkpoint V E)
  last [] = none
  last (cp ∷ []) = some cp
  last (cp ∷ cp' ∷ rest) = last (cp' ∷ rest)

  unfoldable pub load_latest_checkpoint : String → MemoryStore → Result E (Option (Checkpoint V E))
  unfolding get_checkpoints last
  load_latest_checkpoint id s = ok (last (get_checkpoints id s))
