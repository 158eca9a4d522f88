-- ===== src/Workflow/Store.antt =====
-- The interface `Store` of internal/workflow/persistence.go, with the laws that the executor needs.
-- `Save` writes the time into the state that it is given, so it returns that state.
use aixgo.Common.{ℕ, ◌≡◌, List, Option, none, some, String}
use aixgo.Workflow.Types.{Result, ok, State, Checkpoint}

module _ (V E : Type 0) where
  pub record Store : Type 1 where
    pub S : Type 0
    pub save : State V E → ℕ → S → S × State V E × Option E
    pub load : String → S → Result E (State V E)
    pub list : String → S → Result E (List (State V E))
    pub delete : String → S → S × Option E
    pub save_checkpoint : String → Checkpoint V E → ℕ → S → S × Option E
    pub load_latest_checkpoint : String → S → Result E (Option (Checkpoint V E))

  -- A save that reports no error has changed nothing in the state but its time, can be loaded, and
  -- leaves the checkpoints alone; a saved checkpoint is the latest one.
  pub record Laws (store : Store) : Type 0 where
    pub saved_state :
        (st : State V E) (now : ℕ) (s : store.S)
        → (store.save st now s).1 ≡ record st { updated_at = (store.save st now s).1.updated_at }
    pub load-save :
        (st : State V E) (now : ℕ) (s : store.S)
        → (store.save st now s).2 ≡ none
        → store.load st.id (store.save st now s).0 ≡ ok (store.save st now s).1
    pub latest-save :
        (st : State V E) (now : ℕ) (s : store.S) (id : String)
        → store.load_latest_checkpoint id (store.save st now s).0
          ≡ store.load_latest_checkpoint id s
    pub latest-save_checkpoint :
        (id : String) (cp : Checkpoint V E) (now : ℕ) (s : store.S)
        → (store.save_checkpoint id cp now s).1 ≡ none
        → (at : ℕ) × (store.load_latest_checkpoint id (store.save_checkpoint id cp now s).0
            ≡ ok (some (record cp { created_at = at })))
