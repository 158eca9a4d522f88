-- ===== src/Workflow/MemoryStore/IsStore.antt =====
-- MemoryStore is a Store, and keeps its laws where the deep copy gives back an equal state.
use aixgo.Common.{ℕ, ◌≡◌, List, [], ◌∷◌, ◌++◌, some, String, arith, refl}
use aixgo.Common.Maps.{lookup-insert_self}
use aixgo.Workflow.Types.{ok, State, Checkpoint}
use aixgo.Workflow.Store.{Store, Laws}
use aixgo.Workflow.MemoryStore.{
  Json, deep_copy, MemoryStore, save, load, list, delete_state, get_checkpoints, save_checkpoint,
  last, load_latest_checkpoint,
}

module _ (V E : Type 0) (json : Json V E) (not_found : E) where
  abbrev pub memory_store : Store V E
  memory_store = record {
    S = MemoryStore V E json;
    save = save V E json;
    load = load V E json not_found;
    list = list V E json;
    delete = delete_state V E json;
    save_checkpoint = save_checkpoint V E json;
    load_latest_checkpoint = load_latest_checkpoint V E json;
  }

  pub last-append :
      (cps : List (Checkpoint V E)) (cp : Checkpoint V E) → last V E json (cps ++ cp ∷ []) ≡ some cp
  unfolding last
  last-append [] cp = refl
  last-append (x ∷ []) cp = refl
  last-append (x ∷ y ∷ cps) cp = last-append (y ∷ cps) cp

  load-save :
      ((st : State V E) → deep_copy json st ≡ st)
      → (st : State V E) (now : ℕ) (s : MemoryStore V E json)
      → load V E json not_found st.id (save V E json st now s).0
        ≡ ok (record st { updated_at = now })
  unfolding load save
  load-save exact st now s =
      let st' = record st { updated_at = now } in
      ground (arith, lookup-insert_self st.id (deep_copy json st') s.states, exact st')

  latest-save_checkpoint :
      (id : String) (cp : Checkpoint V E) (now : ℕ) (s : MemoryStore V E json)
      → load_latest_checkpoint V E json id (save_checkpoint V E json id cp now s).0
        ≡ ok (some (record cp { created_at = now }))
  unfolding load_latest_checkpoint save_checkpoint get_checkpoints
  latest-save_checkpoint id cp now s =
      let cps = get_checkpoints V E json id s in
      let cp' = record cp { created_at = now } in
      ground (arith, lookup-insert_self id (cps ++ cp' ∷ []) s.checkpoints, last-append cps cp')

  -- If the copy by JSON is exact, MemoryStore meets the interface's laws.
  pub memory_store-Laws : ((st : State V E) → deep_copy json st ≡ st) → Laws V E memory_store
  unfolding save save_checkpoint load_latest_checkpoint
  memory_store-Laws exact = record {
    saved_state = λ st now s. refl;
    load-save = λ st now s e. unfold save in load-save exact st now s;
    latest-save = λ st now s id. refl;
    latest-save_checkpoint = λ id cp now s e. (now, latest-save_checkpoint id cp now s);
  }
