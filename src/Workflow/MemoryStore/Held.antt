-- ===== src/Workflow/MemoryStore/Held.antt =====
-- What MemoryStore holds after a history of calls, against the last write of each execution.
use aixgo.Common.{
  ℕ, ◌≡◌, refl, ap, List, [], ◌∷◌, ◌++◌, Option, none, some, String, string_discrete, ite, arith,
}
use aixgo.Common.Maps.{lookup, lookup-insert, lookup-delete}
use aixgo.Workflow.Types.{Result, ok, err, State, Checkpoint}
use aixgo.Workflow.MemoryStore.{
  Json, deep_copy, MemoryStore, new_memory_store, save, load, delete_state, get_checkpoints,
  save_checkpoint, last, load_latest_checkpoint,
}
use aixgo.Workflow.MemoryStore.IsStore.{last-append}

module _ (V E : Type 0) (json : Json V E) (not_found : E) where
  -- The calls that change a store, with the times that they take from the clock.
  pub data Call : Type 0 where
    saves : State V E → ℕ → Call
    deletes : String → Call
    saves_checkpoint : String → Checkpoint V E → ℕ → Call

  unfoldable pub apply : Call → MemoryStore V E json → MemoryStore V E json
  apply (saves st now) s = (save V E json st now s).0
  apply (deletes id) s = (delete_state V E json id s).0
  apply (saves_checkpoint id cp now) s = (save_checkpoint V E json id cp now s).0

  unfoldable pub apply_all : List Call → MemoryStore V E json → MemoryStore V E json
  unfolding apply
  apply_all [] s = s
  apply_all (call ∷ calls) s = apply_all calls (apply call s)

  -- The state that was written last under an identifier, unless it has been deleted since.
  abbrev pub written : String → List Call → Option (State V E) → Option (State V E)
  written id [] old = old
  written id (saves st now ∷ calls) old =
      written id calls (ite (string_discrete st.id id) (some (record st { updated_at = now })) old)
  written id (deletes k ∷ calls) old = written id calls (ite (string_discrete k id) none old)
  written id (saves_checkpoint k cp now ∷ calls) old = written id calls old

  -- The checkpoint that was written last.
  abbrev pub checked : String → List Call → Option (Checkpoint V E) → Option (Checkpoint V E)
  checked id [] old = old
  checked id (saves st now ∷ calls) old = checked id calls old
  checked id (deletes k ∷ calls) old = checked id calls (ite (string_discrete k id) none old)
  checked id (saves_checkpoint k cp now ∷ calls) old =
      checked id calls (ite (string_discrete k id) (some (record cp { created_at = now })) old)

  abbrev copied : Option (State V E) → Option (State V E)
  copied none = none
  copied (some st) = some (deep_copy json st)

  states-apply_all :
      (id : String) (calls : List Call) (old : Option (State V E)) (s : MemoryStore V E json)
      → lookup id s.states ≡ copied old
      → lookup id (apply_all calls s).states ≡ copied (written id calls old)
  unfolding apply_all apply save delete_state save_checkpoint
  states-apply_all id [] old s h = h
  states-apply_all id (saves st now ∷ calls) old s h =
      let st' = record st { updated_at = now } in
      states-apply_all id calls (ite (string_discrete st.id id) (some st') old)
        (save V E json st now s).0
        (ground (arith, lookup-insert st.id id (deep_copy json st') s.states))
  states-apply_all id (deletes k ∷ calls) old s h =
      states-apply_all id calls (ite (string_discrete k id) none old) (delete_state V E json k s).0
        (ground (arith, lookup-delete k id s.states))
  states-apply_all id (saves_checkpoint k cp now ∷ calls) old s h =
      states-apply_all id calls old (save_checkpoint V E json k cp now s).0 h

  checkpoints-apply_all :
      (id : String) (calls : List Call) (old : Option (Checkpoint V E)) (s : MemoryStore V E json)
      → last V E json (get_checkpoints V E json id s) ≡ old
      → last V E json (get_checkpoints V E json id (apply_all calls s)) ≡ checked id calls old
  unfolding apply_all apply save delete_state save_checkpoint get_checkpoints last
  checkpoints-apply_all id [] old s h = h
  checkpoints-apply_all id (saves st now ∷ calls) old s h =
      checkpoints-apply_all id calls old (save V E json st now s).0 h
  checkpoints-apply_all id (deletes k ∷ calls) old s h =
      checkpoints-apply_all id calls (ite (string_discrete k id) none old)
        (delete_state V E json k s).0 (ground (arith, lookup-delete k id s.checkpoints))
  checkpoints-apply_all id (saves_checkpoint k cp now ∷ calls) old s h =
      let cp' = record cp { created_at = now } in
      let cps = get_checkpoints V E json k s in
      checkpoints-apply_all id calls (ite (string_discrete k id) (some cp') old)
        (save_checkpoint V E json k cp now s).0
        (ground (
          arith,
          lookup-insert k id (cps ++ cp' ∷ []) s.checkpoints,
          last-append V E json not_found cps cp',
        ))

  abbrev pub loaded : Option (State V E) → Result E (State V E)
  loaded none = err not_found
  loaded (some st) = ok (deep_copy json (deep_copy json st))

  -- After any history of saves, deletes and saved checkpoints of a new store, a load gives the copy
  -- of the copy of the state that was saved last under the identifier, with the time of that save,
  -- and not found if there is none or it has been deleted since; and the latest checkpoint is the
  -- one that was saved last and not deleted since, if any. What the copies keep is not assumed.
  pub apply_all-written :
      (id : String) (calls : List Call)
      → let s = apply_all calls (new_memory_store V E json) in
        (load V E json not_found id s ≡ loaded (written id calls none))
        × (load_latest_checkpoint V E json id s ≡ ok (checked id calls none))
  unfolding load load_latest_checkpoint new_memory_store lookup get_checkpoints last
  apply_all-written id calls =
      let held = states-apply_all id calls none (new_memory_store V E json) refl in
      let latest = checkpoints-apply_all id calls none (new_memory_store V E json) refl in
      (by_state (written id calls none) held, ap (λ o. ok o) latest)
    where
      by_state :
          (o : Option (State V E))
          → lookup id (apply_all calls (new_memory_store V E json)).states ≡ copied o
          → load V E json not_found id (apply_all calls (new_memory_store V E json)) ≡ loaded o
      by_state none e = rw (load, e) refl
      by_state (some st) e = rw (load, e) refl
