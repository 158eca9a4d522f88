-- ===== src/VectorStore/Collection/Indexed/History.antt =====
-- Histories of calls of a collection.
use aixgo.Common.{
  ℕ, zero, suc, ◌+◌, length, some, none, true, false, if◌then◌else◌, sym, subst, List, [], ◌∷◌,
  String, Option-cases, inl, inr, arith, Bool-cases,
}
use aixgo.Common.Int.{ℤ, pos, negsuc, same_ℤ}
use aixgo.Common.Maps.{lookup}
use aixgo.VectorStore.{Floats, Document, Formats}
use aixgo.VectorStore.Config.{CollectionConfig, BatchConfig, BatchOption, apply_batch_options}
use aixgo.VectorStore.Filters.{Filter}
use aixgo.VectorStore.Indexes.{listed, new_scope_index, new_time_index}
use aixgo.VectorStore.Collection.{
  Collection, UpsertResult, no_upserts, DeleteResult, no_deletes, new_collection,
}
use aixgo.VectorStore.Collection.Search.{apply_filters}
use aixgo.VectorStore.Collection.Upsert.{
  stamp, upsert_one, upsert_each, check_documents, Upserted, refused, stored, upsert,
}
use aixgo.VectorStore.Collection.Upsert.Steps.{upsert_one_keeps, upsert_refused, upsert_stored}
use aixgo.VectorStore.Collection.Batch.{
  BatchRun, unfinished, panics, ended, Ended, Outside, Turn, stops, goes_on, report, batch_turn,
  batch_loop, start_batches, upsert_batch, check_all, add_results, upsert_failed, context_done,
}
use aixgo.VectorStore.Slices.{drop_first, take_first}
use aixgo.VectorStore.Collection.Delete.{
  remove_document, delete_one, delete_each, delete_ids, delete_found, delete_by_filter, expired_ids,
  cleanup_expired, clear,
}
use aixgo.VectorStore.Collection.Indexed.{
  IsIndexed, put_document-IsIndexed, remove_document-IsIndexed,
}

module _ (f : Floats) (formats : Formats f) where
  -- The calls that change a collection, with the times that they take from the clock.
  pub data Call : Type 0 where
    upserts : ℕ → List (ℕ × Document f) → Call
    upserts_batch : List BatchOption → Outside f formats → ℕ → List (ℕ × Document f) → Call
    deletes : ℕ → List String → Call
    deletes_matching : ℕ → Filter f → Call
    clears : ℕ → Call
    cleans : ℕ → Call

  unfoldable pub after_upsert : Upserted f formats → Collection f → Collection f
  after_upsert (refused _) c = c
  after_upsert (stored _ c') c = c'

  -- A panic comes before any change, and a call that does not end counts for nothing.
  unfoldable pub after_batch : BatchRun f formats → Collection f → Collection f
  after_batch unfinished c = c
  after_batch panics c = c
  after_batch (ended e) c = e.collection

  unfoldable pub apply : Call → Collection f → Collection f
  unfolding upsert delete_ids delete_by_filter clear cleanup_expired after_upsert upsert_batch
      after_batch
  apply (upserts end docs) c = after_upsert (upsert f formats end docs c) c
  apply (upserts_batch opts outside fuel docs) c =
      after_batch (upsert_batch f formats opts outside fuel docs c) c
  apply (deletes now ids) c = (delete_ids f formats now ids c).0
  apply (deletes_matching now filter) c = (delete_by_filter f formats now filter c).0
  apply (clears now) c = clear f now c
  apply (cleans now) c = cleanup_expired f formats now c

  unfoldable pub apply_all : List Call → Collection f → Collection f
  unfolding apply
  apply_all [] c = c
  apply_all (call ∷ calls) c = apply_all calls (apply call c)

  -- The times of the collection do not matter.
  touched-IsIndexed :
      (now : ℕ) (c : Collection f) → IsIndexed f c → IsIndexed f (record c { updated_at = now })
  touched-IsIndexed now c h = record {
    is_map = h.is_map;
    own_ids = h.own_ids;
    in_tags = h.in_tags;
    in_scopes = h.in_scopes;
    only_tags = h.only_tags;
    only_scopes = h.only_scopes;
    only_times = h.only_times;
  }

  upsert_each-IsIndexed :
      (docs : List (ℕ × Document f)) (c : Collection f) (r : UpsertResult)
      → IsIndexed f c
      → IsIndexed f (upsert_each f formats docs (c, r)).0
  unfolding upsert_each
  upsert_each-IsIndexed [] c r h = h
  upsert_each-IsIndexed ((now, doc) ∷ docs) c r h =
      let (c', r') = upsert_one f formats now doc (c, r) in
      upsert_each-IsIndexed docs c' r' (
        upsert_one_keeps f formats (IsIndexed f) now doc c r h
          (put_document-IsIndexed f formats (stamp f formats c.config now doc) c h))

  upsert-IsIndexed :
      (end : ℕ) (docs : List (ℕ × Document f)) (c : Collection f)
      → IsIndexed f c
      → IsIndexed f (after_upsert (upsert f formats end docs c) c)
  unfolding upsert after_upsert
  upsert-IsIndexed end [] c h = h
  upsert-IsIndexed end (doc ∷ docs) c h =
      elim (Option-cases (check_documents f formats c.config 0 (doc ∷ docs))) [
        | inr (e, refuses) ↦
            subst (λ a. IsIndexed f (after_upsert a c))
              (sym (upsert_refused f formats end doc docs c e refuses)) h
        | inl accepts ↦
            subst (λ a. IsIndexed f (after_upsert a c))
              (sym (upsert_stored f formats end doc docs c accepts))
              (touched-IsIndexed end (upsert_each f formats (doc ∷ docs) (c, no_upserts)).0
                (upsert_each-IsIndexed (doc ∷ docs) c no_upserts h))
      ]

  -- What a turn and a run of `UpsertBatch` leave.
  TurnIndexed : Turn f formats → Type 0
  TurnIndexed (stops e) = Unit
  TurnIndexed (goes_on total c) = IsIndexed f c

  RunIndexed : BatchRun f formats → Type 0
  RunIndexed unfinished = Unit
  RunIndexed panics = Unit
  RunIndexed (ended e) = IsIndexed f e.collection

  batch_turn-IsIndexed :
      (config : BatchConfig) (end : ℕ) (batch : List (ℕ × Document f)) (total : UpsertResult)
      (c : Collection f)
      → IsIndexed f c
      → TurnIndexed (batch_turn f formats config end batch total c)
  unfolding batch_turn TurnIndexed after_upsert
  batch_turn-IsIndexed config end batch total c h =
      by_answer (upsert f formats end batch c) (upsert-IsIndexed end batch c h)
    where
      by_answer :
          (u : Upserted f formats)
          → IsIndexed f (after_upsert u c)
          → TurnIndexed (elim u [
            | refused e ↦
                if config.continue_on_error
                then goes_on (record total { failed = total.failed + length batch }) c
                else stops e
            | stored r c' ↦ goes_on (add_results total r) c'
          ])
      by_answer (refused e) i = elim (Bool-cases config.continue_on_error) [
        | inl t ↦ rw t i
        | inr t ↦ rw t tt
      ]
      by_answer (stored r c') i = i

  batch_loop-IsIndexed :
      (fuel : ℕ) (config : BatchConfig) (outside : Outside f formats) (n size i : ℕ)
      (docs : List (ℕ × Document f)) (s : Ended f formats)
      → IsIndexed f s.collection
      → RunIndexed (batch_loop f formats fuel config outside n size i docs s)
  unfolding batch_loop RunIndexed TurnIndexed
  batch_loop-IsIndexed fuel config outside n size i [] s h = h
  batch_loop-IsIndexed zero config outside n size i (doc ∷ docs) s h = tt
  batch_loop-IsIndexed (suc fuel) config outside n size i (doc ∷ docs) s h =
      let batch = take_first n (doc ∷ docs) in
      by_turn (batch_turn f formats config (outside.end_at i) batch s.total s.collection)
        (batch_turn-IsIndexed config (outside.end_at i) batch s.total s.collection h)
        (λ s' h'.
          batch_loop-IsIndexed fuel config outside n size (i + n) (drop_first n (doc ∷ docs)) s' h')
    where
      processed : ℕ
      processed = i + length (take_first n (doc ∷ docs))

      by_turn :
          (turn : Turn f formats)
          → TurnIndexed turn
          → ((s' : Ended f formats)
              → IsIndexed f s'.collection
              → RunIndexed (
                  batch_loop f formats fuel config outside n size
                    (i + n)
                    (drop_first n (doc ∷ docs))
                    s'))
          → RunIndexed (elim turn [
            | stops e ↦ ended (record s { error = some (upsert_failed e) })
            | goes_on total c ↦
                let s' = record s {
                  total = total;
                  collection = c;
                  progress = report f formats config processed size s.progress;
                } in
                elim (outside.done_after i) [
                  | true ↦ ended (record s' { error = some context_done })
                  | false ↦
                      batch_loop f formats fuel config outside n size
                        (i + n)
                        (drop_first n (doc ∷ docs))
                        s'
                ]
          ])
      by_turn (stops e) t rest = h
      by_turn (goes_on total c) t rest = elim (Bool-cases (outside.done_after i)) [
        | inl e ↦ rw e t
        | inr e ↦ rw e (rest _ t)
      ]

  upsert_batch-IsIndexed :
      (opts : List BatchOption) (outside : Outside f formats) (fuel : ℕ)
      (docs : List (ℕ × Document f)) (c : Collection f)
      → IsIndexed f c
      → RunIndexed (upsert_batch f formats opts outside fuel docs c)
  unfolding upsert_batch start_batches RunIndexed
  upsert_batch-IsIndexed opts outside fuel [] c h = h
  upsert_batch-IsIndexed opts outside fuel (doc ∷ docs) c h =
      let config = apply_batch_options opts in
      let run = by_size config.batch_size in
      elim (Bool-cases config.validate_before_batch) [
        | inr t ↦ rw t run
        | inl t ↦ elim (Option-cases (check_all f formats 0 (doc ∷ docs))) [
          | inl e ↦ rw (t, e) run
          | inr (x, e) ↦ rw (t, e) h
        ]
      ]
    where
      by_size :
          (size : ℤ)
          → RunIndexed (elim size [
            | pos n ↦
                batch_loop f formats fuel
                  (apply_batch_options opts)
                  outside
                  n
                  (length (doc ∷ docs))
                  0
                  (doc ∷ docs)
                  (record { error = none; total = no_upserts; collection = c; progress = [] })
            | negsuc _ ↦ panics
          ])
      by_size (pos n) =
          batch_loop-IsIndexed fuel (apply_batch_options opts) outside n _ 0 (doc ∷ docs) _ h
      by_size (negsuc _) = tt

  after_batch-IsIndexed :
      (run : BatchRun f formats) (c : Collection f)
      → IsIndexed f c
      → RunIndexed run
      → IsIndexed f (after_batch run c)
  unfolding after_batch RunIndexed
  after_batch-IsIndexed unfinished c h r = h
  after_batch-IsIndexed panics c h r = h
  after_batch-IsIndexed (ended e) c h r = r

  delete_one-IsIndexed :
      (id : String) (c : Collection f) (r : DeleteResult)
      → IsIndexed f c
      → IsIndexed f (delete_one f formats id (c, r)).0
  unfolding delete_one
  delete_one-IsIndexed id c r h = elim (Option-cases (lookup id c.documents)) [
    | inl e ↦ rw (delete_one, e) h
    | inr (doc, e) ↦ rw (delete_one, e) (remove_document-IsIndexed f formats id doc c h)
  ]

  delete_each-IsIndexed :
      (ids : List String) (c : Collection f) (r : DeleteResult)
      → IsIndexed f c
      → IsIndexed f (delete_each f formats ids (c, r)).0
  unfolding delete_each
  delete_each-IsIndexed [] c r h = h
  delete_each-IsIndexed (id ∷ ids) c r h =
      let (c', r') = delete_one f formats id (c, r) in
      delete_each-IsIndexed ids c' r' (delete_one-IsIndexed id c r h)

  delete_found-IsIndexed :
      (ids : List String) (c : Collection f) (n : ℕ)
      → IsIndexed f c
      → IsIndexed f (delete_found f formats ids (c, n)).0
  unfolding delete_found
  delete_found-IsIndexed [] c n h = h
  delete_found-IsIndexed (id ∷ ids) c n h = elim (Option-cases (lookup id c.documents)) [
    | inl e ↦ rw (delete_found, e) (delete_found-IsIndexed ids c n h)
    | inr (doc, e) ↦
        rw (delete_found, e)
          (delete_found-IsIndexed ids (remove_document f formats id doc c) (suc n)
            (remove_document-IsIndexed f formats id doc c h))
  ]

  new_collection-IsIndexed :
      (now : ℕ) (name : String) (config : CollectionConfig f)
      → IsIndexed f (new_collection f now name config)
  unfolding new_collection new_scope_index new_time_index listed lookup
  new_collection-IsIndexed now name config = record {
    is_map = tt;
    own_ids = λ k d e. absurd (ground arith);
    in_tags = λ k d e. absurd (ground arith);
    in_scopes = λ k d e. absurd (ground arith);
    only_tags = λ j key i. i;
    only_scopes = (λ j key i. i, λ j key i. i, λ j key i. i, λ j key i. i, λ j key i. i);
    only_times = (tt, tt, tt);
  }

  apply-IsIndexed : (call : Call) (c : Collection f) → IsIndexed f c → IsIndexed f (apply call c)
  unfolding apply delete_ids delete_by_filter cleanup_expired clear new_collection
  apply-IsIndexed (upserts end docs) c h = upsert-IsIndexed end docs c h
  apply-IsIndexed (upserts_batch opts outside fuel docs) c h =
      after_batch-IsIndexed (upsert_batch f formats opts outside fuel docs c) c h
        (upsert_batch-IsIndexed opts outside fuel docs c h)
  apply-IsIndexed (deletes now []) c h = h
  apply-IsIndexed (deletes now (id ∷ ids)) c h =
      touched-IsIndexed now (delete_each f formats (id ∷ ids) (c, no_deletes)).0
        (delete_each-IsIndexed (id ∷ ids) c no_deletes h)
  apply-IsIndexed (deletes_matching now filter) c h =
      touched-IsIndexed now (delete_found f formats (apply_filters f filter c) (c, 0)).0
        (delete_found-IsIndexed (apply_filters f filter c) c 0 h)
  apply-IsIndexed (clears now) c h =
      touched-IsIndexed now (new_collection f c.created_at c.name c.config)
        (new_collection-IsIndexed c.created_at c.name c.config)
  apply-IsIndexed (cleans now) c h = elim (Bool-cases (same_ℤ c.config.ttl (pos 0))) [
    | inl t ↦ rw t h
    | inr t ↦ rw t (
        touched-IsIndexed _
          (delete_found f formats (expired_ids f formats now c.documents) (c, 0)).0
          (delete_found-IsIndexed (expired_ids f formats now c.documents) c 0 h))
  ]

  apply_all-keeps :
      (calls : List Call) (c : Collection f) → IsIndexed f c → IsIndexed f (apply_all calls c)
  unfolding apply_all
  apply_all-keeps [] c h = h
  apply_all-keeps (call ∷ calls) c h =
      apply_all-keeps calls (apply call c) (apply-IsIndexed call c h)

  -- After any sequence of Upsert, UpsertBatch, Delete, DeleteByFilter, Clear and cleanup calls of a new
  -- collection, its map has each document under the document's own identifier; the indexes list each
  -- document under all its tags and all fields of its scope that are set; and the indexes of tags,
  -- scopes and times list no identifier that the map does not have.
  pub apply_all-IsIndexed :
      (now : ℕ) (name : String) (config : CollectionConfig f) (calls : List Call)
      → IsIndexed f (apply_all calls (new_collection f now name config))
  apply_all-IsIndexed now name config calls =
      apply_all-keeps calls (new_collection f now name config)
        (new_collection-IsIndexed now name config)
