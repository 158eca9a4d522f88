-- ===== src/VectorStore/Collection/Batch.antt =====
-- pkg/vectorstore/memory/memory.go: `UpsertBatch`, which upserts batch by batch.
pub mod Whole
use aixgo.Common.{
  ℕ, zero, suc, ◌+◌, ◌==◌, if◌then◌else◌, Bool, true, false, List, [], ◌∷◌, ◌++◌, Option, none,
  some, length,
}
use aixgo.Common.Int.{ℤ, pos, negsuc}
use aixgo.VectorStore.{Floats, Document, Formats}
use aixgo.VectorStore.Validate.{ValidationError, validate}
use aixgo.VectorStore.Config.{BatchConfig, BatchOption, apply_batch_options}
use aixgo.VectorStore.Slices.{drop_first, take_first}
use aixgo.VectorStore.Collection.{Collection, UpsertResult, no_upserts}
use aixgo.VectorStore.Collection.Upsert.{
  UpsertError, invalid_document, Upserted, refused, stored, upsert,
}

pub data BatchError : Type 0 where
  upsert_failed : UpsertError → BatchError
  context_done : BatchError

unfoldable pub add_results : UpsertResult → UpsertResult → UpsertResult
add_results total r = record total {
  inserted = total.inserted + r.inserted;
  updated = total.updated + r.updated;
  deduplicated = total.deduplicated + r.deduplicated;
  deduplicated_ids = total.deduplicated_ids ++ r.deduplicated_ids;
}

module _ (f : Floats) (formats : Formats f) where
  -- What stands at the end of a call: the error, the totals, the collection, and the calls of the
  -- progress callback, which are told how many documents are processed and how many there are.
  pub record Ended : Type 0 where
    pub error : Option BatchError
    pub total : UpsertResult
    pub collection : Collection f
    pub progress : List (ℕ × ℕ)

  -- `unfinished`: the loop needs more turns than the fuel allows. `panics`: a slice of a size below 0.
  pub data BatchRun : Type 0 where
    unfinished : BatchRun
    panics : BatchRun
    ended : Ended → BatchRun

  unfoldable pub check_all : ℕ → List (ℕ × Document f) → Option UpsertError
  check_all i [] = none
  check_all i ((_, doc) ∷ docs) =
      let rest = check_all (suc i) docs in
      elim (validate f (some doc)) [ some e ↦ some (invalid_document i e) | none ↦ rest ]

  unfoldable pub report : BatchConfig → ℕ → ℕ → List (ℕ × ℕ) → List (ℕ × ℕ)
  report config processed size progress =
      if config.has_callback then progress ++ (processed, size) ∷ [] else progress

  -- The outside at the turn that starts with the document at an index: the time at which its upsert
  -- ends, and whether the context is done after it.
  pub record Outside : Type 0 where
    pub end_at : ℕ → ℕ
    pub done_after : ℕ → Bool

  -- What one turn makes of the totals and the collection, before the callback.
  pub data Turn : Type 0 where
    stops : UpsertError → Turn
    goes_on : UpsertResult → Collection f → Turn

  unfoldable pub batch_turn :
      BatchConfig → ℕ → List (ℕ × Document f) → UpsertResult → Collection f → Turn
  unfolding upsert add_results
  batch_turn config end batch total c = elim (upsert f formats end batch c) [
    | refused e ↦
        if config.continue_on_error
        then goes_on (record total { failed = total.failed + length batch }) c
        else stops e
    | stored r c' ↦ goes_on (add_results total r) c'
  ]

  -- The loop at the index `i` of all documents, where `docs` are those that are left.
  unfoldable pub batch_loop :
      ℕ → BatchConfig → Outside → ℕ → ℕ → ℕ → List (ℕ × Document f) → Ended → BatchRun
  unfolding batch_turn report take_first drop_first
  batch_loop fuel config outside n size i [] s = ended s
  batch_loop zero config outside n size i (doc ∷ docs) s = unfinished
  batch_loop (suc fuel) config outside n size i (doc ∷ docs) s =
      let batch = take_first n (doc ∷ docs) in
      let processed = i + length batch in
      elim (batch_turn config (outside.end_at i) batch s.total s.collection) [
        | stops e ↦ ended (record s { error = some (upsert_failed e) })
        | goes_on total c ↦
            let s' = record s {
              total = total;
              collection = c;
              progress = report config processed size s.progress;
            } in
            elim (outside.done_after i) [
              | true ↦ ended (record s' { error = some context_done })
              | false ↦ batch_loop fuel config outside n size (i + n) (drop_first n (doc ∷ docs)) s'
            ]
      ]

  unfoldable pub start_batches :
      BatchConfig → Outside → ℕ → List (ℕ × Document f) → Collection f → BatchRun
  unfolding batch_loop no_upserts
  start_batches config outside fuel docs c = elim config.batch_size [
    | pos n ↦
        batch_loop fuel config outside n (length docs) 0 docs
          (record { error = none; total = no_upserts; collection = c; progress = [] })
    | negsuc _ ↦ panics
  ]

  unfoldable pub upsert_batch :
      List BatchOption → Outside → ℕ → List (ℕ × Document f) → Collection f → BatchRun
  unfolding start_batches check_all apply_batch_options no_upserts
  upsert_batch opts outside fuel [] c =
      ended (record { error = none; total = no_upserts; collection = c; progress = [] })
  upsert_batch opts outside fuel (doc ∷ docs) c =
      let config = apply_batch_options opts in
      let run = start_batches config outside fuel (doc ∷ docs) c in
      if config.validate_before_batch
      then elim (check_all 0 (doc ∷ docs)) [
        | some e ↦ ended (record {
          error = some (upsert_failed e);
          total = no_upserts;
          collection = c;
          progress = [];
        })
        | none ↦ run
      ]
      else run
