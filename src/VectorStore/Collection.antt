-- ===== src/VectorStore/Collection.antt =====
-- pkg/vectorstore/memory/memory.go: a collection of documents. The lock of the collection makes each
-- operation one step; the times that it takes from the clock are arguments, and its measurements of
-- its own duration are left out. A document is a value: Upsert and Get copy deeply, so there a caller's
-- later change does not reach the collection; Query hands out the stored document itself, and what a
-- caller who changes that would do to the collection is not modelled.
pub mod Upsert
pub mod Search
pub mod Delete
pub mod Batch
pub mod Indexed
use aixgo.Common.{ℕ, suc, ◌+◌, ltb, ◌==◌, Bool, ◌&&◌, List, [], String}
use aixgo.Common.Maps.{Map}
use aixgo.VectorStore.{Floats, Document, Formats}
use aixgo.VectorStore.Config.{CollectionConfig}
use aixgo.VectorStore.Indexes.{ScopeIndex, TimeIndex, TagIndex, new_scope_index, new_time_index}

-- The counts of an answer; `failed` is only set by a batch.
pub record UpsertResult : Type 0 where
  pub inserted : ℕ
  pub updated : ℕ
  pub failed : ℕ
  pub deduplicated : ℕ
  pub deduplicated_ids : List String

pub record DeleteResult : Type 0 where
  pub deleted : ℕ
  pub not_found : ℕ
  pub not_found_ids : List String

unfoldable pub no_upserts : UpsertResult
no_upserts = record {
  inserted = 0;
  updated = 0;
  failed = 0;
  deduplicated = 0;
  deduplicated_ids = [];
}

unfoldable pub no_deletes : DeleteResult
no_deletes = record { deleted = 0; not_found = 0; not_found_ids = [] }

pub upsert_success : UpsertResult → Bool
upsert_success r = r.failed == 0

pub delete_success : DeleteResult → Bool
delete_success r = ltb 0 r.deleted

pub partial_success : UpsertResult → Bool
partial_success r = ltb 0 (r.inserted + r.updated) && ltb 0 r.failed

pub total_processed : UpsertResult → ℕ
total_processed r = r.inserted + r.updated + r.failed

module _ (f : Floats) where
  pub record Collection : Type 0 where
    pub name : String
    pub config : CollectionConfig f
    pub documents : Map (Document f)
    pub scope_index : ScopeIndex
    pub time_index : TimeIndex
    pub tag_index : TagIndex
    pub hash_index : Map String
    pub created_at : ℕ
    pub updated_at : ℕ

  unfoldable pub new_collection : ℕ → String → CollectionConfig f → Collection
  unfolding new_scope_index new_time_index
  new_collection now name config = record {
    name = name;
    config = config;
    documents = [];
    scope_index = new_scope_index;
    time_index = new_time_index;
    tag_index = [];
    hash_index = [];
    created_at = now;
    updated_at = now;
  }
