-- ===== src/VectorStore/Collection/Delete.antt =====
-- pkg/vectorstore/memory/memory.go: what removes documents, and the statistics of a collection.
pub mod Gone
pub mod Selected
use aixgo.Common.{
  ℕ, suc, ◌+◌, ◌*◌, ◌==◌, ltb, if◌then◌else◌, Bool, true, false, ◌&&◌, List, [], ◌∷◌, ◌++◌, Option,
  none, some, String, length,
}
use aixgo.Common.Int.{ℤ, pos, same_ℤ}
use aixgo.Common.Maps.{Map, lookup, delete}
use Prim.Native.String.{len}
use aixgo.VectorStore.{Floats, Content, Embedding, Document, Formats}
use aixgo.VectorStore.ContentHash.{calculate_content_hash}
use aixgo.VectorStore.Documents.{is_expired}
use aixgo.VectorStore.Filters.{Filter}
use aixgo.VectorStore.Config.{IndexType}
use aixgo.VectorStore.Indexes.{
  new_scope_index, new_time_index, remove_scope, remove_time, remove_tags,
}
use aixgo.VectorStore.Collection.{Collection, DeleteResult, no_deletes}
use aixgo.VectorStore.Collection.Search.{select_ids, apply_filters}

unfoldable pub sum_lengths : List String → ℕ
sum_lengths [] = 0
sum_lengths (s ∷ rest) = len s + sum_lengths rest

unfoldable pub content_size : Option Content → ℕ
unfolding sum_lengths
content_size none = 0
content_size (some c) =
    len c.text + length c.data_bytes + len c.mime_type + len c.url + sum_lengths c.chunks

module _ (f : Floats) where
  unfoldable pub embedding_size : Option (Embedding f) → ℕ
  embedding_size none = 0
  embedding_size (some e) = length e.vector * 4 + len e.model

  unfoldable pub estimate_document_size : Document f → ℕ
  unfolding content_size embedding_size sum_lengths
  estimate_document_size doc =
      len doc.id
      + content_size doc.content
      + embedding_size doc.embedding
      + sum_lengths doc.tags
      + length doc.metadata * 64

  unfoldable pub total_size : Map (Document f) → ℕ
  unfolding estimate_document_size
  total_size [] = 0
  total_size ((_, doc) ∷ documents) = estimate_document_size doc + total_size documents

  -- The dimensions of the first embedding whose dimensions are not 0.
  unfoldable pub first_dimensions : Map (Document f) → ℤ
  first_dimensions [] = pos 0
  first_dimensions ((_, doc) ∷ documents) =
      let rest = first_dimensions documents in
      elim doc.embedding [
        | none ↦ rest
        | some e ↦ if same_ℤ e.dimensions (pos 0) then rest else e.dimensions
      ]

  pub record CollectionStats : Type 0 where
    pub name : String
    pub document_count : ℕ
    pub storage_bytes : ℕ
    pub embedding_dimensions : ℤ
    pub index_type : IndexType
    pub created_at : ℕ
    pub updated_at : ℕ

  unfoldable pub collection_stats : Collection f → CollectionStats
  unfolding total_size first_dimensions
  collection_stats c = record {
    name = c.name;
    document_count = length c.documents;
    storage_bytes = total_size c.documents;
    embedding_dimensions = first_dimensions c.documents;
    index_type = c.config.index_type;
    created_at = c.created_at;
    updated_at = c.updated_at;
  }

  unfoldable pub clear : ℕ → Collection f → Collection f
  unfolding new_scope_index new_time_index
  clear now c = record c {
    documents = [];
    scope_index = new_scope_index;
    time_index = new_time_index;
    tag_index = [];
    hash_index = [];
    updated_at = now;
  }

module _ (f : Floats) (formats : Formats f) where
  -- Take a stored document out of the indexes and out of the map.
  unfoldable pub remove_document : String → Document f → Collection f → Collection f
  unfolding remove_scope remove_time remove_tags delete calculate_content_hash
  remove_document id doc c = record c {
    scope_index = remove_scope id c.scope_index;
    time_index = remove_time id c.time_index;
    tag_index = remove_tags id c.tag_index;
    hash_index =
        if c.config.enable_deduplication
        then delete (calculate_content_hash f formats doc) c.hash_index
        else c.hash_index;
    documents = delete id c.documents;
  }

  unfoldable pub delete_one : String → Collection f × DeleteResult → Collection f × DeleteResult
  unfolding remove_document lookup
  delete_one id (c, r) = elim (lookup id c.documents) [
    | none ↦
        (c, record r { not_found = suc r.not_found; not_found_ids = r.not_found_ids ++ id ∷ [] })
    | some doc ↦ (remove_document id doc c, record r { deleted = suc r.deleted })
  ]

  unfoldable pub delete_each :
      List String → Collection f × DeleteResult → Collection f × DeleteResult
  unfolding delete_one
  delete_each [] s = s
  delete_each (id ∷ ids) s = delete_each ids (delete_one id s)

  unfoldable pub delete_ids : ℕ → List String → Collection f → Collection f × DeleteResult
  unfolding delete_each no_deletes
  delete_ids now [] c = (c, no_deletes)
  delete_ids now (id ∷ ids) c =
      let (c', r) = delete_each (id ∷ ids) (c, no_deletes) in (record c' { updated_at = now }, r)

  -- A candidate that is not stored is passed over.
  unfoldable pub delete_found : List String → Collection f × ℕ → Collection f × ℕ
  unfolding remove_document lookup
  delete_found [] s = s
  delete_found (id ∷ ids) (c, deleted) = delete_found ids (elim (lookup id c.documents) [
    | none ↦ (c, deleted)
    | some doc ↦ (remove_document id doc c, suc deleted)
  ])

  unfoldable pub delete_by_filter : ℕ → Filter f → Collection f → Collection f × DeleteResult
  unfolding apply_filters delete_found no_deletes
  delete_by_filter now filter c =
      let (c', deleted) = delete_found (apply_filters f filter c) (c, 0) in
      (record c' { updated_at = now }, record no_deletes { deleted = deleted })

  unfoldable pub expired_ids : ℕ → Map (Document f) → List String
  unfolding select_ids is_expired
  expired_ids now documents = select_ids f (λ doc. is_expired now doc.temporal) documents

  -- Nothing happens where the collection has no TTL.
  unfoldable pub cleanup_expired : ℕ → Collection f → Collection f
  unfolding expired_ids delete_found
  cleanup_expired now c =
      let (c', _) = delete_found (expired_ids now c.documents) (c, 0) in
      if same_ℤ c.config.ttl (pos 0) then c else record c' {
        updated_at = if ltb 0 (length (expired_ids now c.documents)) then now else c.updated_at;
      }
