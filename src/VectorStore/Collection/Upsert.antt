-- ===== src/VectorStore/Collection/Upsert.antt =====
-- pkg/vectorstore/memory/memory.go: `Upsert`, which checks all documents before it stores any.
pub mod Steps
pub mod Duplicates
pub mod Counts
pub mod Stored
use aixgo.Common.{
  ℕ, suc, ◌==◌, if◌then◌else◌, Bool, true, false, ◌||◌, ◌&&◌, not, List, [], ◌∷◌, ◌++◌, Option,
  none, some, String, same_text,
}
use aixgo.Common.Int.{ℤ, pos, less_ℤ, same_ℤ}
use aixgo.Common.Maps.{lookup, insert}
use aixgo.VectorStore.{Floats, Scope, Temporal, Document, Formats}
use aixgo.VectorStore.ContentHash.{calculate_content_hash}
use aixgo.VectorStore.Documents.{add_duration, deep_copy_document}
use aixgo.VectorStore.Validate.{ValidationError, validate}
use aixgo.VectorStore.Config.{CollectionConfig}
use aixgo.VectorStore.Indexes.{add_scope, add_time, add_tags}
use aixgo.VectorStore.Scoring.{cosine_similarity}
use aixgo.VectorStore.Collection.{Collection, UpsertResult, no_upserts}

pub data ScopeError : Type 0 where
  no_scope : ScopeError
  empty_field : String → ScopeError

-- The errors of `Upsert`: the index of the document, or its identifier.
pub data UpsertError : Type 0 where
  invalid_document : ℕ → ValidationError → UpsertError
  wrong_dimensions : String → UpsertError
  missing_scope : String → ScopeError → UpsertError

-- The value of a scope field by its name; a name that the code does not know is not checked.
unfoldable pub is_missing : Scope → String → Bool
is_missing s field =
    if same_text field "tenant"
    then same_text s.tenant ""
    else if same_text field "user"
    then same_text s.user ""
    else if same_text field "session"
    then same_text s.session ""
    else if same_text field "agent"
    then same_text s.agent ""
    else same_text field "thread" && same_text s.thread ""

unfoldable pub first_missing_field : Scope → List String → Option ScopeError
unfolding is_missing
first_missing_field s [] = none
first_missing_field s (field ∷ fields) =
    let rest = first_missing_field s fields in
    if is_missing s field then some (empty_field field) else rest

unfoldable pub validate_required_scope : List String → Option Scope → Option ScopeError
unfolding first_missing_field
validate_required_scope [] scope = none
validate_required_scope (field ∷ fields) none = some no_scope
validate_required_scope (field ∷ fields) (some s) = first_missing_field s (field ∷ fields)

-- The temporal information that a document is stored with, and its expiry.
unfoldable pub touched : ℕ → Option Temporal → Temporal
touched now none = record {
  created_at = now;
  updated_at = now;
  expires_at = none;
  event_time = none;
  valid_from = none;
  valid_until = none;
}
touched now (some t) = record t {
  created_at = if t.created_at == 0 then now else t.created_at;
  updated_at = now;
}

unfoldable pub with_expiry : ℤ → ℕ → Option ℕ → Option ℕ
unfolding add_duration
with_expiry ttl now (some expires_at) = some expires_at
with_expiry ttl now none = if less_ℤ (pos 0) ttl then some (add_duration now ttl) else none

unfoldable pub stamp_temporal : ℤ → ℕ → Option Temporal → Temporal
unfolding touched with_expiry
stamp_temporal ttl now o =
    let t = touched now o in record t { expires_at = with_expiry ttl now t.expires_at }

module _ (f : Floats) (formats : Formats f) where
  -- The checks of one document, before anything is stored.
  unfoldable pub wrong_dimension : CollectionConfig f → Document f → Bool
  wrong_dimension config doc = elim doc.embedding [
    | none ↦ false
    | some e ↦
        less_ℤ (pos 0) config.embedding_dimensions
        && not (same_ℤ e.dimensions config.embedding_dimensions)
  ]

  unfoldable pub check_document : CollectionConfig f → ℕ → Document f → Option UpsertError
  unfolding wrong_dimension validate_required_scope
  check_document config i doc = elim (validate f (some doc)) [
    | some e ↦ some (invalid_document i e)
    | none ↦
        if wrong_dimension config doc
        then some (wrong_dimensions doc.id)
        else elim (validate_required_scope config.scope_required doc.scope) [
          | some e ↦ some (missing_scope doc.id e)
          | none ↦ none
        ]
  ]

  unfoldable pub check_documents :
      CollectionConfig f → ℕ → List (ℕ × Document f) → Option UpsertError
  unfolding check_document
  check_documents config i [] = none
  check_documents config i ((_, doc) ∷ docs) =
      let rest = check_documents config (suc i) docs in
      elim (check_document config i doc) [ some e ↦ some e | none ↦ rest ]

  -- The document is left out: another one has its content hash, and their embeddings are similar.
  unfoldable pub is_duplicate : Collection f → Document f → Bool
  unfolding calculate_content_hash lookup cosine_similarity
  is_duplicate c doc =
      c.config.enable_deduplication
      && elim (lookup (calculate_content_hash f formats doc) c.hash_index) [
        | none ↦ false
        | some existing_id ↦
            not (same_text existing_id doc.id) && elim (lookup existing_id c.documents) [
              | none ↦ false
              | some existing ↦ elim doc.embedding [
                | none ↦ false
                | some e ↦ elim existing.embedding [
                  | none ↦ false
                  | some existing_e ↦
                      let similarity = cosine_similarity f e.vector existing_e.vector in
                      f.less c.config.deduplication_threshold similarity
                      || f.same c.config.deduplication_threshold similarity
                ]
              ]
            ]
      ]

  unfoldable pub stamp : CollectionConfig f → ℕ → Document f → Document f
  unfolding stamp_temporal
  stamp config now doc = record doc { temporal = some (stamp_temporal config.ttl now doc.temporal) }

  -- Store a stamped document, and list it in the indexes.
  unfoldable pub put_document : Document f → Collection f → Collection f
  unfolding deep_copy_document insert add_scope add_time add_tags calculate_content_hash
  put_document doc c = record c {
    documents = insert doc.id (deep_copy_document f doc) c.documents;
    scope_index = add_scope doc.id doc.scope c.scope_index;
    time_index = add_time doc.id doc.temporal c.time_index;
    tag_index = add_tags doc.id doc.tags c.tag_index;
    hash_index =
        if c.config.enable_deduplication
        then insert (calculate_content_hash f formats doc) doc.id c.hash_index
        else c.hash_index;
  }

  unfoldable pub count_put : Option (Document f) → UpsertResult → UpsertResult
  count_put none r = record r { inserted = suc r.inserted }
  count_put (some _) r = record r { updated = suc r.updated }

  unfoldable pub upsert_one :
      ℕ → Document f → Collection f × UpsertResult → Collection f × UpsertResult
  unfolding is_duplicate put_document stamp count_put lookup
  upsert_one now doc (c, r) =
      if is_duplicate c doc
      then (
        c,
        record r {
          deduplicated = suc r.deduplicated;
          deduplicated_ids = r.deduplicated_ids ++ doc.id ∷ [];
        },
      )
      else (put_document (stamp c.config now doc) c, count_put (lookup doc.id c.documents) r)

  unfoldable pub upsert_each :
      List (ℕ × Document f) → Collection f × UpsertResult → Collection f × UpsertResult
  unfolding upsert_one
  upsert_each [] s = s
  upsert_each ((now, doc) ∷ docs) s = upsert_each docs (upsert_one now doc s)

  pub data Upserted : Type 0 where
    refused : UpsertError → Upserted
    stored : UpsertResult → Collection f → Upserted

  -- Each document comes with the time at which the loop reaches it, `end` is when the loop has ended.
  unfoldable pub upsert : ℕ → List (ℕ × Document f) → Collection f → Upserted
  unfolding check_documents upsert_each no_upserts
  upsert end [] c = stored no_upserts c
  upsert end (doc ∷ docs) c = elim (check_documents c.config 0 (doc ∷ docs)) [
    | some e ↦ refused e
    | none ↦
        let (c', r) = upsert_each (doc ∷ docs) (c, no_upserts) in
        stored r (record c' { updated_at = end })
  ]
