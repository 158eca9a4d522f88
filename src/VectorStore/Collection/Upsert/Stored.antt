-- ===== src/VectorStore/Collection/Upsert/Stored.antt =====
-- What `Get` returns after an `Upsert`.
use aixgo.Common.{
  ℕ, suc, ◌≡◌, inl, inr, ◌∈◌, refl, sym, ap, ◌∙◌, subst, List, [], ◌∷◌, none, some, String, All,
  Nodup, false,
}
use aixgo.Common.Maps.{Map, lookup, insert, lookup-insert_self, lookup-insert_ne}
use aixgo.VectorStore.{Floats, Document, Formats}
use aixgo.VectorStore.Documents.{deep_copy_document, deep_copy_document_lem}
use aixgo.VectorStore.Config.{CollectionConfig}
use aixgo.VectorStore.Validate.WellFormed.{IsDocument, validate-IsDocument}
use aixgo.VectorStore.Collection.{Collection, UpsertResult, no_upserts}
use aixgo.VectorStore.Collection.Search.{get}
use aixgo.VectorStore.Collection.Upsert.{
  validate_required_scope, wrong_dimension, check_document, check_documents, stamp, upsert_one,
  upsert_each, stored, upsert,
}
use aixgo.VectorStore.Collection.Upsert.Steps.{
  upsert_one_plain, config-put_document, documents-put_document, upsert_stored,
}

module _ (f : Floats) (formats : Formats f) where
  abbrev pub ids : List (ℕ × Document f) → List String
  ids [] = []
  ids ((_, doc) ∷ docs) = doc.id ∷ ids docs

  -- What the collection keeps of a document that it gets at a time.
  abbrev pub kept : CollectionConfig f → List (ℕ × Document f) → List (Document f)
  kept config [] = []
  kept config ((now, doc) ∷ docs) =
      deep_copy_document f (stamp f formats config now doc) ∷ kept config docs

  -- A document that passes the checks of a collection.
  abbrev pub IsAccepted : CollectionConfig f → ℕ × Document f → Type 0
  IsAccepted config (_, doc) =
      IsDocument f doc
      × (wrong_dimension f formats config doc ≡ false)
      × (validate_required_scope config.scope_required doc.scope ≡ none)

  check_document-none :
      (config : CollectionConfig f) (i : ℕ) (doc : ℕ × Document f)
      → IsAccepted config doc
      → check_document f formats config i doc.1 ≡ none
  unfolding check_document
  check_document-none config i (_, doc) (ok, dims, scope) =
      rw (check_document, (validate-IsDocument f doc).1 ok, dims, scope) refl

  pub check_documents-none :
      (config : CollectionConfig f) (i : ℕ) (docs : List (ℕ × Document f))
      → All (IsAccepted config) docs
      → check_documents f formats config i docs ≡ none
  unfolding check_documents
  check_documents-none config i [] h = refl
  check_documents-none config i (doc ∷ docs) h =
      rw (check_documents, check_document-none config i doc h.0)
        (check_documents-none config (suc i) docs h.1)

  -- One turn of the loop without deduplication.
  config-upsert_one :
      (now : ℕ) (doc : Document f) (c : Collection f) (r : UpsertResult)
      → c.config.enable_deduplication ≡ false
      → (upsert_one f formats now doc (c, r)).0.config ≡ c.config
  config-upsert_one now doc c r e =
      ap (λ c. c.config) (upsert_one_plain f formats now doc c r e)
      ∙ config-put_document f formats _ c

  documents-upsert_one :
      (now : ℕ) (doc : Document f) (c : Collection f) (r : UpsertResult)
      → c.config.enable_deduplication ≡ false
      → (upsert_one f formats now doc (c, r)).0.documents
        ≡ insert doc.id (deep_copy_document f (stamp f formats c.config now doc)) c.documents
  unfolding stamp
  documents-upsert_one now doc c r e =
      ap (λ c. c.documents) (upsert_one_plain f formats now doc c r e)
      ∙ documents-put_document f formats _ c

  -- The loop leaves a document alone that it does not get.
  lookup-upsert_each :
      (id : String) (docs : List (ℕ × Document f)) (c : Collection f) (r : UpsertResult)
      → c.config.enable_deduplication ≡ false
      → ¬ (id ∈ ids docs)
      → lookup id (upsert_each f formats docs (c, r)).0.documents ≡ lookup id c.documents
  unfolding upsert_each
  lookup-upsert_each id [] c r e h = refl
  lookup-upsert_each id ((now, doc) ∷ docs) c r e h =
      let (c', r') = upsert_one f formats now doc (c, r) in
      let same = config-upsert_one now doc c r e in
      lookup-upsert_each id docs c' r' (ap (λ c. c.enable_deduplication) same ∙ e) (λ m. h (inr m))
      ∙ ap (lookup id) (documents-upsert_one now doc c r e)
      ∙ lookup-insert_ne doc.id id _ c.documents (λ e. h (inl (sym e)))

  -- A map that has each of these documents under its identifier.
  abbrev Has : List (ℕ × Document f) → CollectionConfig f → Map (Document f) → Type 0
  Has [] config documents = Unit
  Has ((now, doc) ∷ docs) config documents =
      (lookup doc.id documents ≡ some (deep_copy_document f (stamp f formats config now doc)))
      × Has docs config documents

  upsert_each-Has :
      (docs : List (ℕ × Document f)) (c : Collection f) (r : UpsertResult)
      → c.config.enable_deduplication ≡ false
      → Nodup (ids docs)
      → Has docs c.config (upsert_each f formats docs (c, r)).0.documents
  unfolding upsert_each
  upsert_each-Has [] c r e h = tt
  upsert_each-Has ((now, doc) ∷ docs) c r e h =
      let (c', r') = upsert_one f formats now doc (c, r) in
      let same = config-upsert_one now doc c r e in
      let off = ap (λ c. c.enable_deduplication) same ∙ e in
      (
        lookup-upsert_each doc.id docs c' r' off h.0
            ∙ ap (lookup doc.id) (documents-upsert_one now doc c r e)
            ∙ lookup-insert_self doc.id _ c.documents,
        subst (λ config. Has docs config (upsert_each f formats docs (c', r')).0.documents) same
            (upsert_each-Has docs c' r' off h.1),
      )

  copied_twice :
      (doc : Document f)
      → deep_copy_document f (deep_copy_document f doc) ≡ deep_copy_document f doc
  copied_twice doc =
      let once = deep_copy_document_lem f doc in
      deep_copy_document_lem f (deep_copy_document f doc)
      ∙ ap {A = Document f} (λ doc. record doc { score = f.zero_f; distance = f.zero_f }) once
      ∙ sym once

  get-Has :
      (docs : List (ℕ × Document f)) (config : CollectionConfig f) (c : Collection f)
      → Has docs config c.documents
      → get f c (ids docs) ≡ kept config docs
  unfolding get
  get-Has [] config c h = refl
  get-Has ((now, doc) ∷ docs) config c h =
      rw (get, h.0)
        (ap (λ doc. doc ∷ get f c (ids docs)) (copied_twice (stamp f formats config now doc))
          ∙ ap (λ rest. deep_copy_document f (stamp f formats config now doc) ∷ rest)
              (get-Has docs config c h.1))

  -- Where deduplication is off, an Upsert of documents that the collection accepts, with different
  -- identifiers, succeeds, and a Get of their identifiers gives them all, in order, with the times
  -- that the call has set and the expiry of the collection.
  pub upsert-get :
      (end : ℕ) (docs : List (ℕ × Document f)) (c : Collection f)
      → c.config.enable_deduplication ≡ false
      → Nodup (ids docs)
      → All (IsAccepted c.config) docs
      → (r : UpsertResult) × (c' : Collection f) × (upsert f formats end docs c ≡ stored r c')
        × (get f c' (ids docs) ≡ kept c.config docs)
  unfolding upsert
  upsert-get end [] c e h ok = (no_upserts, c, refl, get-Has [] c.config c tt)
  upsert-get end (doc ∷ docs) c e h ok =
      let (c', r) = upsert_each f formats (doc ∷ docs) (c, no_upserts) in
      (
        r,
        record c' { updated_at = end },
        upsert_stored f formats end doc docs c (check_documents-none c.config 0 (doc ∷ docs) ok),
        get-Has (doc ∷ docs) c.config (record c' { updated_at = end })
            (upsert_each-Has (doc ∷ docs) c no_upserts e h),
      )
