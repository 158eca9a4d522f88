-- ===== src/VectorStore/Collection/Upsert/Steps.antt =====
-- The two ways in which the loop of `Upsert` treats a document, and what a run of it leaves alone.
use aixgo.Common.{
  ℕ, suc, ◌≡◌, ap, refl, List, [], ◌∷◌, ◌++◌, none, some, Bool-cases, inl, inr, true, false,
}
use aixgo.Common.Maps.{lookup, insert}
use aixgo.VectorStore.{Floats, Document, Formats}
use aixgo.VectorStore.Documents.{deep_copy_document}
use aixgo.VectorStore.Collection.{Collection, UpsertResult, no_upserts}
use aixgo.VectorStore.Collection.Upsert.{
  is_duplicate, put_document, stamp, count_put, upsert_one, upsert_each, check_documents, upsert,
  UpsertError, refused, stored,
}

module _ (f : Floats) (formats : Formats f) where
  pub upsert_one_duplicate :
      (now : ℕ) (doc : Document f) (c : Collection f) (r : UpsertResult)
      → is_duplicate f formats c doc ≡ true
      → upsert_one f formats now doc (c, r) ≡ (
        c,
        record r {
          deduplicated = suc r.deduplicated;
          deduplicated_ids = r.deduplicated_ids ++ doc.id ∷ [];
        },
      )
  unfolding upsert_one
  upsert_one_duplicate now doc c r e = rw e refl

  pub upsert_one_put :
      (now : ℕ) (doc : Document f) (c : Collection f) (r : UpsertResult)
      → is_duplicate f formats c doc ≡ false
      → upsert_one f formats now doc (c, r) ≡ (
        put_document f formats (stamp f formats c.config now doc) c,
        count_put f formats (lookup doc.id c.documents) r,
      )
  unfolding upsert_one
  upsert_one_put now doc c r e = rw e refl

  -- What holds of the collection before, and is kept by each stored document, holds after.
  pub upsert_one_keeps :
      (P : Collection f → Type 0) (now : ℕ) (doc : Document f) (c : Collection f) (r : UpsertResult)
      → P c
      → P (put_document f formats (stamp f formats c.config now doc) c)
      → P (upsert_one f formats now doc (c, r)).0
  upsert_one_keeps P now doc c r old new = elim (Bool-cases (is_duplicate f formats c doc)) [
    | inl e ↦ rw (upsert_one_duplicate now doc c r e) old
    | inr e ↦ rw (upsert_one_put now doc c r e) new
  ]

  -- Without deduplication every document is stored.
  pub upsert_one_plain :
      (now : ℕ) (doc : Document f) (c : Collection f) (r : UpsertResult)
      → c.config.enable_deduplication ≡ false
      → (upsert_one f formats now doc (c, r)).0
        ≡ put_document f formats (stamp f formats c.config now doc) c
  unfolding is_duplicate
  upsert_one_plain now doc c r e = ap (λ s. s.0) (upsert_one_put now doc c r (rw e refl))

  pub config-put_document :
      (doc : Document f) (c : Collection f) → (put_document f formats doc c).config ≡ c.config
  unfolding put_document
  config-put_document doc c = refl

  pub documents-put_document :
      (doc : Document f) (c : Collection f)
      → (put_document f formats doc c).documents
        ≡ insert doc.id (deep_copy_document f doc) c.documents
  unfolding put_document
  documents-put_document doc c = refl

  pub upsert_refused :
      (end : ℕ) (doc : ℕ × Document f) (docs : List (ℕ × Document f)) (c : Collection f)
      (e : UpsertError)
      → check_documents f formats c.config 0 (doc ∷ docs) ≡ some e
      → upsert f formats end (doc ∷ docs) c ≡ refused e
  unfolding upsert
  upsert_refused end doc docs c e h = rw (upsert, h) refl

  pub upsert_stored :
      (end : ℕ) (doc : ℕ × Document f) (docs : List (ℕ × Document f)) (c : Collection f)
      → check_documents f formats c.config 0 (doc ∷ docs) ≡ none
      → let (c', r) = upsert_each f formats (doc ∷ docs) (c, no_upserts) in
        upsert f formats end (doc ∷ docs) c ≡ stored r (record c' { updated_at = end })
  unfolding upsert
  upsert_stored end doc docs c h = rw (upsert, h) refl
