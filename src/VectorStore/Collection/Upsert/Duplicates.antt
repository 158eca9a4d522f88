-- ===== src/VectorStore/Collection/Upsert/Duplicates.antt =====
-- When the deduplication of `Upsert` leaves a document out.
use aixgo.Common.{
  ◌≡◌, ◌≢◌, ◌↔◌, ◌⊎◌, inl, inr, Option, none, some, String, Bool, true, false, ◌&&◌, ◌||◌, not,
  Bool-cases, same_text, same_text_iff, arith,
}
use aixgo.Common.Maps.{lookup}
use aixgo.VectorStore.{Floats, Embedding, Document, Formats}
use aixgo.VectorStore.ContentHash.{calculate_content_hash}
use aixgo.VectorStore.Scoring.{cosine_similarity}
use aixgo.VectorStore.Collection.{Collection}
use aixgo.VectorStore.Collection.Upsert.{is_duplicate}

module _ (f : Floats) (formats : Formats f) where
  -- Both have embeddings, whose similarity is the threshold or more.
  abbrev pub Similar : f.F → Option (Embedding f) → Option (Embedding f) → Type 0
  Similar threshold (some e) (some e') =
      (f.less threshold (cosine_similarity f e.vector e'.vector) ≡ true)
      ⊎ (f.same threshold (cosine_similarity f e.vector e'.vector) ≡ true)
  Similar threshold _ _ = ⊥

  -- The document that has the identifier, if it is stored, is similar.
  abbrev pub SimilarTo : Collection f → Document f → Option (Document f) → Type 0
  SimilarTo c doc none = ⊥
  SimilarTo c doc (some existing) =
      Similar c.config.deduplication_threshold doc.embedding existing.embedding

  abbrev pub HasTwin : Collection f → Document f → Option String → Type 0
  HasTwin c doc none = ⊥
  HasTwin c doc (some id) = (id ≢ doc.id) × SimilarTo c doc (lookup id c.documents)

  -- Deduplication is on, and the hash index knows another stored document with the content hash and a
  -- similar embedding.
  abbrev pub IsDuplicate : Collection f → Document f → Type 0
  IsDuplicate c doc =
      (c.config.enable_deduplication ≡ true)
      × HasTwin c doc (lookup (calculate_content_hash f formats doc) c.hash_index)

  and_iff : (a b : Bool) → ((a && b) ≡ true) ↔ ((a ≡ true) × (b ≡ true))
  and_iff a b = (λ h. ground arith, λ h. ground arith)

  or_iff : (a b : Bool) → ((a || b) ≡ true) ↔ ((a ≡ true) ⊎ (b ≡ true))
  or_iff a b = (λ h. ground arith, λ h. ground arith)

  embeddings_iff :
      (threshold : f.F) (o o' : Option (Embedding f))
      → ((elim o [
        | none ↦ false
        | some e ↦ elim o' [
          | none ↦ false
          | some e' ↦
              let similarity = cosine_similarity f e.vector e'.vector in
              f.less threshold similarity || f.same threshold similarity
        ]
      ])
          ≡ true)
        ↔ Similar threshold o o'
  embeddings_iff threshold none o' = (λ h. ground arith, λ h. absurd h)
  embeddings_iff threshold (some e) none = (λ h. ground arith, λ h. absurd h)
  embeddings_iff threshold (some e) (some e') = or_iff _ _

  stored_iff :
      (c : Collection f) (doc : Document f) (o : Option (Document f))
      → ((elim o [
        | none ↦ false
        | some existing ↦ elim doc.embedding [
          | none ↦ false
          | some e ↦ elim existing.embedding [
            | none ↦ false
            | some e' ↦
                let similarity = cosine_similarity f e.vector e'.vector in
                f.less c.config.deduplication_threshold similarity
                || f.same c.config.deduplication_threshold similarity
          ]
        ]
      ])
          ≡ true)
        ↔ SimilarTo c doc o
  stored_iff c doc none = (λ h. ground arith, λ h. absurd h)
  stored_iff c doc (some existing) =
      embeddings_iff c.config.deduplication_threshold doc.embedding existing.embedding

  differ_iff : (s t : String) → (not (same_text s t) ≡ true) ↔ (s ≢ t)
  differ_iff s t =
      let same = same_text_iff s t in
      (
        λ h e. let x = same.1 e in ground arith,
        λ n. elim (Bool-cases (same_text s t)) [
          | inl e ↦ absurd (n (same.0 e))
          | inr e ↦ ground arith
        ],
      )

  twin_iff :
      (c : Collection f) (doc : Document f) (o : Option String)
      → ((elim o [
        | none ↦ false
        | some id ↦ not (same_text id doc.id) && elim (lookup id c.documents) [
          | none ↦ false
          | some existing ↦ elim doc.embedding [
            | none ↦ false
            | some e ↦ elim existing.embedding [
              | none ↦ false
              | some e' ↦
                  let similarity = cosine_similarity f e.vector e'.vector in
                  f.less c.config.deduplication_threshold similarity
                  || f.same c.config.deduplication_threshold similarity
            ]
          ]
        ]
      ])
          ≡ true)
        ↔ HasTwin c doc o
  twin_iff c doc none = (λ h. ground arith, λ h. absurd h)
  twin_iff c doc (some id) =
      let d = differ_iff id doc.id in
      let s = stored_iff c doc (lookup id c.documents) in
      let both = and_iff (not (same_text id doc.id)) _ in
      (λ h. let (a, b) = both.0 h in (d.0 a, s.0 b), λ (a, b). both.1 (d.1 a, s.1 b))

  pub is_duplicate_lem :
      (c : Collection f) (doc : Document f)
      → (is_duplicate f formats c doc ≡ true) ↔ IsDuplicate c doc
  unfolding is_duplicate
  is_duplicate_lem c doc =
      let t = twin_iff c doc (lookup (calculate_content_hash f formats doc) c.hash_index) in
      let both = and_iff c.config.enable_deduplication _ in
      (λ h. let (a, b) = both.0 h in (a, t.0 b), λ (a, b). both.1 (a, t.1 b))
