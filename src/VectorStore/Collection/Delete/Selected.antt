-- ===== src/VectorStore/Collection/Delete/Selected.antt =====
-- `DeleteByFilter` and the cleanup remove exactly the documents that they are to remove.
use aixgo.Common.{
  ℕ, ◌+◌, ◌≡◌, inl, inr, ◌∈◌, refl, ap, ◌∙◌, subst, [], ◌∷◌, Option, none, some, String, Bool, true,
  false, if◌then◌else◌, length, Option-cases, Bool-cases, arith,
}
use aixgo.Common.Int.{pos, same_ℤ}
use aixgo.Common.Maps.{Map, lookup, keys, IsMap}
use aixgo.VectorStore.{Floats, Document, Formats}
use aixgo.VectorStore.Documents.{is_expired}
use aixgo.VectorStore.Filters.{Filter, nil_filter}
use aixgo.VectorStore.Matching.{matches_filter}
use aixgo.VectorStore.Collection.{Collection, no_deletes}
use aixgo.VectorStore.Collection.Search.{select_ids, apply_filters}
use aixgo.VectorStore.Collection.Delete.{
  delete_found, delete_by_filter, expired_ids, cleanup_expired,
}
use aixgo.VectorStore.Collection.Delete.Gone.{Gone, delete_found-Takes}

module _ (f : Floats) where
  -- What a map says of a name once the documents that pass a test are gone.
  abbrev pub unless : (Document f → Bool) → Option (Document f) → Option (Document f)
  unless test none = none
  unless test (some doc) = if test doc then none else some doc

  keys_mem :
      (test : Document f → Bool) (m : Map (Document f)) (k : String)
      → k ∈ select_ids f test m
      → k ∈ keys m
  unfolding select_ids
  keys_mem test [] k h = h
  keys_mem test ((id, doc) ∷ m) k h = ground (arith, keys_mem test m k)

  select_in :
      (test : Document f → Bool) (m : Map (Document f)) (k : String) (doc : Document f)
      → lookup k m ≡ some doc
      → test doc ≡ true
      → k ∈ select_ids f test m
  unfolding select_ids lookup
  select_in test [] k doc e t = ground arith
  select_in test ((id, d) ∷ m) k doc e t = ground (arith, select_in test m k doc)

  select_out :
      (test : Document f → Bool) (m : Map (Document f)) (k : String) (doc : Document f)
      → IsMap m
      → lookup k m ≡ some doc
      → test doc ≡ false
      → ¬ (k ∈ select_ids f test m)
  unfolding select_ids lookup
  select_out test [] k doc h e t i = i
  select_out test ((id, d) ∷ m) k doc h e t i =
      ground (arith, select_out test m k doc, keys_mem test m k)

  select_absent :
      (test : Document f → Bool) (m : Map (Document f)) (k : String)
      → lookup k m ≡ none
      → ¬ (k ∈ select_ids f test m)
  unfolding select_ids lookup
  select_absent test [] k e i = i
  select_absent test ((id, d) ∷ m) k e i = ground (arith, select_absent test m k)

  -- What is left once the selected documents are gone.
  pub lookup-Gone :
      (test : Document f → Bool) (m m' : Map (Document f))
      → IsMap m
      → Gone (select_ids f test m) m m'
      → (k : String) → lookup k m' ≡ unless test (lookup k m)
  lookup-Gone test m m' h (_, gone, same) k = elim (Option-cases (lookup k m)) [
    | inl e ↦ rw e (same k (select_absent test m k e) ∙ e)
    | inr (doc, e) ↦ elim (Bool-cases (test doc)) [
      | inl t ↦ rw (e, t) (gone k (select_in test m k doc e t))
      | inr t ↦ rw (e, t) (same k (select_out test m k doc h e t) ∙ e)
    ]
  ]

  keys_select : (m : Map (Document f)) → keys m ≡ select_ids f (λ doc. true) m
  unfolding select_ids
  keys_select [] = refl
  keys_select ((id, doc) ∷ m) = ap (λ ids. id ∷ ids) (keys_select m)

  pub apply_filters-select_ids :
      (filter : Filter f) (c : Collection f)
      → apply_filters f filter c ≡ select_ids f (λ doc. matches_filter f doc filter) c.documents
  unfolding apply_filters matches_filter
  apply_filters-select_ids nil_filter c = keys_select c.documents
  apply_filters-select_ids _ c = refl

module _ (f : Floats) (formats : Formats f) where
  -- DeleteByFilter removes exactly the documents that match the filter, and counts them.
  pub delete_by_filter-matching :
      (now : ℕ) (filter : Filter f) (c : Collection f)
      → IsMap c.documents
      → let (c', r) = delete_by_filter f formats now filter c in
        ((k : String)
          → lookup k c'.documents
            ≡ unless f (λ doc. matches_filter f doc filter) (lookup k c.documents))
        × (length c'.documents + r.deleted ≡ length c.documents)
  unfolding delete_by_filter no_deletes
  delete_by_filter-matching now filter c h =
      let test = λ (doc : Document f). matches_filter f doc filter in
      let (gone, count, _) = delete_found-Takes f formats (apply_filters f filter c) c 0 h in
      let (found, _) = delete_found f formats (apply_filters f filter c) (c, 0) in
      (
        λ k.
            lookup-Gone f test c.documents found.documents h
              (subst (λ ids. Gone ids c.documents found.documents)
                (apply_filters-select_ids f filter c) gone)
              k,
        omega arith,
      )

  -- For a collection with a TTL, the cleanup removes exactly the documents that have expired at its
  -- time; for one without, it removes nothing, whatever expiry the documents carry.
  pub cleanup_expired-exact :
      (now : ℕ) (c : Collection f)
      → IsMap c.documents
      → (k : String)
      → lookup k (cleanup_expired f formats now c).documents ≡ (
          if same_ℤ c.config.ttl (pos 0)
          then lookup k c.documents
          else unless f (λ doc. is_expired now doc.temporal) (lookup k c.documents))
  unfolding cleanup_expired expired_ids
  cleanup_expired-exact now c h k = elim (Bool-cases (same_ℤ c.config.ttl (pos 0))) [
    | inl t ↦ rw t refl
    | inr t ↦
        let test = λ (doc : Document f). is_expired now doc.temporal in
        let (gone, _, _) =
          delete_found-Takes f formats (expired_ids f formats now c.documents) c 0 h in
        rw t (lookup-Gone f test c.documents _ h gone k)
  ]
