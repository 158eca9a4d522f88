-- ===== src/VectorStore/Collection/Delete/Gone.antt =====
-- What is left of the documents after a removal, and what the removals count.
use aixgo.Common.{
  ℕ, suc, ◌+◌, ◌≡◌, inl, inr, ◌∈◌, refl, sym, ◌∙◌, subst, List, [], ◌∷◌, ◌++◌, none, some, String,
  length, Option-cases, arith, dec_mem,
}
use aixgo.Common.Maps.{
  Map, lookup, delete, IsMap, lookup-delete_self, lookup-delete_ne, delete-IsMap, length-delete,
}
use mathlib.Core.List.{append-nil, append_assoc}
use aixgo.VectorStore.{Floats, Document, Formats}
use aixgo.VectorStore.Collection.{Collection, DeleteResult, no_deletes}
use aixgo.VectorStore.Collection.Delete.{
  remove_document, delete_one, delete_each, delete_ids, delete_found,
}

-- The values under these names are gone, and the others are as they were.
abbrev pub Gone : {V : Type 0} → List String → Map V → Map V → Type 0
Gone ids before after =
    IsMap after
    × ((k : String) → k ∈ ids → lookup k after ≡ none)
    × ((k : String) → ¬ (k ∈ ids) → lookup k after ≡ lookup k before)

module _ (f : Floats) (formats : Formats f) where
  documents-remove_document :
      (id : String) (doc : Document f) (c : Collection f)
      → (remove_document f formats id doc c).documents ≡ delete id c.documents
  unfolding remove_document
  documents-remove_document id doc c = refl

  Gone-nil : (m : Map (Document f)) → IsMap m → Gone [] m m
  Gone-nil m h = (h, λ k i. absurd i, λ k n. refl)

  -- A name that the map does not have, and one that is removed, before the others.
  Gone-absent :
      (id : String) (ids : List String) (m m' : Map (Document f))
      → lookup id m ≡ none
      → Gone ids m m'
      → Gone (id ∷ ids) m m'
  Gone-absent id ids m m' e (h, gone, same) = (
    h,
    λ k i. elim (dec_mem k ids) [
      | yes j ↦ gone k j
      | no n ↦ same k n ∙ elim i [ inl s ↦ rw s e | inr j ↦ absurd (n j) ]
    ],
    λ k n. same k (λ i. n (inr i)),
  )

  Gone-present :
      (id : String) (ids : List String) (m m' : Map (Document f))
      → Gone ids (delete id m) m'
      → Gone (id ∷ ids) m m'
  Gone-present id ids m m' (h, gone, same) = (
    h,
    λ k i. elim (dec_mem k ids) [
      | yes j ↦ gone k j
      | no n ↦ same k n ∙ elim i [ inl s ↦ rw s (lookup-delete_self id m) | inr j ↦ absurd (n j) ]
    ],
    λ k n. same k (λ i. n (inr i)) ∙ lookup-delete_ne id k m (λ s. n (inl (sym s))),
  )

  delete_one-none :
      (id : String) (c : Collection f) (r : DeleteResult)
      → lookup id c.documents ≡ none
      → delete_one f formats id (c, r)
        ≡ (c, record r { not_found = suc r.not_found; not_found_ids = r.not_found_ids ++ id ∷ [] })
  unfolding delete_one
  delete_one-none id c r e = rw (delete_one, e) refl

  delete_one-some :
      (id : String) (doc : Document f) (c : Collection f) (r : DeleteResult)
      → lookup id c.documents ≡ some doc
      → delete_one f formats id (c, r)
        ≡ (remove_document f formats id doc c, record r { deleted = suc r.deleted })
  unfolding delete_one
  delete_one-some id doc c r e = rw (delete_one, e) refl

  -- The identifiers that a run of removals does not find: those that the documents do not have, or no
  -- more, as often as they come and in their order.
  pub data Misses : Map (Document f) → List String → List String → Type 0 where
    at_end : {m : Map (Document f)} → Misses m [] []
    misses :
        {m : Map (Document f)} {id : String} {ids missed : List String}
        → (lookup id m ≡ none)
        → Misses m ids missed
        → Misses m (id ∷ ids) (id ∷ missed)
    finds :
        {m : Map (Document f)} {id : String} {ids missed : List String} {doc : Document f}
        → (lookup id m ≡ some doc)
        → Misses (delete id m) ids missed
        → Misses m (id ∷ ids) missed

  -- A run of removals: the documents that are gone, and how they and the others are counted.
  abbrev Removes : List String → Collection f × DeleteResult → Collection f × DeleteResult → Type 0
  Removes ids (c, r) (c', r') =
      Gone ids c.documents c'.documents
      × (r'.deleted + r'.not_found ≡ length ids + r.deleted + r.not_found)
      × ((missed : List String) × Misses c.documents ids missed
          × (r'.not_found_ids ≡ r.not_found_ids ++ missed)
          × (r'.not_found ≡ r.not_found + length missed))
      × (length c'.documents + r'.deleted ≡ length c.documents + r.deleted)

  delete_each-Removes :
      (ids : List String) (c : Collection f) (r : DeleteResult)
      → IsMap c.documents
      → Removes ids (c, r) (delete_each f formats ids (c, r))
  unfolding delete_each
  delete_each-Removes [] c r h = (
    Gone-nil c.documents h,
    omega arith,
    ([], at_end, sym (append-nil r.not_found_ids), omega arith),
    omega arith,
  )
  delete_each-Removes (id ∷ ids) c r h = elim (Option-cases (lookup id c.documents)) [
    | inl e ↦
        let r' = record r {
          not_found = suc r.not_found;
          not_found_ids = r.not_found_ids ++ id ∷ [];
        } in
        let (gone, a, (missed, run, list, number), d) = delete_each-Removes ids c r' h in
        subst (λ s. Removes (id ∷ ids) (c, r) (delete_each f formats ids s))
          (sym (delete_one-none id c r e))
          (
            Gone-absent id ids c.documents _ e gone,
            omega arith,
            (
              id ∷ missed,
              misses e run,
              list ∙ append_assoc r.not_found_ids (id ∷ []) missed,
              omega arith,
            ),
            omega arith,
          )
    | inr (doc, e) ↦
        let c' = remove_document f formats id doc c in
        let ih = delete_each-Removes ids c' (record r { deleted = suc r.deleted }) in
        let (gone, a, (missed, run, list, number), d) = ih (delete-IsMap id c.documents h) in
        subst (λ s. Removes (id ∷ ids) (c, r) (delete_each f formats ids s))
          (sym (delete_one-some id doc c r e))
          (
            Gone-present id ids c.documents _ gone,
            omega arith,
            (missed, finds e run, list, number),
            omega (arith, length-delete id doc c.documents h e),
          )
  ]

  -- A Delete counts every identifier that it gets, as deleted or as not found, and lists the latter,
  -- those that are not stored or that the call has deleted before, as they come;
  -- the documents under the identifiers are gone, the others are as they were, and the collection is
  -- smaller by the deleted ones.
  pub delete_ids-Removes :
      (now : ℕ) (ids : List String) (c : Collection f)
      → IsMap c.documents
      → let (c', r) = delete_ids f formats now ids c in
        Gone ids c.documents c'.documents
        × (r.deleted + r.not_found ≡ length ids)
        × Misses c.documents ids r.not_found_ids
        × (r.not_found ≡ length r.not_found_ids)
        × (length c'.documents + r.deleted ≡ length c.documents)
  unfolding delete_ids no_deletes
  delete_ids-Removes now [] c h =
      (Gone-nil c.documents h, omega arith, at_end, omega arith, omega arith)
  delete_ids-Removes now (id ∷ ids) c h =
      let (gone, a, (missed, run, list, number), d) =
        delete_each-Removes (id ∷ ids) c no_deletes h in
      (
        gone,
        omega arith,
        subst (Misses c.documents (id ∷ ids)) (sym list) run,
        number_of list number,
        omega arith,
      )
    where
      number_of :
          {n : ℕ} {listed missed : List String}
          → listed ≡ [] ++ missed
          → n ≡ 0 + length missed
          → n ≡ length listed
      number_of e h = rw e (omega (arith, h))

  -- The same for a list of candidates.
  delete_found-none :
      (id : String) (ids : List String) (c : Collection f) (n : ℕ)
      → lookup id c.documents ≡ none
      → delete_found f formats (id ∷ ids) (c, n) ≡ delete_found f formats ids (c, n)
  unfolding delete_found
  delete_found-none id ids c n e = rw e refl

  delete_found-some :
      (id : String) (doc : Document f) (ids : List String) (c : Collection f) (n : ℕ)
      → lookup id c.documents ≡ some doc
      → delete_found f formats (id ∷ ids) (c, n)
        ≡ delete_found f formats ids (remove_document f formats id doc c, suc n)
  unfolding delete_found
  delete_found-some id doc ids c n e = rw e refl

  abbrev pub Takes : List String → Collection f × ℕ → Collection f × ℕ → Type 0
  Takes ids (c, n) (c', n') =
      Gone ids c.documents c'.documents
      × (length c'.documents + n' ≡ length c.documents + n)
      × (c'.config ≡ c.config)

  pub delete_found-Takes :
      (ids : List String) (c : Collection f) (n : ℕ)
      → IsMap c.documents
      → Takes ids (c, n) (delete_found f formats ids (c, n))
  unfolding delete_found remove_document
  delete_found-Takes [] c n h = (Gone-nil c.documents h, omega arith, refl)
  delete_found-Takes (id ∷ ids) c n h = elim (Option-cases (lookup id c.documents)) [
    | inl e ↦
        let (gone, a, same) = delete_found-Takes ids c n h in
        subst (Takes (id ∷ ids) (c, n)) (sym (delete_found-none id ids c n e))
          (Gone-absent id ids c.documents _ e gone, omega arith, same)
    | inr (doc, e) ↦
        let c' = remove_document f formats id doc c in
        let (gone, a, same) = delete_found-Takes ids c' (suc n) (delete-IsMap id c.documents h) in
        subst (Takes (id ∷ ids) (c, n)) (sym (delete_found-some id doc ids c n e)) (
          Gone-present id ids c.documents _ gone,
          omega (arith, length-delete id doc c.documents h e),
          same,
        )
  ]
