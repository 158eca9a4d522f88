-- ===== src/VectorStore/Collection/Upsert/Counts.antt =====
-- What `Upsert` does with each document, and what it counts.
use aixgo.Common.{
  ℕ, suc, ◌+◌, ◌≡◌, inl, inr, refl, sym, ◌∙◌, subst, List, [], ◌∷◌, ◌++◌, none, some, String,
  length, Bool-cases, Option-cases, arith, ◌⊎◌,
}
use mathlib.Core.List.{append-nil, append_assoc}
use aixgo.Common.Maps.{lookup, length-insert_new, length-insert_old}
use aixgo.VectorStore.{Floats, Document, Formats}
use aixgo.VectorStore.Config.{CollectionConfig}
use aixgo.VectorStore.Documents.{deep_copy_document}
use aixgo.VectorStore.Collection.{Collection, UpsertResult, no_upserts}
use aixgo.VectorStore.Collection.Upsert.Duplicates.{IsDuplicate, is_duplicate_lem}
use aixgo.VectorStore.Collection.Upsert.Steps.{
  upsert_one_duplicate, upsert_one_put, upsert_refused, upsert_stored,
}
use aixgo.VectorStore.Collection.Upsert.{
  UpsertError, is_duplicate, put_document, stamp, count_put, upsert_each, Upserted, refused, stored,
  check_document, check_documents, upsert,
}

module _ (f : Floats) (formats : Formats f) where
  -- What becomes of the documents one after the other, with the identifiers of those that are left
  -- out, and the numbers of those that are inserted and updated: a duplicate is left out, and any
  -- other document is stamped and stored, as a new one if none is stored under its identifier.
  pub data Fates
      : List (ℕ × Document f) → Collection f → List String → ℕ → ℕ → Collection f → Type 0 where
    at_end : {c : Collection f} → Fates [] c [] 0 0 c
    left_out :
        {now : ℕ} {doc : Document f} {docs : List (ℕ × Document f)} {c c' : Collection f}
        {ids : List String} {new old : ℕ}
        → IsDuplicate f formats c doc
        → Fates docs c ids new old c'
        → Fates ((now, doc) ∷ docs) c (doc.id ∷ ids) new old c'
    inserts :
        {now : ℕ} {doc : Document f} {docs : List (ℕ × Document f)} {c c' : Collection f}
        {ids : List String} {new old : ℕ}
        → (¬ IsDuplicate f formats c doc)
        → lookup doc.id c.documents ≡ none
        → Fates docs (put_document f formats (stamp f formats c.config now doc) c) ids new old c'
        → Fates ((now, doc) ∷ docs) c ids (suc new) old c'
    updates :
        {now : ℕ} {doc before : Document f} {docs : List (ℕ × Document f)} {c c' : Collection f}
        {ids : List String} {new old : ℕ}
        → (¬ IsDuplicate f formats c doc)
        → lookup doc.id c.documents ≡ some before
        → Fates docs (put_document f formats (stamp f formats c.config now doc) c) ids new old c'
        → Fates ((now, doc) ∷ docs) c ids new (suc old) c'

  length-Fates :
      {docs : List (ℕ × Document f)} {c after : Collection f} {ids : List String} {new old : ℕ}
      → Fates docs c ids new old after
      → length after.documents ≡ length c.documents + new
  unfolding put_document stamp
  length-Fates at_end = omega arith
  length-Fates (left_out d rest) = length-Fates rest
  length-Fates (inserts {now = now} {doc = doc} {c = c} d e rest) =
      let copy = deep_copy_document f (stamp f formats c.config now doc) in
      omega (arith, length-Fates rest, length-insert_new doc.id copy c.documents e)
  length-Fates (updates {now = now} {doc = doc} {before = before} {c = c} d e rest) =
      let copy = deep_copy_document f (stamp f formats c.config now doc) in
      omega (arith, length-Fates rest, length-insert_old doc.id copy before c.documents e)

  -- The counts of a result after those of another one.
  abbrev Counted : List String → ℕ → ℕ → UpsertResult → UpsertResult → Type 0
  Counted ids new old r r' =
      (r'.deduplicated_ids ≡ r.deduplicated_ids ++ ids)
      × (r'.deduplicated ≡ r.deduplicated + length ids)
      × (r'.inserted ≡ r.inserted + new)
      × (r'.updated ≡ r.updated + old)
      × (r'.failed ≡ r.failed)

  abbrev Runs :
      List (ℕ × Document f) → Collection f × UpsertResult → Collection f × UpsertResult → Type 0
  Runs docs (c, r) (c', r') =
      (ids : List String) × (new : ℕ) × (old : ℕ) × Fates docs c ids new old c'
      × Counted ids new old r r'

  upsert_each-Runs :
      (docs : List (ℕ × Document f)) (c : Collection f) (r : UpsertResult)
      → Runs docs (c, r) (upsert_each f formats docs (c, r))
  unfolding upsert_each count_put
  upsert_each-Runs [] c r = (
    [],
    0,
    0,
    at_end,
    (sym (append-nil r.deduplicated_ids), omega arith, omega arith, omega arith, refl),
  )
  upsert_each-Runs ((now, doc) ∷ docs) c r = elim (Bool-cases (is_duplicate f formats c doc)) [
    | inl e ↦
        let r' = record r {
          deduplicated = suc r.deduplicated;
          deduplicated_ids = r.deduplicated_ids ++ doc.id ∷ [];
        } in
        let (ids, new, old, fates, (a, b, d, u, x)) = upsert_each-Runs docs c r' in
        subst (λ s. Runs ((now, doc) ∷ docs) (c, r) (upsert_each f formats docs s))
          (sym (upsert_one_duplicate f formats now doc c r e))
          (
            doc.id ∷ ids,
            new,
            old,
            left_out ((is_duplicate_lem f formats c doc).0 e) fates,
            (a ∙ append_assoc r.deduplicated_ids (doc.id ∷ []) ids, omega (arith, b), d, u, x),
          )
    | inr e ↦
        let c' = put_document f formats (stamp f formats c.config now doc) c in
        let plain : ¬ IsDuplicate f formats c doc =
          λ h. let y = (is_duplicate_lem f formats c doc).1 h in let z = sym y ∙ e in cc in
        subst (λ s. Runs ((now, doc) ∷ docs) (c, r) (upsert_each f formats docs s))
          (sym (upsert_one_put f formats now doc c r e))
          (elim (Option-cases (lookup doc.id c.documents)) [
            | inl n ↦
                let (ids, new, old, fates, (a, b, d, u, x)) =
                  upsert_each-Runs docs c' (record r { inserted = suc r.inserted }) in
                rw n (ids, suc new, old, inserts plain n fates, (a, b, omega (arith, d), u, x))
            | inr (before, s) ↦
                let (ids, new, old, fates, (a, b, d, u, x)) =
                  upsert_each-Runs docs c' (record r { updated = suc r.updated }) in
                rw s (ids, new, suc old, updates plain s fates, (a, b, d, omega (arith, u), x))
          ])
  ]

  -- The documents before the first one that a check refuses, which are all accepted, and its error.
  pub data FirstFault (config : CollectionConfig f)
      : ℕ → List (ℕ × Document f) → UpsertError → Type 0 where
    here :
        {i now : ℕ} {doc : Document f} {docs : List (ℕ × Document f)} {e : UpsertError}
        → check_document f formats config i doc ≡ some e
        → FirstFault config i ((now, doc) ∷ docs) e
    later :
        {i now : ℕ} {doc : Document f} {docs : List (ℕ × Document f)} {e : UpsertError}
        → check_document f formats config i doc ≡ none
        → FirstFault config (suc i) docs e
        → FirstFault config i ((now, doc) ∷ docs) e

  check_documents-FirstFault :
      (config : CollectionConfig f) (i : ℕ) (docs : List (ℕ × Document f)) (e : UpsertError)
      → check_documents f formats config i docs ≡ some e
      → FirstFault config i docs e
  unfolding check_documents
  check_documents-FirstFault config i [] e h = absurd (ground arith)
  check_documents-FirstFault config i ((now, doc) ∷ docs) e h =
      elim (Option-cases (check_document f formats config i doc)) [
        | inl n ↦ later n (check_documents-FirstFault config (suc i) docs e (ground arith))
        | inr (x, s) ↦ here (ground arith)
      ]

  -- What a call tells of the documents and the collection that it was given, and what it leaves.
  abbrev pub Tells : ℕ → List (ℕ × Document f) → Collection f → Upserted f formats → Type 0
  Tells end docs c (refused e) = FirstFault c.config 0 docs e
  Tells end docs c (stored r c') =
      (after : Collection f) × Fates docs c r.deduplicated_ids r.inserted r.updated after
      × (r.deduplicated ≡ length r.deduplicated_ids)
      × (r.failed ≡ 0)
      × (length c'.documents ≡ length c.documents + r.inserted)
      × ((c' ≡ record after { updated_at = end }) ⊎ ((docs ≡ []) × (c' ≡ c)))

  none_before :
      (docs : List (ℕ × Document f)) (c after : Collection f) (r : UpsertResult) (ids : List String)
      (new old : ℕ)
      → Fates docs c ids new old after
      → Counted ids new old no_upserts r
      → Fates docs c r.deduplicated_ids r.inserted r.updated after
        × (r.deduplicated ≡ length r.deduplicated_ids)
        × (r.failed ≡ 0)
  unfolding no_upserts
  none_before docs c after r ids new old fates (a, b, d, u, x) =
      let i : r.inserted ≡ new = omega (arith, d) in
      let o : r.updated ≡ old = omega (arith, u) in (rw (a, i, o) fates, rw a (omega (arith, b)), x)

  -- Upsert either reports the error of the first document that its checks refuse, and stores
  -- nothing; or it takes the documents one after the other: it leaves out, lists and counts exactly
  -- those that duplicate another stored document, stores every other one with its new times, and
  -- counts it as inserted if nothing was stored under its identifier and as updated if something was;
  -- the collection has grown by the inserted ones.
  pub upsert-Tells :
      (end : ℕ) (docs : List (ℕ × Document f)) (c : Collection f)
      → Tells end docs c (upsert f formats end docs c)
  unfolding upsert no_upserts
  upsert-Tells end [] c = (c, at_end, refl, refl, omega arith, inr (refl, refl))
  upsert-Tells end (doc ∷ docs) c =
      elim (Option-cases (check_documents f formats c.config 0 (doc ∷ docs))) [
        | inr (e, h) ↦
            subst (Tells end (doc ∷ docs) c) (sym (upsert_refused f formats end doc docs c e h))
              (check_documents-FirstFault c.config 0 (doc ∷ docs) e h)
        | inl h ↦
            let s = upsert_each f formats (doc ∷ docs) (c, no_upserts) in
            let (ids, new, old, fates, counts) = upsert_each-Runs (doc ∷ docs) c no_upserts in
            let (told, number, failures) =
              none_before (doc ∷ docs) c s.0 s.1 ids new old fates counts in
            subst (Tells end (doc ∷ docs) c) (sym (upsert_stored f formats end doc docs c h))
              (s.0, told, number, failures, length-Fates told, inl refl)
      ]
