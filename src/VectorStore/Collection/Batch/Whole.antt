-- ===== src/VectorStore/Collection/Batch/Whole.antt =====
-- `UpsertBatch` does in batches what one `Upsert` does at once.
use aixgo.Common.{
  ℕ, zero, suc, ◌+◌, ◌≡◌, ◌≤◌, inl, inr, refl, sym, ap, ◌∙◌, subst, List, [], ◌∷◌, ◌++◌, Option,
  none, some, All, length, false, Bool-cases, arith,
}
use mathlib.Core.List.{append_assoc, append-nil}
use aixgo.Common.Int.{pos, negsuc}
use aixgo.Common.Maps.{lookup}
use aixgo.VectorStore.{Floats, Document, Formats}
use aixgo.VectorStore.Config.{BatchConfig}
use aixgo.VectorStore.Slices.{drop_first, take_first, length-drop, take-drop}
use aixgo.VectorStore.Collection.{Collection, UpsertResult, no_upserts}
use aixgo.VectorStore.Collection.Upsert.{
  is_duplicate, put_document, stamp, count_put, upsert_one, upsert_each,
}
use aixgo.VectorStore.Collection.Upsert.Steps.{
  upsert_one_duplicate, upsert_one_put, upsert_stored, upsert_one_keeps, config-put_document,
}
use aixgo.VectorStore.Collection.Upsert.Stored.{IsAccepted, check_documents-none}
use aixgo.VectorStore.Collection.Batch.{
  add_results, Ended, BatchRun, panics, ended, Outside, report, goes_on, batch_turn, batch_loop,
  start_batches,
}

-- The counts of one result are those of another one after the counts of a first.
abbrev pub Sum : UpsertResult → UpsertResult → UpsertResult → Type 0
Sum first r whole =
    (whole.inserted ≡ first.inserted + r.inserted)
    × (whole.updated ≡ first.updated + r.updated)
    × (whole.deduplicated ≡ first.deduplicated + r.deduplicated)
    × (whole.deduplicated_ids ≡ first.deduplicated_ids ++ r.deduplicated_ids)

module _ (f : Floats) (formats : Formats f) where
  abbrev timed : ℕ → Collection f → Collection f
  timed t c = record c { updated_at = t }

  -- The time of the last change and the counts before do not change what the loop does.
  upsert_one-Sum :
      (t now : ℕ) (doc : Document f) (c : Collection f) (first r whole : UpsertResult)
      → Sum first r whole
      → let s = upsert_one f formats now doc (timed t c, r) in
        let s' = upsert_one f formats now doc (c, whole) in
        (s.0 ≡ timed t s'.0) × Sum first s.1 s'.1
  unfolding is_duplicate put_document stamp count_put
  upsert_one-Sum t now doc c first r whole (a, b, d, e) =
      elim (Bool-cases (is_duplicate f formats c doc)) [
        | inl h ↦
            rw
              (
                upsert_one_duplicate f formats now doc (timed t c) r h,
                upsert_one_duplicate f formats now doc c whole h,
              )
              (
                refl,
                (
                  omega arith,
                  omega arith,
                  omega arith,
                  ap (λ ids. ids ++ doc.id ∷ []) e
                      ∙ append_assoc first.deduplicated_ids r.deduplicated_ids (doc.id ∷ []),
                ),
              )
        | inr h ↦
            rw
              (
                upsert_one_put f formats now doc (timed t c) r h,
                upsert_one_put f formats now doc c whole h,
              )
              (refl, counted (lookup doc.id c.documents))
      ]
    where
      counted :
          (o : Option (Document f))
          → Sum first (count_put f formats o r) (count_put f formats o whole)
      counted none = (omega arith, b, d, e)
      counted (some _) = (a, omega arith, d, e)

  upsert_each-Sum :
      (t : ℕ) (docs : List (ℕ × Document f)) (c : Collection f) (first r whole : UpsertResult)
      → Sum first r whole
      → let s = upsert_each f formats docs (timed t c, r) in
        let s' = upsert_each f formats docs (c, whole) in (s.0 ≡ timed t s'.0) × Sum first s.1 s'.1
  unfolding upsert_each
  upsert_each-Sum t [] c first r whole h = (refl, h)
  upsert_each-Sum t ((now, doc) ∷ docs) c first r whole h =
      let s = upsert_one f formats now doc (timed t c, r) in
      let s' = upsert_one f formats now doc (c, whole) in
      let (same, sum) = upsert_one-Sum t now doc c first r whole h in
      let (same', sum') = upsert_each-Sum t docs s'.0 first s.1 s'.1 sum in
      let one = ap {A = Collection f} (λ c. upsert_each f formats docs (c, s.1)) same in
      (
        ap (λ s. s.0) one ∙ same',
        subst (λ x. Sum first x.1 (upsert_each f formats docs s').1) (sym one) sum',
      )

  upsert_each-append :
      (xs ys : List (ℕ × Document f)) (s : Collection f × UpsertResult)
      → upsert_each f formats (xs ++ ys) s ≡ upsert_each f formats ys (upsert_each f formats xs s)
  unfolding upsert_each
  upsert_each-append [] ys s = refl
  upsert_each-append ((now, doc) ∷ xs) ys s =
      upsert_each-append xs ys (upsert_one f formats now doc s)

  config-upsert_each :
      (docs : List (ℕ × Document f)) (c : Collection f) (r : UpsertResult)
      → (upsert_each f formats docs (c, r)).0.config ≡ c.config
  unfolding upsert_each
  config-upsert_each [] c r = refl
  config-upsert_each ((now, doc) ∷ docs) c r =
      let (c', r') = upsert_one f formats now doc (c, r) in
      config-upsert_each docs c' r'
      ∙ upsert_one_keeps f formats (λ x. x.config ≡ c.config) now doc c r refl
          (config-put_document f formats (stamp f formats c.config now doc) c)

  -- A state of the loop against a state of one call for the documents so far: the same collection but
  -- for the time of its last change, and the same counts.
  abbrev pub Agree : Collection f × UpsertResult → Collection f × UpsertResult → Type 0
  Agree (c, total) (c', r) =
      ((t : ℕ) × (c ≡ timed t c'))
      × (total.inserted ≡ r.inserted)
      × (total.updated ≡ r.updated)
      × (total.deduplicated ≡ r.deduplicated)
      × (total.deduplicated_ids ≡ r.deduplicated_ids)

  -- One turn of the loop on a batch that is accepted.
  batch_turn-Agree :
      (config : BatchConfig) (end : ℕ) (doc : ℕ × Document f) (docs : List (ℕ × Document f))
      (c c' : Collection f) (total r : UpsertResult)
      → All (IsAccepted f formats c'.config) (doc ∷ docs)
      → Agree (c, total) (c', r)
      → (c₁ : Collection f) × (total₁ : UpsertResult) × (batch_turn f formats config end
            (doc ∷ docs)
            total
            c
          ≡ goes_on total₁ c₁)
        × Agree (c₁, total₁) (upsert_each f formats (doc ∷ docs) (c', r))
  unfolding batch_turn add_results no_upserts
  batch_turn-Agree config end doc docs c c' total r ok ((t, same), a, b, d, e) =
      let s = upsert_each f formats (doc ∷ docs) (timed t c', no_upserts) in
      let s' = upsert_each f formats (doc ∷ docs) (c', r) in
      let nothing : Sum r no_upserts r =
        (omega arith, omega arith, omega arith, sym (append-nil r.deduplicated_ids)) in
      let (same₁, (i, u, x, y)) = upsert_each-Sum t (doc ∷ docs) c' r no_upserts r nothing in
      let accepted = check_documents-none f formats c'.config 0 (doc ∷ docs) ok in
      let run = upsert_stored f formats end doc docs (timed t c') accepted in
      (
        timed end s.0,
        add_results total s.1,
        subst
            (λ c.
              batch_turn f formats config end (doc ∷ docs) total c
              ≡ goes_on (add_results total s.1) (timed end s.0))
            (sym same) (rw (batch_turn, run) refl),
        (
          (end, ap {A = Collection f} (λ c. timed end c) same₁),
          omega arith,
          omega arith,
          omega arith,
          ap (λ ids. ids ++ s.1.deduplicated_ids) e ∙ sym y,
        ),
      )

  All-take :
      (P : ℕ × Document f → Type 0) (n : ℕ) (docs : List (ℕ × Document f))
      → All P docs
      → All P (take_first n docs) × All P (drop_first n docs)
  unfolding take_first drop_first
  All-take P zero docs h = (tt, h)
  All-take P (suc n) [] h = (tt, tt)
  All-take P (suc n) (doc ∷ docs) (a, h) = let (b, d) = All-take P n docs h in ((a, b), d)

  module _ (config : BatchConfig) (outside : Outside f formats) (n size : ℕ)
      (goes : (i : ℕ) → outside.done_after i ≡ false) where
    abbrev Finds : BatchRun f formats → Collection f × UpsertResult → Type 0
    Finds run s =
        (e : Ended f formats) × (run ≡ ended e) × (e.error ≡ none) × Agree (e.collection, e.total) s

    batch_loop-Agree :
        (fuel i : ℕ) (docs : List (ℕ × Document f)) (s : Ended f formats) (c : Collection f)
        (r : UpsertResult)
        → length docs ≤ fuel
        → All (IsAccepted f formats c.config) docs
        → s.error ≡ none
        → Agree (s.collection, s.total) (c, r)
        → Finds
            (batch_loop f formats fuel config outside (suc n) size i docs s)
            (upsert_each f formats docs (c, r))
    unfolding batch_loop take_first drop_first upsert_each
    batch_loop-Agree zero i [] s c r h ok e a = (s, refl, e, a)
    batch_loop-Agree zero i (doc ∷ docs) s c r h ok e a = absurd (omega arith)
    batch_loop-Agree (suc fuel) i [] s c r h ok e a = (s, refl, e, a)
    batch_loop-Agree (suc fuel) i (doc ∷ docs) s c r h ok e a =
        let (ok₁, ok₂) = All-take (IsAccepted f formats c.config) (suc n) (doc ∷ docs) ok in
        let batch = doc ∷ take_first n docs in
        let (c₁, total₁, turn, a₁) =
          batch_turn-Agree config (outside.end_at i) doc (take_first n docs) s.collection c s.total
            r ok₁ a in
        let (c', r') = upsert_each f formats batch (c, r) in
        let s₁ : Ended f formats = record s {
          total = total₁;
          collection = c₁;
          progress = report f formats config (i + length batch) size s.progress;
        } in
        let ih =
          batch_loop-Agree fuel (i + suc n) (drop_first n docs) s₁ c' r'
            (omega (arith, length-drop n docs))
            (subst (λ config. All (IsAccepted f formats config) (drop_first n docs))
              (sym (config-upsert_each batch c r)) ok₂)
            e a₁ in
        let (end, run, fine, a₂) = ih in
        let step : batch_loop f formats (suc fuel) config outside (suc n) size i (doc ∷ docs) s
            ≡ batch_loop f formats fuel config outside (suc n) size (i + suc n) (drop_first n docs)
                s₁ =
          rw (batch_loop, turn, goes i) refl in
        let whole : upsert_each f formats (doc ∷ docs) (c, r)
            ≡ upsert_each f formats (drop_first n docs) (upsert_each f formats batch (c, r)) =
          ap (λ ds. upsert_each f formats (doc ∷ ds) (c, r)) (sym (take-drop n docs))
          ∙ upsert_each-append batch (drop_first n docs) (c, r) in
        subst (Finds (batch_loop f formats (suc fuel) config outside (suc n) size i (doc ∷ docs) s))
          (sym whole) (end, step ∙ run, fine, a₂)

  -- For a batch size above 0, documents that the collection accepts, and a context that is not
  -- cancelled, UpsertBatch ends within as many turns as there are documents, reports no error, and has
  -- made of the collection and counted what one pass over all documents would have.
  pub start_batches-Agree :
      (config : BatchConfig) (outside : Outside f formats) (n fuel : ℕ)
      (docs : List (ℕ × Document f)) (c : Collection f)
      → config.batch_size ≡ pos (suc n)
      → ((i : ℕ) → outside.done_after i ≡ false)
      → All (IsAccepted f formats c.config) docs
      → length docs ≤ fuel
      → (e : Ended f formats) × (start_batches f formats config outside fuel docs c ≡ ended e)
        × (e.error ≡ none)
        × Agree (e.collection, e.total) (upsert_each f formats docs (c, no_upserts))
  unfolding start_batches no_upserts
  start_batches-Agree config outside n fuel docs c size goes ok h =
      let (e, run, fine, a) =
        batch_loop-Agree config outside n (length docs) goes fuel 0 docs
          (record { error = none; total = no_upserts; collection = c; progress = [] }) c no_upserts
          h ok refl ((c.updated_at, refl), refl, refl, refl, refl) in
      let opens : start_batches f formats config outside fuel docs c
          ≡ batch_loop f formats fuel config outside (suc n) (length docs) 0 docs
              (record { error = none; total = no_upserts; collection = c; progress = [] }) =
        ap
          (λ size. elim size as (λ _. BatchRun f formats) [
            | pos n ↦
                batch_loop f formats fuel config outside n (length docs) 0 docs
                  (record { error = none; total = no_upserts; collection = c; progress = [] })
            | negsuc _ ↦ panics
          ])
          size in
      (e, opens ∙ run, fine, a)
