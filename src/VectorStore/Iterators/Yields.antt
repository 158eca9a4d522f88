-- ===== src/VectorStore/Iterators/Yields.antt =====
-- An iterator seen from outside: the matches that it yields, and the error that it ends with.
use aixgo.Common.{
  ℕ, zero, suc, ◌≤◌, ◌<◌, ◌≡◌, inl, inr, refl, ap, ◌∙◌, if◌then◌else◌, Bool, true, false, List, [],
  ◌∷◌, ◌++◌, map, Option, none, some, length, arith, Bool-cases,
}
use mathlib.Core.List.{append_assoc, append-nil}
use aixgo.VectorStore.Iterators.{
  ResultIterator, slice_next, slice_current, new_slice_iterator, filter_next, filter_iterator,
  mapped, map_iterator, collected, checked, collect_loop, collect_all,
}

module _ (Match Error : Type 0) where
  -- From a state the iterator yields these matches, one at each `Next`, and then ends with this error.
  pub data Yields (iter : ResultIterator Match Error)
      : iter.State → List Match → Option Error → Type 0 where
    ends : {s s' : iter.State} → iter.next s ≡ (false, s') → Yields iter s [] (iter.failure s')
    yields :
        {s s' : iter.State} {m : Match} {ms : List Match} {e : Option Error}
        → iter.next s ≡ (true, s')
        → iter.current s' ≡ some m
        → Yields iter s' ms e
        → Yields iter s (m ∷ ms) e

  same_next :
      (iter : ResultIterator Match Error) {s t : iter.State} {ms : List Match} {e : Option Error}
      → iter.next s ≡ iter.next t
      → Yields iter t ms e
      → Yields iter s ms e
  same_next iter h (ends e) = ends (h ∙ e)
  same_next iter h (yields e c y) = yields (h ∙ e) c y

  -- The loop of `CollectAll`, with fuel for one turn more than there are matches.
  collect_loop-Yields :
      (iter : ResultIterator Match Error) {s : iter.State} {ms : List Match} {e : Option Error}
      → Yields iter s ms e
      → (fuel : ℕ) (acc : List (Option Match)) → length ms < fuel
      → collect_loop Match Error iter fuel s acc ≡ checked Match Error e (acc ++ map some ms)
  unfolding collect_loop
  collect_loop-Yields iter y zero acc h = absurd (omega arith)
  collect_loop-Yields iter (ends e) (suc fuel) acc h = rw (e, append-nil acc) refl
  collect_loop-Yields iter {s = s} {e = e'} (yields {s' = s'} {m = m} {ms = ms} e c y) (suc fuel)
        acc h =
      rw (e, c)
        (collect_loop-Yields iter {s = s'} y fuel (acc ++ some m ∷ []) (omega arith)
          ∙ ap (λ xs. checked Match Error e' xs) (append_assoc acc (some m ∷ []) (map some ms)))

  rest-Yields :
      (all : List Match) (m : Match) (rest : List Match)
      → Yields
          (new_slice_iterator Match Error all)
          (record { rest = m ∷ rest; started = true })
          rest
          none
  unfolding slice_next slice_current
  rest-Yields all m [] = ends refl
  rest-Yields all m (n ∷ rest) = yields refl refl (rest-Yields all n rest)

  pub slice-Yields :
      (ms : List Match)
      → Yields (new_slice_iterator Match Error ms) (new_slice_iterator Match Error ms).start ms none
  unfolding slice_next slice_current
  slice-Yields [] = ends refl
  slice-Yields (m ∷ rest) = yields refl refl (rest-Yields (m ∷ rest) m rest)

  -- What stays of a list under a predicate.
  abbrev pub keep : (Option Match → Bool) → List Match → List Match
  keep p [] = []
  keep p (m ∷ ms) = if p (some m) then m ∷ keep p ms else keep p ms

  filter_next_fuel :
      (src : ResultIterator Match Error) (p : Option Match → Bool) {s : src.State} {ms : List Match}
      {e : Option Error}
      → Yields src s ms e
      → (a b : ℕ) (kept : Option Match) → length ms < a
      → length ms < b
      → filter_next Match Error src p a s kept ≡ filter_next Match Error src p b s kept
  unfolding filter_next
  filter_next_fuel src p y zero b kept h k = absurd (omega arith)
  filter_next_fuel src p y (suc a) zero kept h k = absurd (omega arith)
  filter_next_fuel src p (ends e) (suc a) (suc b) kept h k = rw e refl
  filter_next_fuel src p {s = s} {e = e'} (yields {s' = s'} {m = m} {ms = ms} e c y) (suc a) (suc b)
        kept h k =
      rw
        (
          e,
          c,
          filter_next_fuel src p {s = s'} {ms = ms} {e = e'} y a b kept (omega arith) (omega arith),
        )
        refl

  module _ (src : ResultIterator Match Error) (p : Option Match → Bool) (fuel : ℕ) where
    abbrev filtered : ResultIterator Match Error
    filtered = filter_iterator Match Error src (suc fuel) p

    -- Where the source ends or yields a match that is kept, so does the filter; a match that is not
    -- kept changes nothing.
    end_next :
        {s s' : src.State} (kept : Option Match)
        → src.next s ≡ (false, s')
        → filtered.next (s, kept) ≡ (false, (s', kept))
    unfolding filter_next
    end_next kept e = rw e refl

    kept_next :
        {s s' : src.State} {m : Match} (kept : Option Match)
        → src.next s ≡ (true, s')
        → src.current s' ≡ some m
        → p (some m) ≡ true
        → filtered.next (s, kept) ≡ (true, (s', some m))
    unfolding filter_next
    kept_next kept e c t = rw (e, c, t) refl

    skipped_next :
        {s s' : src.State} {m : Match} {ms : List Match} {end : Option Error} (kept : Option Match)
        → src.next s ≡ (true, s')
        → src.current s' ≡ some m
        → p (some m) ≡ false
        → Yields src s' ms end
        → length ms < fuel
        → filtered.next (s, kept) ≡ filtered.next (s', kept)
    unfolding filter_next
    skipped_next {s = s} {s' = s'} kept e c t y h =
        rw (e, c, t) (filter_next_fuel src p y fuel (suc fuel) kept h (omega arith))

    pub filter-Yields :
        {s : src.State} {ms : List Match} {e : Option Error}
        → Yields src s ms e
        → length ms ≤ fuel
        → (kept : Option Match) → Yields filtered (s, kept) (keep p ms) e
    filter-Yields (ends e) h kept = ends (end_next kept e)
    filter-Yields {s = s} {e = e'} (yields {s' = s'} {m = m} {ms = ms} e c y) h kept =
        elim (Bool-cases (p (some m))) [
          | inl t ↦
              rw t (yields (kept_next kept e c t) refl (filter-Yields y (omega arith) (some m)))
          | inr t ↦ rw t (
              same_next filtered (skipped_next kept e c t y (omega arith))
                (filter-Yields y (omega arith) kept))
        ]

  map-Yields :
      (src : ResultIterator Match Error) (g : Match → Match) {s : src.State} {ms : List Match}
      {e : Option Error}
      → Yields src s ms e
      → Yields (map_iterator Match Error src (λ m. some (g m))) s (map g ms) e
  unfolding mapped
  map-Yields src g (ends e) = ends e
  map-Yields src g {s = s} {e = e'} (yields {s' = s'} {m = m} {ms = ms} e c y) =
      yields e (rw c refl) (map-Yields src g y)

  length-map : (g : Match → Match) (ms : List Match) → length (map g ms) ≡ length ms
  length-map g [] = refl
  length-map g (m ∷ ms) = omega (arith, length-map g ms)

  length-keep : (p : Option Match → Bool) (ms : List Match) → length (keep p ms) ≤ length ms
  length-keep p [] = omega arith
  length-keep p (m ∷ ms) = ground (arith, length-keep p ms)

  -- For every list of matches, collecting what a filter over a map over the iterator of the list
  -- yields gives the mapped list without the matches that the filter leaves out, in order, if the
  -- loops may take one turn more than there are matches.
  pub collect_all-new_slice_iterator :
      (ms : List Match) (g : Match → Match) (p : Option Match → Bool)
      → collect_all Match Error
          (filter_iterator Match Error
            (map_iterator Match Error (new_slice_iterator Match Error ms) (λ m. some (g m)))
            (suc (length ms))
            p)
          (suc (length ms))
        ≡ collected (map some (keep p (map g ms)))
  unfolding collect_all checked
  collect_all-new_slice_iterator ms g p =
      let source = map_iterator Match Error (new_slice_iterator Match Error ms) (λ m. some (g m)) in
      let mapped_all = map-Yields (new_slice_iterator Match Error ms) g (slice-Yields ms) in
      let size = length-map g ms in
      collect_loop-Yields (filter_iterator Match Error source (suc (length ms)) p)
        (filter-Yields source p (length ms) mapped_all (omega arith) none) (suc (length ms)) []
        (omega (arith, length-keep p (map g ms)))
