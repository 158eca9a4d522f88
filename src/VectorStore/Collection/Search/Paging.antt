-- ===== src/VectorStore/Collection/Search/Paging.antt =====
-- Reading an answer page by page, with `HasMore` and `NextOffset`.
use aixgo.Common.{
  ℕ, zero, suc, ◌+◌, ◌≡◌, ◌<◌, ◌≤◌, refl, sym, ap, ◌∙◌, List, [], ◌∷◌, ◌++◌, length, ◌&&◌,
  if◌then◌else◌, true, String, some, Bool-cases, inl, inr, arith, ltb,
}
use aixgo.Common.Int.{pos}
use mathlib.Core.List.{Perm}
use mathlib.Core.List.Perm
use aixgo.VectorStore.{Floats, Embedding}
use aixgo.VectorStore.Queries.{Query, Match, QueryResult, has_more, next_offset}
use aixgo.VectorStore.Slices.{
  drop_first, take_first, take-drop, drop_length_take, drop_drop, length-drop, drop_all, take_all,
  take_short, take_some,
}
use aixgo.VectorStore.Scoring.{Sorter}
use aixgo.VectorStore.Scoring.Ranking.{Ordered, IsSorter}
use aixgo.VectorStore.Scoring.Unique.{Distinct, calculate_scores-order}
use aixgo.VectorStore.Collection.{Collection}
use aixgo.VectorStore.Collection.Search.{
  apply_filters, all_matches, page_of, set_ranks, at_least_zero, answer,
}

module _ (f : Floats) where
  -- The page of the code is the one that its offset and limit say.
  page_of_lem :
      (offset limit : ℕ) (ms : List (Match f))
      → 0 < limit
      → page_of f offset limit ms ≡ take_first limit (drop_first offset ms)
  unfolding page_of
  page_of_lem offset limit ms h =
      let rest = drop_first offset ms in
      ap (λ rest. if ltb 0 limit && ltb limit (length rest) then take_first limit rest else rest)
        (from_offset offset ms)
      ∙ elim (Bool-cases (ltb limit (length rest))) [
        | inl t ↦ let u : ltb 0 limit ≡ true = ground arith in rw (u, t) refl
        | inr t ↦
            let u : ltb 0 limit ≡ true = ground arith in
            rw (u, t) (sym (take_all limit rest (ground arith)))
      ]
    where
      from_offset :
          (offset : ℕ) (ms : List (Match f))
          → (if ltb 0 offset && ltb offset (length ms)
              then drop_first offset ms
              else if ltb offset (length ms)
              then ms
              else [])
            ≡ drop_first offset ms
      from_offset offset ms = elim (Bool-cases (ltb offset (length ms))) [
        | inl t ↦ elim (Bool-cases (ltb 0 offset)) [
          | inl u ↦ rw (u, t) refl
          | inr u ↦
              let z : offset ≡ 0 = ground arith in rw (u, t) (sym (ap (λ n. drop_first n ms) z))
        ]
        | inr t ↦ elim (Bool-cases (ltb 0 offset)) [
          | inl u ↦ rw (u, t) (sym (drop_all offset ms (ground arith)))
          | inr u ↦ rw (u, t) (sym (drop_all offset ms (ground arith)))
        ]
      ]

  set_ranks-append :
      (i : ℕ) (xs ys : List (Match f))
      → set_ranks f i (xs ++ ys) ≡ set_ranks f i xs ++ set_ranks f (i + length xs) ys
  unfolding set_ranks
  set_ranks-append i [] ys = let e : i ≡ i + 0 = omega arith in ap (λ k. set_ranks f k ys) e
  set_ranks-append i (x ∷ xs) ys =
      let e : suc i + length xs ≡ i + suc (length xs) = omega arith in
      ap (λ ms. record x { rank = suc i } ∷ ms)
        (set_ranks-append (suc i) xs ys ∙ ap (λ k. set_ranks f (suc i) xs ++ set_ranks f k ys) e)

  length-set_ranks : (i : ℕ) (xs : List (Match f)) → length (set_ranks f i xs) ≡ length xs
  unfolding set_ranks
  length-set_ranks i [] = refl
  length-set_ranks i (x ∷ xs) = ap suc (length-set_ranks (suc i) xs)

  same_matches :
      (sort_slice : Sorter f) (visited : ℕ → List String → List String) (q : Query f)
      (c : Collection f) (e : Embedding f)
      → Ordered f
      → IsSorter f sort_slice
      → ((n : ℕ) (ids : List String) → Perm ids (visited n ids))
      → q.embedding ≡ some e
      → (n : ℕ) → Distinct f (all_matches f sort_slice (visited 0) q c)
      → all_matches f sort_slice (visited n) q c ≡ all_matches f sort_slice (visited 0) q c
  unfolding all_matches
  same_matches sort_slice visited q c e order law visits embedded n =
      let ids = apply_filters f q.filters c in
      let both = Perm.trans (Perm.symm (visits 0 ids)) (visits n ids) in
      rw embedded (λ d. sym (
        calculate_scores-order f sort_slice order law c.documents (visited 0 ids) (visited n ids) q
          e both d))

  -- `visited n` is the order in which the query with `n` turns left visits the map of candidates.
  module _ (sort_slice : Sorter f) (visited : ℕ → List String → List String) (q : Query f)
      (c : Collection f) where
    abbrev pub page : ℕ → ℕ → QueryResult f
    page n offset = answer f sort_slice (visited n) (record q { offset = pos offset }) c

    -- What a caller reads who asks for the next page as long as there is more.
    pub read_on : ℕ → ℕ → List (Match f)
    read_on zero offset = []
    read_on (suc fuel) offset =
        let r = page fuel offset in
        let rest = read_on fuel (next_offset f r) in
        if has_more f r then r.matches ++ rest else r.matches

    module _ (ms : List (Match f))
        (same : (n : ℕ) → all_matches f sort_slice (visited n) q c ≡ ms) where
      answer_of : ℕ → List (Match f) → QueryResult f
      answer_of offset matches =
          let limit = at_least_zero f q.limit in
          record {
            matches = set_ranks f offset (page_of f offset limit matches);
            total = length matches;
            offset = offset;
            limit = limit;
          }

      page_lem : (n offset : ℕ) → page n offset ≡ answer_of offset ms
      unfolding answer answer_of at_least_zero all_matches
      page_lem n offset = ap (answer_of offset) (same n)

      matches-page :
          (n size offset : ℕ)
          → q.limit ≡ pos (suc size)
          → (page n offset).matches
            ≡ set_ranks f offset (take_first (suc size) (drop_first offset ms))
      unfolding answer_of at_least_zero
      matches-page n size offset e =
          ap (λ r. r.matches) (page_lem n offset)
          ∙ rw e (ap (set_ranks f offset) (page_of_lem offset (suc size) ms (omega arith)))

      size_of_page :
          (n size offset : ℕ)
          → q.limit ≡ pos (suc size)
          → length (page n offset).matches ≡ length (take_first (suc size) (drop_first offset ms))
      size_of_page n size offset e =
          ap length (matches-page n size offset e)
          ∙ length-set_ranks offset (take_first (suc size) (drop_first offset ms))

      size_of_answer :
          (n size offset : ℕ)
          → q.limit ≡ pos (suc size)
          → length (answer_of offset ms).matches
            ≡ length (take_first (suc size) (drop_first offset ms))
      size_of_answer n size offset e =
          sym (ap (λ r. length r.matches) (page_lem n offset)) ∙ size_of_page n size offset e

      more_page :
          (n size offset : ℕ)
          → q.limit ≡ pos (suc size)
          → has_more f (page n offset)
            ≡ ltb (offset + length (take_first (suc size) (drop_first offset ms))) (length ms)
      unfolding has_more answer_of
      more_page n size offset e =
          ap (has_more f) (page_lem n offset)
          ∙ ap (λ k. ltb (offset + k) (length ms)) (size_of_answer n size offset e)

      next_page :
          (n size offset : ℕ)
          → q.limit ≡ pos (suc size)
          → next_offset f (page n offset)
            ≡ offset + length (take_first (suc size) (drop_first offset ms))
      unfolding next_offset answer_of
      next_page n size offset e =
          ap (next_offset f) (page_lem n offset)
          ∙ ap (λ k. offset + k) (size_of_answer n size offset e)

      read_on_from :
          (size fuel offset : ℕ)
          → q.limit ≡ pos (suc size)
          → length ms < offset + fuel
          → read_on fuel offset ≡ set_ranks f offset (drop_first offset ms)
      unfolding read_on set_ranks
      read_on_from size zero offset e h =
          let all = ms in sym (ap (set_ranks f offset) (drop_all offset all (omega arith)))
      read_on_from size (suc fuel) offset e h =
          let all = ms in
          let xs = drop_first offset all in
          let taken = take_first (suc size) xs in
          let left = length-drop offset all in
          elim (Bool-cases (ltb (offset + length taken) (length all))) [
            | inl t ↦
                let some_left : 0 < length xs = ground (arith, left) in
                let later : length all < offset + length taken + fuel =
                  ground (arith, take_some size xs some_left) in
                let rest = read_on_from size fuel (offset + length taken) e later in
                let tail : drop_first (offset + length taken) all ≡ drop_first (suc size) xs =
                  drop_drop offset (length taken) all ∙ drop_length_take (suc size) xs in
                rw
                  (
                    more_page fuel size offset e ∙ t,
                    next_page fuel size offset e,
                    matches-page fuel size offset e,
                    rest,
                  )
                  (ap (λ ys. set_ranks f offset taken ++ set_ranks f (offset + length taken) ys)
                      tail
                    ∙ sym (set_ranks-append offset taken (drop_first (suc size) xs))
                    ∙ ap (set_ranks f offset) (take-drop (suc size) xs))
            | inr t ↦
                let short : length xs ≤ length taken = ground (arith, left) in
                rw (more_page fuel size offset e ∙ t) (
                  matches-page fuel size offset e
                  ∙ ap (set_ranks f offset) (take_short (suc size) xs short))
          ]

  -- For a collection that does not change, and a query with an embedding and a limit above 0, whose matches have different scores, that
  -- compare like numbers, and for a sort that keeps what its documentation promises: in whatever
  -- orders the queries for the pages visit the map, asking for the next page as long as there is more
  -- gives the matches of the first query, each once and in their order, with the ranks from 1 on, and
  -- ends within one page more than there are matches.
  pub read_on-all_matches :
      (sort_slice : Sorter f) (visited : ℕ → List String → List String) (q : Query f)
      (c : Collection f) (size : ℕ) (e : Embedding f)
      → Ordered f
      → IsSorter f sort_slice
      → ((n : ℕ) (ids : List String) → Perm ids (visited n ids))
      → q.embedding ≡ some e
      → q.limit ≡ pos (suc size)
      → let ms = all_matches f sort_slice (visited 0) q c in
        Distinct f ms → read_on sort_slice visited q c (suc (length ms)) 0 ≡ set_ranks f 0 ms
  unfolding drop_first
  read_on-all_matches sort_slice visited q c size e order law visits embedded limited distinct =
      let ms = all_matches f sort_slice (visited 0) q c in
      read_on_from sort_slice visited q c ms
        (λ n. same_matches sort_slice visited q c e order law visits embedded n distinct) size
        (suc (length ms)) 0 limited (omega arith)
