-- ===== src/VectorStore/Scoring/Unique.antt =====
-- Two rankings of the same matches are one list if no two different matches have the same score.
use aixgo.Common.{
  ◌≡◌, refl, ap, List, [], ◌∷◌, String, All, false, Option-cases, Bool-cases, inl, inr,
}
use aixgo.Common.Maps.{Map}
use mathlib.Core.Path.{ap₂}
use mathlib.Core.Logic.Or
use mathlib.Core.Bool.{Bool-set}
use mathlib.Core.List.{
  Perm, Mem, not-mem-nil, mem-cons_self, mem-cons_of_mem, eq-or-mem_of_mem-cons, filter_map,
}
use mathlib.Core.List.Perm
use aixgo.VectorStore.{Floats, Document, Embedding}
use aixgo.VectorStore.Queries.{DistanceMetric, Query, Match}
use aixgo.VectorStore.Scoring.{
  chosen_metric, score_candidate, add_match, score_all, better, Sorter, calculate_scores,
}
use aixgo.VectorStore.Scoring.Ranking.{Ordered, InOrder, IsSorter}

module _ (f : Floats) where
  -- Of two matches of the list that have equal scores, both are the same match.
  abbrev pub Distinct : List (Match f) → Type 0
  Distinct ms =
      (m n : Match f)
      → Mem m ms
      → Mem n ms
      → f.less m.score n.score ≡ false
      → f.less n.score m.score ≡ false
      → m ≡ n

  All-Mem :
      (m x : Match f) (ms : List (Match f))
      → All (λ n. better f n x ≡ false) ms
      → Mem m ms
      → better f m x ≡ false
  All-Mem m x [] h i = absurd (not-mem-nil i)
  All-Mem m x (n ∷ ms) (h, hs) i =
      Or.elim (Bool-set _ _) (eq-or-mem_of_mem-cons i) (λ e. rw e h) (λ j. All-Mem m x ms hs j)

  module _ (order : Ordered f) where
    self : (x : f.F) → f.less x x ≡ false
    self x = elim (Bool-cases (f.less x x)) [ inl e ↦ order.one_way x x e | inr e ↦ e ]

    head-first :
        (x m : Match f) (xs : List (Match f))
        → InOrder f (better f) (x ∷ xs)
        → Mem m (x ∷ xs)
        → better f m x ≡ false
    head-first x m xs (h, _) i =
        Or.elim (Bool-set _ _) (eq-or-mem_of_mem-cons i) (λ e. rw e (self x.score))
          (λ j. All-Mem m x xs h j)

    pub ranked_once :
        (xs ys : List (Match f))
        → InOrder f (better f) xs
        → InOrder f (better f) ys
        → Distinct xs
        → Perm xs ys
        → xs ≡ ys
    ranked_once [] ys hx hy d p = Perm.nil-eq p
    ranked_once (x ∷ xs) [] hx hy d p = Perm.eq-nil p
    ranked_once (x ∷ xs) (y ∷ ys) hx hy d p =
        let y_there = (Perm.mem_iff p).1 mem-cons_self in
        let x_there = (Perm.mem_iff p).0 mem-cons_self in
        let heads : x ≡ y =
          d x y mem-cons_self y_there (head-first x y xs hx y_there)
            (head-first y x ys hy x_there) in
        let tails = Perm.cons_inv (Perm.trans p (Perm.symm (Perm.cons' heads Perm.rfl))) in
        ap₂ ◌∷◌ heads (
          ranked_once xs ys hx.1 hy.1 (λ m n i j. d m n (mem-cons_of_mem x i) (mem-cons_of_mem x j))
            tails)

  module _ (documents : Map (Document f)) (vector : List f.F) (metric : DistanceMetric)
      (min_score : f.F) where
    score_all-filter_map :
        (ids : List String)
        → score_all f documents vector metric min_score ids
          ≡ filter_map (score_candidate f documents vector metric min_score) ids
    unfolding score_all add_match filter_map
    score_all-filter_map [] = refl
    score_all-filter_map (id ∷ ids) =
        let rest = score_all-filter_map ids in
        elim (Option-cases (score_candidate f documents vector metric min_score id)) [
          | inl e ↦ rw e rest
          | inr (m, e) ↦ rw e (ap (λ ms. m ∷ ms) rest)
        ]

    score_all-perm :
        (ids ids' : List String)
        → Perm ids ids'
        → Perm
            (score_all f documents vector metric min_score ids)
            (score_all f documents vector metric min_score ids')
    score_all-perm ids ids' p =
        rw (score_all-filter_map ids, score_all-filter_map ids')
          (Perm.filter_map (score_candidate f documents vector metric min_score) p)

  -- The order of the candidates does not change the ranking.
  pub calculate_scores-order :
      (sort_slice : Sorter f)
      → Ordered f
      → IsSorter f sort_slice
      → (documents : Map (Document f)) (ids ids' : List String) (q : Query f) (e : Embedding f)
      → Perm ids ids'
      → Distinct (calculate_scores f sort_slice documents ids q e)
      → calculate_scores f sort_slice documents ids q e
        ≡ calculate_scores f sort_slice documents ids' q e
  unfolding calculate_scores
  calculate_scores-order sort_slice order law documents ids ids' q e p d =
      let metric = chosen_metric f q.metric in
      let scored = score_all f documents e.vector metric q.min_score ids in
      let scored' = score_all f documents e.vector metric q.min_score ids' in
      let ordered =
        law.in_order (better f) (λ m n. order.one_way n.score m.score)
          (λ m n k a b. order.not_less_trans k.score n.score m.score b a) in
      ranked_once order (sort_slice (better f) scored) (sort_slice (better f) scored')
        (ordered scored) (ordered scored') d
        (Perm.trans (Perm.symm (law.same_matches (better f) scored)) (
          Perm.trans (score_all-perm documents e.vector metric q.min_score ids ids' p)
            (law.same_matches (better f) scored')))
