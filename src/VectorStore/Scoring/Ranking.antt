-- ===== src/VectorStore/Scoring/Ranking.antt =====
-- The order of the matches of a query with an embedding, and what the matches are.
use aixgo.Common.{
  ◌≡◌, ◌⊎◌, inl, inr, refl, List, [], ◌∷◌, Option, none, some, String, All, Bool, true, false,
  Option-cases, Bool-cases,
}
use aixgo.Common.Maps.{Map, lookup}
use mathlib.Core.List.{Perm}
use aixgo.VectorStore.{Floats, Embedding, Document}
use aixgo.VectorStore.Queries.{DistanceMetric, Query, Match}
use aixgo.VectorStore.Scoring.{
  calculate_similarity, chosen_metric, score_document, add_match, score_candidate, score_all,
  better, Sorter, calculate_scores,
}

-- Scores compare like numbers, as all floats but NaN do.
pub record Ordered (f : Floats) : Type 0 where
  pub one_way : (x y : f.F) → f.less x y ≡ true → f.less y x ≡ false
  pub not_less_trans : (x y z : f.F) → f.less x y ≡ false → f.less y z ≡ false → f.less x z ≡ false

module _ (f : Floats) where
  -- No match comes before one that stands ahead of it.
  abbrev pub InOrder : (Match f → Match f → Bool) → List (Match f) → Type 0
  InOrder before [] = Unit
  InOrder before (m ∷ ms) = All (λ n. before n m ≡ false) ms × InOrder before ms

  -- What the documentation of `sort.Slice` promises: the same elements, in order if the function is a
  -- strict weak order; nothing is said of elements that are equal in it.
  pub record IsSorter (sort_slice : Sorter f) : Type 0 where
    pub same_matches :
        (before : Match f → Match f → Bool) (ms : List (Match f)) → Perm ms (sort_slice before ms)
    pub in_order :
        (before : Match f → Match f → Bool)
        → ((m n : Match f) → before m n ≡ true → before n m ≡ false)
        → ((m n k : Match f) → before m n ≡ false → before n k ≡ false → before m k ≡ false)
        → (ms : List (Match f)) → InOrder before (sort_slice before ms)

  -- Why a candidate gives no match: it is not stored, it has no embedding, or its score is below a
  -- minimum that is above 0.
  abbrev pub GivesNone : Map (Document f) → List f.F → DistanceMetric → f.F → String → Type 0
  GivesNone documents vector metric min_score id =
      (lookup id documents ≡ none)
      ⊎ ((doc : Document f) × (lookup id documents ≡ some doc) × (doc.embedding ≡ none))
      ⊎ ((doc : Document f) × (e : Embedding f) × (lookup id documents ≡ some doc)
          × (doc.embedding ≡ some e)
          × (f.less f.zero_f min_score ≡ true)
          × (f.less (calculate_similarity f vector e.vector metric).0 min_score ≡ true))

  -- The match that a candidate gives: its document, with the score and the distance of the metric,
  -- where a minimum above 0 is met.
  abbrev pub Gives : Map (Document f) → List f.F → DistanceMetric → f.F → String → Match f → Type 0
  Gives documents vector metric min_score id m =
      (e : Embedding f) × (lookup id documents ≡ some m.document)
      × (m.document.embedding ≡ some e)
      × (calculate_similarity f vector e.vector metric ≡ (m.score, m.distance))
      × ((f.less f.zero_f min_score ≡ false) ⊎ (f.less m.score min_score ≡ false))

  module _ (documents : Map (Document f)) (vector : List f.F) (metric : DistanceMetric)
      (min_score : f.F) where
    -- Each candidate in turn gives its match, or none for one of the reasons.
    pub data Scores : List String → List (Match f) → Type 0 where
      at_end : Scores [] []
      gives :
          {id : String} {ids : List String} {m : Match f} {ms : List (Match f)}
          → Gives documents vector metric min_score id m
          → Scores ids ms
          → Scores (id ∷ ids) (m ∷ ms)
      gives_none :
          {id : String} {ids : List String} {ms : List (Match f)}
          → GivesNone documents vector metric min_score id
          → Scores ids ms
          → Scores (id ∷ ids) ms

    abbrev ThenScores : String → List String → List (Match f) → Option (Match f) → Type 0
    ThenScores id ids ms o = Scores ids ms → Scores (id ∷ ids) (add_match f o ms)

    score_candidate-Scores :
        (id : String) (ids : List String) (ms : List (Match f))
        → ThenScores id ids ms (score_candidate f documents vector metric min_score id)
    unfolding score_candidate add_match score_document
    score_candidate-Scores id ids ms = elim (Option-cases (lookup id documents)) [
      | inl e ↦ rw (score_candidate, e) (gives_none (inl e))
      | inr (doc, e) ↦ elim (Option-cases doc.embedding) [
        | inl e' ↦ rw (score_candidate, e, e') (gives_none (inr (inl (doc, e, e'))))
        | inr (emb, e') ↦ rw (score_candidate, e, e') (scored doc emb e e')
      ]
    ]
      where
        scored :
            (doc : Document f) (emb : Embedding f)
            → lookup id documents ≡ some doc
            → doc.embedding ≡ some emb
            → ThenScores id ids ms (score_document f vector metric min_score doc emb)
        scored doc emb e e' =
            let (score, distance) = calculate_similarity f vector emb.vector metric in
            elim (Bool-cases (f.less f.zero_f min_score)) [
              | inl t ↦ elim (Bool-cases (f.less score min_score)) [
                | inl u ↦ rw (score_document, t, u) (gives_none (inr (inr (doc, emb, e, e', t, u))))
                | inr u ↦ rw (score_document, t, u) (gives (emb, e, e', refl, inr u))
              ]
              | inr t ↦ rw (score_document, t) (gives (emb, e, e', refl, inl t))
            ]

    score_all-Scores :
        (ids : List String) → Scores ids (score_all f documents vector metric min_score ids)
    unfolding score_all
    score_all-Scores [] = at_end
    score_all-Scores (id ∷ ids) = score_candidate-Scores id ids _ (score_all-Scores ids)

  -- For scores that compare like numbers and a sort that keeps what the documentation promises, no
  -- match of a query with an embedding has a better score than one that stands ahead of it, and up to
  -- their order the matches are those of the candidates: each candidate gives one match with its
  -- document and the score and the distance of the metric, unless it is not stored, has no
  -- embedding, or has a score below a minimum above 0.
  pub calculate_scores-ranked :
      (sort_slice : Sorter f)
      → Ordered f
      → IsSorter sort_slice
      → (documents : Map (Document f)) (candidates : List String) (q : Query f) (e : Embedding f)
      → (scored : List (Match f)) × Scores documents e.vector
          (chosen_metric f q.metric)
          q.min_score
          candidates
          scored
        × Perm scored (calculate_scores f sort_slice documents candidates q e)
        × InOrder (better f) (calculate_scores f sort_slice documents candidates q e)
  unfolding calculate_scores
  calculate_scores-ranked sort_slice order law documents candidates q e =
      let metric = chosen_metric f q.metric in
      let scored = score_all f documents e.vector metric q.min_score candidates in
      (
        scored,
        score_all-Scores documents e.vector metric q.min_score candidates,
        law.same_matches (better f) scored,
        law.in_order (better f) (λ m n. order.one_way n.score m.score)
            (λ m n k a b. order.not_less_trans k.score n.score m.score b a) scored,
      )
