-- ===== src/VectorStore/Scoring.antt =====
-- pkg/vectorstore/memory/memory.go: how well a document answers a query.
pub mod Ranking
pub mod Unique
use aixgo.Common.{
  ℕ, zero, ◌==◌, if◌then◌else◌, Bool, true, false, ◌||◌, ◌&&◌, not, List, [], ◌∷◌, Option, none,
  some, String, length,
}
use aixgo.Common.Maps.{Map, lookup}
use aixgo.VectorStore.{Floats, Embedding, Document}
use aixgo.VectorStore.Queries.{DistanceMetric, unset_metric, cosine, euclidean, dot, Query, Match}

module _ (f : Floats) where
  open f use {F, zero_f, one_f}

  -- The sums of one pass over two vectors of the same length.
  unfoldable pub dot_sum : F → List F → List F → F
  dot_sum sum (x ∷ xs) (y ∷ ys) = dot_sum (f.add sum (f.mul x y)) xs ys
  dot_sum sum _ _ = sum

  unfoldable pub cosine_similarity : List F → List F → F
  unfolding dot_sum
  cosine_similarity a b =
      if not (length a == length b) || length a == 0
      then zero_f
      else (let norm_a = dot_sum zero_f a a in
          let norm_b = dot_sum zero_f b b in
          if f.same norm_a zero_f || f.same norm_b zero_f
          then zero_f
          else f.div (dot_sum zero_f a b) (f.mul (f.root norm_a) (f.root norm_b)))

  unfoldable pub dot_product : List F → List F → F
  unfolding dot_sum
  dot_product a b = if not (length a == length b) then zero_f else dot_sum zero_f a b

  unfoldable pub squares_of_differences : F → List F → List F → F
  squares_of_differences sum (x ∷ xs) (y ∷ ys) =
      let diff = f.sub x y in squares_of_differences (f.add sum (f.mul diff diff)) xs ys
  squares_of_differences sum _ _ = sum

  unfoldable pub euclidean_distance : List F → List F → F
  unfolding squares_of_differences
  euclidean_distance a b =
      if not (length a == length b) then zero_f else f.root (squares_of_differences zero_f a b)

  -- The score and the distance.
  unfoldable pub calculate_similarity : List F → List F → DistanceMetric → F × F
  unfolding cosine_similarity dot_product euclidean_distance
  calculate_similarity a b dot = (dot_product a b, f.neg (dot_product a b))
  calculate_similarity a b euclidean =
      let distance = euclidean_distance a b in (f.div one_f (f.add one_f distance), distance)
  calculate_similarity a b _ = let score = cosine_similarity a b in (score, f.sub one_f score)

  unfoldable pub chosen_metric : DistanceMetric → DistanceMetric
  chosen_metric unset_metric = cosine
  chosen_metric metric = metric

  -- One candidate, unless its score is below a minimum that is above 0.
  unfoldable pub score_document :
      List F → DistanceMetric → F → Document f → Embedding f → Option (Match f)
  unfolding calculate_similarity
  score_document vector metric min_score doc e =
      let (score, distance) = calculate_similarity vector e.vector metric in
      if f.less zero_f min_score && f.less score min_score
      then none
      else some (record { document = doc; score = score; distance = distance; rank = 0 })

  unfoldable pub add_match : Option (Match f) → List (Match f) → List (Match f)
  add_match none rest = rest
  add_match (some m) rest = m ∷ rest

  -- A candidate that is not stored, or that has no embedding, gives no match.
  unfoldable pub score_candidate :
      Map (Document f) → List F → DistanceMetric → F → String → Option (Match f)
  unfolding score_document lookup
  score_candidate documents vector metric min_score id = elim (lookup id documents) [
    | none ↦ none
    | some doc ↦ elim doc.embedding [
      | none ↦ none
      | some e ↦ score_document vector metric min_score doc e
    ]
  ]

  unfoldable pub score_all :
      Map (Document f) → List F → DistanceMetric → F → List String → List (Match f)
  unfolding score_candidate add_match
  score_all documents vector metric min_score [] = []
  score_all documents vector metric min_score (id ∷ ids) =
      add_match (score_candidate documents vector metric min_score id)
        (score_all documents vector metric min_score ids)

  abbrev pub better : Match f → Match f → Bool
  better m n = f.less n.score m.score

  -- `sort.Slice` with the function that tells which of two matches comes first.
  abbrev pub Sorter : Type 0
  Sorter = (Match f → Match f → Bool) → List (Match f) → List (Match f)

  unfoldable pub calculate_scores :
      Sorter → Map (Document f) → List String → Query f → Embedding f → List (Match f)
  unfolding score_all chosen_metric
  calculate_scores sort_slice documents candidates q e =
      sort_slice better
        (score_all documents e.vector (chosen_metric q.metric) q.min_score candidates)
