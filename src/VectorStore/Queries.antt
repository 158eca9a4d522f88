-- ===== src/VectorStore/Queries.antt =====
-- pkg/vectorstore/query.go and results.go: queries, and what they are answered with.
use aixgo.Common.{
  ℕ, ◌+◌, ◌-◌, ◌==◌, ltb, if◌then◌else◌, Bool, true, false, ◌||◌, not, List, [], ◌∷◌, ◌++◌, Option,
  none, some, String, same_text, length, map,
}
use aixgo.Common.Int.{ℤ, pos, negsuc, less_ℤ}
use aixgo.Common.Maps.{Map, lookup, insert}
use aixgo.VectorStore.Slices.{drop_first, take_first}
use aixgo.VectorStore.{Floats, Embedding, Document}
use aixgo.VectorStore.Filters.{Filter, nil_filter}
use aixgo.VectorStore.Validate.{ValidationError, validate_embedding}

pub data DistanceMetric : Type 0 where
  -- The empty string, which stands for cosine.
  unset_metric : DistanceMetric
  cosine : DistanceMetric
  euclidean : DistanceMetric
  dot : DistanceMetric
  manhattan : DistanceMetric
  hamming : DistanceMetric
  other_metric : String → DistanceMetric

pub data QueryError : Type 0 where
  nil_query : QueryError
  empty_query : QueryError
  invalid_query_embedding : ValidationError → QueryError
  small_limit : QueryError
  large_limit : QueryError
  negative_offset : QueryError
  min_score_out_of_range : QueryError
  invalid_metric : QueryError

pub record SortBy : Type 0 where
  pub field : String
  pub descending : Bool

pub sort_by_score : SortBy
sort_by_score = record { field = "score"; descending = true }

pub sort_by_created_at : Bool → SortBy
sort_by_created_at descending = record { field = "created_at"; descending = descending }

pub sort_by_updated_at : Bool → SortBy
sort_by_updated_at descending = record { field = "updated_at"; descending = descending }

pub sort_by_field : String → Bool → SortBy
sort_by_field field descending = record { field = field; descending = descending }

unfoldable pub is_known_metric : DistanceMetric → Bool
is_known_metric unset_metric = true
is_known_metric cosine = true
is_known_metric euclidean = true
is_known_metric dot = true
is_known_metric _ = false

module _ (f : Floats) where
  pub record Query : Type 0 where
    pub embedding : Option (Embedding f)
    pub filters : Filter f
    pub limit : ℤ
    pub offset : ℤ
    pub min_score : f.F
    pub metric : DistanceMetric
    pub include_embeddings : Bool
    pub include_content : Bool
    pub sort_by : List SortBy
    pub explain : Bool

  unfoldable pub new_query : Option (Embedding f) → Query
  new_query embedding = record {
    embedding = embedding;
    filters = nil_filter;
    limit = pos 10;
    offset = pos 0;
    min_score = f.zero_f;
    metric = unset_metric;
    include_embeddings = false;
    include_content = true;
    sort_by = [];
    explain = false;
  }

  unfoldable pub new_filter_query : Filter f → Query
  unfolding new_query
  new_filter_query filters = record (new_query none) { filters = filters }

  -- A query that names no filter and has no embedding asks for nothing.
  unfoldable pub asks_nothing : Query → Bool
  asks_nothing q = elim q.embedding [
    | some _ ↦ false
    | none ↦ elim q.filters [ nil_filter ↦ true | _ ↦ false ]
  ]

  unfoldable pub query_embedding_error : Option (Embedding f) → Option ValidationError
  unfolding validate_embedding
  query_embedding_error none = none
  query_embedding_error (some e) = validate_embedding f (some e)

  -- `none` is nil.
  unfoldable pub validate_query : Option Query → Option QueryError
  unfolding asks_nothing is_known_metric query_embedding_error
  validate_query none = some nil_query
  validate_query (some q) =
      if asks_nothing q then some empty_query else elim (query_embedding_error q.embedding) [
        | some e ↦ some (invalid_query_embedding e)
        | none ↦
            if less_ℤ q.limit (pos 1)
            then some small_limit
            else if less_ℤ (pos 10000) q.limit
            then some large_limit
            else if less_ℤ q.offset (pos 0)
            then some negative_offset
            else if f.less q.min_score f.zero_f || f.less f.one_f q.min_score
            then some min_score_out_of_range
            else if not (is_known_metric q.metric)
            then some invalid_metric
            else none
      ]

  pub record Match : Type 0 where
    pub document : Document f
    pub score : f.F
    pub distance : f.F
    pub rank : ℕ

  -- The timing and the plan of an answer, which no decision depends on, are left out.
  pub record QueryResult : Type 0 where
    pub matches : List Match
    pub total : ℕ
    pub offset : ℕ
    pub limit : ℕ

  pub has_matches : QueryResult → Bool
  has_matches r = ltb 0 (length r.matches)

  pub top_match : QueryResult → Option Match
  top_match r = elim r.matches [ [] ↦ none | m ∷ _ ↦ some m ]

  unfoldable pub has_more : QueryResult → Bool
  has_more r = ltb (r.offset + length r.matches) r.total

  unfoldable pub next_offset : QueryResult → ℕ
  next_offset r = r.offset + length r.matches

  -- The difference stops at 0, as the code's does.
  pub prev_offset : QueryResult → ℕ
  prev_offset r = r.offset - r.limit

  pub documents_of : QueryResult → List (Document f)
  documents_of r = map (λ m. m.document) r.matches

  pub scores_of : QueryResult → List f.F
  scores_of r = map (λ m. m.score) r.matches

  pub ids_of : QueryResult → List String
  ids_of r = map (λ m. m.document.id) r.matches

  pub find_match : String → List Match → Option Match
  find_match id [] = none
  find_match id (m ∷ ms) = if same_text m.document.id id then some m else find_match id ms

  pub match_by_id : String → QueryResult → Option Match
  unfolding find_match
  match_by_id id r = find_match id r.matches

  -- `score >= min`
  pub keep_scores : f.F → List Match → List Match
  keep_scores min [] = []
  keep_scores min (m ∷ ms) =
      let rest = keep_scores min ms in
      if f.less min m.score || f.same min m.score then m ∷ rest else rest

  pub filter_by_score : f.F → QueryResult → List Match
  unfolding keep_scores
  filter_by_score min r = keep_scores min r.matches

  pub has_tag : String → List String → Bool
  has_tag tag [] = false
  has_tag tag (t ∷ tags) = same_text t tag || has_tag tag tags

  pub keep_tag : String → List Match → List Match
  unfolding has_tag
  keep_tag tag [] = []
  keep_tag tag (m ∷ ms) =
      let rest = keep_tag tag ms in if has_tag tag m.document.tags then m ∷ rest else rest

  pub filter_by_tag : String → QueryResult → List Match
  unfolding keep_tag
  filter_by_tag tag r = keep_tag tag r.matches

  pub grouped : Map (List Match) → String → List Match
  grouped groups tag = elim (lookup tag groups) [ some ms ↦ ms | none ↦ [] ]

  pub group_match : Match → List String → Map (List Match) → Map (List Match)
  unfolding grouped
  group_match m [] groups = groups
  group_match m (tag ∷ tags) groups =
      group_match m tags (insert tag (grouped groups tag ++ m ∷ []) groups)

  pub group_matches : List Match → Map (List Match) → Map (List Match)
  unfolding group_match
  group_matches [] groups = groups
  group_matches (m ∷ ms) groups = group_matches ms (group_match m m.document.tags groups)

  pub group_by_tag : QueryResult → Map (List Match)
  unfolding group_matches
  group_by_tag r = group_matches r.matches []

  pub is_empty : QueryResult → Bool
  is_empty r = length r.matches == 0

  pub count_matches : QueryResult → ℕ
  count_matches r = length r.matches

  pub sum_scores : f.F → List Match → f.F
  sum_scores sum [] = sum
  sum_scores sum (m ∷ ms) = sum_scores (f.add sum m.score) ms

  pub avg_score : QueryResult → f.F
  unfolding sum_scores
  avg_score r =
      if length r.matches == 0
      then f.zero_f
      else f.div (sum_scores f.zero_f r.matches) (f.of_int (pos (length r.matches)))

  pub best_of : f.F → List Match → f.F
  best_of best [] = best
  best_of best (m ∷ ms) = best_of (if f.less best m.score then m.score else best) ms

  pub max_score_of : QueryResult → f.F
  unfolding best_of
  max_score_of r = elim r.matches [ [] ↦ f.zero_f | m ∷ ms ↦ best_of m.score ms ]

  pub worst_of : f.F → List Match → f.F
  worst_of worst [] = worst
  worst_of worst (m ∷ ms) = worst_of (if f.less m.score worst then m.score else worst) ms

  pub min_score_of : QueryResult → f.F
  unfolding worst_of
  min_score_of r = elim r.matches [ [] ↦ f.zero_f | m ∷ ms ↦ worst_of m.score ms ]

module _ (f : Floats) where
  -- A start below 0 counts as 0, and an end below 0 or the start gives nothing.
  unfoldable pub slice_matches : ℤ → ℤ → List (Match f) → List (Match f)
  unfolding drop_first take_first
  slice_matches from (negsuc _) matches = []
  slice_matches (negsuc _) (pos to) matches = take_first to matches
  slice_matches (pos from) (pos to) matches = take_first (to - from) (drop_first from matches)

  -- `none`: a number below 0 makes the source panic.
  unfoldable pub first_matches : ℤ → List (Match f) → Option (List (Match f))
  unfolding take_first
  first_matches (pos n) matches = some (take_first n matches)
  first_matches (negsuc _) matches = none

  unfoldable pub last_matches : ℤ → List (Match f) → Option (List (Match f))
  unfolding drop_first
  last_matches (pos n) matches = some (drop_first (length matches - n) matches)
  last_matches (negsuc _) matches = none
