-- ===== src/VectorStore/Collection/Search.antt =====
-- pkg/vectorstore/memory/memory.go: `Query`, `Get` and `Count`.
pub mod Paging
use aixgo.Common.{
  ℕ, suc, ltb, if◌then◌else◌, Bool, ◌&&◌, List, [], ◌∷◌, Option, none, some, String, length,
}
use aixgo.Common.Int.{ℤ, pos, negsuc}
use aixgo.Common.Maps.{Map, lookup, keys}
use aixgo.VectorStore.{Floats, Document}
use aixgo.VectorStore.Documents.{deep_copy_document}
use aixgo.VectorStore.Filters.{Filter, nil_filter}
use aixgo.VectorStore.Matching.{matches_filter}
use aixgo.VectorStore.Queries.{Query, QueryError, nil_query, validate_query, Match, QueryResult}
use aixgo.VectorStore.Slices.{drop_first, take_first}
use aixgo.VectorStore.Scoring.{Sorter, calculate_scores}
use aixgo.VectorStore.Collection.{Collection}
use aixgo.VectorStore.Iterators.{ResultIterator, new_error_iterator, new_slice_iterator}

module _ (f : Floats) where
  -- The identifiers of the documents that pass a test. The source collects them in a map and ranges
  -- over that, so each call gives them in an order of its own, which `visited` stands for below.
  unfoldable pub select_ids : (Document f → Bool) → Map (Document f) → List String
  select_ids test [] = []
  select_ids test ((id, doc) ∷ documents) =
      let rest = select_ids test documents in if test doc then id ∷ rest else rest

  unfoldable pub apply_filters : Filter f → Collection f → List String
  unfolding select_ids matches_filter
  apply_filters nil_filter c = keys c.documents
  apply_filters filter c = select_ids (λ doc. matches_filter f doc filter) c.documents

  -- The matches of a query without an embedding; `one_f` is their score.
  unfoldable pub plain_matches : Map (Document f) → List String → List (Match f)
  unfolding lookup
  plain_matches documents [] = []
  plain_matches documents (id ∷ ids) =
      let rest = plain_matches documents ids in
      elim (lookup id documents) [
        | none ↦ rest
        | some doc ↦
            record { document = doc; score = f.one_f; distance = f.zero_f; rank = 0 } ∷ rest
      ]

  unfoldable pub all_matches :
      Sorter f → (List String → List String) → Query f → Collection f → List (Match f)
  unfolding apply_filters plain_matches calculate_scores
  all_matches sort_slice visited q c =
      let candidates = visited (apply_filters q.filters c) in
      elim q.embedding [
        | none ↦ plain_matches c.documents candidates
        | some e ↦ calculate_scores f sort_slice c.documents candidates q e
      ]

  -- The tests and slices of the offset and the limit.
  unfoldable pub page_of : ℕ → ℕ → List (Match f) → List (Match f)
  unfolding drop_first take_first
  page_of offset limit matches =
      let rest =
        if ltb 0 offset && ltb offset (length matches)
        then drop_first offset matches
        else if ltb offset (length matches)
        then matches
        else [] in
      if ltb 0 limit && ltb limit (length rest) then take_first limit rest else rest

  unfoldable pub set_ranks : ℕ → List (Match f) → List (Match f)
  set_ranks i [] = []
  set_ranks i (m ∷ ms) = record m { rank = suc i } ∷ set_ranks (suc i) ms

  -- `n` of a number that a check has found not to be below 0.
  unfoldable pub at_least_zero : ℤ → ℕ
  at_least_zero (pos n) = n
  at_least_zero (negsuc _) = 0

  unfoldable pub answer :
      Sorter f → (List String → List String) → Query f → Collection f → QueryResult f
  unfolding all_matches page_of set_ranks at_least_zero
  answer sort_slice visited q c =
      let matches = all_matches sort_slice visited q c in
      let offset = at_least_zero q.offset in
      let limit = at_least_zero q.limit in
      record {
        matches = set_ranks offset (page_of offset limit matches);
        total = length matches;
        offset = offset;
        limit = limit;
      }

  pub data QueryAnswer : Type 0 where
    invalid_query : QueryError → QueryAnswer
    answered : QueryResult f → QueryAnswer

  unfoldable pub query :
      Sorter f → (List String → List String) → Option (Query f) → Collection f → QueryAnswer
  unfolding validate_query answer
  query sort_slice visited none c = invalid_query nil_query
  query sort_slice visited (some q) c = elim (validate_query f (some q)) [
    | some e ↦ invalid_query e
    | none ↦ answered (answer sort_slice visited q c)
  ]

  unfoldable pub get : Collection f → List String → List (Document f)
  unfolding lookup deep_copy_document
  get c [] = []
  get c (id ∷ ids) =
      let rest = get c ids in
      elim (lookup id c.documents) [ none ↦ rest | some doc ↦ deep_copy_document f doc ∷ rest ]

  unfoldable pub count_documents : Filter f → Collection f → ℕ
  unfolding apply_filters
  count_documents nil_filter c = length c.documents
  count_documents filter c = length (apply_filters filter c)

  -- The error of an invalid query is found by the reader of the stream.
  pub query_stream :
      Sorter f
      → (List String → List String)
      → Option (Query f)
      → Collection f
      → ResultIterator (Match f) QueryError
  unfolding query
  query_stream sort_slice visited q c = elim (query sort_slice visited q c) [
    | invalid_query e ↦ new_error_iterator (Match f) QueryError e
    | answered r ↦ new_slice_iterator (Match f) QueryError r.matches
  ]
