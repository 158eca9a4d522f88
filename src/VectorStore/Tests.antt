-- ===== src/VectorStore/Tests.antt =====
-- Two documents, and what the store does with them.
mod Numbers
use aixgo.Common.{
  ℕ, zero, suc, ◌+◌, ◌≡◌, ◌≤◌, sym, ◌∙◌, ◌↔◌, ◌⊎◌, refl, List, [], ◌∷◌, ◌++◌, map, Option, none,
  some, String, Bool, ltb, true, false, if◌then◌else◌, length, All, Nodup, ◌∈◌, string_discrete,
  ℕ_discrete, string_ne, same_text, inl, inr, arith,
}
use aixgo.Common.Int.{ℤ, pos, same_ℤ, less_ℤ}
use aixgo.Common.Maps.{Map, lookup, insert, delete, IsMap}
use mathlib.Core.List.{Perm, Mem, eq-or-mem_of_mem-cons, not-mem-nil}
use mathlib.Core.List.Perm
use mathlib.Core.Logic.Or
use mathlib.Core.HLevel.{hedberg}
use aixgo.VectorStore.{
  Floats, Formats, ContentType, Content, Embedding, Scope, Temporal, Document, Value,
}
use aixgo.VectorStore.Tests.Numbers.{
  numbers, formats, numbers-Ordered, insertion, insertion-IsSorter,
}
use aixgo.VectorStore.Documents.{
  new_text_content, new_scope, new_embedding, new_temporal, is_expired, scope_match, differ,
}
use aixgo.VectorStore.Validate.{
  validate, validate_id, validate_content, validate_embedding, validate_each, validate_metadata_key,
  validate_tag, validate_temporal, validate_scope, validate_numbers, is_nan32, is_inf32,
}
use aixgo.VectorStore.Validate.Texts.{
  id_characters, is_control, is_forbidden, key_characters, tag_characters, is_alphanumeric,
}
use aixgo.VectorStore.Validate.WellFormed.{IsDocument, validate-IsDocument}
use aixgo.VectorStore.Filters.{
  Filter, Filters, and_of, or_of, not_of, filters_of, tags_filter, any_tag_filter, tenant_filter,
  scope_of,
}
use aixgo.VectorStore.Matching.{
  matches_filter, matches_tag_filter, matches_scope_filter, same_value,
}
use aixgo.VectorStore.Matching.Meaning.{Meets, matches_filter-Meets}
use aixgo.VectorStore.Config.{
  CollectionConfig, IndexType, apply_options, apply_each, with_ttl, BatchConfig,
  apply_batch_options,
}
use aixgo.VectorStore.Queries.{Query, DistanceMetric, new_query, Match, QueryResult}
use aixgo.VectorStore.Scoring.{better, score_all, chosen_metric, calculate_scores}
use aixgo.VectorStore.Scoring.Ranking.{InOrder, Scores, calculate_scores-ranked}
use aixgo.VectorStore.Scoring.Unique.{Distinct}
use aixgo.VectorStore.Collection.{Collection, new_collection, UpsertResult, no_upserts}
use aixgo.VectorStore.Collection.Upsert.{
  upsert, upsert_each, stored, wrong_dimension, validate_required_scope,
}
use aixgo.VectorStore.Collection.Upsert.Counts.{Tells, upsert-Tells}
use aixgo.VectorStore.Collection.Upsert.Stored.{ids, kept, IsAccepted, upsert-get}
use aixgo.VectorStore.Collection.Search.{get, all_matches, set_ranks}
use aixgo.VectorStore.Collection.Search.Paging.{read_on, read_on-all_matches}
use aixgo.VectorStore.Collection.Delete.{delete_ids, delete_by_filter, cleanup_expired}
use aixgo.VectorStore.Collection.Delete.Gone.{Gone, Misses, delete_ids-Removes}
use aixgo.VectorStore.Collection.Delete.Selected.{
  unless, delete_by_filter-matching, cleanup_expired-exact,
}
use aixgo.VectorStore.Collection.Batch.{Ended, ended, Outside, start_batches}
use aixgo.VectorStore.Collection.Batch.Whole.{Agree, start_batches-Agree}
use aixgo.VectorStore.Collection.Indexed.{IsIndexed}
use aixgo.VectorStore.Collection.Indexed.History.{
  Call, upserts, upserts_batch, deletes, clears, cleans, apply_all, apply_all-IsIndexed,
}
use aixgo.VectorStore.Iterators.{
  new_slice_iterator, map_iterator, filter_iterator, collect_all, collected,
}
use aixgo.VectorStore.Iterators.Yields.{keep, collect_all-new_slice_iterator}

abbrev plain : String → Document numbers
plain id = record {
  id = id;
  content = some (record {
    content_type = ContentType.text_type;
    text = "hello";
    data_bytes = [];
    mime_type = "";
    url = "";
    chunks = [];
  });
  embedding =
      some (record { vector = 1 ∷ 2 ∷ []; model = "m"; dimensions = pos 2; normalized = false });
  scope = none;
  temporal = none;
  tags = "a" ∷ "b:1" ∷ [];
  metadata = [];
  score = 0;
  distance = 0;
}

abbrev one : Document numbers
one = plain "1"

abbrev two : Document numbers
two = plain "2"

abbrev docs : List (ℕ × Document numbers)
docs = (5, one) ∷ (6, two) ∷ []

abbrev config : CollectionConfig numbers
config = record {
  ttl = pos 60;
  enable_deduplication = false;
  deduplication_threshold = 1;
  index_type = IndexType.auto_index;
  embedding_dimensions = pos 2;
  auto_generate_embeddings = false;
  embedding_function = none;
  scope_required = [];
  max_documents = pos 0;
  enable_versioning = false;
  max_versions = pos 0;
  enable_audit_log = false;
  metadata = [];
}

abbrev full : Collection numbers
full = record {
  name = "c";
  config = config;
  documents = ("1", one) ∷ ("2", two) ∷ [];
  scope_index = record {
    tenant_ids = [];
    user_ids = [];
    session_ids = [];
    agent_ids = [];
    thread_ids = [];
  };
  time_index = record { created_ids = []; updated_ids = []; expires_ids = [] };
  tag_index = [];
  hash_index = [];
  created_at = 1;
  updated_at = 1;
}

abbrev empty : Collection numbers
empty = record full { documents = [] }

full-IsMap : IsMap full.documents
full-IsMap = (λ h. elim h [ inl e ↦ string_ne "1" "2" refl e | inr e ↦ e ], (λ h. h, tt))

program : Unit {0}
unfolding validate validate_id validate_content validate_embedding validate_each
    validate_metadata_key validate_tag validate_temporal validate_scope validate_numbers is_nan32
    is_inf32 id_characters is_control is_forbidden key_characters tag_characters is_alphanumeric
    same_text string_discrete ℕ_discrete same_ℤ less_ℤ wrong_dimension validate_required_scope
    matches_filter matches_tag_filter matches_scope_filter scope_match differ and_of not_of
    filters_of tenant_filter scope_of
program = tt

one_valid : validate numbers (some one) ≡ none
unfolding program
one_valid = refl

two_valid : validate numbers (some two) ≡ none
unfolding program
two_valid = refl

-- A tenant's filter matches a document whose scope leaves the tenant open, and none without a scope.
open_scope :
    matches_filter numbers
      (record one { scope = some (new_scope "" "u" "") })
      (tenant_filter numbers "t")
    ≡ true
unfolding program new_scope
open_scope = refl

no_scope : matches_filter numbers one (tenant_filter numbers "t") ≡ false
unfolding program new_scope
no_scope = refl

docs-IsAccepted : All (IsAccepted numbers formats config) docs
unfolding program
docs-IsAccepted = (
  ((validate-IsDocument numbers one).0 one_valid, refl, refl),
  (((validate-IsDocument numbers two).0 two_valid, refl, refl), tt),
)

docs-Nodup : Nodup (ids numbers formats docs)
docs-Nodup = (λ h. elim h [ inl e ↦ string_ne "1" "2" refl e | inr e ↦ e ], (λ h. h, tt))

validate-IsDocument_example : (validate numbers (some one) ≡ none) ↔ IsDocument numbers one
validate-IsDocument_example = validate-IsDocument numbers one

abbrev tagged : Filter numbers
tagged = Filter.and_filter (
    Filters.cons (Filter.tag_filter "a")
      (Filters.cons (Filter.not_filter (Filter.tag_filter "z")) Filters.nil))

matches_filter-Meets_example : (matches_filter numbers one tagged ≡ true) ↔ Meets numbers one tagged
matches_filter-Meets_example = matches_filter-Meets numbers one tagged

upsert-get_example :
    (r : UpsertResult) × (c' : Collection numbers) × (upsert numbers formats 7 docs empty
      ≡ stored r c')
    × (get numbers c' (ids numbers formats docs) ≡ kept numbers formats config docs)
upsert-get_example = upsert-get numbers formats 7 docs empty refl docs-Nodup docs-IsAccepted

upsert-Tells_example : Tells numbers formats 7 docs full (upsert numbers formats 7 docs full)
upsert-Tells_example = upsert-Tells numbers formats 7 docs full

abbrev calm : Outside numbers formats
calm = record { end_at = λ i. 7 + i; done_after = λ i. false }

abbrev calls : List (Call numbers formats)
calls =
    upserts 7 docs
    ∷ upserts_batch [] calm 2 docs
    ∷ deletes 8 ("1" ∷ [])
    ∷ cleans 90
    ∷ clears 91
    ∷ []

apply_all-IsIndexed_example :
    IsIndexed numbers (apply_all numbers formats calls (new_collection numbers 1 "c" config))
apply_all-IsIndexed_example = apply_all-IsIndexed numbers formats 1 "c" config calls

delete_ids-Removes_example :
    let (c', r) = delete_ids numbers formats 8 ("1" ∷ "3" ∷ []) full in
    Gone ("1" ∷ "3" ∷ []) full.documents c'.documents
    × (r.deleted + r.not_found ≡ 2)
    × Misses numbers formats full.documents ("1" ∷ "3" ∷ []) r.not_found_ids
    × (r.not_found ≡ length r.not_found_ids)
    × (length c'.documents + r.deleted ≡ 2)
delete_ids-Removes_example = delete_ids-Removes numbers formats 8 ("1" ∷ "3" ∷ []) full full-IsMap

delete_by_filter-matching_example :
    let (c', r) = delete_by_filter numbers formats 8 tagged full in
    ((k : String)
      → lookup k c'.documents
        ≡ unless numbers (λ doc. matches_filter numbers doc tagged) (lookup k full.documents))
    × (length c'.documents + r.deleted ≡ 2)
delete_by_filter-matching_example =
    delete_by_filter-matching numbers formats 8 tagged full full-IsMap

cleanup_expired-exact_example : lookup "1" (cleanup_expired numbers formats 90 full).documents ≡ (
    if same_ℤ (pos 60) (pos 0)
    then lookup "1" full.documents
    else unless numbers (λ doc. is_expired 90 doc.temporal) (lookup "1" full.documents))
cleanup_expired-exact_example = cleanup_expired-exact numbers formats 90 full full-IsMap "1"

abbrev similar : Embedding numbers
similar = record { vector = 1 ∷ 1 ∷ []; model = "m"; dimensions = pos 2; normalized = false }

abbrev search_for : Query numbers
search_for = record {
  embedding = some similar;
  filters = Filter.nil_filter;
  limit = pos 1;
  offset = pos 0;
  min_score = 0;
  metric = DistanceMetric.dot;
  include_embeddings = false;
  include_content = true;
  sort_by = [];
  explain = false;
}

calculate_scores-ranked_example :
    let ranked =
      calculate_scores numbers insertion full.documents ("1" ∷ "2" ∷ []) search_for similar in
    (scored : List (Match numbers)) × Scores numbers full.documents
      (1 ∷ 1 ∷ [])
      (chosen_metric numbers DistanceMetric.dot)
      0
      ("1" ∷ "2" ∷ [])
      scored
    × Perm scored ranked
    × InOrder numbers (better numbers) ranked
calculate_scores-ranked_example =
    calculate_scores-ranked numbers insertion numbers-Ordered insertion-IsSorter full.documents
      ("1" ∷ "2" ∷ []) search_for similar

abbrev one_by_one : BatchConfig
one_by_one = record {
  batch_size = pos 1;
  parallelism = pos 1;
  continue_on_error = false;
  has_callback = true;
  validate_before_batch = false;
  retry_on_error = false;
  max_retries = pos 3;
  retry_delay = pos 0;
}

start_batches-Agree_example :
    (e : Ended numbers formats) × (start_batches numbers formats one_by_one calm 2 docs empty
      ≡ ended e)
    × (e.error ≡ none)
    × Agree numbers formats
        (e.collection, e.total)
        (upsert_each numbers formats docs (empty, no_upserts))
start_batches-Agree_example =
    start_batches-Agree numbers formats one_by_one calm 0 2 docs empty refl (λ i. refl)
      docs-IsAccepted (omega arith)

abbrev is_small : Option ℕ → Bool
is_small none = false
is_small (some n) = ltb n 4

collect_all-new_slice_iterator_example :
    collect_all ℕ String
      (filter_iterator ℕ String
        (map_iterator ℕ String (new_slice_iterator ℕ String (1 ∷ 2 ∷ 3 ∷ [])) (λ m. some (m + 1)))
        4
        is_small)
      4
    ≡ collected (map some (keep ℕ String is_small (map (λ m. m + 1) (1 ∷ 2 ∷ 3 ∷ []))))
collect_all-new_slice_iterator_example =
    collect_all-new_slice_iterator ℕ String (1 ∷ 2 ∷ 3 ∷ []) (λ m. m + 1) is_small

String-set : IsSet String
String-set = hedberg string_discrete

Match-set : IsSet (Match numbers)
Match-set = hlevel (String-set)

one_left : (m n : Match numbers) → Mem m (n ∷ []) → m ≡ n
one_left m n i =
    Or.elim (Match-set m n) (eq-or-mem_of_mem-cons i) (λ e. e) (λ k. absurd (not-mem-nil k))

two-Distinct : (a b : Match numbers) → ltb b.score a.score ≡ true → Distinct numbers (a ∷ b ∷ [])
two-Distinct a b h m n i j p q =
    Or.elim (Match-set m n) (eq-or-mem_of_mem-cons i)
      (λ e.
        Or.elim (Match-set m n) (eq-or-mem_of_mem-cons j) (λ e'. e ∙ sym e')
          (λ j'. absurd (let e' = one_left n b j' in clash n m e' e q)))
      (λ i'.
        let e = one_left m b i' in
        Or.elim (Match-set m n) (eq-or-mem_of_mem-cons j) (λ e'. absurd (clash m n e e' p))
          (λ j'. e ∙ sym (one_left n b j')))
  where
    clash : (k l : Match numbers) → k ≡ b → l ≡ a → ltb k.score l.score ≡ false → ⊥
    clash k l e e' r =
        let t : ltb k.score l.score ≡ true = rw (e, e') h in let x : true ≡ false = sym t ∙ r in cc

-- The second document answers better, and the second query visits the candidates backwards.
abbrev uneven : Collection numbers
uneven = record full {
  documents =
      ("1", one)
      ∷ (
        "2",
        record two {
          embedding =
              some (record {
                vector = 2 ∷ 2 ∷ [];
                model = "m";
                dimensions = pos 2;
                normalized = false;
              });
        },
      )
      ∷ [];
}

abbrev backwards : List String → List String
backwards (x ∷ y ∷ []) = y ∷ x ∷ []
backwards ids = ids

abbrev orders : ℕ → List String → List String
orders zero ids = ids
orders (suc n) ids = backwards ids

backwards_perm : (ids : List String) → Perm ids (backwards ids)
backwards_perm [] = Perm.rfl
backwards_perm (x ∷ []) = Perm.rfl
backwards_perm (x ∷ y ∷ []) = Perm.swap y x []
backwards_perm (x ∷ y ∷ z ∷ ids) = Perm.rfl

orders_perm : (n : ℕ) (ids : List String) → Perm ids (orders n ids)
orders_perm zero ids = Perm.rfl
orders_perm (suc n) ids = backwards_perm ids

abbrev uneven_matches : List (Match numbers)
uneven_matches = all_matches numbers insertion (orders 0) search_for uneven

uneven-Distinct : Distinct numbers uneven_matches
unfolding all_matches lookup matches_filter string_discrete chosen_metric
uneven-Distinct = two-Distinct _ _ refl

read_on-all_matches_example :
    read_on numbers insertion orders search_for uneven (suc (length uneven_matches)) 0
    ≡ set_ranks numbers 0 uneven_matches
read_on-all_matches_example =
    read_on-all_matches numbers insertion orders search_for uneven 0 similar numbers-Ordered
      insertion-IsSorter orders_perm refl refl uneven-Distinct
