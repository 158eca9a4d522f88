-- ===== src/VectorStore/Matching.antt =====
-- pkg/vectorstore/memory/memory.go: whether a document matches a filter.
pub mod Values
pub mod Meaning
use aixgo.Common.{
  ℕ, ◌-◌, ltb, leb, ◌==◌, if◌then◌else◌, Bool, true, false, ◌||◌, ◌&&◌, not, List, [], ◌∷◌, Option,
  none, some, String, same_text,
}
use aixgo.Common.Int.{ℤ, pos, same_ℤ}
use aixgo.Common.Maps.{lookup}
use Prim.Native.Nat.{Ordering}
use Prim.Native.String.{compare, slice, len}
use text.Mathlib.Text as Text
use aixgo.VectorStore.{
  Floats, Scope, Temporal, Document, Value, nil_value, bool_value, string_value, float64_value,
  float32_value, int_value, int32_value, int64_value, uint_value, uint32_value, uint64_value,
}
use aixgo.VectorStore.Documents.{scope_match}
use aixgo.VectorStore.Filters.{
  FilterOperator, equal, not_equal, greater_than, greater_than_or_equal, less_than,
  less_than_or_equal, one_of, none_of, contains, starts_with, ends_with, exists, not_exists,
  other_operator, TimeField, created_at_field, updated_at_field, expires_at_field, event_time_field,
  valid_from_field, valid_until_field, other_field, Operand, single, several, Filter, Filters,
  nil_filter, and_filter, or_filter, not_filter, field_filter, tag_filter, scope_filter,
  time_filter, score_filter, nil, cons,
}

-- `strings.Contains`, `strings.HasPrefix` and `strings.HasSuffix`
abbrev pub text_contains : String → String → Bool
text_contains s part = elim (Text.find? s part) [ some _ ↦ true | none ↦ false ]

abbrev pub text_ends_with : String → String → Bool
text_ends_with s end = leb (len end) (len s) && same_text (slice s (len s - len end) (len s)) end

-- `a < b` on strings
abbrev pub text_less : String → String → Bool
text_less a b = elim (compare a b) [ Ordering.lt ↦ true | _ ↦ false ]

same_bool : Bool → Bool → Bool
same_bool true b = b
same_bool false b = not b

unfoldable pub matches_tag_filter : List String → String → Bool
matches_tag_filter [] tag = false
matches_tag_filter (t ∷ tags) tag = same_text t tag || matches_tag_filter tags tag

unfoldable pub matches_scope_filter : Option Scope → Option Scope → Bool
unfolding scope_match
matches_scope_filter none none = true
matches_scope_filter none (some _) = false
matches_scope_filter (some scope) filter_scope = scope_match (some scope) filter_scope

-- The time that a filter looks at, if the document has it.
unfoldable pub time_of : Temporal → TimeField → Option ℕ
time_of t created_at_field = some t.created_at
time_of t updated_at_field = some t.updated_at
time_of t expires_at_field = t.expires_at
time_of t event_time_field = t.event_time
time_of t valid_from_field = t.valid_from
time_of t valid_until_field = t.valid_until
time_of t (other_field _) = none

unfoldable pub compare_times : FilterOperator → ℕ → ℕ → Bool
compare_times equal t value = t == value
compare_times not_equal t value = not (t == value)
compare_times greater_than t value = ltb value t
compare_times greater_than_or_equal t value = t == value || ltb value t
compare_times less_than t value = ltb t value
compare_times less_than_or_equal t value = t == value || ltb t value
compare_times _ t value = false

unfoldable pub matches_time_filter : Option Temporal → TimeField → FilterOperator → ℕ → Bool
unfolding time_of compare_times
matches_time_filter none field op value = false
matches_time_filter (some t) field op value = elim (time_of t field) [
  | none ↦ false
  | some doc_time ↦ compare_times op doc_time value
]

unfoldable pub compare_texts : FilterOperator → String → String → Bool
compare_texts greater_than a b = text_less b a
compare_texts greater_than_or_equal a b = not (text_less a b)
compare_texts less_than a b = text_less a b
compare_texts less_than_or_equal a b = not (text_less b a)
compare_texts _ a b = false

module _ (f : Floats) where
  -- Go's `==` on two values of type `any`: the same type and the same value.
  unfoldable pub same_value : Value f → Value f → Bool
  unfolding same_bool
  same_value nil_value nil_value = true
  same_value (bool_value a) (bool_value b) = same_bool a b
  same_value (string_value a) (string_value b) = same_text a b
  same_value (float64_value a) (float64_value b) = f.same_d a b
  same_value (float32_value a) (float32_value b) = f.same a b
  same_value (int_value a) (int_value b) = same_ℤ a b
  same_value (int32_value a) (int32_value b) = same_ℤ a b
  same_value (int64_value a) (int64_value b) = same_ℤ a b
  same_value (uint_value a) (uint_value b) = a == b
  same_value (uint32_value a) (uint32_value b) = a == b
  same_value (uint64_value a) (uint64_value b) = a == b
  same_value _ _ = false

  unfoldable pub to_float64 : Value f → Option f.D
  to_float64 (float64_value x) = some x
  to_float64 (float32_value x) = some (f.double x)
  to_float64 (int_value n) = some (f.double_of_int n)
  to_float64 (int32_value n) = some (f.double_of_int n)
  to_float64 (int64_value n) = some (f.double_of_int n)
  to_float64 (uint_value n) = some (f.double_of_int (pos n))
  to_float64 (uint32_value n) = some (f.double_of_int (pos n))
  to_float64 (uint64_value n) = some (f.double_of_int (pos n))
  to_float64 _ = none

  unfoldable pub compare_numbers : FilterOperator → f.D → f.D → Bool
  compare_numbers greater_than a b = f.less_d b a
  compare_numbers greater_than_or_equal a b = f.less_d b a || f.same_d a b
  compare_numbers less_than a b = f.less_d a b
  compare_numbers less_than_or_equal a b = f.less_d a b || f.same_d a b
  compare_numbers _ a b = false

  -- Two numbers, else two strings; a value is never both.
  unfoldable pub compare_values : Value f → Value f → FilterOperator → Bool
  unfolding to_float64 compare_numbers compare_texts
  compare_values (string_value a) (string_value b) op = compare_texts op a b
  compare_values a b op = elim (to_float64 a) [
    | none ↦ false
    | some x ↦ elim (to_float64 b) [ none ↦ false | some y ↦ compare_numbers op x y ]
  ]

  unfoldable pub same_as_some : Value f → List (Value f) → Bool
  unfolding same_value
  same_as_some doc_value [] = false
  same_as_some doc_value (v ∷ values) = same_value doc_value v || same_as_some doc_value values

  -- The comparison of two strings; a value of another type does not match.
  abbrev on_texts : (String → String → Bool) → Value f → Operand f → Bool
  on_texts test (string_value s) (single (string_value t)) = test s t
  on_texts _ _ _ = false

  -- A field that the document has.
  unfoldable pub matches_present_field : Value f → FilterOperator → Operand f → Bool
  unfolding same_value same_as_some compare_values
  matches_present_field doc_value exists value = true
  matches_present_field doc_value not_exists value = false
  matches_present_field doc_value equal (single value) = same_value doc_value value
  matches_present_field doc_value equal (several _) = false
  matches_present_field doc_value not_equal (single value) = not (same_value doc_value value)
  matches_present_field doc_value not_equal (several _) = true
  matches_present_field doc_value one_of (several values) = same_as_some doc_value values
  matches_present_field doc_value one_of (single _) = false
  matches_present_field doc_value none_of (several values) = not (same_as_some doc_value values)
  matches_present_field doc_value none_of (single _) = true
  matches_present_field doc_value contains value = on_texts text_contains doc_value value
  matches_present_field doc_value starts_with value = on_texts Text.starts_with doc_value value
  matches_present_field doc_value ends_with value = on_texts text_ends_with doc_value value
  matches_present_field doc_value (other_operator _) value = false
  matches_present_field doc_value op (single value) = compare_values doc_value value op
  matches_present_field doc_value op (several _) = false

  -- A field that the document has not.
  unfoldable pub matches_absent_field : FilterOperator → Bool
  matches_absent_field not_exists = true
  matches_absent_field not_equal = true
  matches_absent_field none_of = true
  matches_absent_field _ = false

  unfoldable pub matches_field_filter : Document f → String → FilterOperator → Operand f → Bool
  unfolding matches_present_field matches_absent_field
  matches_field_filter doc field op value = elim (lookup field doc.metadata) [
    | none ↦ matches_absent_field op
    | some doc_value ↦ matches_present_field doc_value op value
  ]

  unfoldable mutual
    pub matches_filter : Document f → Filter f → Bool
    matches_filter doc nil_filter = true
    matches_filter doc (and_filter filters) = matches_all doc filters
    matches_filter doc (or_filter filters) = matches_any doc filters
    matches_filter doc (not_filter inner) = not (matches_filter doc inner)
    matches_filter doc (field_filter field op value) = matches_field_filter doc field op value
    matches_filter doc (tag_filter tag) = matches_tag_filter doc.tags tag
    matches_filter doc (scope_filter scope) = matches_scope_filter doc.scope scope
    matches_filter doc (time_filter field op value) =
        matches_time_filter doc.temporal field op value
    matches_filter doc (score_filter _ _) = true

    pub matches_all : Document f → Filters f → Bool
    matches_all doc nil = true
    matches_all doc (cons filter rest) = matches_filter doc filter && matches_all doc rest

    pub matches_any : Document f → Filters f → Bool
    matches_any doc nil = false
    matches_any doc (cons filter rest) = matches_filter doc filter || matches_any doc rest
