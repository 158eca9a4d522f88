-- ===== src/VectorStore/Filters.antt =====
-- pkg/vectorstore/query.go: the filters of a query and how they are made. The markers of the
-- interface have no content; a nil filter is `nil_filter`.
use aixgo.Common.{ℕ, true, List, [], ◌∷◌, Option, some, String, map}
use aixgo.VectorStore.{Floats, Scope, Value, bool_value, string_value}
use aixgo.VectorStore.Documents.{new_scope}

pub data FilterOperator : Type 0 where
  equal : FilterOperator
  not_equal : FilterOperator
  greater_than : FilterOperator
  greater_than_or_equal : FilterOperator
  less_than : FilterOperator
  less_than_or_equal : FilterOperator
  one_of : FilterOperator
  none_of : FilterOperator
  contains : FilterOperator
  starts_with : FilterOperator
  ends_with : FilterOperator
  exists : FilterOperator
  not_exists : FilterOperator
  -- The operator is a string, which a caller may set to anything.
  other_operator : String → FilterOperator

pub data TimeField : Type 0 where
  created_at_field : TimeField
  updated_at_field : TimeField
  expires_at_field : TimeField
  event_time_field : TimeField
  valid_from_field : TimeField
  valid_until_field : TimeField
  other_field : String → TimeField

module _ (f : Floats) where
  -- What a field is compared with: one value, or the slice of values of `In` and `NotIn`.
  pub data Operand : Type 0 where
    single : Value f → Operand
    several : List (Value f) → Operand

  mutual
    pub data Filter : Type 0 where
      nil_filter : Filter
      and_filter : Filters → Filter
      or_filter : Filters → Filter
      not_filter : Filter → Filter
      field_filter : String → FilterOperator → Operand → Filter
      tag_filter : String → Filter
      scope_filter : Option Scope → Filter
      time_filter : TimeField → FilterOperator → ℕ → Filter
      score_filter : FilterOperator → f.F → Filter

    pub data Filters : Type 0 where
      nil : Filters
      cons : Filter → Filters → Filters

module _ (f : Floats) where
  unfoldable pub filters_of : List (Filter f) → Filters f
  filters_of [] = nil
  filters_of (filter ∷ rest) = cons filter (filters_of rest)

  unfoldable pub and_of : List (Filter f) → Filter f
  unfolding filters_of
  and_of filters = and_filter (filters_of filters)

  unfoldable pub or_of : List (Filter f) → Filter f
  unfolding filters_of
  or_of filters = or_filter (filters_of filters)

  unfoldable pub not_of : Filter f → Filter f
  not_of filter = not_filter filter

  pub field_of : String → FilterOperator → Operand f → Filter f
  field_of field operator value = field_filter field operator value

  unfoldable pub tag_of : String → Filter f
  tag_of tag = tag_filter tag

  unfoldable pub scope_of : Option Scope → Filter f
  scope_of scope = scope_filter scope

  unfoldable pub time_of : TimeField → FilterOperator → ℕ → Filter f
  time_of field operator value = time_filter field operator value

  pub score_of : FilterOperator → f.F → Filter f
  score_of operator value = score_filter operator value

  pub eq : String → Value f → Filter f
  eq field value = field_of field equal (single value)

  pub ne : String → Value f → Filter f
  ne field value = field_of field not_equal (single value)

  pub gt : String → Value f → Filter f
  gt field value = field_of field greater_than (single value)

  pub gte : String → Value f → Filter f
  gte field value = field_of field greater_than_or_equal (single value)

  pub lt : String → Value f → Filter f
  lt field value = field_of field less_than (single value)

  pub lte : String → Value f → Filter f
  lte field value = field_of field less_than_or_equal (single value)

  pub is_in : String → List (Value f) → Filter f
  is_in field values = field_of field one_of (several values)

  pub not_in : String → List (Value f) → Filter f
  not_in field values = field_of field none_of (several values)

  pub has_part : String → String → Filter f
  has_part field part = field_of field contains (single (string_value part))

  pub has_prefix : String → String → Filter f
  has_prefix field prefix = field_of field starts_with (single (string_value prefix))

  pub has_suffix : String → String → Filter f
  has_suffix field suffix = field_of field ends_with (single (string_value suffix))

  pub is_set : String → Filter f
  is_set field = field_of field exists (single (bool_value true))

  pub is_not_set : String → Filter f
  is_not_set field = field_of field not_exists (single (bool_value true))

  unfoldable pub tags_filter : List String → Filter f
  unfolding and_of tag_of
  tags_filter tags = and_of (map (λ tag. tag_of tag) tags)

  unfoldable pub any_tag_filter : List String → Filter f
  unfolding or_of tag_of
  any_tag_filter tags = or_of (map (λ tag. tag_of tag) tags)

  unfoldable pub tenant_filter : String → Filter f
  unfolding new_scope scope_of
  tenant_filter tenant = scope_of (some (new_scope tenant "" ""))

  pub user_filter : String → Filter f
  unfolding new_scope scope_of
  user_filter user = scope_of (some (new_scope "" user ""))

  pub session_filter : String → Filter f
  unfolding new_scope scope_of
  session_filter session = scope_of (some (new_scope "" "" session))

  pub created_after : ℕ → Filter f
  created_after t = time_of created_at_field greater_than t

  pub created_before : ℕ → Filter f
  created_before t = time_of created_at_field less_than t

  pub updated_after : ℕ → Filter f
  updated_after t = time_of updated_at_field greater_than t

  pub updated_before : ℕ → Filter f
  updated_before t = time_of updated_at_field less_than t

  unfoldable pub expires_after : ℕ → Filter f
  expires_after t = time_of expires_at_field greater_than t

  unfoldable pub expires_before : ℕ → Filter f
  expires_before t = time_of expires_at_field less_than t

  -- `NotExpired` and `Expired` take the time when the filter is made.
  unfoldable pub not_expired : ℕ → Filter f
  unfolding expires_after
  not_expired now = expires_after now

  unfoldable pub expired : ℕ → Filter f
  unfolding expires_before
  expired now = expires_before now

  pub score_above : f.F → Filter f
  score_above threshold = score_of greater_than threshold

  pub score_below : f.F → Filter f
  score_below threshold = score_of less_than threshold

  pub score_at_least : f.F → Filter f
  score_at_least threshold = score_of greater_than_or_equal threshold
