-- ===== src/VectorStore/Matching/Meaning.antt =====
-- What the filters mean, as propositions about a document, and that the matching decides it.
use aixgo.Common.{
  ℕ, ◌≡◌, ◌≢◌, ◌≤◌, ◌<◌, ◌↔◌, ◌⊎◌, inl, inr, refl, List, [], ◌∷◌, Option, none, some, String,
  same_text, ◌∈◌, Bool, true, false, arith, if◌then◌else◌,
}
use aixgo.Common.Maps.{lookup}
use aixgo.VectorStore.{Floats, Scope, Temporal, Document, Value}
use aixgo.VectorStore.Documents.{scope_match, differ}
use aixgo.VectorStore.Filters.{
  FilterOperator, equal, not_equal, greater_than, greater_than_or_equal, less_than,
  less_than_or_equal, none_of, not_exists, TimeField, Operand, Filter, Filters, nil_filter,
  and_filter, or_filter, not_filter, field_filter, tag_filter, scope_filter, time_filter,
  score_filter, nil, cons,
}
use aixgo.VectorStore.Matching.{
  matches_tag_filter, matches_scope_filter, time_of, compare_times, matches_time_filter,
  matches_present_field, matches_absent_field, matches_field_filter, matches_filter, matches_all,
  matches_any,
}
use aixgo.VectorStore.Matching.Values.{and_iff, or_iff, not_iff, ValueMeets, value_iff}

-- One field of two scopes: they agree, or one of them leaves it open.
abbrev pub Agrees : String → String → Type 0
Agrees mine other = (mine ≡ "") ⊎ (other ≡ "") ⊎ (mine ≡ other)

abbrev pub ScopeMeets : Option Scope → Option Scope → Type 0
ScopeMeets _ none = Unit
ScopeMeets none (some _) = ⊥
ScopeMeets (some s) (some other) =
    Agrees s.tenant other.tenant
    × Agrees s.user other.user
    × Agrees s.session other.session
    × Agrees s.agent other.agent
    × Agrees s.thread other.thread

abbrev pub TimeTest : FilterOperator → ℕ → ℕ → Type 0
TimeTest equal t value = t ≡ value
TimeTest not_equal t value = t ≢ value
TimeTest greater_than t value = value < t
TimeTest greater_than_or_equal t value = value ≤ t
TimeTest less_than t value = t < value
TimeTest less_than_or_equal t value = t ≤ value
TimeTest _ t value = ⊥

-- The document has the time, and the test holds of it.
abbrev pub TimeMeets : Option Temporal → TimeField → FilterOperator → ℕ → Type 0
TimeMeets none field op value = ⊥
TimeMeets (some t) field op value = elim (time_of t field) [
  | none ↦ ⊥
  | some d ↦ TimeTest op d value
]

differ_iff : (mine other : String) → (differ mine other ≡ false) ↔ Agrees mine other
unfolding differ same_text
differ_iff mine other = (λ h. ground arith, λ h. ground arith)

tag_iff : (tags : List String) (tag : String) → (matches_tag_filter tags tag ≡ true) ↔ (tag ∈ tags)
unfolding matches_tag_filter same_text
tag_iff [] tag = (λ h. ground arith, λ h. absurd h)
tag_iff (t ∷ tags) tag =
    (λ h. ground (arith, tag_iff tags tag), λ h. ground (arith, tag_iff tags tag))

unless_all :
    (a b c d e : Bool)
    → ((if a
          then false
          else if b
          then false
          else if c
          then false
          else if d
          then false
          else if e
          then false
          else true)
        ≡ true)
      ↔ ((a ≡ false) × (b ≡ false) × (c ≡ false) × (d ≡ false) × (e ≡ false))
unless_all a b c d e = (λ h. ground arith, λ h. ground arith)

scope_iff :
    (mine other : Option Scope) → (matches_scope_filter mine other ≡ true) ↔ ScopeMeets mine other
unfolding matches_scope_filter scope_match
scope_iff none none = (λ _. tt, λ _. refl)
scope_iff none (some _) = (λ h. ground arith, λ h. absurd h)
scope_iff (some s) none = (λ _. tt, λ _. refl)
scope_iff (some s) (some other) =
    let a = differ_iff s.tenant other.tenant in
    let b = differ_iff s.user other.user in
    let c = differ_iff s.session other.session in
    let d = differ_iff s.agent other.agent in
    let e = differ_iff s.thread other.thread in
    let tests = unless_all _ _ _ _ _ in
    (
      λ h. let (p, q, r, t, u) = tests.0 h in (a.0 p, b.0 q, c.0 r, d.0 t, e.0 u),
      λ (p, q, r, t, u). tests.1 (a.1 p, b.1 q, c.1 r, d.1 t, e.1 u),
    )

test_iff :
    (op : FilterOperator) (t value : ℕ) → (compare_times op t value ≡ true) ↔ TimeTest op t value
unfolding compare_times
test_iff equal t value = (λ h. ground arith, λ h. ground arith)
test_iff not_equal t value = (λ h. ground arith, λ h. ground arith)
test_iff greater_than t value = (λ h. ground arith, λ h. ground arith)
test_iff greater_than_or_equal t value = (λ h. ground arith, λ h. ground arith)
test_iff less_than t value = (λ h. ground arith, λ h. ground arith)
test_iff less_than_or_equal t value = (λ h. ground arith, λ h. ground arith)
test_iff _ t value = (λ h. ground arith, λ h. absurd h)

time_iff :
    (o : Option Temporal) (field : TimeField) (op : FilterOperator) (value : ℕ)
    → (matches_time_filter o field op value ≡ true) ↔ TimeMeets o field op value
unfolding matches_time_filter
time_iff none field op value = (λ h. ground arith, λ h. absurd h)
time_iff (some t) field op value =
    elim (time_of t field)
      as (λ o.
        ((elim o [ none ↦ false | some d ↦ compare_times op d value ]) ≡ true)
        ↔ (elim o [ none ↦ ⊥ | some d ↦ TimeTest op d value ])) [
          | none ↦ (λ h. ground arith, λ h. absurd h)
          | some d ↦ test_iff op d value
        ]

module _ (f : Floats) where
  -- Without the field, exactly the three negative operators are met.
  abbrev pub AbsentMeets : FilterOperator → Type 0
  AbsentMeets not_exists = Unit
  AbsentMeets not_equal = Unit
  AbsentMeets none_of = Unit
  AbsentMeets _ = ⊥

  abbrev pub FieldMeets : Option (Value f) → FilterOperator → Operand f → Type 0
  FieldMeets none op value = AbsentMeets op
  FieldMeets (some v) op value = ValueMeets f v op value

  mutual
    pub Meets : Document f → Filter f → Type 0
    Meets doc nil_filter = Unit
    Meets doc (and_filter filters) = MeetsAll doc filters
    Meets doc (or_filter filters) = MeetsAny doc filters
    Meets doc (not_filter inner) = ¬ Meets doc inner
    Meets doc (field_filter field op value) = FieldMeets (lookup field doc.metadata) op value
    Meets doc (tag_filter tag) = tag ∈ doc.tags
    Meets doc (scope_filter scope) = ScopeMeets doc.scope scope
    Meets doc (time_filter field op value) = TimeMeets doc.temporal field op value
    Meets doc (score_filter _ _) = Unit

    pub MeetsAll : Document f → Filters f → Type 0
    MeetsAll doc nil = Unit
    MeetsAll doc (cons filter rest) = Meets doc filter × MeetsAll doc rest

    pub MeetsAny : Document f → Filters f → Type 0
    MeetsAny doc nil = ⊥
    MeetsAny doc (cons filter rest) = Meets doc filter ⊎ MeetsAny doc rest

  absent_iff : (op : FilterOperator) → (matches_absent_field f op ≡ true) ↔ AbsentMeets op
  unfolding matches_absent_field
  absent_iff not_exists = (λ _. tt, λ _. refl)
  absent_iff not_equal = (λ _. tt, λ _. refl)
  absent_iff none_of = (λ _. tt, λ _. refl)
  absent_iff _ = (λ h. ground arith, λ h. absurd h)

  field_iff :
      (doc : Document f) (field : String) (op : FilterOperator) (value : Operand f)
      → (matches_field_filter f doc field op value ≡ true)
        ↔ FieldMeets (lookup field doc.metadata) op value
  unfolding matches_field_filter
  field_iff doc field op value =
      elim (lookup field doc.metadata)
        as (λ o.
          ((elim o [
            | none ↦ matches_absent_field f op
            | some v ↦ matches_present_field f v op value
          ])
            ≡ true)
          ↔ FieldMeets o op value) [ none ↦ absent_iff op | some v ↦ value_iff f v op value ]

  mutual
    unfolding matches_filter Meets

    filter_iff :
        (doc : Document f) (filter : Filter f)
        → (matches_filter f doc filter ≡ true) ↔ Meets doc filter
    filter_iff doc nil_filter = (λ _. tt, λ _. refl)
    filter_iff doc (and_filter filters) = all_iff doc filters
    filter_iff doc (or_filter filters) = any_iff doc filters
    filter_iff doc (not_filter inner) =
        let ih = filter_iff doc inner in
        let n = not_iff (matches_filter f doc inner) in
        (λ h. λ m. n.0 h (ih.1 m), λ h. n.1 (λ e. h (ih.0 e)))
    filter_iff doc (field_filter field op value) = field_iff doc field op value
    filter_iff doc (tag_filter tag) = tag_iff doc.tags tag
    filter_iff doc (scope_filter scope) = scope_iff doc.scope scope
    filter_iff doc (time_filter field op value) = time_iff doc.temporal field op value
    filter_iff doc (score_filter _ _) = (λ _. tt, λ _. refl)

    all_iff :
        (doc : Document f) (filters : Filters f)
        → (matches_all f doc filters ≡ true) ↔ MeetsAll doc filters
    all_iff doc nil = (λ _. tt, λ _. refl)
    all_iff doc (cons filter rest) =
        let a = filter_iff doc filter in
        let b = all_iff doc rest in
        let c = and_iff (matches_filter f doc filter) (matches_all f doc rest) in
        (λ h. (a.0 (c.0 h).0, b.0 (c.0 h).1), λ h. c.1 (a.1 h.0, b.1 h.1))

    any_iff :
        (doc : Document f) (filters : Filters f)
        → (matches_any f doc filters ≡ true) ↔ MeetsAny doc filters
    any_iff doc nil = (λ h. ground arith, λ h. absurd h)
    any_iff doc (cons filter rest) =
        let a = filter_iff doc filter in
        let b = any_iff doc rest in
        let c = or_iff (matches_filter f doc filter) (matches_any f doc rest) in
        (
          λ h. elim (c.0 h) [ inl x ↦ inl (a.0 x) | inr x ↦ inr (b.0 x) ],
          λ h. c.1 (elim h [ inl x ↦ inl (a.1 x) | inr x ↦ inr (b.1 x) ]),
        )

  -- For every document and every filter, however filters are nested, the matching answers yes
  -- exactly when the document meets the filter: a missing field meets the negative operators alone,
  -- orders compare two numbers or two strings, the other tests of strings are those of Go's `strings`,
  -- a scope compares the fields that are set on both
  -- sides, a time that the document lacks is not met, and every document meets a score filter.
  pub matches_filter-Meets :
      (doc : Document f) (filter : Filter f)
      → (matches_filter f doc filter ≡ true) ↔ Meets doc filter
  matches_filter-Meets doc filter = filter_iff doc filter
