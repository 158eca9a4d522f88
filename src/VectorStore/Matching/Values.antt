-- ===== src/VectorStore/Matching/Values.antt =====
-- What the filters on a metadata field mean, and that the comparison of values decides it.
use aixgo.Common.{
  ◌≡◌, ◌↔◌, ◌⊎◌, refl, List, [], ◌∷◌, Option, none, some, String, Bool, true, false, ◌&&◌, ◌||◌,
  not, arith,
}
use aixgo.VectorStore.{Floats, Value, string_value}
use aixgo.VectorStore.Filters.{
  FilterOperator, equal, not_equal, greater_than, greater_than_or_equal, less_than,
  less_than_or_equal, one_of, none_of, contains, starts_with, ends_with, exists, not_exists,
  other_operator, Operand, single, several,
}
use aixgo.VectorStore.Matching.{
  same_value, same_as_some, matches_present_field, text_contains, text_ends_with, text_less,
  compare_texts, compare_numbers, compare_values, to_float64, on_texts,
}
use Prim.Native.Nat.{Ordering}
use Prim.Native.String.{compare}
use text.Mathlib.Text as Text
use text.Mathlib.TextBridge.{IsPrefix}
use text.Mathlib.TextEquality.{starts_with_iff}

pub and_iff : (a b : Bool) → ((a && b) ≡ true) ↔ ((a ≡ true) × (b ≡ true))
and_iff a b = (λ h. ground arith, λ h. ground arith)

pub or_iff : (a b : Bool) → ((a || b) ≡ true) ↔ ((a ≡ true) ⊎ (b ≡ true))
or_iff a b = (λ h. ground arith, λ h. ground arith)

pub not_iff : (a : Bool) → (not a ≡ true) ↔ (¬ (a ≡ true))
not_iff a = (λ h. ground arith, λ h. ground arith)

-- The orders of two texts, which is that of their bytes.
abbrev pub TextLess : String → String → Type 0
TextLess a b = compare a b ≡ Ordering.lt

abbrev pub TextTest : FilterOperator → String → String → Type 0
TextTest greater_than a b = TextLess b a
TextTest greater_than_or_equal a b = ¬ TextLess a b
TextTest less_than a b = TextLess a b
TextTest less_than_or_equal a b = ¬ TextLess b a
TextTest _ a b = ⊥

text_less_iff : (a b : String) → (text_less a b ≡ true) ↔ TextLess a b
text_less_iff a b =
    elim (compare a b)
      as (λ o. ((elim o [ Ordering.lt ↦ true | _ ↦ false ]) ≡ true) ↔ (o ≡ Ordering.lt)) [
        | Ordering.lt ↦ (λ _. refl, λ _. refl)
        | Ordering.eq ↦ (λ h. absurd (ground arith), λ h. cc)
        | Ordering.gt ↦ (λ h. absurd (ground arith), λ h. cc)
      ]

texts_iff : (op : FilterOperator) (a b : String) → (compare_texts op a b ≡ true) ↔ TextTest op a b
unfolding compare_texts
texts_iff greater_than a b = text_less_iff b a
texts_iff greater_than_or_equal a b =
    let l = text_less_iff a b in
    let n = not_iff (text_less a b) in (λ h m. n.0 h (l.1 m), λ h. n.1 (λ e. h (l.0 e)))
texts_iff less_than a b = text_less_iff a b
texts_iff less_than_or_equal a b =
    let l = text_less_iff b a in
    let n = not_iff (text_less b a) in (λ h m. n.0 h (l.1 m), λ h. n.1 (λ e. h (l.0 e)))
texts_iff _ a b = (λ h. ground arith, λ h. absurd h)

module _ (f : Floats) where
  -- The orders of two numbers as float64.
  abbrev pub NumberTest : FilterOperator → f.D → f.D → Type 0
  NumberTest greater_than x y = f.less_d y x ≡ true
  NumberTest greater_than_or_equal x y = (f.less_d y x ≡ true) ⊎ (f.same_d x y ≡ true)
  NumberTest less_than x y = f.less_d x y ≡ true
  NumberTest less_than_or_equal x y = (f.less_d x y ≡ true) ⊎ (f.same_d x y ≡ true)
  NumberTest _ x y = ⊥

  numbers_iff :
      (op : FilterOperator) (x y : f.D) → (compare_numbers f op x y ≡ true) ↔ NumberTest op x y
  unfolding compare_numbers
  numbers_iff greater_than x y = (λ h. h, λ h. h)
  numbers_iff greater_than_or_equal x y = or_iff _ _
  numbers_iff less_than x y = (λ h. h, λ h. h)
  numbers_iff less_than_or_equal x y = or_iff _ _
  numbers_iff _ x y = (λ h. ground arith, λ h. absurd h)

  abbrev pub NumbersMeet : FilterOperator → Option f.D → Option f.D → Type 0
  NumbersMeet op (some x) (some y) = NumberTest op x y
  NumbersMeet op none _ = ⊥
  NumbersMeet op (some x) none = ⊥

  -- Two strings, or two numbers; any other pair of values is not compared.
  abbrev pub Compares : Value f → FilterOperator → Value f → Type 0
  Compares (string_value a) op (string_value b) = TextTest op a b
  Compares v op w = NumbersMeet op (to_float64 f v) (to_float64 f w)

  both_iff :
      (op : FilterOperator) (o o' : Option f.D)
      → ((elim o [
        | none ↦ false
        | some x ↦ elim o' [ none ↦ false | some y ↦ compare_numbers f op x y ]
      ])
          ≡ true)
        ↔ NumbersMeet op o o'
  both_iff op none o' = (λ h. ground arith, λ h. absurd h)
  both_iff op (some x) none = (λ h. ground arith, λ h. absurd h)
  both_iff op (some x) (some y) = numbers_iff op x y

  compare_iff :
      (v : Value f) (op : FilterOperator) (w : Value f)
      → (compare_values f v w op ≡ true) ↔ Compares v op w
  unfolding compare_values
  compare_iff (string_value a) op (string_value b) = texts_iff op a b
  compare_iff v op w = both_iff op (to_float64 f v) (to_float64 f w)

  -- The tests of two strings, where Contains and HasSuffix are those of Go's `strings`.
  abbrev pub PartTest : FilterOperator → String → String → Type 0
  PartTest contains s part = text_contains s part ≡ true
  PartTest starts_with s part = IsPrefix part s
  PartTest ends_with s part = text_ends_with s part ≡ true
  PartTest _ s part = ⊥

  abbrev pub OnTexts : FilterOperator → Value f → Operand f → Type 0
  OnTexts op (string_value s) (single (string_value part)) = PartTest op s part
  OnTexts op _ _ = ⊥

  -- One of the values is the same as the document's.
  abbrev pub SameAsSome : Value f → List (Value f) → Type 0
  SameAsSome v [] = ⊥
  SameAsSome v (w ∷ values) = (same_value f v w ≡ true) ⊎ SameAsSome v values

  -- A value that the document has.
  abbrev pub ValueMeets : Value f → FilterOperator → Operand f → Type 0
  ValueMeets v exists value = Unit
  ValueMeets v not_exists value = ⊥
  ValueMeets v equal (single w) = same_value f v w ≡ true
  ValueMeets v equal (several _) = ⊥
  ValueMeets v not_equal (single w) = ¬ (same_value f v w ≡ true)
  ValueMeets v not_equal (several _) = Unit
  ValueMeets v one_of (several values) = SameAsSome v values
  ValueMeets v one_of (single _) = ⊥
  ValueMeets v none_of (several values) = ¬ SameAsSome v values
  ValueMeets v none_of (single _) = Unit
  ValueMeets v contains value = OnTexts contains v value
  ValueMeets v starts_with value = OnTexts starts_with v value
  ValueMeets v ends_with value = OnTexts ends_with v value
  ValueMeets v (other_operator _) value = ⊥
  ValueMeets v op (single w) = Compares v op w
  ValueMeets v op (several _) = ⊥

  pub some_iff :
      (v : Value f) (values : List (Value f))
      → (same_as_some f v values ≡ true) ↔ SameAsSome v values
  unfolding same_as_some
  some_iff v [] = (λ h. ground arith, λ h. absurd h)
  some_iff v (w ∷ values) =
      (λ h. ground (arith, some_iff v values), λ h. ground (arith, some_iff v values))

  parts_iff :
      (op : FilterOperator) (test : String → String → Bool)
      → ((s part : String) → (test s part ≡ true) ↔ PartTest op s part)
      → (v : Value f) (value : Operand f) → (on_texts f test v value ≡ true) ↔ OnTexts op v value
  parts_iff op test h (string_value s) (single (string_value part)) = h s part
  parts_iff op test h _ _ = (λ e. ground arith, λ e. absurd e)

  pub value_iff :
      (v : Value f) (op : FilterOperator) (value : Operand f)
      → (matches_present_field f v op value ≡ true) ↔ ValueMeets v op value
  unfolding matches_present_field
  value_iff v exists value = (λ _. tt, λ _. refl)
  value_iff v not_exists value = (λ h. ground arith, λ h. absurd h)
  value_iff v equal (single w) = (λ h. h, λ h. h)
  value_iff v equal (several _) = (λ h. ground arith, λ h. absurd h)
  value_iff v not_equal (single w) = not_iff _
  value_iff v not_equal (several _) = (λ _. tt, λ _. refl)
  value_iff v one_of (several values) = some_iff v values
  value_iff v one_of (single _) = (λ h. ground arith, λ h. absurd h)
  value_iff v none_of (several values) =
      (λ h. ground (arith, some_iff v values), λ h. ground (arith, some_iff v values))
  value_iff v none_of (single _) = (λ _. tt, λ _. refl)
  value_iff v contains value = parts_iff contains text_contains (λ s t. (λ h. h, λ h. h)) v value
  value_iff v starts_with value = parts_iff starts_with Text.starts_with starts_with_iff v value
  value_iff v ends_with value = parts_iff ends_with text_ends_with (λ s t. (λ h. h, λ h. h)) v value
  value_iff v greater_than (single w) = compare_iff v greater_than w
  value_iff v greater_than_or_equal (single w) = compare_iff v greater_than_or_equal w
  value_iff v less_than (single w) = compare_iff v less_than w
  value_iff v less_than_or_equal (single w) = compare_iff v less_than_or_equal w
  value_iff v (other_operator _) value = (λ h. ground arith, λ h. absurd h)
  value_iff v greater_than (several _) = (λ h. ground arith, λ h. absurd h)
  value_iff v greater_than_or_equal (several _) = (λ h. ground arith, λ h. absurd h)
  value_iff v less_than (several _) = (λ h. ground arith, λ h. absurd h)
  value_iff v less_than_or_equal (several _) = (λ h. ground arith, λ h. absurd h)
