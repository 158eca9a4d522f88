-- ===== src/Common/Tests.antt =====
-- Boolean tests, the conditional, and the decision of string equality (Go's `==` on strings).
use Prim.Native.Nat.{ℕ, compare, Ordering}
use Prim.Native.String.{String}
use mathlib.Core.Path.{◌≡◌, refl}
use mathlib.Core.Logic.{◌≢◌, ◌↔◌, ◌⊎◌, inl, inr, ite}
use mathlib.Core.Bool.{Bool, true, false}
use mathlib.Core.Option.{Option, none, some}
use native.Mathlib.Omega.{arith}
use text.Mathlib.Text.{◌==◌ as str_eq}
use text.Mathlib.TextEquality.{eq_iff}

abbrev pub ltb : ℕ → ℕ → Bool
ltb a b = elim (compare a b) [ Ordering.lt ↦ true | _ ↦ false ]

abbrev pub leb : ℕ → ℕ → Bool
leb a b = elim (compare a b) [ Ordering.gt ↦ false | _ ↦ true ]

infix 50 ◌==◌
abbrev pub ◌==◌ : ℕ → ℕ → Bool
a == b = elim (compare a b) [ Ordering.eq ↦ true | _ ↦ false ]

infix 1 if◌then◌else◌
abbrev pub if◌then◌else◌ {ℓ} : {A : Type ℓ} → Bool → A → A → A
if true then x else y = x
if false then x else y = y

pub Bool-cases : (b : Bool) → (b ≡ true) ⊎ (b ≡ false)
Bool-cases true = inl refl
Bool-cases false = inr refl

pub Option-cases {ℓ} : {A : Type ℓ} (o : Option A) → (o ≡ none) ⊎ ((a : A) × (o ≡ some a))
Option-cases none = inl refl
Option-cases (some a) = inr (a, refl)

decide_by {ℓ} : {P : Type ℓ} (b : Bool) → (b ≡ true) ↔ P → Dec P
decide_by true e = yes (e.0 refl)
decide_by false e = no (λ p. let h : false ≡ true = e.1 p in cc)

unfoldable pub string_discrete : Discrete String
unfolding decide_by
string_discrete s t = decide_by (str_eq s t) (eq_iff s t)

-- Two literals that the test tells apart are different.
pub string_ne : (s t : String) → str_eq s t ≡ false → s ≢ t
string_ne s t h e = let h' : str_eq s t ≡ true = (eq_iff s t).1 e in cc

-- Go's `==` on strings, as a test.
unfoldable pub same_text : String → String → Bool
same_text s t = ite (string_discrete s t) true false

pub same_text_iff : (s t : String) → (same_text s t ≡ true) ↔ (s ≡ t)
unfolding same_text
same_text_iff s t = (λ h. ground arith, λ e. ground arith)
