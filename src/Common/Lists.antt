-- ===== src/Common/Lists.antt =====
-- Lists measured by native numbers, and membership as data.
use Prim.Native.Nat.{ℕ, zero, suc, ◌+◌}
use mathlib.Core.Path.{◌≡◌, refl, subst, sym}
use Prim.Native.String.{String}
use aixgo.Common.Tests.{string_discrete}
use mathlib.Core.Logic.{◌⊎◌, inl, inr, ite}
use mathlib.Core.List.{List, [], ◌∷◌, ◌++◌}
use mathlib.Core.Option.{Option, none, some}
use native.Mathlib.Omega.{arith}

-- `x ∈ xs` computes on the list, so that the tactics read it.
infix 50 ◌∈◌
abbrev pub ◌∈◌ : {A : Type 0} → A → List A → Type 0
x ∈ [] = ⊥
x ∈ (y ∷ ys) = (x ≡ y) ⊎ (x ∈ ys)

abbrev pub All {ℓ κ} : {A : Type ℓ} → (A → Type κ) → List A → Type κ
All P [] = Unit
All P (x ∷ xs) = P x × All P xs

module _ {ℓ} {A : Type ℓ} where
  abbrev pub length : List A → ℕ
  length [] = 0
  length (x ∷ xs) = suc (length xs)

  abbrev pub get_elem? : List A → ℕ → Option A
  get_elem? [] i = none
  get_elem? (x ∷ xs) zero = some x
  get_elem? (x ∷ xs) (suc i) = get_elem? xs i

module _ {ℓ} {A : Type ℓ} where
  pub length-append : (xs ys : List A) → length (xs ++ ys) ≡ length xs + length ys
  length-append [] ys = omega arith
  length-append (x ∷ xs) ys = omega (arith, length-append xs ys)

abbrev pub Nodup : {A : Type 0} → List A → Type 0
Nodup [] = Unit
Nodup (x ∷ xs) = (¬ (x ∈ xs)) × Nodup xs

unfoldable pub dec_mem : (x : String) (xs : List String) → Dec (x ∈ xs)
dec_mem x [] = no (λ h. h)
dec_mem x (y ∷ ys) = elim (string_discrete x y) [
  | yes e ↦ yes (inl e)
  | no n ↦ elim (dec_mem x ys) [
    | yes m ↦ yes (inr m)
    | no k ↦ no (λ h. elim h [ inl e ↦ n e | inr m ↦ k m ])
  ]
]

-- How often the name stands in the list.
unfoldable pub count : String → List String → ℕ
count x [] = 0
count x (y ∷ ys) = ite (string_discrete y x) (suc (count x ys)) (count x ys)

pub count-append : (x : String) (ys zs : List String) → count x (ys ++ zs) ≡ count x ys + count x zs
unfolding count
count-append x [] zs = omega arith
count-append x (y ∷ ys) zs = ground (arith, count-append x ys zs)

pub count-zero : (x : String) (ys : List String) → ¬ (x ∈ ys) → count x ys ≡ 0
unfolding count
count-zero x [] h = refl
count-zero x (y ∷ ys) h = ground (arith, count-zero x ys)

pub not-mem_of_count-zero : (x : String) (ys : List String) → count x ys ≡ 0 → ¬ (x ∈ ys)
unfolding count
not-mem_of_count-zero x [] e m = m
not-mem_of_count-zero x (y ∷ ys) e m = ground (arith, not-mem_of_count-zero x ys)

pub All-mem {κ} : {A : Type 0} (P : A → Type κ) (xs : List A) (x : A) → All P xs → x ∈ xs → P x
All-mem P [] x h m = absurd m
All-mem P (y ∷ xs) x h (inl e) = subst P (sym e) h.0
All-mem P (y ∷ xs) x h (inr m) = All-mem P xs x h.1 m

module _ {A : Type 0} where
  pub ∈-append_left : (x : A) (xs ys : List A) → x ∈ xs → x ∈ (xs ++ ys)
  ∈-append_left x [] ys h = absurd h
  ∈-append_left x (y ∷ xs) ys (inl e) = inl e
  ∈-append_left x (y ∷ xs) ys (inr h) = inr (∈-append_left x xs ys h)

  pub ∈-append_right : (x : A) (xs ys : List A) → x ∈ ys → x ∈ (xs ++ ys)
  ∈-append_right x [] ys h = h
  ∈-append_right x (y ∷ xs) ys h = inr (∈-append_right x xs ys h)

  pub ∈-append : (x : A) (xs ys : List A) → x ∈ (xs ++ ys) → (x ∈ xs) ⊎ (x ∈ ys)
  ∈-append x [] ys h = inr h
  ∈-append x (y ∷ xs) ys (inl e) = inl (inl e)
  ∈-append x (y ∷ xs) ys (inr h) = elim (∈-append x xs ys h) [ inl a ↦ inl (inr a) | inr b ↦ inr b ]

module _ {ℓ} {A : Type ℓ} where
  pub All-append {κ} : (P : A → Type κ) (xs ys : List A) → All P xs → All P ys → All P (xs ++ ys)
  All-append P [] ys hx hy = hy
  All-append P (x ∷ xs) ys hx hy = (hx.0, All-append P xs ys hx.1 hy)
