-- ===== src/VectorStore/Slices.antt =====
-- Slices of Go: `xs[n:]` and `xs[:n]`, and how they fit together.
use aixgo.Common.{
  ℕ, zero, suc, ◌+◌, ◌-◌, ◌≡◌, ◌<◌, ◌≤◌, refl, sym, ap, ◌∙◌, List, [], ◌∷◌, ◌++◌, length, arith,
}

-- `xs[n:]` and `xs[:n]`
unfoldable pub drop_first : {A : Type 0} → ℕ → List A → List A
drop_first zero xs = xs
drop_first (suc n) [] = []
drop_first (suc n) (x ∷ xs) = drop_first n xs

unfoldable pub take_first : {A : Type 0} → ℕ → List A → List A
take_first zero xs = []
take_first (suc n) [] = []
take_first (suc n) (x ∷ xs) = x ∷ take_first n xs

module _ {A : Type 0} where
  pub take-drop : (n : ℕ) (xs : List A) → take_first n xs ++ drop_first n xs ≡ xs
  unfolding take_first drop_first
  take-drop zero xs = refl
  take-drop (suc n) [] = refl
  take-drop (suc n) (x ∷ xs) = ap (λ ys. x ∷ ys) (take-drop n xs)

  pub drop_length_take :
      (n : ℕ) (xs : List A) → drop_first (length (take_first n xs)) xs ≡ drop_first n xs
  unfolding take_first drop_first
  drop_length_take zero xs = refl
  drop_length_take (suc n) [] = refl
  drop_length_take (suc n) (x ∷ xs) = drop_length_take n xs

  drop_nil : (n : ℕ) → drop_first {A = A} n [] ≡ []
  unfolding drop_first
  drop_nil zero = refl
  drop_nil (suc n) = refl

  pub drop_drop : (m n : ℕ) (xs : List A) → drop_first (m + n) xs ≡ drop_first n (drop_first m xs)
  unfolding drop_first
  drop_drop zero n xs = let e : 0 + n ≡ n = omega arith in ap (λ k. drop_first k xs) e
  drop_drop (suc m) n [] =
      let e : suc m + n ≡ suc (m + n) = omega arith in
      ap {A = ℕ} (λ k. drop_first k []) e ∙ sym (drop_nil n)
  drop_drop (suc m) n (x ∷ xs) =
      let e : suc m + n ≡ suc (m + n) = omega arith in
      ap (λ k. drop_first k (x ∷ xs)) e ∙ drop_drop m n xs

  pub length-drop : (n : ℕ) (xs : List A) → length (drop_first n xs) ≡ length xs - n
  unfolding drop_first
  length-drop zero xs = omega arith
  length-drop (suc n) [] = omega arith
  length-drop (suc n) (x ∷ xs) = omega (arith, length-drop n xs)

  pub drop_all : (n : ℕ) (xs : List A) → length xs ≤ n → drop_first n xs ≡ []
  unfolding drop_first
  drop_all zero [] h = refl
  drop_all zero (x ∷ xs) h = absurd (omega arith)
  drop_all (suc n) [] h = refl
  drop_all (suc n) (x ∷ xs) h = drop_all n xs (omega arith)

  pub take_all : (n : ℕ) (xs : List A) → length xs ≤ n → take_first n xs ≡ xs
  unfolding take_first
  take_all zero [] h = refl
  take_all zero (x ∷ xs) h = absurd (omega arith)
  take_all (suc n) [] h = refl
  take_all (suc n) (x ∷ xs) h = ap (λ ys. x ∷ ys) (take_all n xs (omega arith))

  pub take_short :
      (n : ℕ) (xs : List A) → length xs ≤ length (take_first n xs) → take_first n xs ≡ xs
  unfolding take_first
  take_short zero [] h = refl
  take_short zero (x ∷ xs) h = absurd (omega arith)
  take_short (suc n) [] h = refl
  take_short (suc n) (x ∷ xs) h = ap (λ ys. x ∷ ys) (take_short n xs (omega arith))

  pub take_some : (n : ℕ) (xs : List A) → 0 < length xs → 0 < length (take_first (suc n) xs)
  unfolding take_first
  take_some n [] h = h
  take_some n (x ∷ xs) h = omega arith
