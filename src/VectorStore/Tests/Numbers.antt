-- ===== src/VectorStore/Tests/Numbers.antt =====
-- Floats whose numbers are natural ones, and a sort.
use aixgo.Common.{
  ℕ, ◌+◌, ◌-◌, ◌*◌, ◌≡◌, List, [], ◌∷◌, Bool, true, false, ltb, ◌==◌, if◌then◌else◌, All,
  Bool-cases, inl, inr, arith,
}
use aixgo.Common.Int.{ℤ, pos, negsuc}
use Prim.Native.Nat.{◌/◌}
use mathlib.Core.List.{Perm}
use mathlib.Core.List.Perm
use aixgo.VectorStore.{Floats, Formats}
use aixgo.VectorStore.Queries.{Match}
use aixgo.VectorStore.Scoring.{Sorter}
use aixgo.VectorStore.Scoring.Ranking.{Ordered, InOrder, IsSorter}

abbrev to_ℕ : ℤ → ℕ
to_ℕ (pos n) = n
to_ℕ (negsuc _) = 0

-- The square root is the number itself, and a negative number is 0.
abbrev pub numbers : Floats
numbers = record {
  F = ℕ;
  zero_f = 0;
  one_f = 1;
  half = 0;
  three_halves = 1;
  near_one = 1;
  max_float = 1000000;
  add = λ x y. x + y;
  sub = λ x y. x - y;
  mul = λ x y. x * y;
  div = λ x y. x / y;
  neg = λ x. 0;
  root = λ x. x;
  of_int = to_ℕ;
  to_int32 = λ x. pos x;
  less = ltb;
  same = λ x y. x == y;
  D = ℕ;
  double = λ x. x;
  double_of_int = to_ℕ;
  less_d = ltb;
  same_d = λ x y. x == y;
}

abbrev pub formats : Formats numbers
formats = record { decimal = λ n. "n"; fixed = λ x. "x"; hex_sha256 = λ s. s }

pub numbers-Ordered : Ordered numbers
numbers-Ordered = record {
  one_way = λ x y h. ground arith;
  not_less_trans = λ x y z h h'. ground arith;
}

abbrev Ms : Type 0
Ms = List (Match numbers)

-- Insertion in front of the first match that does not come before.
abbrev put : (Match numbers → Match numbers → Bool) → Match numbers → Ms → Ms
put before m [] = m ∷ []
put before m (n ∷ ns) = let rest = put before m ns in if before n m then n ∷ rest else m ∷ n ∷ ns

abbrev pub insertion : Sorter numbers
insertion before [] = []
insertion before (m ∷ ms) = put before m (insertion before ms)

put-perm :
    (before : Match numbers → Match numbers → Bool) (m : Match numbers) (ms : Ms)
    → Perm (m ∷ ms) (put before m ms)
put-perm before m [] = Perm.refl _
put-perm before m (n ∷ ns) = elim (Bool-cases (before n m)) [
  | inl e ↦ rw e (Perm.trans (Perm.swap _ _ _) (Perm.cons n (put-perm before m ns)))
  | inr e ↦ rw e (Perm.refl _)
]

insertion-perm :
    (before : Match numbers → Match numbers → Bool) (ms : Ms) → Perm ms (insertion before ms)
insertion-perm before [] = Perm.refl _
insertion-perm before (m ∷ ms) =
    Perm.trans (Perm.cons m (insertion-perm before ms)) (put-perm before m (insertion before ms))

put-All :
    (P : Match numbers → Type 0) (before : Match numbers → Match numbers → Bool) (m : Match numbers)
    (ms : Ms)
    → P m
    → All P ms
    → All P (put before m ms)
put-All P before m [] h hs = (h, tt)
put-All P before m (n ∷ ns) h hs = elim (Bool-cases (before n m)) [
  | inl e ↦ rw e (hs.0, put-All P before m ns h hs.1)
  | inr e ↦ rw e (h, hs)
]

module _ (before : Match numbers → Match numbers → Bool)
    (one_way : (m n : Match numbers) → before m n ≡ true → before n m ≡ false)
    (chain : (m n k : Match numbers)
      → before m n ≡ false
      → before n k ≡ false
      → before m k ≡ false) where
  All-behind :
      (m n : Match numbers) (ms : Ms)
      → before n m ≡ false
      → All (λ k. before k n ≡ false) ms
      → All (λ k. before k m ≡ false) ms
  All-behind m n [] e h = tt
  All-behind m n (k ∷ ms) e h = (chain k n m h.0 e, All-behind m n ms e h.1)

  put-InOrder :
      (m : Match numbers) (ms : Ms)
      → InOrder numbers before ms
      → InOrder numbers before (put before m ms)
  put-InOrder m [] h = (tt, tt)
  put-InOrder m (n ∷ ns) h = elim (Bool-cases (before n m)) [
    | inl e ↦
        rw e
          (put-All (λ k. before k n ≡ false) before m ns (one_way n m e) h.0, put-InOrder m ns h.1)
    | inr e ↦ rw e ((e, All-behind m n ns e h.0), h)
  ]

  insertion-InOrder : (ms : Ms) → InOrder numbers before (insertion before ms)
  insertion-InOrder [] = tt
  insertion-InOrder (m ∷ ms) = put-InOrder m (insertion before ms) (insertion-InOrder ms)

pub insertion-IsSorter : IsSorter numbers insertion
insertion-IsSorter = record { same_matches = insertion-perm; in_order = insertion-InOrder }
