-- ===== src/Common/Int.antt =====
-- Go's `int` as an unbounded integer: `negsuc n` is -(n + 1).
use Prim.Native.Nat.{ℕ, zero, suc}
use mathlib.Core.Bool.{Bool, true, false}
use aixgo.Common.Tests.{ltb, ◌==◌}

pub data ℤ : Type 0 where
  pos : ℕ → ℤ
  negsuc : ℕ → ℤ

-- `z--`
abbrev pub pred_ℤ : ℤ → ℤ
pred_ℤ (pos zero) = negsuc 0
pred_ℤ (pos (suc n)) = pos n
pred_ℤ (negsuc n) = negsuc (suc n)

-- `x == y` and `x < y`
unfoldable pub same_ℤ : ℤ → ℤ → Bool
same_ℤ (pos m) (pos n) = m == n
same_ℤ (negsuc m) (negsuc n) = m == n
same_ℤ _ _ = false

unfoldable pub less_ℤ : ℤ → ℤ → Bool
less_ℤ (pos m) (pos n) = ltb m n
less_ℤ (pos _) (negsuc _) = false
less_ℤ (negsuc _) (pos _) = true
less_ℤ (negsuc m) (negsuc n) = ltb n m
