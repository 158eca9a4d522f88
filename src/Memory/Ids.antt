-- ===== src/Memory/Ids.antt =====
-- `itoa` of pkg/memory/memory.go: the digits of a 64-bit number, written from the end of a buffer of
-- twenty bytes. A digit stands for its character.
use aixgo.Common.{
  ℕ, zero, suc, ◌+◌, ◌*◌, ◌%◌, ◌<◌, ◌≡◌, List, [], ◌∷◌, Option, none, some, ite, ℕ_discrete, arith,
  refl, All, ap, ◌∙◌,
}
use Prim.Native.Nat.{◌/◌, ◌^◌}
use native.Mathlib.Nat.{pow-suc}

-- The loop with so many places of the buffer left; `none` is an index below 0, which panics.
pub digits : ℕ → ℕ → List ℕ → Option (List ℕ)
digits zero n written = ite (ℕ_discrete n 0) (some written) none
digits (suc places) n written =
    let rest = digits places (n / 10) (n % 10 ∷ written) in ite (ℕ_discrete n 0) (some written) rest

unfoldable pub itoa : ℕ → Option (List ℕ)
unfolding digits
itoa n = ite (ℕ_discrete n 0) (some (0 ∷ [])) (digits 20 n [])

-- The number that a row of digits writes, after a number that is written already.
pub value : ℕ → List ℕ → ℕ
value n [] = n
value n (d ∷ ds) = value (n * 10 + d) ds

abbrev IsDigit : ℕ → Type 0
IsDigit d = d < 10

digits-value :
    (places n : ℕ) (written : List ℕ)
    → n < 10 ^ places
    → All IsDigit written
    → (ds : List ℕ) × (digits places n written ≡ some ds)
      × All IsDigit ds
      × (value 0 ds ≡ value n written)
unfolding digits value
digits-value zero n written h all =
    let e : n ≡ 0 = omega arith in (written, ground arith, all, rw e refl)
digits-value (suc places) n written h all = elim (ℕ_discrete n 0) [
  | yes e ↦ (written, ground arith, all, rw e refl)
  | no ne ↦
      let whole : n / 10 * 10 + n % 10 ≡ n = omega arith in
      let (ds, run, all', same) =
        digits-value places (n / 10) (n % 10 ∷ written) (omega (arith, pow-suc 10 places))
          (omega arith, all) in
      (ds, ground arith, all', same ∙ ap (λ k. value k written) whole)
]

-- A 64-bit number has at most twenty digits, so `itoa` does not run out of its buffer; what it
-- writes are digits, and they write the number.
pub itoa-value :
    (n : ℕ) → n < 2 ^ 64 → (ds : List ℕ) × (itoa n ≡ some ds) × All IsDigit ds × (value 0 ds ≡ n)
unfolding itoa
itoa-value n h = elim (ℕ_discrete n 0) [
  | yes e ↦ (0 ∷ [], ground arith, (omega arith, tt), unfold value in omega arith)
  | no ne ↦
      let (ds, run, all, same) = digits-value 20 n [] (omega arith) tt in
      (ds, ground arith, all, unfold value in same)
]
