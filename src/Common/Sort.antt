-- ===== src/Common/Sort.antt =====
-- `sort.Strings` of Go's standard library: the names in increasing byte order. It is written as an
-- insertion sort, and used through the laws below, which any sort satisfies.
use Prim.Native.Nat.{suc, Ordering}
use Prim.Native.String.{String, compare}
use mathlib.Core.Path.{◌≡◌, refl, ◌∙◌, ap}
use mathlib.Core.Logic.{◌⊎◌, ◌↔◌}
use mathlib.Core.List.{List, [], ◌∷◌}
use native.Mathlib.Omega.{arith}
use aixgo.Common.Lists.{◌∈◌, length, Nodup}

insert_sorted : String → List String → List String
insert_sorted x [] = x ∷ []
insert_sorted x (y ∷ ys) = elim (compare x y) [
  | Ordering.gt ↦ y ∷ insert_sorted x ys
  | _ ↦ x ∷ y ∷ ys
]

unfoldable pub sort_strings : List String → List String
unfolding insert_sorted
sort_strings [] = []
sort_strings (x ∷ xs) = insert_sorted x (sort_strings xs)

length-insert_sorted :
    (x : String) (ys : List String) → length (insert_sorted x ys) ≡ suc (length ys)
unfolding insert_sorted
length-insert_sorted x [] = refl
length-insert_sorted x (y ∷ ys) = ground (arith, length-insert_sorted x ys)

pub length-sort_strings : (xs : List String) → length (sort_strings xs) ≡ length xs
unfolding sort_strings
length-sort_strings [] = refl
length-sort_strings (x ∷ xs) =
    length-insert_sorted x (sort_strings xs) ∙ ap suc (length-sort_strings xs)

mem-insert_sorted :
    (x z : String) (ys : List String) → (z ∈ insert_sorted x ys) ↔ ((z ≡ x) ⊎ (z ∈ ys))
unfolding insert_sorted
mem-insert_sorted x z [] = (λ h. h, λ h. h)
mem-insert_sorted x z (y ∷ ys) = ground (arith, mem-insert_sorted x z ys)

pub mem-sort_strings : (z : String) (xs : List String) → (z ∈ sort_strings xs) ↔ (z ∈ xs)
unfolding sort_strings
mem-sort_strings z [] = (λ h. h, λ h. h)
mem-sort_strings z (x ∷ xs) =
    ground (arith, mem-insert_sorted x z (sort_strings xs), mem-sort_strings z xs)

Nodup-insert_sorted :
    (x : String) (ys : List String) → ¬ (x ∈ ys) → Nodup ys → Nodup (insert_sorted x ys)
unfolding insert_sorted
Nodup-insert_sorted x [] m h = (m, tt)
Nodup-insert_sorted x (y ∷ ys) m h =
    ground (arith, Nodup-insert_sorted x ys, mem-insert_sorted x y ys)

pub Nodup-sort_strings : (xs : List String) → Nodup xs → Nodup (sort_strings xs)
unfolding sort_strings
Nodup-sort_strings [] h = tt
Nodup-sort_strings (x ∷ xs) h =
    Nodup-insert_sorted x (sort_strings xs) (λ m. h.0 ((mem-sort_strings x xs).0 m))
      (Nodup-sort_strings xs h.1)
