-- ===== src/Graph/Validate/Colors.antt =====
-- The colour map of the depth-first search, and how many of the agents are still white.
use aixgo.Common.{
  ℕ, ◌+◌, ◌≤◌, ◌<◌, ◌≡◌, ◌≢◌, inl, inr, List, [], ◌∷◌, String, ite, string_discrete, arith, ◌∈◌,
  length,
}
use aixgo.Common.Maps.{Map, insert, lookup-insert}
use aixgo.Graph.Validate.{Color, white, gray, get_color}

pub get_color-insert :
    (k n : String) (c : Color) (m : Map Color)
    → get_color (insert k c m) n ≡ ite (string_discrete k n) c (get_color m n)
unfolding get_color
get_color-insert k n c m = ground (arith, lookup-insert k n c m)

weight : Color → ℕ
weight white = 1
weight _ = 0

-- How many of the names are white.
pub whites : List String → Map Color → ℕ
unfolding weight
whites [] m = 0
whites (n ∷ ns) m = weight (get_color m n) + whites ns m

weight_mono : (c d : Color) → (d ≡ white → c ≡ white) → weight d ≤ weight c
unfolding weight
weight_mono c d h = ground arith

pub whites_mono :
    (ns : List String) (m m' : Map Color)
    → ((n : String) → get_color m' n ≡ white → get_color m n ≡ white)
    → whites ns m' ≤ whites ns m
unfolding whites
whites_mono [] m m' h = omega arith
whites_mono (n ∷ ns) m m' h =
    omega (arith, weight_mono (get_color m n) (get_color m' n) (h n), whites_mono ns m m' h)

-- Colouring a name that is not white afterwards makes no name white.
pub white-insert :
    (k n : String) (m : Map Color) (c : Color)
    → c ≢ white
    → get_color (insert k c m) n ≡ white
    → get_color m n ≡ white
white-insert k n m c z h = ground (arith, get_color-insert k n c m)

pub whites-insert_gray :
    (k : String) (ns : List String) (m : Map Color)
    → get_color m k ≡ white
    → k ∈ ns
    → whites ns (insert k gray m) < whites ns m
unfolding whites weight
whites-insert_gray k [] m h e = absurd e
whites-insert_gray k (n ∷ ns) m h (inl e) = ground (
  arith,
  get_color-insert k n gray m,
  whites_mono ns m (insert k gray m) (λ j. white-insert k j m gray (λ e. cc)),
)
whites-insert_gray k (n ∷ ns) m h (inr i) =
    ground (arith, get_color-insert k n gray m, whites-insert_gray k ns m h i)

pub whites-le : (ns : List String) (m : Map Color) → whites ns m ≤ length ns
unfolding whites weight
whites-le [] m = omega arith
whites-le (n ∷ ns) m = ground (arith, whites-le ns m)
