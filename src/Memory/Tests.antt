-- ===== src/Memory/Tests.antt =====
-- A memory whose numbers are natural ones, with a maximum of two.
use aixgo.Common.{
  ℕ, ℕ_discrete, suc, ◌+◌, ◌-◌, ◌*◌, ◌≤◌, ◌≡◌, ltb, ◌==◌, refl, List, [], ◌∷◌, some, String, length,
  All, arith,
}
use aixgo.Common.Int.{pos}
use Prim.Native.Nat.{◌/◌}
use aixgo.Memory.{Floats, Memory, SemanticMemory, new_semantic_memory, retrieve}
use aixgo.Memory.Eviction.{store_all, newest, store_all-newest}
use aixgo.Memory.Ids.{itoa, value, itoa-value}

abbrev numbers : Floats
numbers = record {
  F = ℕ;
  zero_f = 0;
  two_f = 2;
  default_threshold = 7;
  add = λ x y. x + y;
  sub = λ x y. x - y;
  mul = λ x y. x * y;
  div = λ x y. x / y;
  less = ltb;
  same = λ x y. x == y;
}

abbrev text : String → List ℕ → Memory numbers Unit
text s e = record { id = s; content = s; embedding = e; metadata = tt; timestamp = 0 }

abbrev texts : List (Memory numbers Unit)
texts = text "a" (1 ∷ []) ∷ text "b" (2 ∷ []) ∷ text "c" (3 ∷ []) ∷ []

program : Unit {0}
unfolding new_semantic_memory store_all newest retrieve itoa
program = tt

two_stay :
    (store_all numbers Unit texts (new_semantic_memory numbers Unit (pos 2) 1)).memories
    ≡ text "b" (2 ∷ []) ∷ text "c" (3 ∷ []) ∷ []
unfolding program
two_stay = refl

forty_two : itoa 42 ≡ some (4 ∷ 2 ∷ [])
unfolding program ℕ_discrete
forty_two = refl

store_all-newest_example :
    let sm = new_semantic_memory numbers Unit (pos 2) 1 in
    ((store_all numbers Unit texts sm).memories ≡ newest numbers Unit sm.max_memories texts)
    × (length (store_all numbers Unit texts sm).memories ≤ sm.max_memories)
store_all-newest_example = store_all-newest numbers Unit (pos 2) 1 texts

abbrev small : SemanticMemory numbers Unit
small = record { max_memories = 2; similarity_threshold = 1; memories = texts }

itoa-value_example :
    (ds : List ℕ) × (itoa 42 ≡ some ds) × All (λ d. suc d ≤ 10) ds × (value 0 ds ≡ 42)
itoa-value_example = itoa-value 42 (omega arith)
