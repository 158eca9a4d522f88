-- ===== src/Common/Maps.antt =====
-- Go maps with string keys, as association lists. The order of the list stands for the order in
-- which `range` happens to visit the map, so a theorem over all lists holds for every such order.
use aixgo.Common.Tests.{string_discrete}
use aixgo.Common.Lists.{◌∈◌, length}
use Prim.Native.Nat.{suc}
use Prim.Native.String.{String}
use mathlib.Core.Path.{◌≡◌, refl, ap, ◌∙◌, sym, subst}
use mathlib.Core.Logic.{◌≢◌, ◌⊎◌, ite, if_pos, if_neg}
use mathlib.Core.List.{List, [], ◌∷◌}
use mathlib.Core.Option.{Option, none, some}
use native.Mathlib.Omega.{arith}

abbrev pub Map {ℓ} : Type ℓ → Type ℓ
Map V = List (String × V)

module _ {ℓ} {V : Type ℓ} where
  -- `v, exists := m[k]`
  unfoldable pub lookup : String → Map V → Option V
  lookup k [] = none
  lookup k ((j, v) ∷ m) = ite (string_discrete j k) (some v) (lookup k m)

  -- `m[k] = v`
  unfoldable pub insert : String → V → Map V → Map V
  insert k v [] = (k, v) ∷ []
  insert k v ((j, w) ∷ m) = ite (string_discrete j k) ((j, v) ∷ m) ((j, w) ∷ insert k v m)

  -- `delete(m, k)`
  unfoldable pub delete : String → Map V → Map V
  delete k [] = []
  delete k ((j, w) ∷ m) = ite (string_discrete j k) (delete k m) ((j, w) ∷ delete k m)

  abbrev pub keys : Map V → List String
  keys [] = []
  keys ((j, _) ∷ m) = j ∷ keys m

  -- A Go map holds each key once.
  abbrev pub IsMap : Map V → Type 0
  IsMap [] = Unit {0}
  IsMap ((j, _) ∷ m) = (¬ (j ∈ keys m)) × IsMap m

module _ {ℓ} {V : Type ℓ} where
  pub lookup-insert :
      (k j : String) (v : V) (m : Map V)
      → lookup j (insert k v m) ≡ ite (string_discrete k j) (some v) (lookup j m)
  unfolding lookup insert
  lookup-insert k j v [] = refl
  lookup-insert k j v ((i, w) ∷ m) = ground (arith, lookup-insert k j v m)

  pub lookup-delete :
      (k j : String) (m : Map V)
      → lookup j (delete k m) ≡ ite (string_discrete k j) none (lookup j m)
  unfolding lookup delete
  lookup-delete k j [] = ground arith
  lookup-delete k j ((i, w) ∷ m) = ground (arith, lookup-delete k j m)

  pub lookup-insert_self : (k : String) (v : V) (m : Map V) → lookup k (insert k v m) ≡ some v
  lookup-insert_self k v m = ground (arith, lookup-insert k k v m)

  pub lookup-insert_ne :
      (k j : String) (v : V) (m : Map V) → k ≢ j → lookup j (insert k v m) ≡ lookup j m
  lookup-insert_ne k j v m h = ground (arith, lookup-insert k j v m)

  pub lookup-delete_self : (k : String) (m : Map V) → lookup k (delete k m) ≡ none
  lookup-delete_self k m = ground (arith, lookup-delete k k m)

  pub lookup-delete_ne : (k j : String) (m : Map V) → k ≢ j → lookup j (delete k m) ≡ lookup j m
  lookup-delete_ne k j m h = ground (arith, lookup-delete k j m)

  pub keys-insert-mem :
      (k j : String) (v : V) (m : Map V) → j ∈ keys (insert k v m) → (j ≡ k) ⊎ (j ∈ keys m)
  unfolding insert
  keys-insert-mem k j v [] h = ground arith
  keys-insert-mem k j v ((i, w) ∷ m) h = ground (arith, keys-insert-mem k j v m)

  pub insert-IsMap : (k : String) (v : V) (m : Map V) → IsMap m → IsMap (insert k v m)
  unfolding insert
  insert-IsMap k v [] h = ground arith
  insert-IsMap k v ((i, w) ∷ m) h = ground (arith, insert-IsMap k v m, keys-insert-mem k i v m)

  pub keys-delete-mem : (k j : String) (m : Map V) → j ∈ keys (delete k m) → (j ≢ k) × (j ∈ keys m)
  unfolding delete
  keys-delete-mem k j [] h = absurd h
  keys-delete-mem k j ((i, w) ∷ m) h = ground (arith, keys-delete-mem k j m)

  pub delete-IsMap : (k : String) (m : Map V) → IsMap m → IsMap (delete k m)
  unfolding delete
  delete-IsMap k [] h = tt
  delete-IsMap k ((i, w) ∷ m) h = ground (arith, delete-IsMap k m, keys-delete-mem k i m)

  pub lookup-eq-none : (k : String) (m : Map V) → ¬ (k ∈ keys m) → lookup k m ≡ none
  unfolding lookup
  lookup-eq-none k [] h = refl
  lookup-eq-none k ((i, w) ∷ m) h = ground (arith, lookup-eq-none k m)

  pub lookup-eq-some : (k : String) (m : Map V) → k ∈ keys m → (v : V) × (lookup k m ≡ some v)
  unfolding lookup
  lookup-eq-some k [] h = absurd h
  lookup-eq-some k ((i, w) ∷ m) h = elim (string_discrete i k) [
    | yes e ↦ (w, rw (if_pos _ e))
    | no n ↦ rw (if_neg _ n) (lookup-eq-some k m (ground arith))
  ]

  pub mem_of_lookup : (k : String) (m : Map V) (v : V) → lookup k m ≡ some v → k ∈ keys m
  unfolding lookup
  mem_of_lookup k [] v h = cc
  mem_of_lookup k ((i, w) ∷ m) v h = ground (arith, mem_of_lookup k m v)

  -- An entry is new unless the map has one under the key.
  pub length-insert_new :
      (k : String) (v : V) (m : Map V) → lookup k m ≡ none → length (insert k v m) ≡ suc (length m)
  unfolding lookup insert
  length-insert_new k v [] h = refl
  length-insert_new k v ((j, w) ∷ m) h = ground (arith, length-insert_new k v m)

  pub length-insert_old :
      (k : String) (v w : V) (m : Map V) → lookup k m ≡ some w → length (insert k v m) ≡ length m
  unfolding lookup insert
  length-insert_old k v w [] h = ground arith
  length-insert_old k v w ((j, u) ∷ m) h = ground (arith, length-insert_old k v w m)

  delete_absent : (k : String) (m : Map V) → ¬ (k ∈ keys m) → delete k m ≡ m
  unfolding delete
  delete_absent k [] h = refl
  delete_absent k ((j, w) ∷ m) h = ground (arith, delete_absent k m)

  pub length-delete :
      (k : String) (v : V) (m : Map V)
      → IsMap m
      → lookup k m ≡ some v
      → suc (length (delete k m)) ≡ length m
  unfolding lookup delete
  length-delete k v [] h e = ground arith
  length-delete k v ((j, w) ∷ m) h e = elim (string_discrete j k) [
    | yes s ↦
        rw (if_pos _ s)
          (ap (λ n. suc (length n)) (delete_absent k m (subst (λ i. ¬ (i ∈ keys m)) s h.0)))
    | no n ↦ rw (if_neg _ n) (
        ap suc (
          length-delete k v m h.1 (sym (if_neg (string_discrete j k) n (some w) (lookup k m)) ∙ e)))
  ]

  pub mem-keys-insert : (k j : String) (v : V) (m : Map V) → j ∈ keys m → j ∈ keys (insert k v m)
  unfolding insert
  mem-keys-insert k j v [] h = absurd h
  mem-keys-insert k j v ((i, w) ∷ m) h = ground (arith, mem-keys-insert k j v m)

  pub mem-keys-insert_self : (k : String) (v : V) (m : Map V) → k ∈ keys (insert k v m)
  mem-keys-insert_self k v m = mem_of_lookup k (insert k v m) v (lookup-insert_self k v m)

  pub mem-keys-delete : (k j : String) (m : Map V) → j ≢ k → j ∈ keys m → j ∈ keys (delete k m)
  unfolding delete
  mem-keys-delete k j [] n h = absurd h
  mem-keys-delete k j ((i, w) ∷ m) n h = ground (arith, mem-keys-delete k j m)
