-- ===== src/Graph/Levels/Dependents.antt =====
-- The reverse adjacency list, and what taking one agent out does to the in-degrees.
use aixgo.Common.{
  ℕ, zero, suc, ◌+◌, ◌≡◌, List, [], ◌∷◌, ◌++◌, none, some, String, ite, string_discrete, arith,
  count, count-append, refl,
}
use aixgo.Common.Int.{ℤ, pos, pred_ℤ}
use aixgo.Common.Maps.{Map, lookup, insert, IsMap, lookup-insert, insert-IsMap, lookup-eq-none}
use aixgo.Graph.{Node}
use aixgo.Graph.Levels.{get_list, add_dependents, dependents_of, get_int, decrement}

-- How often `n` lists `d` among its dependencies.
unfoldable pub edges : Map Node → String → String → ℕ
edges nodes d n = elim (lookup n nodes) [ some node ↦ count d node.dependencies | none ↦ 0 ]

get_list-insert :
    (k j : String) (l : List String) (m : Map (List String))
    → get_list j (insert k l m) ≡ ite (string_discrete k j) l (get_list j m)
unfolding get_list
get_list-insert k j l m = ground (arith, lookup-insert k j l m)

count-add_dependents :
    (name : String) (deps : List String) (m : Map (List String)) (d n : String)
    → count n (get_list d (add_dependents name deps m))
      ≡ count n (get_list d m) + ite (string_discrete name n) (count d deps) 0
unfolding add_dependents count
count-add_dependents name [] m d n = ground arith
count-add_dependents name (dep ∷ deps) m d n = ground (
  arith,
  count-add_dependents name deps (insert dep (get_list dep m ++ name ∷ []) m) d n,
  get_list-insert dep d (get_list dep m ++ name ∷ []) m,
  count-append n (get_list dep m) (name ∷ []),
)

-- The list kept for `d` holds each agent as often as that agent lists `d`.
pub count-dependents_of :
    (nodes : Map Node) (m : Map (List String)) (d n : String)
    → IsMap nodes
    → count n (get_list d (dependents_of nodes m)) ≡ count n (get_list d m) + edges nodes d n
unfolding dependents_of edges lookup
count-dependents_of [] m d n h = ground arith
count-dependents_of ((name, node) ∷ nodes) m d n h = ground (
  arith,
  count-dependents_of nodes (add_dependents name node.dependencies m) d n h.1,
  count-add_dependents name node.dependencies m d n,
  lookup-eq-none name nodes h.0,
)

pub decrement_same :
    (j : String) (ks : List String) (m : Map ℤ)
    → count j ks ≡ 0
    → lookup j (decrement ks m) ≡ lookup j m
unfolding decrement count
decrement_same j [] m h = refl
decrement_same j (k ∷ ks) m h = ground (
  arith,
  decrement_same j ks (insert k (pred_ℤ (get_int k m)) m),
  lookup-insert k j (pred_ℤ (get_int k m)) m,
)

pub decrement_lem :
    (j : String) (ks : List String) (m : Map ℤ) (n c : ℕ)
    → lookup j m ≡ some (pos n)
    → n ≡ c + count j ks
    → lookup j (decrement ks m) ≡ some (pos c)
unfolding decrement count get_int
decrement_lem j [] m n c e q = ground arith
decrement_lem j (k ∷ ks) m zero c e q = ground (
  arith,
  decrement_lem j ks (insert k (pred_ℤ (get_int k m)) m) 0 c,
  lookup-insert k j (pred_ℤ (get_int k m)) m,
)
decrement_lem j (k ∷ ks) m (suc n) c e q = ground (
  arith,
  decrement_lem j ks (insert k (pred_ℤ (get_int k m)) m) n c,
  decrement_lem j ks (insert k (pred_ℤ (get_int k m)) m) (suc n) c,
  lookup-insert k j (pred_ℤ (get_int k m)) m,
)

pub decrement-IsMap : (ks : List String) (m : Map ℤ) → IsMap m → IsMap (decrement ks m)
unfolding decrement
decrement-IsMap [] m h = h
decrement-IsMap (k ∷ ks) m h =
    decrement-IsMap ks (insert k (pred_ℤ (get_int k m)) m)
      (insert-IsMap k (pred_ℤ (get_int k m)) m h)
