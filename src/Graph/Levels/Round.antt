-- ===== src/Graph/Levels/Round.antt =====
-- One round of Kahn's algorithm, on in-degrees that count what is still pending.
use aixgo.Common.{
  zero, suc, ◌≡◌, ◌≢◌, ◌↔◌, inl, inr, List, [], ◌∷◌, Option, none, some, String, ite,
  string_discrete, arith, ◌∈◌, All, Nodup, count, dec_mem, Option-cases, sym, subst, All-mem,
  count-zero,
}
use aixgo.Common.Int.{ℤ, pos, negsuc}
use aixgo.Common.Maps.{
  Map, lookup, delete, keys, IsMap, lookup-delete, delete-IsMap, lookup-eq-none,
}
use aixgo.Graph.{Node}
use aixgo.Graph.Levels.{get_list, ready, decrement, remove_level}
use aixgo.Graph.Levels.Counts.{pending, pending-cons, pending-zero}
use aixgo.Graph.Levels.Dependents.{edges, decrement_same, decrement_lem, decrement-IsMap}

-- The entry that an agent should have once the agents of `placed` are taken out.
abbrev pub expected : Map Node → List String → String → Option ℤ
expected nodes placed n = elim (lookup n nodes) [
  | none ↦ none
  | some node ↦ ite (dec_mem n placed) none (some (pos (pending placed node.dependencies)))
]

-- The agents of a level, put in front of those placed before.
abbrev pub place : List String → List String → List String
place [] placed = placed
place (name ∷ level) placed = place level (name ∷ placed)

module _ (nodes : Map Node) where
  pub record Tracks (placed : List String) (m : Map ℤ) : Type 0 where
    pub is_map : IsMap m
    pub entry : (n : String) → lookup n m ≡ expected nodes placed n
    -- The dependencies of a placed agent are placed.
    pub closed :
        (n : String) (node : Node)
        → n ∈ placed
        → lookup n nodes ≡ some node
        → All (λ d. d ∈ placed) node.dependencies

  -- The agent waits for nothing: it is not placed, and its dependencies are.
  abbrev pub Free : List String → String → Type 0
  Free placed n =
      (node : Node) × (lookup n nodes ≡ some node)
      × (¬ (n ∈ placed))
      × All (λ d. d ∈ placed) node.dependencies

  ready-lookup : (m : Map ℤ) (n : String) → IsMap m → (n ∈ ready m) ↔ (lookup n m ≡ some (pos 0))
  unfolding ready lookup
  ready-lookup [] n h = ground arith
  ready-lookup ((k, pos zero) ∷ m) n h = ground (arith, ready-lookup m n h.1)
  ready-lookup ((k, pos (suc z)) ∷ m) n h =
      ground (arith, ready-lookup m n h.1, lookup-eq-none k m h.0)
  ready-lookup ((k, negsuc z) ∷ m) n h =
      ground (arith, ready-lookup m n h.1, lookup-eq-none k m h.0)

  ready-keys : (m : Map ℤ) (n : String) → n ∈ ready m → n ∈ keys m
  unfolding ready
  ready-keys [] n h = h
  ready-keys ((k, pos zero) ∷ m) n h = ground (arith, ready-keys m n)
  ready-keys ((k, pos (suc z)) ∷ m) n h = inr (ready-keys m n h)
  ready-keys ((k, negsuc z) ∷ m) n h = inr (ready-keys m n h)

  pub Nodup-ready : (m : Map ℤ) → IsMap m → Nodup (ready m)
  unfolding ready
  Nodup-ready [] h = tt
  Nodup-ready ((k, pos zero) ∷ m) h = (λ i. h.0 (ready-keys m k i), Nodup-ready m h.1)
  Nodup-ready ((k, pos (suc z)) ∷ m) h = Nodup-ready m h.1
  Nodup-ready ((k, negsuc z) ∷ m) h = Nodup-ready m h.1

  -- The agents with in-degree 0 are those that wait for nothing.
  pub ready-Free :
      (placed : List String) (m : Map ℤ) (n : String)
      → Tracks placed m
      → (n ∈ ready m) ↔ Free placed n
  ready-Free placed m n t = (to, from)
    where
      to : n ∈ ready m → Free placed n
      to h = elim (Option-cases (lookup n nodes)) [
        | inl e ↦ absurd (ground (arith, ready-lookup m n t.is_map, t.entry n))
        | inr (node, e) ↦ (
          node,
          e,
          ground (arith, ready-lookup m n t.is_map, t.entry n),
          ground
              (arith, ready-lookup m n t.is_map, t.entry n, pending-zero placed node.dependencies),
        )
      ]

      from : Free placed n → n ∈ ready m
      from (node, e, out, all) =
          ground
            (arith, ready-lookup m n t.is_map, t.entry n, pending-zero placed node.dependencies)

  count_of_placed :
      (placed ds : List String) (name : String)
      → All (λ d. d ∈ placed) ds
      → ¬ (name ∈ placed)
      → count name ds ≡ 0
  count_of_placed placed ds name all out =
      count-zero name ds (λ m. out (All-mem (λ d. d ∈ placed) ds name all m))

  All-weaken :
      (placed : List String) (name : String) (ds : List String)
      → All (λ d. d ∈ placed) ds
      → All (λ d. d ∈ (name ∷ placed)) ds
  All-weaken placed name [] h = tt
  All-weaken placed name (d ∷ ds) h = (inr h.0, All-weaken placed name ds h.1)

  module _ (dependents : Map (List String)) (placed : List String) (m : Map ℤ) (name : String)
      (spec : (d n : String) → count n (get_list d dependents) ≡ edges nodes d n)
      (t : Tracks placed m) (free : Free placed name) where
    out : ¬ (name ∈ placed)
    out = free.2

    entry_removed :
        (n : String)
        → lookup n (decrement (get_list name dependents) (delete name m))
          ≡ expected nodes (name ∷ placed) n
    unfolding edges
    entry_removed n = elim (Option-cases (lookup n nodes)) [
      | inl e ↦ ground (
        arith,
        spec name n,
        decrement_same n (get_list name dependents) (delete name m),
        lookup-delete name n m,
        t.entry n,
      )
      | inr (node, e) ↦ elim (dec_mem n placed) [
        | yes i ↦ ground (
          arith,
          spec name n,
          count_of_placed placed node.dependencies name (t.closed n node i e) out,
          decrement_same n (get_list name dependents) (delete name m),
          lookup-delete name n m,
          t.entry n,
        )
        | no i ↦ elim (string_discrete name n) [
          | yes q ↦ ground (
            arith,
            spec name n,
            count_of_placed placed free.0.dependencies name free.3 out,
            free.1,
            decrement_same n (get_list name dependents) (delete name m),
            lookup-delete name n m,
          )
          | no q ↦ ground (
            arith,
            spec name n,
            pending-cons name placed node.dependencies out,
            decrement_lem n (get_list name dependents) (delete name m)
                (pending placed node.dependencies) (pending (name ∷ placed) node.dependencies),
            lookup-delete name n m,
            t.entry n,
          )
        ]
      ]
    ]

    closed_removed :
        (n : String) (node : Node)
        → n ∈ (name ∷ placed)
        → lookup n nodes ≡ some node
        → All (λ d. d ∈ (name ∷ placed)) node.dependencies
    closed_removed n node (inr i) e = All-weaken placed name node.dependencies (t.closed n node i e)
    closed_removed n node (inl q) e =
        let same : free.0 ≡ node = ground (arith, free.1) in
        subst (λ (v : Node). All (λ d. d ∈ (name ∷ placed)) v.dependencies) same
          (All-weaken placed name free.0.dependencies free.3)

    -- Taking out an agent that waits for nothing keeps the in-degrees right.
    pub remove-Tracks :
        Tracks (name ∷ placed) (decrement (get_list name dependents) (delete name m))
    remove-Tracks = record {
      is_map =
          decrement-IsMap (get_list name dependents) (delete name m) (delete-IsMap name m t.is_map);
      entry = entry_removed;
      closed = closed_removed;
    }

  Free-keep :
      (placed : List String) (name n : String) → Free placed n → name ≢ n → Free (name ∷ placed) n
  Free-keep placed name n (node, e, out, all) d = (
    node,
    e,
    λ i. elim i [ inl q ↦ d (sym q) | inr j ↦ out j ],
    All-weaken placed name node.dependencies all,
  )

  All-Free-keep :
      (placed : List String) (name : String) (level : List String)
      → ¬ (name ∈ level)
      → All (Free placed) level
      → All (Free (name ∷ placed)) level
  All-Free-keep placed name [] h all = tt
  All-Free-keep placed name (n ∷ level) h all = (
    Free-keep placed name n all.0 (λ e. h (inl e)),
    All-Free-keep placed name level (λ i. h (inr i)) all.1,
  )

  pub remove_level-Tracks :
      (dependents : Map (List String)) (level placed : List String) (m : Map ℤ)
      → ((d n : String) → count n (get_list d dependents) ≡ edges nodes d n)
      → Tracks placed m
      → Nodup level
      → All (Free placed) level
      → Tracks (place level placed) (remove_level dependents level m)
  unfolding remove_level
  remove_level-Tracks dependents [] placed m spec t h all = t
  remove_level-Tracks dependents (name ∷ level) placed m spec t h all =
      remove_level-Tracks dependents level (name ∷ placed)
        (decrement (get_list name dependents) (delete name m)) spec
        (remove-Tracks dependents placed m name spec t all.0) h.1
        (All-Free-keep placed name level h.0 all.1)
