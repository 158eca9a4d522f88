-- ===== src/Graph/Levels/Correct.antt =====
-- What TopologicalLevels answers, against the dependency relation of the graph.
use mathlib.Core.WellFounded.{Acc}
use mathlib.Core.List.{append-nil, append_assoc}
use aixgo.Common.{
  ℕ, zero, suc, ◌+◌, ◌-◌, ◌<◌, ◌≡◌, ◌≢◌, ◌↔◌, inl, inr, List, [], ◌∷◌, ◌++◌, some, String, arith,
  ◌∈◌, All, Nodup, count, refl, ◌∙◌, sym, length, ap, subst, count-zero, All-mem,
}
use aixgo.Common.Int.{ℤ}
use aixgo.Common.Maps.{Map, lookup, keys, IsMap, mem_of_lookup, lookup-eq-some}
use aixgo.Common.Sort.{sort_strings, length-sort_strings, mem-sort_strings, Nodup-sort_strings}
use aixgo.Graph.{Node}
use aixgo.Graph.Outcome.{done}
use aixgo.Graph.Relation.{IsKnown, IsAcyclic, IsGrounded}
use aixgo.Graph.Levels.{get_list, ready, remove_level, rounds}
use aixgo.Graph.Levels.Counts.{pending, pending-cons, pending-zero, pending-some}
use aixgo.Graph.Levels.Dependents.{edges}
use aixgo.Graph.Levels.Round.{Tracks, Free, ready-Free, Nodup-ready, place, remove_level-Tracks}

-- The levels from `placed` on: each is not empty, holds no agent twice, and holds exactly the
-- agents that are not placed and whose dependencies all are; at the end every agent is placed.
abbrev pub Levelled : Map Node → List String → List (List String) → Type 0
Levelled nodes placed [] = (n : String) → n ∈ keys nodes → n ∈ placed
Levelled nodes placed (level ∷ levels) =
    (level ≢ [])
    × Nodup level
    × ((n : String) → (n ∈ level) ↔ Free nodes placed n)
    × Levelled nodes (place level placed) levels

All-of {ℓ} : {A : Type 0} (P : A → Type ℓ) (xs : List A) → ((x : A) → x ∈ xs → P x) → All P xs
All-of P [] h = tt
All-of P (x ∷ xs) h = (h x (inl refl), All-of P xs (λ y m. h y (inr m)))

module _ (nodes : Map Node) where
  count-keys : (m : Map Node) (name : String) → IsMap m → name ∈ keys m → count name (keys m) ≡ 1
  unfolding count
  count-keys [] name h i = absurd i
  count-keys ((k, _) ∷ m) name h i =
      ground (arith, count-keys m name h.1, count-zero k (keys m) h.0)

  pending-place :
      (level placed : List String)
      → IsMap nodes
      → Nodup level
      → All (λ n. (n ∈ keys nodes) × (¬ (n ∈ placed))) level
      → pending (place level placed) (keys nodes) + length level ≡ pending placed (keys nodes)
  pending-place [] placed h d all = omega arith
  pending-place (n ∷ level) placed h d all = omega (
    arith,
    count-keys nodes n h all.0.0,
    pending-cons n placed (keys nodes) all.0.1,
    pending-place level (n ∷ placed) h d.1 (
        All-of (λ x. (x ∈ keys nodes) × (¬ (x ∈ (n ∷ placed)))) level
          λ x m.
            let (known, out) = All-mem (λ x. (x ∈ keys nodes) × (¬ (x ∈ placed))) level x all.1 m in
            (known, λ i. elim i [ inl e ↦ d.0 (subst (λ y. y ∈ level) e m) | inr j ↦ out j ])),
  )

  -- While an agent is not placed, some agent waits for nothing.
  find-Free :
      (placed : List String) (name : String)
      → IsKnown nodes
      → IsGrounded nodes name
      → name ∈ keys nodes
      → ¬ (name ∈ placed)
      → (n : String) × Free nodes placed n
  find-Free placed name known (Acc.intro _ below) i out =
      let (node, e) = lookup-eq-some name nodes i in
      search_in node e
        (λ d m o. find-Free placed d known (below d (node, e, m)) (known name d (node, e, m)) o)
        (pending placed node.dependencies) refl
    where
      search_in :
          (node : Node)
          → lookup name nodes ≡ some node
          → ((d : String)
              → d ∈ node.dependencies
              → ¬ (d ∈ placed)
              → (n : String) × Free nodes placed n)
          → (k : ℕ) → pending placed node.dependencies ≡ k
          → (n : String) × Free nodes placed n
      search_in node e deeper zero p =
          (name, (node, e, out, (pending-zero placed node.dependencies).0 p))
      search_in node e deeper (suc k) p =
          let (d, m, o) = pending-some placed node.dependencies (λ z. omega (arith, p, z)) in
          deeper d m o

  module _ (known : IsKnown nodes) (acyclic : IsAcyclic nodes) (is_map : IsMap nodes)
      (dependents : Map (List String))
      (spec : (d n : String) → count n (get_list d dependents) ≡ edges nodes d n) where
    -- One round: a level that is not empty, and the state after it.
    round :
        (placed : List String) (m : Map ℤ) (x : String) (xs : List String)
        → Tracks nodes placed m
        → ready m ≡ x ∷ xs
        → let level = sort_strings (x ∷ xs) in
          Nodup level
          × ((n : String) → (n ∈ level) ↔ Free nodes placed n)
          × Tracks nodes (place level placed) (remove_level dependents level m)
          × (pending (place level placed) (keys nodes) + suc (length xs)
              ≡ pending placed (keys nodes))
    round placed m x xs t e = (nodup, free, tracks, left)
      where
        level : List String
        level = sort_strings (x ∷ xs)

        nodup : Nodup level
        nodup = Nodup-sort_strings (x ∷ xs) (subst Nodup e (Nodup-ready nodes m t.is_map))

        free : (n : String) → (n ∈ level) ↔ Free nodes placed n
        free n =
            let r : (n ∈ (x ∷ xs)) ↔ Free nodes placed n =
              subst (λ l. (n ∈ l) ↔ Free nodes placed n) e (ready-Free nodes placed m n t) in
            let s = mem-sort_strings n (x ∷ xs) in (λ i. r.0 (s.0 i), λ f. s.1 (r.1 f))

        all_free : All (Free nodes placed) level
        all_free = All-of (Free nodes placed) level (λ n i. (free n).0 i)

        tracks : Tracks nodes (place level placed) (remove_level dependents level m)
        tracks = remove_level-Tracks nodes dependents level placed m spec t nodup all_free

        left :
            pending (place level placed) (keys nodes) + suc (length xs)
            ≡ pending placed (keys nodes)
        left = omega (
          arith,
          length-sort_strings (x ∷ xs),
          pending-place level placed is_map nodup (
              All-of (λ n. (n ∈ keys nodes) × (¬ (n ∈ placed))) level
                λ n i.
                  let (node, found, out, _) = (free n).0 i in
                  (mem_of_lookup n nodes node found, out)),
        )

    ready_some :
        (placed : List String) (m : Map ℤ)
        → Tracks nodes placed m
        → ¬ (pending placed (keys nodes) ≡ 0)
        → ready m ≢ []
    ready_some placed m t left e =
        let (name, i, out) = pending-some placed (keys nodes) left in
        let (n, f) = find-Free placed name known (acyclic name) i out in
        subst (λ l. n ∈ l) e ((ready-Free nodes placed m n t).1 f)

    -- With fuel above `remaining` the loop ends, never by an error, and makes true levels.
    pub rounds-Levelled :
        (fuel remaining : ℕ) (placed : List String) (m : Map ℤ) (levels : List (List String))
        → Tracks nodes placed m
        → remaining ≡ pending placed (keys nodes)
        → remaining < fuel
        → (more : List (List String)) × (rounds fuel dependents remaining m levels
            ≡ done (levels ++ more))
          × Levelled nodes placed more
    unfolding rounds
    rounds-Levelled fuel zero placed m levels t left f = (
      [],
      ap done (sym (append-nil levels)),
      λ n i.
          All-mem (λ d. d ∈ placed) (keys nodes) n ((pending-zero placed (keys nodes)).0 (sym left))
            i,
    )
    rounds-Levelled zero (suc remaining) placed m levels t left f = absurd (omega arith)
    rounds-Levelled (suc fuel) (suc remaining) placed m levels t left f =
        by_ready (ready m) refl (rounds-Levelled fuel)
      where
        by_ready :
            (l : List String)
            → ready m ≡ l
            → ((remaining : ℕ) (placed : List String) (m : Map ℤ) (levels : List (List String))
                → Tracks nodes placed m
                → remaining ≡ pending placed (keys nodes)
                → remaining < fuel
                → (more : List (List String)) × (rounds fuel dependents remaining m levels
                    ≡ done (levels ++ more))
                  × Levelled nodes placed more)
            → (more : List (List String)) × (rounds (suc fuel) dependents (suc remaining) m levels
                ≡ done (levels ++ more))
              × Levelled nodes placed more
        by_ready [] e ih = absurd (ready_some placed m t (λ z. omega (arith, left, z)) e)
        by_ready (x ∷ xs) e ih =
            let level = sort_strings (x ∷ xs) in
            let (nodup, free, tracks, fewer) = round placed m x xs t e in
            let size = length-sort_strings (x ∷ xs) in
            let (more, ends, good) =
              ih (suc remaining - length level) (place level placed)
                (remove_level dependents level m) (levels ++ level ∷ []) tracks
                (omega (arith, size, fewer, left)) (omega (arith, size, f)) in
            (
              level ∷ more,
              rw (e, rounds) (ends ∙ ap done (append_assoc levels (level ∷ []) more)),
              (
                (λ z. let s : suc (length xs) ≡ 0 = sym size ∙ ap length z in omega (arith, s)),
                nodup,
                free,
                good,
              ),
            )
