-- ===== src/Graph/Validate/Unknown.antt =====
-- The first loop of Validate: it finds a dependency that is no agent if there is one.
use aixgo.Common.{◌≡◌, inl, inr, List, [], ◌∷◌, none, some, String, arith, ◌∈◌, Option-cases}
use aixgo.Common.Maps.{Map, lookup, keys, IsMap, mem_of_lookup}
use aixgo.Graph.{Node}
use aixgo.Graph.Validate.{first_missing, find_unknown}

module _ (nodes : Map Node) where
  first_missing-none :
      (ds : List String) (d : String) → first_missing nodes ds ≡ none → d ∈ ds → d ∈ keys nodes
  unfolding first_missing
  first_missing-none [] d e m = absurd m
  first_missing-none (x ∷ ds) d e (inl q) = elim (Option-cases (lookup x nodes)) [
    | inl n ↦ absurd (ground arith)
    | inr (v, h) ↦ rw q (mem_of_lookup x nodes v h)
  ]
  first_missing-none (x ∷ ds) d e (inr m) = elim (Option-cases (lookup x nodes)) [
    | inl n ↦ absurd (ground arith)
    | inr (v, h) ↦ first_missing-none ds d (ground arith) m
  ]

  first_missing-some :
      (ds : List String) (d : String)
      → first_missing nodes ds ≡ some d
      → (d ∈ ds) × (lookup d nodes ≡ none)
  unfolding first_missing
  first_missing-some [] d e = cc
  first_missing-some (x ∷ ds) d e = ground (arith, first_missing-some ds d)

  pub find_unknown-none :
      (rest : Map Node) (a d : String) (node : Node)
      → find_unknown nodes rest ≡ none
      → lookup a rest ≡ some node
      → d ∈ node.dependencies
      → d ∈ keys nodes
  unfolding find_unknown lookup
  find_unknown-none [] a d node e found m = cc
  find_unknown-none ((j, other) ∷ rest) a d node e found m =
      ground (arith, first_missing-none other.dependencies d, find_unknown-none rest a d node)

  pub find_unknown-some :
      (rest : Map Node) (a d : String)
      → IsMap rest
      → find_unknown nodes rest ≡ some (a, d)
      → (node : Node) × (lookup a rest ≡ some node)
        × (d ∈ node.dependencies)
        × (lookup d nodes ≡ none)
  unfolding find_unknown lookup
  find_unknown-some [] a d h e = cc
  find_unknown-some ((j, other) ∷ rest) a d h e =
      elim (Option-cases (first_missing nodes other.dependencies)) [
        | inr (x, f) ↦ (
          other,
          ground arith,
          ground (arith, first_missing-some other.dependencies x f),
          ground (arith, first_missing-some other.dependencies x f),
        )
        | inl f ↦
            let (node, found, m, missing) = find_unknown-some rest a d h.1 (ground arith) in
            (node, ground (arith, mem_of_lookup a rest node), m, missing)
      ]
