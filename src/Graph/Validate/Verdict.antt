-- ===== src/Graph/Validate/Verdict.antt =====
-- What Validate answers, against the dependency relation of the graph.
use mathlib.Core.WellFounded.{Acc}
use aixgo.Common.{
  ℕ, suc, ◌<◌, ◌≡◌, ◌↔◌, inl, inr, [], ◌∷◌, String, arith, ◌∈◌, All, All-mem, Option-cases, refl,
  sym, ◌∙◌, subst, length,
}
use aixgo.Common.Maps.{Map, lookup, keys, IsMap, mem_of_lookup, lookup-eq-some}
use aixgo.Graph.{Node, DependencyGraph}
use aixgo.Graph.Outcome.{
  Outcome, done, fails, panics, out_of_fuel, cycle_error, unknown_dependency, cycle_detected, ◌>>=◌,
}
use aixgo.Graph.Relation.{Edge, IsKnown, IsAcyclic, IsCycle, cycle_not-IsAcyclic}
use aixgo.Graph.Validate.{
  Color, white, gray, black, get_color, Search, dfs, roots, find_unknown, validate,
}
use aixgo.Graph.Validate.Colors.{whites, whites_mono, whites-le}
use aixgo.Graph.Validate.Dfs.{
  Inv, After, After-refl, Ends, Ends-bind, Ends-map, Ends-widen, Ready, IsBlack, dfs-Ends,
}
use aixgo.Graph.Validate.Unknown.{find_unknown-none, find_unknown-some}

module _ (nodes : Map Node) where
  -- One root: what follows starts from a state in which the root is black.
  root-Ends :
      (fuel : ℕ) (name : String) (rest : Map Node) (node : Node) (s : Search) (Q : Search → Type 0)
      (c : Color)
      → get_color s.colors name ≡ c
      → IsKnown nodes
      → s.stack ≡ []
      → Ready nodes fuel name s
      → ((t : Search)
          → After nodes s t
          → IsBlack nodes name t
          → Ends nodes t Q (roots fuel nodes rest t))
      → Ends nodes s Q (roots fuel nodes ((name, node) ∷ rest) s)
  unfolding roots
  root-Ends fuel name rest node s Q white e known empty r next =
      rw (e, roots)
        (Ends-bind nodes s (IsBlack nodes name) Q (dfs fuel nodes name s) (roots fuel nodes rest)
          (dfs-Ends nodes fuel known name s r) next)
  root-Ends fuel name rest node s Q gray e known empty r next =
      absurd (subst (λ l. name ∈ l) empty (r.inv.stacked name e))
  root-Ends fuel name rest node s Q black e known empty r next =
      rw (e, roots)
        (Ends-widen nodes s s Q (roots fuel nodes rest s) (After-refl nodes s r.inv)
          (next s (After-refl nodes s r.inv) e))

  roots-Ends :
      (fuel : ℕ) (rest : Map Node) (s : Search)
      → IsKnown nodes
      → Inv nodes s
      → s.stack ≡ []
      → ((n : String) → n ∈ keys rest → n ∈ keys nodes)
      → whites (keys nodes) s.colors < fuel
      → Ends nodes s (λ t. All (λ n. IsBlack nodes n t) (keys rest)) (roots fuel nodes rest s)
  unfolding roots
  roots-Ends fuel [] s known i empty sub enough = (After-refl nodes s i, tt)
  roots-Ends fuel ((name, node) ∷ rest) s known i empty sub enough =
      root-Ends fuel name rest node s _ (get_color s.colors name) refl known empty
        (record { inv = i; walk = rw empty tt; known = sub name (inl refl); enough = enough })
        λ t a b.
          Ends-map nodes t (λ u. All (λ n. IsBlack nodes n u) (keys rest)) _
            (roots fuel nodes rest t)
            (roots-Ends fuel rest t known a.inv (a.same_stack ∙ empty) (λ n m. sub n (inr m))
              (omega (arith, enough, whites_mono (keys nodes) s.colors t.colors a.no_white)))
            λ u a' all. (a'.keeps_black name b, all)

  -- What an answer of `Validate` has to mean.
  abbrev pub Verdict : Outcome Unit → Type 0
  Verdict (done _) = IsKnown nodes × IsAcyclic nodes
  Verdict (fails (unknown_dependency a d)) = Edge nodes a d × ¬ (d ∈ keys nodes)
  Verdict (fails (cycle_error p)) = IsCycle nodes p
  Verdict (fails cycle_detected) = ⊥
  Verdict panics = ⊥
  Verdict out_of_fuel = ⊥

  initial : Search
  initial = record { colors = []; stack = [] }

  initial-Inv : Inv nodes initial
  unfolding initial get_color lookup
  initial-Inv = record { grounded = λ n h. cc; stacked = λ n h. cc }

  length-keys : (m : Map Node) → length (keys m) ≡ length m
  length-keys [] = refl
  length-keys (x ∷ m) = omega (arith, length-keys m)

  All-black-IsAcyclic :
      (t : Search) → Inv nodes t → All (λ n. IsBlack nodes n t) (keys nodes) → IsAcyclic nodes
  All-black-IsAcyclic t i all a = elim (Option-cases (lookup a nodes)) [
    | inl e ↦ Acc.intro a (λ d edge. cc (sym e ∙ edge.1))
    | inr (node, e) ↦
        i.grounded a
          (All-mem (λ n. IsBlack nodes n t) (keys nodes) a all (mem_of_lookup a nodes node e))
  ]

  Ends-Verdict :
      (r : Outcome Search)
      → IsKnown nodes
      → Ends nodes initial (λ t. All (λ n. IsBlack nodes n t) (keys nodes)) r
      → Verdict (r >>= λ _. done tt)
  Ends-Verdict (done t) known (a, all) = (known, All-black-IsAcyclic t a.inv all)
  Ends-Verdict (fails (cycle_error p)) known h = h
  Ends-Verdict (fails (unknown_dependency _ _)) known h = absurd h
  Ends-Verdict (fails cycle_detected) known h = h
  Ends-Verdict panics known h = h
  Ends-Verdict out_of_fuel known h = h

-- What Validate answers is true: on success every dependency is an agent and there is no cycle,
-- an unknown dependency is one, and a reported path is a closed walk along dependencies. Nor does
-- the method panic, or the fuel run out.
pub validate-Verdict : (g : DependencyGraph) → IsMap g.nodes → Verdict g.nodes (validate g)
unfolding validate
validate-Verdict g h = elim (Option-cases (find_unknown g.nodes g.nodes)) [
  | inl e ↦
      let known : IsKnown g.nodes =
        λ a d edge. find_unknown-none g.nodes g.nodes a d edge.0 e edge.1 edge.2 in
      rw (e, validate)
        (Ends-Verdict g.nodes _ known (
          unfold initial in
          roots-Ends g.nodes (suc (length g.nodes)) g.nodes (initial g.nodes) known
            (initial-Inv g.nodes) refl (λ n m. m)
            (omega (
              arith,
              whites-le (keys g.nodes) (initial g.nodes).colors,
              length-keys g.nodes g.nodes,
            ))))
  | inr ((a, d), e) ↦
      let (node, found, m, missing) = find_unknown-some g.nodes g.nodes a d h e in
      rw (e, validate)
        ((node, found, m), λ known. absurd (ground (arith, lookup-eq-some d g.nodes known)))
]

Verdict-iff :
    (nodes : Map Node) (r : Outcome Unit)
    → Verdict nodes r
    → (r ≡ done tt) ↔ (IsKnown nodes × IsAcyclic nodes)
Verdict-iff nodes (done tt) v = (λ _. v, λ _. refl)
Verdict-iff nodes (fails (unknown_dependency a d)) v =
    (λ e. cc, λ (known, _). absurd (v.1 (known a d v.0)))
Verdict-iff nodes (fails (cycle_error p)) v =
    (λ e. cc, λ (_, acyclic). absurd (cycle_not-IsAcyclic nodes p v acyclic))
Verdict-iff nodes (fails cycle_detected) v = absurd v
Verdict-iff nodes panics v = absurd v
Verdict-iff nodes out_of_fuel v = absurd v

-- Validate accepts exactly the graphs in which every dependency is an agent and no chain of
-- dependencies goes on for ever.
pub validate_iff :
    (g : DependencyGraph)
    → IsMap g.nodes
    → (validate g ≡ done tt) ↔ (IsKnown g.nodes × IsAcyclic g.nodes)
validate_iff g h = Verdict-iff g.nodes (validate g) (validate-Verdict g h)
