-- ===== src/Graph/Validate/Dfs.antt =====
-- What one call of the depth-first search achieves: it blackens its node or finds a true cycle.
use mathlib.Core.WellFounded.{Acc}
use aixgo.Common.{
  ℕ, zero, suc, ◌<◌, ◌≡◌, inl, inr, List, [], ◌∷◌, ◌++◌, some, String, ite, string_discrete, arith,
  ◌∈◌, All, All-mem, sym, ◌∙◌, subst, refl, ∈-append_left, ∈-append_right, ap,
}
use aixgo.Common.Maps.{Map, insert, lookup, keys, lookup-eq-some}
use aixgo.Graph.{Node}
use aixgo.Graph.Outcome.{
  Outcome, done, fails, panics, out_of_fuel, cycle_error, unknown_dependency, cycle_detected, ◌>>=◌,
}
use aixgo.Graph.Relation.{Edge, IsKnown, IsGrounded, IsWalk, IsCycle, IsWalk-snoc, IsWalk-tail}
use aixgo.Graph.Validate.{
  Color, white, gray, black, get_color, Search, suffix_from, drop_last, found_gray, enter, leave,
  each, visit, dfs,
}
use aixgo.Graph.Validate.Colors.{get_color-insert, whites, whites_mono, whites-insert_gray}

drop_last-snoc : (xs : List String) (x : String) → drop_last (xs ++ x ∷ []) ≡ xs
unfolding drop_last
drop_last-snoc [] x = refl
drop_last-snoc (y ∷ []) x = refl
drop_last-snoc (y ∷ z ∷ xs) x = ap (◌∷◌ y) (drop_last-snoc (z ∷ xs) x)

module _ (nodes : Map Node) where
  pub record Inv (s : Search) : Type 0 where
    pub grounded : (n : String) → get_color s.colors n ≡ black → IsGrounded nodes n
    pub stacked : (n : String) → get_color s.colors n ≡ gray → n ∈ s.stack

  -- What a successful search leaves of the state before it.
  pub record After (s s' : Search) : Type 0 where
    pub inv : Inv s'
    pub same_stack : s'.stack ≡ s.stack
    pub keeps_black : (n : String) → get_color s.colors n ≡ black → get_color s'.colors n ≡ black
    pub no_gray : (n : String) → get_color s'.colors n ≡ gray → get_color s.colors n ≡ gray
    pub no_white : (n : String) → get_color s'.colors n ≡ white → get_color s.colors n ≡ white

  pub After-refl : (s : Search) → Inv s → After s s
  After-refl s i = record {
    inv = i;
    same_stack = refl;
    keeps_black = λ n h. h;
    no_gray = λ n h. h;
    no_white = λ n h. h;
  }

  After-trans : (s t u : Search) → After s t → After t u → After s u
  After-trans s t u a b = record {
    inv = b.inv;
    same_stack = b.same_stack ∙ a.same_stack;
    keeps_black = λ n h. b.keeps_black n (a.keeps_black n h);
    no_gray = λ n h. a.no_gray n (b.no_gray n h);
    no_white = λ n h. a.no_white n (b.no_white n h);
  }

  -- A search from `s` ends well: with `Q`, or with a true cycle; never by a panic or without fuel.
  abbrev pub Ends : Search → (Search → Type 0) → Outcome Search → Type 0
  Ends s Q (done s') = After s s' × Q s'
  Ends s Q (fails (cycle_error p)) = IsCycle nodes p
  Ends s Q (fails (unknown_dependency _ _)) = ⊥
  Ends s Q (fails cycle_detected) = ⊥
  Ends s Q panics = ⊥
  Ends s Q out_of_fuel = ⊥

  pub Ends-widen :
      (s t : Search) (Q : Search → Type 0) (r : Outcome Search)
      → After s t
      → Ends t Q r
      → Ends s Q r
  Ends-widen s t Q (done u) a (b, q) = (After-trans s t u a b, q)
  Ends-widen s t Q (fails (cycle_error p)) a e = e
  Ends-widen s t Q (fails (unknown_dependency _ _)) a e = e
  Ends-widen s t Q (fails cycle_detected) a e = e
  Ends-widen s t Q panics a e = e
  Ends-widen s t Q out_of_fuel a e = e

  pub Ends-bind :
      (s : Search) (P Q : Search → Type 0) (r : Outcome Search) (f : Search → Outcome Search)
      → Ends s P r
      → ((t : Search) → After s t → P t → Ends t Q (f t))
      → Ends s Q (r >>= f)
  Ends-bind s P Q (done t) f (a, p) h = Ends-widen s t Q (f t) a (h t a p)
  Ends-bind s P Q (fails (cycle_error p)) f e h = e
  Ends-bind s P Q (fails (unknown_dependency _ _)) f e h = e
  Ends-bind s P Q (fails cycle_detected) f e h = e
  Ends-bind s P Q panics f e h = e
  Ends-bind s P Q out_of_fuel f e h = e

  pub Ends-map :
      (s : Search) (P Q : Search → Type 0) (r : Outcome Search)
      → Ends s P r
      → ((t : Search) → After s t → P t → Q t)
      → Ends s Q r
  Ends-map s P Q (done t) (a, p) h = (a, h t a p)
  Ends-map s P Q (fails (cycle_error p)) e h = e
  Ends-map s P Q (fails (unknown_dependency _ _)) e h = e
  Ends-map s P Q (fails cycle_detected) e h = e
  Ends-map s P Q panics e h = e
  Ends-map s P Q out_of_fuel e h = e

  -- The part of the stack from a gray agent on, and that agent again, are a cycle.
  suffix_from-cycle :
      (name : String) (stack : List String)
      → IsWalk nodes (stack ++ name ∷ [])
      → name ∈ stack
      → (rest : List String) × (suffix_from name stack ≡ some (name ∷ rest))
        × IsWalk nodes (name ∷ (rest ++ name ∷ []))
  unfolding suffix_from
  suffix_from-cycle name [] w m = absurd m
  suffix_from-cycle name (x ∷ stack) w m = elim (string_discrete x name) [
    | yes e ↦ (stack, ground arith, subst (λ y. IsWalk nodes (y ∷ (stack ++ name ∷ []))) e w)
    | no n ↦
        let (rest, e, c) =
          suffix_from-cycle name stack (IsWalk-tail nodes x (stack ++ name ∷ []) w)
            (ground arith) in
        (rest, ground arith, c)
  ]

  found_gray-Ends :
      (s : Search) (Q : Search → Type 0) (name : String)
      → IsWalk nodes (s.stack ++ name ∷ [])
      → name ∈ s.stack
      → Ends s Q (found_gray name s.stack)
  unfolding found_gray
  found_gray-Ends s Q name w m =
      let (rest, e, c) = suffix_from-cycle name s.stack w m in
      rw (e, found_gray) (name, rest, refl, c)

  -- What a call of `dfs` needs: the state is sound, the stack leads to the name, and the fuel is
  -- above the number of white agents.
  pub record Ready (fuel : ℕ) (name : String) (s : Search) : Type 0 where
    pub inv : Inv s
    pub walk : IsWalk nodes (s.stack ++ name ∷ [])
    pub known : name ∈ keys nodes
    pub enough : whites (keys nodes) s.colors < fuel

  abbrev pub IsBlack : String → Search → Type 0
  IsBlack name s = get_color s.colors name ≡ black

  enter-Inv : (name : String) (s : Search) → Inv s → Inv (enter name s)
  unfolding enter
  enter-Inv name s i = record {
    grounded = λ n h. i.grounded n (ground (arith, get_color-insert name n gray s.colors));
    stacked = λ n h. elim (string_discrete name n) [
      | yes e ↦ ∈-append_right n s.stack (name ∷ []) (inl (sym e))
      | no d ↦
          ∈-append_left n s.stack (name ∷ [])
            (i.stacked n (ground (arith, get_color-insert name n gray s.colors)))
    ];
  }

  -- Each dependency in turn: all are black at the end.
  each-Ends :
      (fuel : ℕ) (go : String → Search → Outcome Search)
      → ((d : String) (s : Search) → Ready fuel d s → Ends s (IsBlack d) (go d s))
      → (ds : List String) (s : Search) → Inv s
      → whites (keys nodes) s.colors < fuel
      → All (λ d. IsWalk nodes (s.stack ++ d ∷ []) × (d ∈ keys nodes)) ds
      → Ends s (λ t. All (λ d. IsBlack d t) ds) (each go ds s)
  unfolding each
  each-Ends fuel go spec [] s i enough ready = (After-refl s i, tt)
  each-Ends fuel go spec (d ∷ ds) s i enough ready =
      Ends-bind s (IsBlack d) _ (go d s) (each go ds)
        (spec d s (record { inv = i; walk = ready.0.0; known = ready.0.1; enough = enough }))
        λ t a b.
          Ends-map t (λ u. All (λ c. IsBlack c u) ds) _ (each go ds t)
            (each-Ends fuel go spec ds t a.inv
              (omega (arith, whites_mono (keys nodes) s.colors t.colors a.no_white))
              (subst (λ stack. All (λ c. IsWalk nodes (stack ++ c ∷ []) × (c ∈ keys nodes)) ds)
                (sym a.same_stack) ready.1))
            λ u a' all. (a'.keeps_black d b, all)

  -- A node whose dependencies are all black turns black, and is grounded.
  leave-After :
      (name : String) (node : Node) (s t : Search)
      → lookup name nodes ≡ some node
      → get_color s.colors name ≡ white
      → Inv s
      → After (enter name s) t
      → All (λ d. IsBlack d t) node.dependencies
      → After s (leave name t) × IsBlack name (leave name t)
  unfolding leave enter
  leave-After name node s t e w i a all = (
    record {
      inv = record { grounded = grounded; stacked = stacked };
      same_stack = ap drop_last a.same_stack ∙ drop_last-snoc s.stack name;
      keeps_black = λ n h. keeps n h;
      no_gray = no_gray;
      no_white = no_white;
    },
    ground (arith, get_color-insert name name black t.colors),
  )
    where
      here :
          (n : String)
          → get_color (insert name black t.colors) n
            ≡ ite (string_discrete name n) black (get_color t.colors n)
      here n = get_color-insert name n black t.colors

      there :
          (n : String)
          → get_color (insert name gray s.colors) n
            ≡ ite (string_discrete name n) gray (get_color s.colors n)
      there n = get_color-insert name n gray s.colors

      keeps :
          (n : String)
          → get_color s.colors n ≡ black
          → get_color (insert name black t.colors) n ≡ black
      keeps n h = ground (arith, here n, there n, a.keeps_black n)

      no_gray :
          (n : String)
          → get_color (insert name black t.colors) n ≡ gray
          → get_color s.colors n ≡ gray
      no_gray n h = ground (arith, here n, there n, a.no_gray n)

      no_white :
          (n : String)
          → get_color (insert name black t.colors) n ≡ white
          → get_color s.colors n ≡ white
      no_white n h = ground (arith, here n, there n, a.no_white n)

      self : IsGrounded nodes name
      self = Acc.intro name λ d edge.
          a.inv.grounded d (All-mem (λ c. IsBlack c t) node.dependencies d all (ground arith))

      grounded :
          (n : String) → get_color (insert name black t.colors) n ≡ black → IsGrounded nodes n
      grounded n h = elim (string_discrete name n) [
        | yes q ↦ subst (IsGrounded nodes) q self
        | no q ↦ a.inv.grounded n (ground (arith, here n))
      ]

      stacked :
          (n : String) → get_color (insert name black t.colors) n ≡ gray → n ∈ drop_last t.stack
      stacked n h = rw (a.same_stack, drop_last-snoc s.stack name) (i.stacked n (no_gray n h))

  dependency-Ready :
      (name : String) (node : Node) (s : Search) (ds : List String)
      → IsKnown nodes
      → lookup name nodes ≡ some node
      → IsWalk nodes (s.stack ++ name ∷ [])
      → ((d : String) → d ∈ ds → d ∈ node.dependencies)
      → All (λ d. IsWalk nodes ((s.stack ++ name ∷ []) ++ d ∷ []) × (d ∈ keys nodes)) ds
  dependency-Ready name node s [] known e w sub = tt
  dependency-Ready name node s (d ∷ ds) known e w sub =
      let edge : Edge nodes name d = (node, e, sub d (inl refl)) in
      (
        (IsWalk-snoc nodes s.stack name d w edge, known name d edge),
        dependency-Ready name node s ds known e w (λ c m. sub c (inr m)),
      )

  visit-Ends :
      (fuel : ℕ) (go : String → Search → Outcome Search)
      → IsKnown nodes
      → ((d : String) (s : Search) → Ready fuel d s → Ends s (IsBlack d) (go d s))
      → (name : String) (s : Search) (c : Color) → get_color s.colors name ≡ c
      → Ready (suc fuel) name s
      → Ends s (IsBlack name) (visit go nodes name c s)
  unfolding visit
  visit-Ends fuel go known spec name s gray e r =
      found_gray-Ends s (IsBlack name) name r.walk (r.inv.stacked name e)
  visit-Ends fuel go known spec name s black e r = (After-refl s r.inv, e)
  visit-Ends fuel go known spec name s white e r =
      let (node, found) = lookup-eq-some name nodes r.known in
      rw (found, visit)
        (finish node found (
          each-Ends fuel go spec node.dependencies (enter name s) (enter-Inv name s r.inv)
            (omega (arith, r.enough, whites-insert_gray name (keys nodes) s.colors e r.known))
            (dependency-Ready name node s node.dependencies known found r.walk (λ d m. m))))
    where
      finish :
          (node : Node)
          → lookup name nodes ≡ some node
          → Ends
              (enter name s)
              (λ t. All (λ d. IsBlack d t) node.dependencies)
              (each go node.dependencies (enter name s))
          → Ends s
              (IsBlack name)
              (each go node.dependencies (enter name s) >>= λ t. done (leave name t))
      finish node found h = close (each go node.dependencies (enter name s)) h
        where
          close :
              (x : Outcome Search)
              → Ends (enter name s) (λ t. All (λ d. IsBlack d t) node.dependencies) x
              → Ends s (IsBlack name) (x >>= λ t. done (leave name t))
          close (done t) (a, all) = leave-After name node s t found e r.inv a all
          close (fails (cycle_error p)) q = q
          close (fails (unknown_dependency _ _)) q = q
          close (fails cycle_detected) q = q
          close panics q = q
          close out_of_fuel q = q

  -- With more fuel than there are white agents, `dfs` blackens its agent or finds a true cycle.
  pub dfs-Ends :
      (fuel : ℕ) (known : IsKnown nodes) (name : String) (s : Search)
      → Ready fuel name s
      → Ends s (IsBlack name) (dfs fuel nodes name s)
  unfolding dfs
  dfs-Ends zero known name s r = absurd (omega (arith, r.enough))
  dfs-Ends (suc fuel) known name s r =
      visit-Ends fuel (dfs fuel nodes) known (dfs-Ends fuel known) name s (get_color s.colors name)
        refl r
