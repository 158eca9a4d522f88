-- ===== src/Voting/Weighted/Heaviest.antt =====
-- Which content WeightedVote selects.
use aixgo.Common.{
  ℕ, ◌≡◌, ◌↔◌, ◌⊎◌, inl, inr, refl, sym, List, [], ◌∷◌, ◌∈◌, String, true, false, Bool-cases, ltb,
  some, none, arith, ap, map, ◌∙◌, if_pos, if_neg, string_discrete,
}
use aixgo.Common.Maps.{Map, lookup, keys, lookup-insert}
use aixgo.Common.Sort.{sort_strings, mem-sort_strings}
use aixgo.Voting.{Floats, Strings, VotingInput, value_at, normalize_content}
use aixgo.Voting.Plurality.{value_at-some}
use aixgo.Voting.Confidence.Highest.{Ordered, irreflexive}
use aixgo.Voting.Weighted.{
  Leader, no_leader, consider_score, find_leader, tied_scores, first_text, settle_tie, Weights,
  no_weights, weigh_input, weigh_inputs, weight_of, weighted_of,
}

value_at-none :
    {V : Type 0} (d : V) (k : String) (m : Map V) → lookup k m ≡ none → value_at d k m ≡ d
unfolding value_at
value_at-none d k m h = ground arith

module _ (f : Floats) (ordered : Ordered f) where
  -- No content seen has a higher score than the leader's, and the winner has that score, unless all
  -- scores seen are 0 or less.
  abbrev Leads : Map f.F → (String → Type 0) → Leader f → Type 0
  Leads scores Seen l =
      ((l.max_score ≡ f.zero_f) ⊎ (value_at f.zero_f l.winner scores ≡ l.max_score))
      × ((k : String) → Seen k → f.less l.max_score (value_at f.zero_f k scores) ≡ false)

  consider_score-Leads :
      (scores : Map f.F) (Seen : String → Type 0) (c : String) (l : Leader f)
      → Leads scores Seen l
      → Leads scores (λ k. (k ≡ c) ⊎ Seen k) (consider_score f scores c l)
  unfolding consider_score
  consider_score-Leads scores Seen c l (top, below) =
      let score = value_at f.zero_f c scores in
      elim (Bool-cases (f.less l.max_score score)) [
        | inl e ↦ rw e (
          inr refl,
          λ k h. elim h [
            | inl s ↦ rw s (irreflexive f ordered score)
            | inr s ↦ ordered.not_less_trans score l.max_score _ (ordered.one_way _ _ e) (below k s)
          ],
        )
        | inr e ↦
            let below' : (k : String)
                → (k ≡ c) ⊎ Seen k
                → f.less l.max_score (value_at f.zero_f k scores) ≡ false =
              λ k h. elim h [ inl s ↦ rw s e | inr s ↦ below k s ] in
            elim (Bool-cases (f.same score l.max_score)) [
              | inl s ↦ rw (e, s) (top, below')
              | inr s ↦ rw (e, s) (top, below')
            ]
      ]

  find_leader-Leads :
      (scores : Map f.F) (Seen : String → Type 0) (cs : List String) (l : Leader f)
      → Leads scores Seen l
      → Leads scores (λ k. (k ∈ cs) ⊎ Seen k) (find_leader f scores cs l)
  unfolding find_leader
  find_leader-Leads scores Seen [] l (top, below) =
      (top, λ k h. elim h [ inl m ↦ absurd m | inr s ↦ below k s ])
  find_leader-Leads scores Seen (c ∷ cs) l h =
      let (top, below) =
        find_leader-Leads scores (λ k. (k ≡ c) ⊎ Seen k) cs (consider_score f scores c l)
          (consider_score-Leads scores Seen c l h) in
      (
        top,
        λ k h'.
            below k
              (elim h' [ inl (inl e) ↦ inr (inl e) | inl (inr m) ↦ inl m | inr s ↦ inr (inr s) ]),
      )

  tied_scores-same :
      (scores : Map f.F) (most : f.F) (cs : List String) (k : String)
      → k ∈ tied_scores f scores most cs
      → f.less (value_at f.zero_f k scores) most ≡ false
  unfolding tied_scores
  tied_scores-same scores most [] k m = absurd m
  tied_scores-same scores most (c ∷ cs) k m =
      elim (Bool-cases (f.same (value_at f.zero_f c scores) most)) [
        | inl e ↦ ground (arith, ordered.same_not_less _ _ e, tied_scores-same scores most cs k)
        | inr e ↦ ground (arith, tied_scores-same scores most cs k)
      ]

  first_text-among :
      (P : String → Type 0) (s : String) (ts : List String)
      → P s
      → ((t : String) → t ∈ ts → P t)
      → P (first_text f s ts)
  unfolding first_text
  first_text-among P s [] ps h = ps
  first_text-among P s (t ∷ ts) ps h = h t (inl refl)

  settle_tie-top :
      (scores : Map f.F) (cs : List String) (l : Leader f)
      → value_at f.zero_f l.winner scores ≡ l.max_score
      → f.less (value_at f.zero_f (settle_tie f scores cs l) scores) l.max_score ≡ false
  unfolding settle_tie
  settle_tie-top scores cs l top =
      let Top : String → Type 0 = λ k. f.less (value_at f.zero_f k scores) l.max_score ≡ false in
      let won : Top l.winner = rw top (irreflexive f ordered l.max_score) in
      elim (Bool-cases (ltb 1 l.tie_count)) [
        | inl e ↦ rw e (
            first_text-among Top l.winner (sort_strings (tied_scores f scores l.max_score cs)) won
              (λ t m. tied_scores-same scores l.max_score cs t ((mem-sort_strings t _).0 m)))
        | inr e ↦ rw e won
      ]

  module _ (g : Strings) where
    abbrev contents : List (VotingInput f) → List String
    contents inputs = map (λ input. input.content) inputs

    weigh_inputs-found :
        (inputs : List (VotingInput f)) (w : Weights f) (k : String)
        → let w' = weigh_inputs f g inputs w in
          ((c : String) × (c ∈ contents inputs)
            × (normalize_content g c ≡ k)
            × (lookup k w'.content_map ≡ some c))
          ⊎ (lookup k w'.content_map ≡ lookup k w.content_map)
    unfolding weigh_inputs weigh_input
    weigh_inputs-found [] w k = inr refl
    weigh_inputs-found (x ∷ xs) w k =
        let n = normalize_content g x.content in
        let step = lookup-insert n k x.content w.content_map in
        elim (weigh_inputs-found xs (weigh_input f g x w) k) [
          | inl (c, m, e, h) ↦ inl (c, inr m, e, h)
          | inr h ↦ elim (string_discrete n k) [
            | yes e ↦ inl (
              x.content,
              inl refl,
              e,
              h ∙ step ∙ if_pos (string_discrete n k) e (some x.content) (lookup k w.content_map),
            )
            | no d ↦ inr (
                h ∙ step ∙ if_neg (string_discrete n k) d (some x.content) (lookup k w.content_map))
          ]
        ]

    weigh_inputs-content :
        (inputs : List (VotingInput f)) (w : Weights f) (k : String)
        → let w' = weigh_inputs f g inputs w in
          ((c : String) × (c ∈ contents inputs)
            × (normalize_content g c ≡ k)
            × (lookup k w'.content_map ≡ some c))
          ⊎ (lookup k w'.weighted_scores ≡ lookup k w.weighted_scores)
    unfolding weigh_inputs weigh_input
    weigh_inputs-content [] w k = inr refl
    weigh_inputs-content (x ∷ xs) w k =
        let n = normalize_content g x.content in
        let step = lookup-insert n k x.content w.content_map in
        let sum = f.add (value_at f.zero_f n w.weighted_scores) (weight_of f x) in
        let scored = lookup-insert n k sum w.weighted_scores in
        elim (string_discrete n k) [
          | yes e ↦ elim (weigh_inputs-found xs (weigh_input f g x w) k) [
            | inl (c, m, e', h) ↦ inl (c, inr m, e', h)
            | inr h ↦ inl (
              x.content,
              inl refl,
              e,
              h ∙ step ∙ if_pos (string_discrete n k) e (some x.content) (lookup k w.content_map),
            )
          ]
          | no d ↦ elim (weigh_inputs-content xs (weigh_input f g x w) k) [
            | inl (c, m, e', h) ↦ inl (c, inr m, e', h)
            | inr h ↦ inr (
                h ∙ scored ∙ if_neg (string_discrete n k) d (some sum) (lookup k w.weighted_scores))
          ]
        ]

    -- The score of a normalized content.
    abbrev pub score_of : List (VotingInput f) → String → f.F
    score_of inputs k = value_at f.zero_f k (weigh_inputs f g inputs (no_weights f)).weighted_scores

    abbrev pub IsHeaviest : List (VotingInput f) → String → Type 0
    IsHeaviest inputs selected =
        (selected ∈ contents inputs)
        × ((k : String)
            → k ∈ keys (weigh_inputs f g inputs (no_weights f)).weighted_scores
            → f.less (score_of inputs (normalize_content g selected)) (score_of inputs k) ≡ false)

    chosen-IsHeaviest :
        (inputs : List (VotingInput f)) (winner k : String)
        → f.less f.zero_f (score_of inputs k) ≡ true
        → f.less (score_of inputs winner) (score_of inputs k) ≡ false
        → ((j : String)
            → j ∈ keys (weigh_inputs f g inputs (no_weights f)).weighted_scores
            → f.less (score_of inputs winner) (score_of inputs j) ≡ false)
        → IsHeaviest inputs
            (value_at "" winner (weigh_inputs f g inputs (no_weights f)).content_map)
    unfolding lookup
    chosen-IsHeaviest inputs winner k positive high all =
        elim (weigh_inputs-content inputs (no_weights f) winner) [
          | inl (c, m, e, h) ↦ rw (value_at-some "" winner c _ h) (m, rw e all)
          | inr h ↦ absurd (
              let missing : score_of inputs winner ≡ f.zero_f = value_at-none f.zero_f winner _ h in
              let low : f.less f.zero_f (score_of inputs k) ≡ false =
                ap (λ z. f.less z (score_of inputs k)) (sym missing) ∙ high in
              cc)
        ]

    -- For scores that compare like numbers, where a content that is visited has a score above 0,
    -- WeightedVote with two or more inputs gives the content of an input whose normalized content
    -- has a score that no other exceeds, in whatever order the map of scores is visited.
    pub weighted_of-IsHeaviest :
        (visit : ℕ → Map f.F → List String)
        (visits : (n : ℕ) (m : Map f.F) (k : String) → (k ∈ visit n m) ↔ (k ∈ keys m))
        (inputs : List (VotingInput f)) (k : String)
        → k ∈ keys (weigh_inputs f g inputs (no_weights f)).weighted_scores
        → f.less f.zero_f (score_of inputs k) ≡ true
        → IsHeaviest inputs (weighted_of f g visit inputs).selected_content
    unfolding weighted_of
    weighted_of-IsHeaviest visit visits inputs k here positive =
        let scores = (weigh_inputs f g inputs (no_weights f)).weighted_scores in
        let l = find_leader f scores (visit 0 scores) (no_leader f) in
        let (top, below) =
          find_leader-Leads scores (λ j. ⊥) (visit 0 scores) (no_leader f)
            (inl refl, λ j h. absurd h) in
        let seen : (j : String) → j ∈ keys scores → f.less l.max_score (score_of inputs j) ≡ false =
          λ j m. below j (inl ((visits 0 scores j).1 m)) in
        let score : value_at f.zero_f l.winner scores ≡ l.max_score = elim top [
          | inl e ↦ absurd (
              let low : f.less f.zero_f (score_of inputs k) ≡ false =
                ap (λ z. f.less z (score_of inputs k)) (sym e) ∙ seen k here in
              cc)
          | inr e ↦ e
        ] in
        let winner = settle_tie f scores (visit 1 scores) l in
        let high : (j : String)
            → j ∈ keys scores
            → f.less (score_of inputs winner) (score_of inputs j) ≡ false =
          λ j m.
            ordered.not_less_trans _ _ _ (settle_tie-top scores (visit 1 scores) l score)
              (seen j m) in
        chosen-IsHeaviest inputs winner k positive (high k here) high
