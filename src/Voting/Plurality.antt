-- ===== src/Voting/Plurality.antt =====
-- Which content MajorityVote selects, and what it counts.
use aixgo.Common.{
  ℕ, suc, ◌+◌, ◌≤◌, ◌≡◌, ◌↔◌, ◌⊎◌, inl, inr, refl, sym, ◌∙◌, subst, List, [], ◌∷◌, map, ◌∈◌, count,
  count-zero, some, String, string_discrete, ite, if_pos, if_neg, ltb, arith, Bool-cases,
  Option-cases, length,
}
use aixgo.Common.Maps.{Map, lookup, insert, keys, lookup-insert, mem_of_lookup}
use aixgo.Voting.{
  Floats, Strings, VotingInput, no_inputs, Outcome, refused, voted, value_at, normalize_content,
  Standing, consider, find_winner, tied_contents, Tally, count_input, count_inputs, pick_tied,
  break_tie, single_result, no_votes, no_winner, majority_of, majority_vote,
}

-- A content that stands, has votes, and has the most of those seen.
abbrev Fits : Map ℕ → List String → Standing → Type 0
Fits votes seen s =
    ((s.max_votes ≡ 0) ⊎ (value_at 0 s.winner votes ≡ s.max_votes))
    × ((k : String) → k ∈ seen → value_at 0 k votes ≤ s.max_votes)

value_at-insert :
    {V : Type 0} (d : V) (k j : String) (v : V) (m : Map V)
    → value_at d j (insert k v m) ≡ ite (string_discrete k j) v (value_at d j m)
unfolding value_at
value_at-insert d k j v m = ground (arith, lookup-insert k j v m)

pub value_at-some :
    {V : Type 0} (d : V) (k : String) (v : V) (m : Map V) → lookup k m ≡ some v → value_at d k m ≡ v
unfolding value_at
value_at-some d k v m h = ground arith

consider-best :
    (votes : Map ℕ) (c : String) (s : Standing)
    → ((s.max_votes ≡ 0) ⊎ (value_at 0 s.winner votes ≡ s.max_votes))
    → let s' = consider votes c s in
      ((s'.max_votes ≡ 0) ⊎ (value_at 0 s'.winner votes ≡ s'.max_votes))
      × (s.max_votes ≤ s'.max_votes)
      × (value_at 0 c votes ≤ s'.max_votes)
unfolding consider
consider-best votes c s h = ground arith

find_winner-best :
    (votes : Map ℕ) (cs : List String) (s : Standing)
    → ((s.max_votes ≡ 0) ⊎ (value_at 0 s.winner votes ≡ s.max_votes))
    → let s' = find_winner votes cs s in
      ((s'.max_votes ≡ 0) ⊎ (value_at 0 s'.winner votes ≡ s'.max_votes))
      × (s.max_votes ≤ s'.max_votes)
      × ((k : String) → k ∈ cs → value_at 0 k votes ≤ s'.max_votes)
unfolding find_winner
find_winner-best votes [] s h = (h, ground arith, λ k m. absurd m)
find_winner-best votes (c ∷ cs) s h =
    let one = consider-best votes c s h in
    let rest = find_winner-best votes cs (consider votes c s) one.0 in
    (
      rest.0,
      omega (arith, one.1, rest.1),
      λ k m. elim m [
        | inl e ↦
            subst (λ j. value_at 0 j votes ≤ (find_winner votes cs (consider votes c s)).max_votes)
              (sym e) (omega (arith, one.2, rest.1))
        | inr m' ↦ rest.2 k m'
      ],
    )

tied-most :
    (votes : Map ℕ) (most : ℕ) (cs : List String) (k : String)
    → k ∈ tied_contents votes most cs
    → value_at 0 k votes ≡ most
unfolding tied_contents
tied-most votes most [] k m = absurd m
tied-most votes most (c ∷ cs) k m = ground (arith, tied-most votes most cs k)

module _ (f : Floats) (g : Strings) where
  abbrev normal : VotingInput f → String
  normal input = normalize_content g input.content

  abbrev pub contents : List (VotingInput f) → List String
  contents inputs = map (λ input. input.content) inputs

  pick_tied-among :
      (P : String → Type 0) (t : Tally f g) (tied : List String) (best : f.F) (winner : String)
      → P winner
      → ((k : String) → k ∈ tied → P k)
      → P (pick_tied f g t tied best winner)
  unfolding pick_tied
  pick_tied-among P t [] best winner pw h = pw
  pick_tied-among P t (c ∷ tied) best winner pw h =
      let average = f.div (value_at f.zero_f c t.confidence_sum) (f.of_ℕ (value_at 0 c t.votes)) in
      elim (Bool-cases (f.less best average)) [
        | inl e ↦ rw e (pick_tied-among P t tied average c (h c (inl refl)) (λ k m. h k (inr m)))
        | inr e ↦ rw e (pick_tied-among P t tied best winner pw (λ k m. h k (inr m)))
      ]

  break_tie-most :
      (t : Tally f g) (cs : List String) (s : Standing)
      → value_at 0 s.winner t.votes ≡ s.max_votes
      → value_at 0 (break_tie f g t cs s) t.votes ≡ s.max_votes
  unfolding break_tie
  break_tie-most t cs s h = elim (Bool-cases (ltb 1 s.tie_count)) [
    | inl e ↦ rw e (
        pick_tied-among (λ k. value_at 0 k t.votes ≡ s.max_votes) t
          (tied_contents t.votes s.max_votes cs) f.zero_f s.winner h
          (tied-most t.votes s.max_votes cs))
    | inr e ↦ rw e h
  ]

  -- Every count of a vote is the number of its inputs.
  count_inputs-votes :
      (inputs : List (VotingInput f)) (t : Tally f g) (k : String)
      → value_at 0 k (count_inputs f g inputs t).votes
        ≡ value_at 0 k t.votes + count k (map normal inputs)
  unfolding count_inputs count_input count
  count_inputs-votes [] t k = omega arith
  count_inputs-votes (x ∷ xs) t k =
      let step = value_at-insert 0 (normal x) k (suc (value_at 0 (normal x) t.votes)) t.votes in
      let rest = count_inputs-votes xs (count_input f g x t) k in ground (arith, step, rest)

  counted :
      (inputs : List (VotingInput f)) (k : String)
      → value_at 0 k (count_inputs f g inputs (no_votes f g)).votes ≡ count k (map normal inputs)
  unfolding value_at lookup
  counted inputs k = let h = count_inputs-votes inputs (no_votes f g) k in ground (arith, h)

  -- A name that some input normalizes to keeps the content of such an input.
  count_inputs-content :
      (inputs : List (VotingInput f)) (t : Tally f g) (k : String)
      → ((c : String) × (c ∈ contents inputs)
          × (normalize_content g c ≡ k)
          × (lookup k (count_inputs f g inputs t).content_map ≡ some c))
        ⊎ ((¬ (k ∈ map normal inputs))
            × (lookup k (count_inputs f g inputs t).content_map ≡ lookup k t.content_map))
  unfolding count_inputs count_input
  count_inputs-content [] t k = inr (λ m. m, refl)
  count_inputs-content (x ∷ xs) t k =
      let step = lookup-insert (normal x) k x.content t.content_map in
      elim (count_inputs-content xs (count_input f g x t) k) [
        | inl (c, m, e, h) ↦ inl (c, inr m, e, h)
        | inr (n, h) ↦ elim (string_discrete (normal x) k) [
          | yes e ↦ inl (
            x.content,
            inl refl,
            e,
            h
                ∙ step
                ∙ if_pos (string_discrete (normal x) k) e (some x.content) (lookup k t.content_map),
          )
          | no d ↦ inr (
            λ m. elim m [ inl e ↦ d (sym e) | inr m' ↦ n m' ],
            h
                ∙ step
                ∙ if_neg (string_discrete (normal x) k) d (some x.content) (lookup k t.content_map),
          )
        ]
      ]

  -- The content of an input, such that no content stands for more inputs than it does.
  abbrev pub IsMost : List (VotingInput f) → String → Type 0
  IsMost inputs selected =
      (selected ∈ contents inputs)
      × ((k : String)
          → count k (map normal inputs) ≤ count (normalize_content g selected) (map normal inputs))

  abbrev pub IsMajority : List (VotingInput f) → Outcome f → Type 0
  IsMajority inputs (refused e) = (e ≡ no_inputs) × (inputs ≡ [])
  IsMajority inputs (voted r) =
      IsMost inputs r.selected_content
      × ((length inputs ≡ 1) ⊎ ((k : String) → value_at 0 k r.votes ≡ count k (map normal inputs)))

  chosen-IsMost :
      (inputs : List (VotingInput f)) (winner : String)
      → ((k : String) → count k (map normal inputs) ≤ count winner (map normal inputs))
      → 1 ≤ count winner (map normal inputs)
      → IsMost inputs (value_at "" winner (count_inputs f g inputs (no_votes f g)).content_map)
  chosen-IsMost inputs winner most some_vote =
      elim (count_inputs-content inputs (no_votes f g) winner) [
        | inl (c, m, e, h) ↦ rw (value_at-some "" winner c _ h) (m, rw e most)
        | inr (n, h) ↦ absurd (let z = count-zero winner (map normal inputs) n in omega (arith, z))
      ]

  vote_of_first :
      (x : VotingInput f) (xs : List (VotingInput f)) → 1 ≤ count (normal x) (map normal (x ∷ xs))
  unfolding count
  vote_of_first x xs = ground arith

  counts_at_most :
      (x : VotingInput f) (k : String) → count k (normal x ∷ []) ≤ count (normal x) (normal x ∷ [])
  unfolding count
  counts_at_most x k = ground arith

  module _ (visit : ℕ → Map ℕ → List String)
      (visits : (n : ℕ) (m : Map ℕ) (k : String) → (k ∈ visit n m) ↔ (k ∈ keys m)) where
    first_standing : List (VotingInput f) → Standing
    first_standing inputs =
        let t = count_inputs f g inputs (no_votes f g) in
        find_winner t.votes (visit 0 t.votes) (no_winner f g)

    first_standing-highest :
        (inputs : List (VotingInput f)) (k : String)
        → count k (map normal inputs) ≤ (first_standing inputs).max_votes
    unfolding first_standing value_at
    first_standing-highest inputs k =
        let votes = (count_inputs f g inputs (no_votes f g)).votes in
        let best = find_winner-best votes (visit 0 votes) (no_winner f g) (inl refl) in
        let total = counted inputs k in
        elim (Option-cases (lookup k votes)) [
          | inl e ↦ ground (arith, total, e)
          | inr (v, e) ↦
              let seen = best.2 k ((visits 0 votes k).1 (mem_of_lookup k votes v e)) in
              omega (arith, total, seen)
        ]

    majority_of-IsMost :
        (x : VotingInput f) (xs : List (VotingInput f))
        → IsMost (x ∷ xs) (majority_of f g visit (x ∷ xs)).selected_content
    unfolding majority_of first_standing
    majority_of-IsMost x xs =
        let inputs = x ∷ xs in
        let t = count_inputs f g inputs (no_votes f g) in
        let s = find_winner t.votes (visit 0 t.votes) (no_winner f g) in
        let best = find_winner-best t.votes (visit 0 t.votes) (no_winner f g) (inl refl) in
        let winner = break_tie f g t (visit 1 t.votes) s in
        let some_vote : 1 ≤ count (normal x) (map normal inputs) = vote_of_first x xs in
        let enough = first_standing-highest inputs (normal x) in
        let chosen : value_at 0 winner t.votes ≡ s.max_votes =
          break_tie-most t (visit 1 t.votes) s
            (elim best.0 [ inl e ↦ absurd (omega (arith, e, some_vote, enough)) | inr e ↦ e ]) in
        let total = counted inputs winner in
        chosen-IsMost inputs winner
          (λ k. let high = first_standing-highest inputs k in omega (arith, high, chosen, total))
          (omega (arith, some_vote, enough, chosen, total))

  -- For every list of inputs and every order in which the map of votes is visited, MajorityVote
  -- refuses only an empty list; any other gives the content of an input such that no normalized
  -- content has more inputs than its own, also after a tie, and with two or more inputs the vote
  -- of each normalized content is the number of its inputs.
  pub majority_vote-IsMajority :
      (visit : ℕ → Map ℕ → List String)
      (visits : (n : ℕ) (m : Map ℕ) (k : String) → (k ∈ visit n m) ↔ (k ∈ keys m))
      (inputs : List (VotingInput f))
      → IsMajority inputs (majority_vote f g visit inputs)
  unfolding majority_vote single_result majority_of
  majority_vote-IsMajority visit visits [] = (refl, refl)
  majority_vote-IsMajority visit visits (x ∷ []) = ((inl refl, counts_at_most x), inl refl)
  majority_vote-IsMajority visit visits (x ∷ y ∷ xs) =
      (majority_of-IsMost visit visits x (y ∷ xs), inr (counted (x ∷ y ∷ xs)))
