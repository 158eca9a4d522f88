-- ===== src/Voting/Confidence/Highest.antt =====
-- Which input ConfidenceVote selects.
use aixgo.Common.{
  ◌≡◌, ◌↔◌, ◌⊎◌, inl, inr, refl, List, [], ◌∷◌, ◌∈◌, All, All-mem, All-append, ∈-append_left, some,
  true, false, Bool-cases, ltb,
}
use aixgo.Voting.{Floats, Strings, VotingInput, Outcome, refused, voted, no_inputs, single_result}
use aixgo.Voting.Confidence.{
  confidence_of, Best, no_best, consider_input, find_best, chosen_input, first_input,
  confidence_vote,
}

-- Confidences compare like numbers, as all floats but NaN do.
pub record Ordered (f : Floats) : Type 0 where
  pub one_way : (x y : f.F) → f.less x y ≡ true → f.less y x ≡ false
  pub not_less_trans : (x y z : f.F) → f.less x y ≡ false → f.less y z ≡ false → f.less x z ≡ false
  pub same_not_less : (x y : f.F) → f.same x y ≡ true → f.less x y ≡ false

module _ (f : Floats) where
  abbrev pub IsHighest : List (VotingInput f) → Outcome f → Type 0
  IsHighest all (refused e) = (e ≡ no_inputs) × (all ≡ [])
  IsHighest all (voted r) =
      (i : VotingInput f) × (i ∈ all)
      × (r.selected_content ≡ i.content)
      × ((j : VotingInput f) → j ∈ all → f.less (confidence_of f i) (confidence_of f j) ≡ false)

module _ (f : Floats) (ordered : Ordered f) where
  -- One of the inputs, as confident as `m` or more.
  abbrev Holds : List (VotingInput f) → f.F → VotingInput f → Type 0
  Holds all m i = (i ∈ all) × (f.less (confidence_of f i) m ≡ false)

  -- There is a best input among the tied ones, and no input seen is more confident.
  abbrev Leads : List (VotingInput f) → (VotingInput f → Type 0) → Best f → Type 0
  Leads all Seen b =
      ((i : VotingInput f) × (b.best_input ≡ some i) × (i ∈ b.tied))
      × All (Holds all b.max_confidence) b.tied
      × ((j : VotingInput f) → Seen j → f.less b.max_confidence (confidence_of f j) ≡ false)

  pub irreflexive : (x : f.F) → f.less x x ≡ false
  irreflexive x = elim (Bool-cases (f.less x x)) [ inl e ↦ ordered.one_way x x e | inr e ↦ e ]

  consider_input-Leads :
      (all : List (VotingInput f)) (Seen : VotingInput f → Type 0) (x : VotingInput f) (b : Best f)
      → x ∈ all
      → Leads all Seen b
      → Leads all (λ j. (j ≡ x) ⊎ Seen j) (consider_input f x b)
  unfolding consider_input
  consider_input-Leads all Seen x b m (lead, tied, below) =
      let c = confidence_of f x in
      elim (Bool-cases (f.less b.max_confidence c)) [
        | inl e ↦ rw e (
          (x, refl, inl refl),
          ((m, irreflexive c), tt),
          λ j h. elim h [
            | inl s ↦ rw s (irreflexive c)
            | inr s ↦
                ordered.not_less_trans c b.max_confidence _ (ordered.one_way _ _ e) (below j s)
          ],
        )
        | inr e ↦
            let below' : (j : VotingInput f)
                → (j ≡ x) ⊎ Seen j
                → f.less b.max_confidence (confidence_of f j) ≡ false =
              λ j h. elim h [ inl s ↦ rw s e | inr s ↦ below j s ] in
            elim (Bool-cases (f.same c b.max_confidence)) [
              | inl s ↦
                  rw (e, s)
                    (
                      (lead.0, lead.1, ∈-append_left lead.0 b.tied (x ∷ []) lead.2),
                      All-append (Holds all b.max_confidence) b.tied (x ∷ []) tied
                          ((m, ordered.same_not_less _ _ s), tt),
                      below',
                    )
              | inr s ↦ rw (e, s) (lead, tied, below')
            ]
      ]

  find_best-Leads :
      (all : List (VotingInput f)) (Seen : VotingInput f → Type 0) (xs : List (VotingInput f))
      (b : Best f)
      → ((x : VotingInput f) → x ∈ xs → x ∈ all)
      → Leads all Seen b
      → Leads all (λ j. (j ∈ xs) ⊎ Seen j) (find_best f xs b)
  unfolding find_best
  find_best-Leads all Seen [] b within (lead, tied, below) =
      (lead, tied, λ j h. elim h [ inl m ↦ absurd m | inr s ↦ below j s ])
  find_best-Leads all Seen (x ∷ xs) b within h =
      let (lead, tied, below) =
        find_best-Leads all (λ j. (j ≡ x) ⊎ Seen j) xs (consider_input f x b)
          (λ y m. within y (inr m)) (consider_input-Leads all Seen x b (within x (inl refl)) h) in
      (
        lead,
        tied,
        λ j h'.
            below j
              (elim h' [ inl (inl e) ↦ inr (inl e) | inl (inr m) ↦ inl m | inr s ↦ inr (inr s) ]),
      )

  first_input-mem :
      (i : VotingInput f) (xs : List (VotingInput f))
      → i ∈ xs
      → (j : VotingInput f) × (first_input f xs ≡ some j) × (j ∈ xs)
  unfolding first_input
  first_input-mem i [] m = absurd m
  first_input-mem i (x ∷ xs) m = (x, refl, inl refl)

  module _ (sort_sources : List (VotingInput f) → List (VotingInput f))
      (permutes : (xs : List (VotingInput f)) (x : VotingInput f)
        → (x ∈ sort_sources xs) ↔ (x ∈ xs)) where
    chosen_input-Holds :
        (all : List (VotingInput f)) (Seen : VotingInput f → Type 0) (b : Best f)
        → Leads all Seen b
        → (j : VotingInput f) × (chosen_input f sort_sources b ≡ some j)
          × Holds all b.max_confidence j
    unfolding chosen_input
    chosen_input-Holds all Seen b (lead, tied, below) = elim (Bool-cases (ltb 1 b.tie_count)) [
      | inl e ↦
          let (j, first, m) =
            first_input-mem lead.0 (sort_sources b.tied) ((permutes b.tied lead.0).1 lead.2) in
          rw e
            (j, first, All-mem (Holds all b.max_confidence) b.tied j tied ((permutes b.tied j).0 m))
      | inr e ↦
          rw e (lead.0, lead.1, All-mem (Holds all b.max_confidence) b.tied lead.0 tied lead.2)
    ]

    first-Leads :
        (all : List (VotingInput f)) (x : VotingInput f)
        → x ∈ all
        → f.less f.minus_one (confidence_of f x) ≡ true
        → Leads all (λ j. j ≡ x) (consider_input f x (no_best f))
    unfolding consider_input
    first-Leads all x m e =
        rw e ((x, refl, inl refl), ((m, irreflexive _), tt), λ j s. rw s (irreflexive _))

    -- For confidences that compare like numbers and that are above -1, and a sort that gives the
    -- inputs that it gets, ConfidenceVote refuses only an empty list; any other gives the content of
    -- an input such that no input is more confident, where a confidence of 0 counts as one half.
    pub confidence_vote-IsHighest :
        (g : Strings) (inputs : List (VotingInput f))
        → All (λ i. f.less f.minus_one (confidence_of f i) ≡ true) inputs
        → IsHighest f inputs (confidence_vote f g sort_sources inputs)
    unfolding confidence_vote single_result find_best
    confidence_vote-IsHighest g [] above = (refl, refl)
    confidence_vote-IsHighest g (x ∷ []) above =
        (x, inl refl, refl, λ j m. elim m [ inl e ↦ rw e (irreflexive _) | inr n ↦ absurd n ])
    confidence_vote-IsHighest g (x ∷ y ∷ inputs) above =
        let all = x ∷ y ∷ inputs in
        let leads =
          find_best-Leads all (λ j. j ≡ x) (y ∷ inputs) (consider_input f x (no_best f))
            (λ i m. inr m) (first-Leads all x (inl refl) above.0) in
        let b = find_best f (y ∷ inputs) (consider_input f x (no_best f)) in
        let (j, chosen, (m, high)) =
          chosen_input-Holds all (λ k. (k ∈ (y ∷ inputs)) ⊎ (k ≡ x)) b leads in
        rw (confidence_vote, chosen)
          (
            j,
            m,
            refl,
            λ k n.
                ordered.not_less_trans _ _ _ high
                  (leads.2 k (elim n [ inl e ↦ inr e | inr n' ↦ inl n' ])),
          )
