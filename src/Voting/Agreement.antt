-- ===== src/Voting/Agreement.antt =====
-- When UnanimousVote gives a result.
use aixgo.Common.{
  ℕ, suc, ◌≡◌, ◌⊎◌, inl, inr, refl, List, [], ◌∷◌, All, Option, none, some, String, Bool-cases,
  same_text, same_text_iff, length,
}
use aixgo.Common.Maps.{Map, insert}
use aixgo.Voting.{
  Floats, Strings, VotingInput, no_inputs, no_confident_input, disagrees, VotingError, Outcome,
  refused, voted, value_at, normalize_content, single_result, find_disagreement, unanimous_vote,
}

module _ (f : Floats) (g : Strings) where
  abbrev SameContent : VotingInput f → VotingInput f → Type 0
  SameContent x y = normalize_content g y.content ≡ normalize_content g x.content

  -- The first of the inputs that does not have the content of `x`.
  abbrev FirstOther : VotingInput f → List (VotingInput f) → String → Type 0
  FirstOther x [] who = ⊥
  FirstOther x (y ∷ ys) who =
      ((¬ SameContent x y) × (who ≡ y.source)) ⊎ (SameContent x y × FirstOther x ys who)

  abbrev Finds : VotingInput f → List (VotingInput f) → Option VotingError → Type 0
  Finds x ys none = All (SameContent x) ys
  Finds x ys (some no_inputs) = ⊥
  Finds x ys (some no_confident_input) = ⊥
  Finds x ys (some (disagrees who first n)) = FirstOther x ys who × (first ≡ x.source)

  abbrev IsUnanimous : List (VotingInput f) → Outcome f → Type 0
  IsUnanimous [] r = r ≡ refused no_inputs
  IsUnanimous (x ∷ xs) (refused no_inputs) = ⊥
  IsUnanimous (x ∷ xs) (refused no_confident_input) = ⊥
  IsUnanimous (x ∷ xs) (refused (disagrees who first n)) = FirstOther x xs who × (first ≡ x.source)
  IsUnanimous (x ∷ xs) (voted r) =
      All (SameContent x) xs
      × (r.selected_content ≡ x.content)
      × (r.votes ≡ (x.content, length (x ∷ xs)) ∷ [])

  later :
      (x y : VotingInput f) (ys : List (VotingInput f)) (o : Option VotingError)
      → SameContent x y
      → Finds x ys o
      → Finds x (y ∷ ys) o
  later x y ys none e h = (e, h)
  later x y ys (some no_inputs) e h = h
  later x y ys (some no_confident_input) e h = h
  later x y ys (some (disagrees who first n)) e h = (inr (e, h.0), h.1)

  find_disagreement-Finds :
      (x : VotingInput f) (ys : List (VotingInput f)) (votes : Map ℕ)
      → Finds x ys (find_disagreement f g x ys votes)
  unfolding find_disagreement
  find_disagreement-Finds x [] votes = tt
  find_disagreement-Finds x (y ∷ ys) votes =
      let n = normalize_content g y.content in
      let votes' = insert n (suc (value_at 0 n votes)) votes in
      let same = same_text_iff n (normalize_content g x.content) in
      elim (Bool-cases (same_text n (normalize_content g x.content))) [
        | inl e ↦ rw e (
            later x y ys (find_disagreement f g x ys votes') (same.0 e)
              (find_disagreement-Finds x ys votes'))
        | inr e ↦ rw e (inl (λ h. let t = same.1 h in cc, refl), refl)
      ]

  -- UnanimousVote refuses an empty list; any other list gives the content of its first input with all
  -- its votes, exactly if the contents of all inputs normalize to the same text, and else an error
  -- that names the first input that differs from the first one, and the first one.
  unanimous_vote-IsUnanimous :
      (inputs : List (VotingInput f)) → IsUnanimous inputs (unanimous_vote f g inputs)
  unfolding unanimous_vote single_result
  unanimous_vote-IsUnanimous [] = refl
  unanimous_vote-IsUnanimous (x ∷ []) = (tt, refl, refl)
  unanimous_vote-IsUnanimous (x ∷ y ∷ ys) = by_finding _ (find_disagreement-Finds x (y ∷ ys) _)
    where
      by_finding :
          (o : Option VotingError)
          → Finds x (y ∷ ys) o
          → IsUnanimous (x ∷ y ∷ ys) (elim o [
            | some e ↦ refused e
            | none ↦ voted (record {
              selected_content = x.content;
              agreement = f.one_f;
              strategy = "unanimous";
              votes = (x.content, length (x ∷ y ∷ ys)) ∷ [];
            })
          ])
      by_finding none h = (h, refl, refl)
      by_finding (some no_inputs) h = h
      by_finding (some no_confident_input) h = h
      by_finding (some (disagrees who first n)) h = h
