-- ===== src/Voting/Confidence.antt =====
-- ConfidenceVote of internal/aggregation/voting.go. `sort.Slice` by source is a parameter of the tie
-- break. `tied[0]`, which would panic for an empty list, is none for it.
pub mod Highest
use aixgo.Common.{
  ℕ, suc, Bool, ltb, if◌then◌else◌, List, [], ◌∷◌, ◌++◌, Option, none, some, String, length,
}
use aixgo.Common.Maps.{Map, insert}
use aixgo.Voting.{
  Floats, Strings, VotingInput, Outcome, refused, voted, no_inputs, no_confident_input, value_at,
  normalize_content, single_result,
}

module _ (f : Floats) where
  -- The confidence, where 0 stands for one that is not given.
  unfoldable pub confidence_of : VotingInput f → f.F
  confidence_of input = if f.same input.confidence f.zero_f then f.half else input.confidence

  pub record Best : Type 0 where
    pub max_confidence : f.F
    pub best_input : Option (VotingInput f)
    pub tied : List (VotingInput f)
    pub tie_count : ℕ

  abbrev pub no_best : Best
  no_best = record { max_confidence = f.minus_one; best_input = none; tied = []; tie_count = 0 }

  unfoldable pub consider_input : VotingInput f → Best → Best
  consider_input input b =
      if f.less b.max_confidence (confidence_of input)
      then record {
        max_confidence = confidence_of input;
        best_input = some input;
        tied = input ∷ [];
        tie_count = 1;
      }
      else (if f.same (confidence_of input) b.max_confidence
          then record b { tie_count = suc b.tie_count; tied = b.tied ++ input ∷ [] }
          else b)

  unfoldable pub find_best : List (VotingInput f) → Best → Best
  find_best [] b = b
  find_best (input ∷ inputs) b = find_best inputs (consider_input input b)

  unfoldable pub total_confidence : List (VotingInput f) → f.F → f.F
  total_confidence [] total = total
  total_confidence (input ∷ inputs) total =
      total_confidence inputs (f.add total (confidence_of input))

  unfoldable pub first_input : List (VotingInput f) → Option (VotingInput f)
  first_input [] = none
  first_input (input ∷ _) = some input

  unfoldable pub chosen_input :
      (List (VotingInput f) → List (VotingInput f)) → Best → Option (VotingInput f)
  unfolding first_input
  chosen_input sort_sources b =
      if ltb 1 b.tie_count then first_input (sort_sources b.tied) else b.best_input

  unfoldable pub confidence_agreement : List (VotingInput f) → Best → f.F
  confidence_agreement inputs b =
      let agreement =
        f.mul (f.div b.max_confidence (total_confidence inputs f.zero_f))
          (f.of_ℕ (length inputs)) in
      if f.less f.one_f agreement then f.one_f else agreement

  unfoldable pub count_votes : Strings → List (VotingInput f) → Map ℕ → Map ℕ
  count_votes g [] votes = votes
  count_votes g (input ∷ inputs) votes =
      let normalized = normalize_content g input.content in
      count_votes g inputs (insert normalized (suc (value_at 0 normalized votes)) votes)

  unfoldable pub confidence_vote :
      Strings → (List (VotingInput f) → List (VotingInput f)) → List (VotingInput f) → Outcome f
  confidence_vote g sort_sources [] = refused no_inputs
  confidence_vote g sort_sources (input ∷ []) = voted (single_result f g "confidence" input)
  confidence_vote g sort_sources (x ∷ y ∷ inputs) =
      let all = x ∷ y ∷ inputs in
      let b = find_best all no_best in
      elim (chosen_input sort_sources b) [
        | none ↦ refused no_confident_input
        | some chosen ↦ voted (record {
          selected_content = chosen.content;
          agreement = confidence_agreement all b;
          strategy = "confidence";
          votes = count_votes g all [];
        })
      ]
