-- ===== src/Voting/Tests.antt =====
-- Votes with natural numbers as confidences, where only the text "A" has a capital letter.
use aixgo.Common.{
  ℕ, ◌+◌, ◌*◌, ◌==◌, ◌≡◌, refl, List, [], ◌∷◌, String, string_discrete, ite, ltb, same_text, All,
  true, arith, ◌∈◌, inl, inr,
}
use aixgo.Common.Maps.{keys, lookup, insert}
use Prim.Native.Nat.{◌/◌}
use aixgo.Voting.{
  Floats, Strings, VotingInput, Outcome, refused, voted, disagrees, majority_vote, unanimous_vote,
  majority_of, value_at, count_inputs, count_input, normalize_content, break_tie, find_winner,
  consider, pick_tied, tied_contents, find_disagreement,
}
use aixgo.Voting.Confidence.{
  confidence_vote, find_best, consider_input, chosen_input, confidence_of,
}
use aixgo.Voting.Confidence.Highest.{Ordered, IsHighest, confidence_vote-IsHighest}
use aixgo.Voting.Weighted.{
  weighted_vote, weighted_of, weigh_inputs, weigh_input, weight_of, find_leader, consider_score,
  settle_tie, no_weights,
}
use aixgo.Voting.Weighted.Heaviest.{score_of, IsHeaviest, weighted_of-IsHeaviest}
use aixgo.Voting.Plurality.{IsMajority, majority_vote-IsMajority}

abbrev numbers : Floats
numbers = record {
  F = ℕ;
  zero_f = 0;
  one_f = 1;
  half = 1;
  minus_one = 0;
  mul = λ x y. x * y;
  add = λ x y. x + y;
  div = λ x y. x / y;
  of_ℕ = λ n. n;
  less = ltb;
  same = λ x y. x == y;
}

abbrev first_of : List String → String → String
first_of [] s = ""
first_of (x ∷ _) s = x

abbrev strings : Strings
strings = record {
  trim_space = λ s. s;
  to_lower = λ s. ite (string_discrete s "A") "a" s;
  fields = λ s. s ∷ [];
  join = first_of;
}

abbrev by : String → String → ℕ → VotingInput numbers
by who what how = record { source = who; content = what; confidence = how }

-- Two for "a", one for "b" and two for "c", whose voters are more confident.
abbrev five : List (VotingInput numbers)
five = by "v" "A" 1 ∷ by "w" "c" 8 ∷ by "x" "b" 9 ∷ by "y" "a" 2 ∷ by "z" "c" 7 ∷ []

abbrev selected : Outcome numbers → String
selected (refused _) = "none"
selected (voted r) = r.selected_content

c_is_selected : selected (majority_vote numbers strings (λ n m. keys m) five) ≡ "c"
unfolding majority_vote string_discrete majority_of value_at lookup count_inputs count_input insert
    normalize_content break_tie find_winner consider pick_tied tied_contents
c_is_selected = refl

majority_vote-IsMajority_example :
    IsMajority numbers strings five (majority_vote numbers strings (λ n m. keys m) five)
majority_vote-IsMajority_example =
    majority_vote-IsMajority numbers strings (λ n m. keys m) (λ n m k. (λ h. h, λ h. h)) five

w_disagrees : unanimous_vote numbers strings five ≡ refused (disagrees "w" "v" 2)
unfolding unanimous_vote string_discrete find_disagreement same_text normalize_content insert
w_disagrees = refl

numbers-Ordered : Ordered numbers
numbers-Ordered = record {
  one_way = λ x y h. ground arith;
  not_less_trans = λ x y z h h'. ground arith;
  same_not_less = λ x y h. ground arith;
}

abbrev keep : List (VotingInput numbers) → List (VotingInput numbers)
keep inputs = inputs

b_is_most_confident : selected (confidence_vote numbers strings keep five) ≡ "b"
unfolding confidence_vote find_best consider_input chosen_input confidence_of
b_is_most_confident = refl

five-All : All (λ i. numbers.less numbers.minus_one (confidence_of numbers i) ≡ true) five
unfolding confidence_of
five-All = (refl, (refl, (refl, (refl, (refl, tt)))))

confidence_vote-IsHighest_example :
    IsHighest numbers five (confidence_vote numbers strings keep five)
confidence_vote-IsHighest_example =
    confidence_vote-IsHighest numbers numbers-Ordered keep (λ xs x. (λ h. h, λ h. h)) strings five
      five-All

c_is_heaviest : selected (weighted_vote numbers strings (λ n m. keys m) five) ≡ "c"
unfolding weighted_vote weighted_of weigh_inputs weigh_input weight_of find_leader consider_score
    settle_tie value_at lookup insert normalize_content string_discrete
c_is_heaviest = refl

b_is_weighed : "b" ∈ keys (weigh_inputs numbers strings five (no_weights numbers)).weighted_scores
unfolding weigh_inputs weigh_input insert normalize_content string_discrete
b_is_weighed = inr (inr (inl refl))

b_has_weight :
    numbers.less numbers.zero_f (score_of numbers numbers-Ordered strings five "b") ≡ true
unfolding weigh_inputs weigh_input weight_of value_at lookup insert normalize_content
    string_discrete
b_has_weight = refl

weighted_of-IsHeaviest_example :
    IsHeaviest numbers numbers-Ordered strings five
      (weighted_of numbers strings (λ n m. keys m) five).selected_content
weighted_of-IsHeaviest_example =
    weighted_of-IsHeaviest numbers numbers-Ordered strings (λ n m. keys m)
      (λ n m k. (λ h. h, λ h. h)) five "b" b_is_weighed b_has_weight
