-- ===== src/Voting/Weighted.antt =====
-- WeightedVote of internal/aggregation/voting.go. A list of sources is kept as its length, since the
-- explanation, which is left out, alone reads more of it. `visit` gives the order of the three loops
-- over the map of scores.
pub mod Heaviest
use aixgo.Common.{ℕ, suc, Bool, ltb, if◌then◌else◌, List, [], ◌∷◌, Option, none, some, String}
use aixgo.Common.Maps.{Map, insert}
use aixgo.Common.Sort.{sort_strings}
use aixgo.Voting.{
  Floats, Strings, VotingInput, VotingResult, Outcome, refused, voted, no_inputs, value_at,
  normalize_content, single_result,
}

module _ (f : Floats) where
  -- The confidence, where 0 stands for one that is not given.
  unfoldable pub weight_of : VotingInput f → f.F
  weight_of input = if f.same input.confidence f.zero_f then f.half else input.confidence

  pub record Weights : Type 0 where
    pub weighted_scores : Map f.F
    pub content_map : Map String
    pub sources : Map ℕ
    pub total_weight : f.F

  abbrev pub no_weights : Weights
  no_weights = record {
    weighted_scores = [];
    content_map = [];
    sources = [];
    total_weight = f.zero_f;
  }

  unfoldable pub weigh_input : Strings → VotingInput f → Weights → Weights
  weigh_input g input w =
      let normalized = normalize_content g input.content in
      record {
        weighted_scores =
            insert normalized
              (f.add (value_at f.zero_f normalized w.weighted_scores) (weight_of input))
              w.weighted_scores;
        content_map = insert normalized input.content w.content_map;
        sources = insert normalized (suc (value_at 0 normalized w.sources)) w.sources;
        total_weight = f.add w.total_weight (weight_of input);
      }

  unfoldable pub weigh_inputs : Strings → List (VotingInput f) → Weights → Weights
  weigh_inputs g [] w = w
  weigh_inputs g (input ∷ inputs) w = weigh_inputs g inputs (weigh_input g input w)

  pub record Leader : Type 0 where
    pub max_score : f.F
    pub winner : String
    pub tie_count : ℕ

  abbrev pub no_leader : Leader
  no_leader = record { max_score = f.zero_f; winner = ""; tie_count = 0 }

  unfoldable pub consider_score : Map f.F → String → Leader → Leader
  consider_score scores content l =
      let score = value_at f.zero_f content scores in
      if f.less l.max_score score
      then record { max_score = score; winner = content; tie_count = 1 }
      else (if f.same score l.max_score then record l { tie_count = suc l.tie_count } else l)

  unfoldable pub find_leader : Map f.F → List String → Leader → Leader
  find_leader scores [] l = l
  find_leader scores (content ∷ contents) l =
      find_leader scores contents (consider_score scores content l)

  unfoldable pub tied_scores : Map f.F → f.F → List String → List String
  tied_scores scores max_score [] = []
  tied_scores scores max_score (content ∷ contents) =
      let rest = tied_scores scores max_score contents in
      if f.same (value_at f.zero_f content scores) max_score then content ∷ rest else rest

  -- `tied[0]`, where the list has an element.
  unfoldable pub first_text : String → List String → String
  first_text s [] = s
  first_text s (t ∷ _) = t

  unfoldable pub settle_tie : Map f.F → List String → Leader → String
  settle_tie scores contents l =
      if ltb 1 l.tie_count
      then first_text l.winner (sort_strings (tied_scores scores l.max_score contents))
      else l.winner

  unfoldable pub weighted_agreement : f.F → f.F → f.F
  weighted_agreement max_score total_weight =
      let agreement = f.div max_score total_weight in
      if f.less f.one_f agreement then f.one_f else agreement

  unfoldable pub votes_of : Map ℕ → List String → Map ℕ → Map ℕ
  votes_of sources [] votes = votes
  votes_of sources (content ∷ contents) votes =
      votes_of sources contents (insert content (value_at 0 content sources) votes)

  unfoldable pub weighted_of :
      Strings → (ℕ → Map f.F → List String) → List (VotingInput f) → VotingResult f
  weighted_of g visit inputs =
      let w = weigh_inputs g inputs no_weights in
      let scores = w.weighted_scores in
      let l = find_leader scores (visit 0 scores) no_leader in
      record {
        selected_content = value_at "" (settle_tie scores (visit 1 scores) l) w.content_map;
        agreement = weighted_agreement l.max_score w.total_weight;
        strategy = "weighted";
        votes = votes_of w.sources (visit 2 scores) [];
      }

  unfoldable pub weighted_vote :
      Strings → (ℕ → Map f.F → List String) → List (VotingInput f) → Outcome f
  weighted_vote g visit [] = refused no_inputs
  weighted_vote g visit (input ∷ []) = voted (single_result f g "weighted" input)
  weighted_vote g visit (x ∷ y ∷ inputs) = voted (weighted_of g visit (x ∷ y ∷ inputs))
