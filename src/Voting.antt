-- ===== src/Voting.antt =====
-- internal/aggregation/voting.go: MajorityVote and UnanimousVote, and in Confidence
-- and Weighted the other two votes. The functions of Go's `strings` and
-- float64 are parameters. The explanation of a result, the sources that it lists and the metadata,
-- which nothing reads, are left out. A map is visited in the order that `visit` gives, where the
-- number tells the loops of one call apart.
pub mod Plurality
pub mod Agreement
pub mod Confidence
pub mod Weighted
mod Tests
use aixgo.Common.{
  ℕ, suc, Bool, ltb, ◌==◌, if◌then◌else◌, List, [], ◌∷◌, Option, none, some, String, length,
  same_text, not,
}
use aixgo.Common.Maps.{Map, lookup, insert}

-- Go's float64, with what the votes do with it.
pub record Floats : Type 1 where
  pub F : Type 0
  pub zero_f : F
  pub one_f : F
  -- 0.5 and -1.0
  pub half : F
  pub minus_one : F
  pub add : F → F → F
  pub mul : F → F → F
  pub div : F → F → F
  pub of_ℕ : ℕ → F
  -- `x < y` and `x == y`
  pub less : F → F → Bool
  pub same : F → F → Bool

-- `strings.TrimSpace`, `strings.ToLower`, `strings.Fields` and `strings.Join`.
pub record Strings : Type 0 where
  pub trim_space : String → String
  pub to_lower : String → String
  pub fields : String → List String
  pub join : List String → String → String

pub record VotingInput (f : Floats) : Type 0 where
  pub source : String
  pub content : String
  pub confidence : f.F

pub record VotingResult (f : Floats) : Type 0 where
  pub selected_content : String
  pub agreement : f.F
  pub strategy : String
  pub votes : Map ℕ

pub data VotingError : Type 0 where
  no_inputs : VotingError
  no_confident_input : VotingError
  -- Who disagrees with whom, and the number of opinions so far.
  disagrees : String → String → ℕ → VotingError

pub data Outcome (f : Floats) : Type 0 where
  refused : VotingError → Outcome f
  voted : VotingResult f → Outcome f

-- `m[k]`, which is `d` for a missing key.
unfoldable pub value_at : {V : Type 0} → V → String → Map V → V
value_at d k m = elim (lookup k m) [ none ↦ d | some v ↦ v ]

unfoldable pub normalize_content : Strings → String → String
normalize_content g content = g.join (g.fields (g.to_lower (g.trim_space content))) " "

-- The winner so far, its votes, and how many contents have as many.
pub record Standing : Type 0 where
  pub max_votes : ℕ
  pub winner : String
  pub tie_count : ℕ

unfoldable pub consider : Map ℕ → String → Standing → Standing
consider votes content s =
    let count = value_at 0 content votes in
    if ltb s.max_votes count
    then record { max_votes = count; winner = content; tie_count = 1 }
    else (if count == s.max_votes then record s { tie_count = suc s.tie_count } else s)

unfoldable pub find_winner : Map ℕ → List String → Standing → Standing
find_winner votes [] s = s
find_winner votes (content ∷ contents) s = find_winner votes contents (consider votes content s)

unfoldable pub tied_contents : Map ℕ → ℕ → List String → List String
tied_contents votes max_votes [] = []
tied_contents votes max_votes (content ∷ contents) =
    let rest = tied_contents votes max_votes contents in
    if value_at 0 content votes == max_votes then content ∷ rest else rest

module _ (f : Floats) (g : Strings) where
  pub record Tally : Type 0 where
    pub votes : Map ℕ
    pub content_map : Map String
    pub confidence_sum : Map f.F

  unfoldable pub count_input : VotingInput f → Tally → Tally
  count_input input t =
      let normalized = normalize_content g input.content in
      record {
        votes = insert normalized (suc (value_at 0 normalized t.votes)) t.votes;
        content_map = insert normalized input.content t.content_map;
        confidence_sum =
            insert normalized
              (f.add (value_at f.zero_f normalized t.confidence_sum) input.confidence)
              t.confidence_sum;
      }

  unfoldable pub count_inputs : List (VotingInput f) → Tally → Tally
  count_inputs [] t = t
  count_inputs (input ∷ inputs) t = count_inputs inputs (count_input input t)

  -- The loop over the tied contents, with the best average so far.
  unfoldable pub pick_tied : Tally → List String → f.F → String → String
  pick_tied t [] best winner = winner
  pick_tied t (content ∷ tied) best winner =
      let average =
        f.div (value_at f.zero_f content t.confidence_sum) (f.of_ℕ (value_at 0 content t.votes)) in
      let better = pick_tied t tied average content in
      let kept = pick_tied t tied best winner in if f.less best average then better else kept

  unfoldable pub break_tie : Tally → List String → Standing → String
  break_tie t contents s =
      if ltb 1 s.tie_count
      then pick_tied t (tied_contents t.votes s.max_votes contents) f.zero_f s.winner
      else s.winner

  unfoldable pub single_result : String → VotingInput f → VotingResult f
  single_result strategy input = record {
    selected_content = input.content;
    agreement = f.one_f;
    strategy = strategy;
    votes = (input.content, 1) ∷ [];
  }

  abbrev pub no_votes : Tally
  no_votes = record { votes = []; content_map = []; confidence_sum = [] }

  abbrev pub no_winner : Standing
  no_winner = record { max_votes = 0; winner = ""; tie_count = 0 }

  unfoldable pub majority_of : (ℕ → Map ℕ → List String) → List (VotingInput f) → VotingResult f
  majority_of visit inputs =
      let t = count_inputs inputs no_votes in
      let s = find_winner t.votes (visit 0 t.votes) no_winner in
      record {
        selected_content = value_at "" (break_tie t (visit 1 t.votes) s) t.content_map;
        agreement = f.div (f.of_ℕ s.max_votes) (f.of_ℕ (length inputs));
        strategy = "majority";
        votes = t.votes;
      }

  unfoldable pub majority_vote : (ℕ → Map ℕ → List String) → List (VotingInput f) → Outcome f
  majority_vote visit [] = refused no_inputs
  majority_vote visit (input ∷ []) = voted (single_result "majority" input)
  majority_vote visit (x ∷ y ∷ inputs) = voted (majority_of visit (x ∷ y ∷ inputs))

  -- The loop of `UnanimousVote` over the inputs after the first.
  unfoldable pub find_disagreement :
      VotingInput f → List (VotingInput f) → Map ℕ → Option VotingError
  find_disagreement first [] votes = none
  find_disagreement first (input ∷ inputs) votes =
      let normalized = normalize_content g input.content in
      let votes' = insert normalized (suc (value_at 0 normalized votes)) votes in
      let rest = find_disagreement first inputs votes' in
      if not (same_text normalized (normalize_content g first.content))
      then some (disagrees input.source first.source (length votes'))
      else rest

  unfoldable pub unanimous_vote : List (VotingInput f) → Outcome f
  unanimous_vote [] = refused no_inputs
  unanimous_vote (input ∷ []) = voted (single_result "unanimous" input)
  unanimous_vote (x ∷ y ∷ inputs) =
      elim (find_disagreement x (y ∷ inputs) ((normalize_content g x.content, 1) ∷ [])) [
        | some e ↦ refused e
        | none ↦ voted (record {
          selected_content = x.content;
          agreement = f.one_f;
          strategy = "unanimous";
          votes = (x.content, length (x ∷ y ∷ inputs)) ∷ [];
        })
      ]
