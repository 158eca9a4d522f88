-- ===== src/VectorStore/Iterators.antt =====
-- pkg/vectorstore/iterator.go: iterators over the matches of a query. An iterator is the interface
-- `ResultIterator`, whose methods change a state of its own.
pub mod Yields
use aixgo.Common.{
  ℕ, zero, suc, ◌==◌, if◌then◌else◌, Bool, true, false, List, [], ◌∷◌, ◌++◌, Option, none, some,
}

module _ (Match Error : Type 0) where
  pub record ResultIterator : Type 1 where
    pub State : Type 0
    pub start : State
    pub next : State → Bool × State
    pub current : State → Option Match
    pub failure : State → Option Error
    pub close : State → State

  -- The matches from the index on, and whether the index stands on the first of them: before the
  -- first `Next` it is -1.
  pub record SliceState : Type 0 where
    pub rest : List Match
    pub started : Bool

  unfoldable pub slice_next : SliceState → Bool × SliceState
  slice_next s = elim s.rest [
    | [] ↦ (false, record s { started = true })
    | m ∷ rest ↦
        if s.started
        then (elim rest [ [] ↦ false | _ ∷ _ ↦ true ], record s { rest = rest })
        else (true, record s { started = true })
  ]

  unfoldable pub slice_current : SliceState → Option Match
  slice_current s = elim s.rest [ [] ↦ none | m ∷ _ ↦ if s.started then some m else none ]

  abbrev pub new_slice_iterator : List Match → ResultIterator
  new_slice_iterator matches = record {
    State = SliceState;
    start = record { rest = matches; started = false };
    next = slice_next;
    current = slice_current;
    failure = λ s. none;
    close = λ s. record s { rest = [] };
  }

  abbrev pub new_error_iterator : Error → ResultIterator
  new_error_iterator error = record {
    State = Unit;
    start = tt;
    next = λ s. (false, s);
    current = λ s. none;
    failure = λ s. some error;
    close = λ s. s;
  }

  abbrev pub new_empty_iterator : ResultIterator
  new_empty_iterator = record {
    State = Unit;
    start = tt;
    next = λ s. (false, s);
    current = λ s. none;
    failure = λ s. none;
    close = λ s. s;
  }

  -- What the goroutines at the other ends do: at each `Next`, the error that the error channel then
  -- has, if any, and the next match; at the end the channel is closed, where the error channel may
  -- have an error as well, before the close is seen and after it.
  pub data Feed : Type 0 where
    sends : Option Error → Match → Feed → Feed
    closes : Option Error → Option Error → Feed

  pub record ChannelState : Type 0 where
    pub feed : Feed
    pub current_match : Option Match
    pub error : Option Error
    pub done : Bool

  unfoldable pub receive : Feed → ChannelState → Bool × ChannelState
  receive (sends (some e) m feed) s =
      (false, record s { feed = sends none m feed; error = some e; done = true })
  receive (sends none m feed) s = (true, record s { feed = feed; current_match = some m })
  receive (closes (some e) last) s =
      (false, record s { feed = closes none last; error = some e; done = true })
  receive (closes none last) s =
      (false, record s { feed = closes none none; error = last; done = true })

  unfoldable pub channel_next : ChannelState → Bool × ChannelState
  unfolding receive
  channel_next s = elim s.error [
    | some _ ↦ (false, s)
    | none ↦ if s.done then (false, s) else receive s.feed s
  ]

  abbrev pub new_channel_iterator : Feed → ResultIterator
  new_channel_iterator feed = record {
    State = ChannelState;
    start = record { feed = feed; current_match = none; error = none; done = false };
    next = channel_next;
    current = λ s. s.current_match;
    failure = λ s. s.error;
    close = λ s. record s { feed = closes none none; current_match = none; done = true };
  }

  module _ (source : ResultIterator) where
    -- The loop of the filter, which ends no later than the source does; the number bounds its turns.
    unfoldable pub filter_next :
        (Option Match → Bool)
        → ℕ
        → source.State
        → Option Match
        → Bool × (source.State × Option Match)
    filter_next predicate zero s kept = (false, (s, kept))
    filter_next predicate (suc fuel) s kept =
        let (more, s') = source.next s in
        let again = filter_next predicate fuel s' kept in
        if more
        then if predicate (source.current s') then (true, (s', source.current s')) else again
        else (false, (s', kept))

    abbrev pub filter_iterator : ℕ → (Option Match → Bool) → ResultIterator
    filter_iterator fuel predicate = record {
      State = source.State × Option Match;
      start = (source.start, none);
      next = λ (s, kept). filter_next predicate fuel s kept;
      current = λ (s, kept). kept;
      failure = λ (s, kept). source.failure s;
      close = λ (s, kept). (source.close s, kept);
    }

    unfoldable pub mapped : (Match → Option Match) → Option Match → Option Match
    mapped fn none = none
    mapped fn (some m) = fn m

    abbrev pub map_iterator : (Match → Option Match) → ResultIterator
    map_iterator fn = record {
      State = source.State;
      start = source.start;
      next = source.next;
      current = λ s. mapped fn (source.current s);
      failure = source.failure;
      close = source.close;
    }

  -- What `CollectAll` and `CollectN` return: the matches, or the error that ended them. `unfinished` is
  -- a loop that needs more turns than the fuel allows. A nil match stands as `none`.
  pub data Collected : Type 0 where
    unfinished : Collected
    collected : List (Option Match) → Collected
    failed : Error → Collected

  -- The check of `Err` after the loop.
  unfoldable pub checked : Option Error → List (Option Match) → Collected
  checked none matches = collected matches
  checked (some e) matches = failed e

  module _ (iter : ResultIterator) where
    unfoldable pub collect_loop : ℕ → iter.State → List (Option Match) → Collected
    unfolding checked
    collect_loop zero s matches = unfinished
    collect_loop (suc fuel) s matches =
        let (more, s') = iter.next s in
        let rest = collect_loop fuel s' (matches ++ iter.current s' ∷ []) in
        if more then rest else checked (iter.failure s') matches

    unfoldable pub collect_all : ℕ → Collected
    unfolding collect_loop
    collect_all fuel = collect_loop fuel iter.start []

    -- `CollectN` for a number that is not below 0.
    unfoldable pub collect_some : ℕ → iter.State → List (Option Match) → Collected
    unfolding checked
    collect_some zero s matches = checked (iter.failure s) matches
    collect_some (suc n) s matches =
        let (more, s') = iter.next s in
        let rest = collect_some n s' (matches ++ iter.current s' ∷ []) in
        if more then rest else checked (iter.failure s') matches

    unfoldable pub collect_n : ℕ → Collected
    unfolding collect_some
    collect_n n = collect_some n iter.start []

    -- `ForEach` with a function that changes a state of the caller's; `none` is a loop that needs more
    -- turns, and the inner option is the error.
    unfoldable pub each_loop :
        {A : Type 0}
        → (Option Match → A → Option Error × A)
        → ℕ
        → iter.State
        → A
        → Option (Option Error × A)
    each_loop fn zero s a = none
    each_loop fn (suc fuel) s a =
        let (more, s') = iter.next s in
        let (error, a') = fn (iter.current s') a in
        let rest = each_loop fn fuel s' a' in
        if more
        then elim error [ some e ↦ some (some e, a') | none ↦ rest ]
        else some (iter.failure s', a)

    unfoldable pub for_each :
        {A : Type 0} → (Option Match → A → Option Error × A) → ℕ → A → Option (Option Error × A)
    unfolding each_loop
    for_each fn fuel a = each_loop fn fuel iter.start a
