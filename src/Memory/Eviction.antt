-- ===== src/Memory/Eviction.antt =====
-- What the memory holds after a history of stores.
use aixgo.Common.{
  ℕ, zero, suc, ◌+◌, ◌-◌, ◌≤◌, ◌≡◌, List, [], ◌∷◌, ◌++◌, length, length-append, arith, refl, sym,
}
use native.Mathlib.Decide.{dec_lt}
use mathlib.Core.List.{append-nil, append_assoc}
use aixgo.Common.Int.{ℤ}
use aixgo.Memory.{Floats, Memory, SemanticMemory, new_semantic_memory, drop_first, store}

module _ (f : Floats) (Metadata : Type 0) where
  abbrev pub Stored : Type 0
  Stored = List (Memory f Metadata)

  unfoldable pub store_all : Stored → SemanticMemory f Metadata → SemanticMemory f Metadata
  unfolding store
  store_all [] sm = sm
  store_all (m ∷ ms) sm = store_all ms (store f Metadata m sm)

  -- The last `n` of a list.
  pub drop : ℕ → Stored → Stored
  drop zero ms = ms
  drop (suc n) [] = []
  drop (suc n) (m ∷ ms) = drop n ms

  unfoldable pub newest : ℕ → Stored → Stored
  unfolding drop
  newest n ms = drop (length ms - n) ms

  length-drop : (n : ℕ) (ms : Stored) → length (drop n ms) ≡ length ms - n
  unfolding drop
  length-drop zero ms = omega arith
  length-drop (suc n) [] = omega arith
  length-drop (suc n) (m ∷ ms) = omega (arith, length-drop n ms)

  drop-append : (n : ℕ) (ms ns : Stored) → n ≤ length ms → drop n (ms ++ ns) ≡ drop n ms ++ ns
  unfolding drop
  drop-append zero ms ns h = refl
  drop-append (suc n) [] ns h = absurd (omega arith)
  drop-append (suc n) (m ∷ ms) ns h = drop-append n ms ns (omega arith)

  drop_first-drop : (n : ℕ) (ms : Stored) → drop_first f Metadata (drop n ms) ≡ drop (suc n) ms
  unfolding drop drop_first
  drop_first-drop zero [] = refl
  drop_first-drop zero (m ∷ ms) = refl
  drop_first-drop (suc n) [] = refl
  drop_first-drop (suc n) (m ∷ ms) = drop_first-drop n ms

  -- One store keeps the newest memories of a longer history.
  store-newest :
      (m : Memory f Metadata) (ms : Stored) (sm : SemanticMemory f Metadata)
      → sm.memories ≡ newest sm.max_memories ms
      → (store f Metadata m sm).memories ≡ newest sm.max_memories (ms ++ m ∷ [])
  unfolding store newest
  store-newest m ms sm h =
      let k = length ms - sm.max_memories in
      let longer = length-append ms (m ∷ []) in
      let kept = length-append sm.memories (m ∷ []) in
      let old = length-drop k ms in
      let onto = drop-append k ms (m ∷ []) (omega arith) in
      let first = drop_first-drop k (ms ++ m ∷ []) in
      let together : sm.memories ++ m ∷ [] ≡ drop k (ms ++ m ∷ []) = rw h (sym onto) in
      let len : length sm.memories ≡ length ms - k = rw h old in
      elim (dec_lt sm.max_memories (length sm.memories + 1)) [
        | yes y ↦
            let at : length (ms ++ m ∷ []) - sm.max_memories ≡ suc k = omega arith in
            rw at (ground arith)
        | no n ↦
            let at : length (ms ++ m ∷ []) - sm.max_memories ≡ k = omega arith in
            rw at (ground arith)
      ]

  drop-nil : (n : ℕ) → drop n [] ≡ []
  unfolding drop
  drop-nil zero = refl
  drop-nil (suc n) = refl

  newest-nil : (n : ℕ) → newest n [] ≡ []
  unfolding newest
  newest-nil n = drop-nil (0 - n)

  store_all-newest_from :
      (ms ns : Stored) (sm : SemanticMemory f Metadata)
      → sm.memories ≡ newest sm.max_memories ms
      → (store_all ns sm).memories ≡ newest sm.max_memories (ms ++ ns)
  unfolding store_all
  store_all-newest_from ms [] sm h = rw (append-nil ms) h
  store_all-newest_from ms (n ∷ ns) sm h =
      let one = store-newest n ms sm h in
      let same : (store f Metadata n sm).max_memories ≡ sm.max_memories = unfold store in refl in
      let rest = store_all-newest_from (ms ++ n ∷ []) ns (store f Metadata n sm) (rw same one) in
      rw (sym (append_assoc ms (n ∷ []) ns), sym same) rest

  -- After any history of stores a new memory holds the newest ones, in order, and at most as many as
  -- its maximum.
  pub store_all-newest :
      (max_memories : ℤ) (threshold : f.F) (ms : Stored)
      → let sm = new_semantic_memory f Metadata max_memories threshold in
        ((store_all ms sm).memories ≡ newest sm.max_memories ms)
        × (length (store_all ms sm).memories ≤ sm.max_memories)
  unfolding new_semantic_memory
  store_all-newest max_memories threshold ms =
      let sm = new_semantic_memory f Metadata max_memories threshold in
      let held = store_all-newest_from [] ms sm (sym (newest-nil sm.max_memories)) in
      let len = length-drop (length ms - sm.max_memories) ms in
      (held, rw held (unfold newest in omega arith))
