-- ===== src/Memory/Retrieval.antt =====
-- What `Retrieve` gives: the best of the memories that are similar enough.
use aixgo.Common.{◌≡◌, List, [], ◌∷◌, true, false, All, ◌⊎◌}
use mathlib.Core.List.{Perm}
use mathlib.Core.List.Perm
use aixgo.Memory.{Floats, Memory, cosine_similarity}

-- Scores compare like numbers, as all floats but NaN do.
pub record Ordered (f : Floats) : Type 0 where
  pub one_way : (x y : f.F) → f.less x y ≡ true → f.less y x ≡ false
  pub not_less_trans : (x y z : f.F) → f.less x y ≡ false → f.less y z ≡ false → f.less x z ≡ false

module _ (f : Floats) (Metadata : Type 0) where
  abbrev pub Scored : Type 0
  Scored = Memory f Metadata × f.F

  -- No entry has a better score than one before it.
  abbrev pub IsRanked : List Scored → Type 0
  IsRanked [] = Unit {0}
  IsRanked (x ∷ xs) = All (λ y. f.less x.1 y.1 ≡ false) xs × IsRanked xs

  -- Of the memories, exactly those whose similarity is the threshold or more, each with it.
  pub data Reaching (embedding : List f.F) (threshold : f.F)
      : List (Memory f Metadata) → List Scored → Type 0 where
    at_end : Reaching embedding threshold [] []
    reaches :
        {mem : Memory f Metadata} {mems : List (Memory f Metadata)} {similar : List Scored}
        → ((f.less threshold (cosine_similarity f embedding mem.embedding) ≡ true)
            ⊎ (f.same threshold (cosine_similarity f embedding mem.embedding) ≡ true))
        → Reaching embedding threshold mems similar
        → Reaching embedding threshold
            (mem ∷ mems)
            ((mem, cosine_similarity f embedding mem.embedding) ∷ similar)
    falls_short :
        {mem : Memory f Metadata} {mems : List (Memory f Metadata)} {similar : List Scored}
        → (f.less threshold (cosine_similarity f embedding mem.embedding) ≡ false)
        → (f.same threshold (cosine_similarity f embedding mem.embedding) ≡ false)
        → Reaching embedding threshold mems similar
        → Reaching embedding threshold (mem ∷ mems) similar
