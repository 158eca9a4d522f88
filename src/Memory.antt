-- ===== src/Memory.antt =====
-- pkg/memory/memory.go: a bounded memory of texts with embeddings, searched by similarity. Go's float64
-- is a parameter, with the operations that the code uses.
pub mod Eviction
pub mod Retrieval
pub mod Ids
mod Tests
use aixgo.Common.{
  ℕ, zero, suc, ◌+◌, ltb, leb, ◌==◌, if◌then◌else◌, Bool, true, false, ◌||◌, ◌&&◌, not, List, [],
  ◌∷◌, ◌++◌, Option, none, some, String, length,
}
use aixgo.Common.Int.{ℤ, pos, negsuc}

pub record Floats : Type 1 where
  pub F : Type 0
  pub zero_f : F
  pub two_f : F
  pub default_threshold : F
  pub add : F → F → F
  pub sub : F → F → F
  pub mul : F → F → F
  pub div : F → F → F
  -- `x < y` and `x == y`
  pub less : F → F → Bool
  pub same : F → F → Bool

module _ (f : Floats) where
  open f use {F, zero_f}

  -- `x <= y`
  pub at_most : F → F → Bool
  at_most x y = f.less x y || f.same x y

  pub newton : ℕ → F → F → F
  newton zero x z = z
  newton (suc n) x z = newton n x (f.sub z (f.div (f.sub (f.mul z z) x) (f.mul f.two_f z)))

  pub sqrt : F → F
  unfolding newton at_most
  sqrt x = if at_most x zero_f then zero_f else newton 10 x x

  -- The sums of one pass over two lists of the same length.
  pub dot_product : List F → List F → F → F
  dot_product (x ∷ xs) (y ∷ ys) sum = dot_product xs ys (f.add sum (f.mul x y))
  dot_product _ _ sum = sum

  pub cosine_similarity : List F → List F → F
  unfolding dot_product sqrt
  cosine_similarity a b =
      if not (length a == length b) || (length a == 0)
      then zero_f
      else (let dot = dot_product a b zero_f in
          let norm_a = dot_product a a zero_f in
          let norm_b = dot_product b b zero_f in
          if f.same norm_a zero_f || f.same norm_b zero_f
          then zero_f
          else f.div dot (f.mul (sqrt norm_a) (sqrt norm_b)))

  -- `metadata` is the application's.
  module _ (Metadata : Type 0) where
    pub record Memory : Type 0 where
      pub id : String
      pub content : String
      pub embedding : List F
      pub metadata : Metadata
      pub timestamp : ℕ

    pub record SemanticMemory : Type 0 where
      pub max_memories : ℕ
      pub similarity_threshold : F
      pub memories : List Memory

    -- A maximum or a threshold that is not above 0 is replaced by a default one.
    pub new_semantic_memory : ℤ → F → SemanticMemory
    unfolding at_most
    new_semantic_memory max_memories threshold = record {
      max_memories = elim max_memories [ pos n ↦ (if n == 0 then 100 else n) | negsuc _ ↦ 100 ];
      similarity_threshold = if at_most threshold zero_f then f.default_threshold else threshold;
      memories = [];
    }

    drop_first : List Memory → List Memory
    drop_first [] = []
    drop_first (m ∷ ms) = ms

    -- The memory with its identifier and time, which the source makes from a counter and the clock.
    pub store : Memory → SemanticMemory → SemanticMemory
    unfolding drop_first
    store mem sm =
        let memories = sm.memories ++ mem ∷ [] in
        record sm {
          memories =
              if ltb sm.max_memories (length memories) then drop_first memories else memories;
        }

    pub clear : SemanticMemory → SemanticMemory
    clear sm = record sm { memories = [] }

    pub count_memories : SemanticMemory → ℕ
    count_memories sm = length sm.memories

    -- The memories that are similar enough, with their scores.
    pub score : List F → F → List Memory → List (Memory × F)
    unfolding cosine_similarity at_most
    score embedding threshold [] = []
    score embedding threshold (mem ∷ memories) =
        let similarity = cosine_similarity embedding mem.embedding in
        let rest = score embedding threshold memories in
        if at_most threshold similarity then (mem, similarity) ∷ rest else rest

    -- The inner loop at one `i`: what stands there at its end, and what stands after it.
    pub pass : Memory × F → List (Memory × F) → (Memory × F) × List (Memory × F)
    pass x [] = (x, [])
    pass x (y ∷ ys) =
        let stays = if f.less x.1 y.1 then y else x in
        let goes = if f.less x.1 y.1 then x else y in
        let (best, rest) = pass stays ys in (best, goes ∷ rest)

    -- The outer loop; the number is how many places are left.
    pub sort_scored : ℕ → List (Memory × F) → List (Memory × F)
    unfolding pass
    sort_scored zero xs = xs
    sort_scored (suc n) [] = []
    sort_scored (suc n) (x ∷ xs) = let (best, rest) = pass x xs in best ∷ sort_scored n rest

    pub take_memories : ℕ → List (Memory × F) → List Memory
    take_memories zero xs = []
    take_memories (suc n) [] = []
    take_memories (suc n) ((mem, _) ∷ xs) = mem ∷ take_memories n xs

    -- `none`: a limit below 0 makes the source panic.
    pub retrieve : SemanticMemory → List F → ℤ → Option (List Memory)
    unfolding score sort_scored take_memories
    retrieve sm embedding limit =
        let scored = score embedding sm.similarity_threshold sm.memories in
        elim limit [
          | pos n ↦ some (take_memories n (sort_scored (length scored) scored))
          | negsuc _ ↦ none
        ]
