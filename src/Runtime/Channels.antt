-- ===== src/Runtime/Channels.antt =====
-- Go channels as far as the runtime uses them: buffers of bounded length that are shared by
-- reference. A reference is a place in the list of all channels made so far.
use aixgo.Common.{
  ℕ, zero, suc, ◌<◌, ◌≡◌, ◌≢◌, ltb, if◌then◌else◌, List, [], ◌∷◌, ◌++◌, none, some, Bool, true,
  false, length, get_elem?, arith, refl, ite, ℕ_discrete, Option-cases, inl, inr,
}

pub record Channel (M : Type 0) : Type 0 where
  pub buffer : List M
  pub closed : Bool

-- How a send that must not block ends; a send on a closed channel panics.
pub data Sending : Type 0 where
  sent full panicked : Sending

module _ {A : Type 0} where
  unfoldable pub set_at : ℕ → A → List A → List A
  set_at i x [] = []
  set_at zero x (y ∷ ys) = x ∷ ys
  set_at (suc i) x (y ∷ ys) = y ∷ set_at i x ys

  pub get-set_at_self :
      (i : ℕ) (x y : A) (xs : List A)
      → get_elem? xs i ≡ some y
      → get_elem? (set_at i x xs) i ≡ some x
  unfolding set_at
  get-set_at_self i x y [] h = cc
  get-set_at_self zero x y (z ∷ xs) h = refl
  get-set_at_self (suc i) x y (z ∷ xs) h = get-set_at_self i x y xs h

  pub get-set_at_ne :
      (i j : ℕ) (x : A) (xs : List A) → i ≢ j → get_elem? (set_at i x xs) j ≡ get_elem? xs j
  unfolding set_at
  get-set_at_ne i j x [] h = refl
  get-set_at_ne zero zero x (z ∷ xs) h = absurd (h refl)
  get-set_at_ne zero (suc j) x (z ∷ xs) h = refl
  get-set_at_ne (suc i) zero x (z ∷ xs) h = refl
  get-set_at_ne (suc i) (suc j) x (z ∷ xs) h = get-set_at_ne i j x xs (λ e. h (ground arith))

  pub get_bound : (i : ℕ) (y : A) (xs : List A) → get_elem? xs i ≡ some y → i < length xs
  get_bound i y [] h = cc
  get_bound zero y (z ∷ xs) h = omega arith
  get_bound (suc i) y (z ∷ xs) h = omega (arith, get_bound i y xs h)

  pub get-append :
      (i : ℕ) (y : A) (xs ys : List A) → get_elem? xs i ≡ some y → get_elem? (xs ++ ys) i ≡ some y
  get-append i y [] ys h = cc
  get-append zero y (z ∷ xs) ys h = h
  get-append (suc i) y (z ∷ xs) ys h = get-append i y xs ys h

  pub get-append_last : (y : A) (xs : List A) → get_elem? (xs ++ y ∷ []) (length xs) ≡ some y
  get-append_last y [] = refl
  get-append_last y (z ∷ xs) = get-append_last y xs

-- `make(chan *Message, 100)`
abbrev pub capacity : ℕ
capacity = 100

module _ {M : Type 0} where
  abbrev pub new_channel : Channel M
  new_channel = record { buffer = []; closed = false }

  -- `select { case ch <- msg: … default: … }`
  unfoldable pub try_send : ℕ → M → List (Channel M) → List (Channel M) × Sending
  unfolding set_at
  try_send i m heap = elim (get_elem? heap i) [
    | none ↦ (heap, full)
    | some c ↦
        if c.closed
        then (heap, panicked)
        else (if ltb (length c.buffer) capacity
            then (set_at i (record c { buffer = c.buffer ++ m ∷ [] }) heap, sent)
            else (heap, full))
  ]

  unfoldable pub close_channel : ℕ → List (Channel M) → List (Channel M)
  unfolding set_at
  close_channel i heap = elim (get_elem? heap i) [
    | none ↦ heap
    | some c ↦ set_at i (record c { closed = true }) heap
  ]

  -- The channel at this place is open.
  abbrev pub IsOpen : List (Channel M) → ℕ → Type 0
  IsOpen heap i = (c : Channel M) × (get_elem? heap i ≡ some c) × (c.closed ≡ false)

  -- What a send does to the channel at any place.
  pub get-try_send :
      (i j : ℕ) (m : M) (heap : List (Channel M)) (c : Channel M)
      → get_elem? heap j ≡ some c
      → get_elem? (try_send i m heap).0 j
        ≡ some (
            ite
              (ℕ_discrete i j)
              (if c.closed
                then c
                else (if ltb (length c.buffer) capacity
                    then record c { buffer = c.buffer ++ m ∷ [] }
                    else c))
              c)
  unfolding try_send
  get-try_send i j m heap c at = elim (ℕ_discrete i j) [
    | yes e ↦
        let c' : Channel M = record c { buffer = c.buffer ++ m ∷ [] } in
        let put = get-set_at_self i c' c heap in ground arith
    | no ne ↦ elim (Option-cases (get_elem? heap i)) [
      | inl n ↦ ground arith
      | inr (d, at') ↦
          let put = get-set_at_ne i j (record d { buffer = d.buffer ++ m ∷ [] }) heap ne in
          ground arith
    ]
  ]

  pub try_send-IsOpen :
      (i j : ℕ) (m : M) (heap : List (Channel M)) → IsOpen heap j → IsOpen (try_send i m heap).0 j
  try_send-IsOpen i j m heap (c, at, is_open) = (_, get-try_send i j m heap c at, ground arith)

  pub close_channel-IsOpen :
      (i j : ℕ) (heap : List (Channel M)) → i ≢ j → IsOpen heap j → IsOpen (close_channel i heap) j
  unfolding close_channel
  close_channel-IsOpen i j heap ne (c, at, is_open) = elim (Option-cases (get_elem? heap i)) [
    | inl n ↦ (c, ground arith, is_open)
    | inr (d, at') ↦
        let put = get-set_at_ne i j (record d { closed = true }) heap ne in
        (c, ground arith, is_open)
  ]

  -- A send to an open channel is refused only for lack of room.
  pub try_send_open :
      (i : ℕ) (m : M) (heap : List (Channel M)) (c : Channel M)
      → get_elem? heap i ≡ some c
      → c.closed ≡ false
      → (try_send i m heap).1 ≡ (if ltb (length c.buffer) capacity then sent else full)
  unfolding try_send
  try_send_open i m heap c at is_open = ground arith

  -- A send to a channel that has been closed panics.
  pub try_send-close_channel :
      (i : ℕ) (m : M) (heap : List (Channel M))
      → IsOpen heap i
      → (try_send i m (close_channel i heap)).1 ≡ panicked
  unfolding try_send close_channel
  try_send-close_channel i m heap (c, at, is_open) =
      let put = get-set_at_self i (record c { closed = true }) c heap at in ground arith
