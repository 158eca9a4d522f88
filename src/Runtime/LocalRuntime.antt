-- ===== src/Runtime/LocalRuntime.antt =====
-- LocalRuntime of agent/local_runtime.go: agents by name, a channel for each name that was ever used,
-- and the order of registration. `heap` holds the channels made so far, also those that the runtime
-- has let go of: a receiver may still hold one. Each part of a method under the lock is a step. An agent
-- is registered under its own name, which `register` is given beside it.
pub mod Wired
pub mod Valid
pub mod Messages
mod Tests
use aixgo.Common.{
  ℕ, List, [], ◌∷◌, ◌++◌, Option, none, some, String, string_discrete, ite, Bool, true, false,
  length,
}
use aixgo.Common.Maps.{Map, lookup, insert, delete, keys}
use aixgo.Runtime.Channels.{
  Channel, Sending, sent, full, panicked, try_send, close_channel, new_channel,
}

pub data RuntimeError : Type 0 where
  already_registered agent_not_found agent_not_ready channel_full : String → RuntimeError
  already_started not_started : RuntimeError

module _ (A M : Type 0) where
  pub record LocalRuntime : Type 0 where
    pub agents : Map A
    pub channels : Map ℕ
    pub order : List String
    pub started : Bool
    pub heap : List (Channel M)

  pub new_local_runtime : LocalRuntime
  new_local_runtime = record { agents = []; channels = []; order = []; started = false; heap = [] }

  -- A new channel under this name, in place of the one that may be there.
  pub make_channel : String → LocalRuntime → LocalRuntime
  make_channel name r = record r {
    channels = insert name (length r.heap) r.channels;
    heap = r.heap ++ new_channel ∷ [];
  }

  pub register : String → A → LocalRuntime → LocalRuntime × Option RuntimeError
  unfolding make_channel
  register name agent r = elim (lookup name r.agents) [
    | some _ ↦ (r, some (already_registered name))
    | none ↦ (
      record (make_channel name r) {
        agents = insert name agent r.agents;
        order = r.order ++ name ∷ [];
      },
      none,
    )
  ]

  -- The first place of the name is taken out of the order.
  remove_first : String → List String → List String
  remove_first name [] = []
  remove_first name (n ∷ rest) = ite (string_discrete n name) rest (n ∷ remove_first name rest)

  pub drop_channel : String → LocalRuntime → LocalRuntime
  unfolding close_channel
  drop_channel name r = elim (lookup name r.channels) [
    | none ↦ r
    | some i ↦ record r { channels = delete name r.channels; heap = close_channel i r.heap }
  ]

  pub unregister : String → LocalRuntime → LocalRuntime × Option RuntimeError
  unfolding drop_channel remove_first
  unregister name r = elim (lookup name r.agents) [
    | none ↦ (r, some (agent_not_found name))
    | some _ ↦ (
      record (drop_channel name (record r { agents = delete name r.agents })) {
        order = remove_first name r.order;
      },
      none,
    )
  ]

  pub get : String → LocalRuntime → Option A
  get name r = lookup name r.agents

  pub list : LocalRuntime → List String
  list r = r.order

  -- The first look of `Send`, under the read lock.
  pub find_channel : String → LocalRuntime → Option ℕ
  find_channel target r = lookup target r.channels

  -- The second one, under the lock, and all of `Recv`.
  pub recv : String → LocalRuntime → LocalRuntime × ℕ
  unfolding make_channel
  recv source r = elim (lookup source r.channels) [
    | some i ↦ (r, i)
    | none ↦ (make_channel source r, length r.heap)
  ]

  -- The send itself, which is under no lock.
  pub post : ℕ → M → LocalRuntime → LocalRuntime × Sending
  unfolding try_send
  post i m r = let (heap, s) = try_send i m r.heap in (record r { heap = heap }, s)

  pub send : String → M → LocalRuntime → LocalRuntime × Sending
  unfolding find_channel recv post
  send target m r = elim (find_channel target r) [
    | some i ↦ post i m r
    | none ↦ let (r', i) = recv target r in post i m r'
  ]

  -- The loop of `Broadcast`: a full channel gives the error, if it is the first one.
  pub broadcast_to :
      List String
      → M
      → LocalRuntime
      → Option RuntimeError
      → LocalRuntime × Option RuntimeError × Bool
  unfolding send
  broadcast_to [] m r first = (r, first, true)
  broadcast_to (target ∷ targets) m r first =
      let (r', s) = send target m r in
      elim s [
        | sent ↦ broadcast_to targets m r' first
        | full ↦
            broadcast_to targets m r'
              (elim first [ some e ↦ some e | none ↦ some (channel_full target) ])
        | panicked ↦ (r', first, false)
      ]

  -- The Boolean is false if a send panicked.
  pub broadcast : M → LocalRuntime → LocalRuntime × Option RuntimeError × Bool
  unfolding broadcast_to
  broadcast m r = broadcast_to (keys r.channels) m r none
