-- ===== src/Runtime/LocalRuntime/Tests.antt =====
-- A runtime of two agents, whose messages are numbers.
use aixgo.Common.{ℕ, ◌≡◌, refl, List, [], ◌∷◌, none, some, string_discrete, true}
use aixgo.Common.Maps.{lookup, insert, delete}
use aixgo.Runtime.Channels.{sent, panicked, try_send, close_channel, set_at}
use aixgo.Runtime.LocalRuntime.{
  LocalRuntime, new_local_runtime, register, unregister, recv, post, send, find_channel, broadcast,
  list,
}
use aixgo.Runtime.LocalRuntime.Valid.{
  IsValid, Call, calls_register, calls_send, calls_broadcast, apply_all, apply_all-IsValid,
}
use aixgo.Runtime.LocalRuntime.Messages.{
  mailbox, mailbox-send, mailbox-register, post-unregister, mailbox-broadcast,
}

abbrev history : List (Call ℕ ℕ)
history =
    calls_send "b" 7
    ∷ calls_register "a" 1
    ∷ calls_register "b" 2
    ∷ calls_send "a" 5
    ∷ calls_broadcast 9
    ∷ []

abbrev reached : LocalRuntime ℕ ℕ
reached = (apply_all ℕ ℕ history (new_local_runtime ℕ ℕ)).0

reached-IsValid : IsValid ℕ ℕ reached
reached-IsValid = (apply_all-IsValid ℕ ℕ history).0

program : Unit {0}
unfolding new_local_runtime register unregister recv post send find_channel broadcast list lookup
    insert delete string_discrete try_send close_channel set_at
program = tt

-- The message that was sent to `b` before its registration is gone.
mailboxes : (mailbox ℕ ℕ reached "a" ≡ 5 ∷ 9 ∷ []) × (mailbox ℕ ℕ reached "b" ≡ 9 ∷ [])
unfolding program
mailboxes = (refl, refl)

apply_all-IsValid_example :
    IsValid ℕ ℕ (apply_all ℕ ℕ history (new_local_runtime ℕ ℕ)).0
    × ((apply_all ℕ ℕ history (new_local_runtime ℕ ℕ)).1 ≡ true)
apply_all-IsValid_example = apply_all-IsValid ℕ ℕ history

mailbox-send_example :
    ((send ℕ ℕ "a" 6 reached).1 ≡ sent)
    × (mailbox ℕ ℕ (send ℕ ℕ "a" 6 reached).0 "a" ≡ 5 ∷ 9 ∷ 6 ∷ [])
unfolding program
mailbox-send_example = mailbox-send ℕ ℕ "a" "a" 6 reached reached-IsValid

no_agent : lookup "c" reached.agents ≡ none
unfolding program
no_agent = refl

mailbox-register_example : mailbox ℕ ℕ (register ℕ ℕ "c" 3 reached).0 "c" ≡ []
unfolding program
mailbox-register_example = mailbox-register ℕ ℕ "c" "c" 3 reached reached-IsValid no_agent

an_agent : lookup "a" reached.agents ≡ some 1
unfolding program
an_agent = refl

a_channel : find_channel ℕ ℕ "a" reached ≡ some 1
unfolding program
a_channel = refl

post-unregister_example : (post ℕ ℕ 1 6 (unregister ℕ ℕ "a" reached).0).1 ≡ panicked
post-unregister_example = post-unregister ℕ ℕ "a" 1 1 6 reached reached-IsValid an_agent a_channel

mailbox-broadcast_example :
    ((broadcast ℕ ℕ 4 reached).2 ≡ true)
    × (mailbox ℕ ℕ (broadcast ℕ ℕ 4 reached).0 "b" ≡ 9 ∷ 4 ∷ [])
unfolding program
mailbox-broadcast_example = mailbox-broadcast ℕ ℕ "b" 4 reached reached-IsValid
