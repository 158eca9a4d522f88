-- ===== src/Runtime/LocalRuntime/Messages.antt =====
-- The mailbox of a name: what waits in its channel.
use aixgo.Common.{
  ℕ, ◌≡◌, inl, inr, List, [], ◌∷◌, ◌++◌, Option, none, some, String, string_discrete, ite, true,
  length, get_elem?, arith, refl, sym, ◌∙◌, Option-cases, ltb, if◌then◌else◌, Nodup, dec_mem, ◌∈◌,
}
use aixgo.Common.Maps.{Map, lookup, keys, lookup-insert, IsMap, mem_of_lookup, lookup-eq-some}
use aixgo.Runtime.Channels.{
  Sending, sent, full, panicked, new_channel, capacity, try_send-close_channel, get-try_send,
  try_send_open, get-append, get-append_last,
}
use aixgo.Runtime.LocalRuntime.{
  LocalRuntime, RuntimeError, make_channel, register, unregister, recv, post, send, find_channel,
  drop_channel, broadcast_to, broadcast,
}
use aixgo.Runtime.LocalRuntime.Valid.{
  IsValid, recv-IsValid, recv_finds, send-recv, send-IsValid, send_safe, broadcast_to-IsValid,
}

module _ (A M : Type 0) where
  -- What waits for a receiver of this name; nothing for a name with no channel.
  abbrev pub mailbox : LocalRuntime A M → String → List M
  mailbox r name = elim (lookup name r.channels) [
    | none ↦ []
    | some i ↦ elim (get_elem? r.heap i) [ none ↦ [] | some c ↦ c.buffer ]
  ]

  make_channel-mailbox :
      (name n : String) (r : LocalRuntime A M)
      → IsValid A M r
      → mailbox (make_channel A M name r) n ≡ ite (string_discrete name n) [] (mailbox r n)
  unfolding make_channel
  make_channel-mailbox name n r v = elim (Option-cases (lookup n r.channels)) [
    | inl e ↦
        ground (
          arith,
          lookup-insert name n (length r.heap) r.channels,
          get-append_last new_channel r.heap,
        )
    | inr (i, e) ↦
        let (c, at, is_open) = v.wired.open_channel n i e in
        ground (
          arith,
          lookup-insert name n (length r.heap) r.channels,
          get-append_last new_channel r.heap,
          get-append i c r.heap (new_channel ∷ []) at,
        )
  ]

  mailbox-recv :
      (source n : String) (r : LocalRuntime A M)
      → IsValid A M r
      → mailbox (recv A M source r).0 n ≡ mailbox r n
  unfolding recv
  mailbox-recv source n r v = ground (arith, make_channel-mailbox source n r v)

  mailbox-post :
      (target n : String) (i : ℕ) (m : M) (r : LocalRuntime A M)
      → IsValid A M r
      → lookup target r.channels ≡ some i
      → mailbox (post A M i m r).0 n
        ≡ ite
            (string_discrete target n)
            (if ltb (length (mailbox r target)) capacity
              then mailbox r target ++ m ∷ []
              else mailbox r target)
            (mailbox r n)
  unfolding post
  mailbox-post target n i m r v h = elim (Option-cases (lookup n r.channels)) [
    | inl e ↦ ground arith
    | inr (j, e) ↦
        let (c, at, is_open) = v.wired.open_channel n j e in
        ground (arith, get-try_send i j m r.heap c at, v.wired.apart target n i)
  ]

  -- On a valid runtime a send puts the message at the end of the target's mailbox if fewer than a
  -- hundred messages wait there, and else reports that it is full and changes no mailbox; no other
  -- mailbox changes.
  pub mailbox-send :
      (target n : String) (m : M) (r : LocalRuntime A M)
      → IsValid A M r
      → let (r', s) = send A M target m r in
        let box = mailbox r target in
        (s ≡ (if ltb (length box) capacity then sent else full))
        × (mailbox r' n
            ≡ ite
                (string_discrete target n)
                (if ltb (length box) capacity then box ++ m ∷ [] else box)
                (mailbox r n))
  mailbox-send target n m r v =
      let (r', i) = recv A M target r in
      let v' = recv-IsValid A M target r v in
      let found = recv_finds A M target r in
      let (c, at, is_open) = v'.wired.open_channel target i found in
      let same = mailbox-recv target target r v in
      let same' = mailbox-recv target n r v in
      let box : mailbox r' target ≡ c.buffer = ground arith in
      rw (send-recv A M target m r) (
        rw (sym same, sym same')
          (
            unfold post in ground (arith, try_send_open i m r'.heap c at is_open),
            mailbox-post target n i m r' v' found,
          ))

  -- A registration gives the name an empty mailbox, whatever waited there, and leaves the others.
  pub mailbox-register :
      (name n : String) (agent : A) (r : LocalRuntime A M)
      → IsValid A M r
      → lookup name r.agents ≡ none
      → mailbox (register A M name agent r).0 n ≡ ite (string_discrete name n) [] (mailbox r n)
  unfolding register
  mailbox-register name n agent r v h = ground (arith, make_channel-mailbox name n r v)

  -- Between the two steps of `Send` another goroutine may run: if it unregisters the target after its
  -- channel was found, the send panics, since `Unregister` has closed the channel.
  pub post-unregister :
      (target : String) (agent : A) (i : ℕ) (m : M) (r : LocalRuntime A M)
      → IsValid A M r
      → lookup target r.agents ≡ some agent
      → find_channel A M target r ≡ some i
      → (post A M i m (unregister A M target r).0).1 ≡ panicked
  unfolding post unregister drop_channel find_channel
  post-unregister target agent i m r v h found =
      ground (arith, try_send-close_channel i m r.heap (v.wired.open_channel target i found))

  -- What a message to the name leaves in its mailbox.
  abbrev pub grown : M → List M → List M
  grown m box = if ltb (length box) capacity then box ++ m ∷ [] else box

  mem_step :
      (t n : String) (targets : List String)
      → ¬ (t ∈ targets)
      → (f : List M → List M) (box box' : List M) → box' ≡ ite (string_discrete t n) (f box) box
      → ite (dec_mem n targets) (f box') box' ≡ ite (dec_mem n (t ∷ targets)) (f box) box
  unfolding dec_mem
  mem_step t n targets out f box box' h = elim (dec_mem n targets) [
    | yes m ↦ ground arith
    | no k ↦ ground arith
  ]

  sent_box :
      (t n : String) (m : M) (r : LocalRuntime A M)
      → IsValid A M r
      → mailbox (send A M t m r).0 n
        ≡ ite (string_discrete t n) (grown m (mailbox r n)) (mailbox r n)
  sent_box t n m r v = ground (arith, mailbox-send t n m r v)

  mailbox-broadcast_to :
      (targets : List String) (n : String) (m : M) (r : LocalRuntime A M) (e : Option RuntimeError)
      → Nodup targets
      → IsValid A M r
      → mailbox (broadcast_to A M targets m r e).0 n
        ≡ ite (dec_mem n targets) (grown m (mailbox r n)) (mailbox r n)
  unfolding broadcast_to dec_mem
  mailbox-broadcast_to [] n m r e d v = refl
  mailbox-broadcast_to (t ∷ targets) n m r e d v =
      by_sending (send A M t m r).1 refl (λ e'.
        mailbox-broadcast_to targets n m (send A M t m r).0 e' d.1 (send-IsValid A M t m r v))
    where
      step :
          ite
            (dec_mem n targets)
            (grown m (mailbox (send A M t m r).0 n))
            (mailbox (send A M t m r).0 n)
          ≡ ite (dec_mem n (t ∷ targets)) (grown m (mailbox r n)) (mailbox r n)
      step = mem_step t n targets d.0 (grown m) (mailbox r n) _ (sent_box t n m r v)

      by_sending :
          (s : Sending)
          → (send A M t m r).1 ≡ s
          → ((e' : Option RuntimeError)
              → mailbox (broadcast_to A M targets m (send A M t m r).0 e').0 n
                ≡ ite
                    (dec_mem n targets)
                    (grown m (mailbox (send A M t m r).0 n))
                    (mailbox (send A M t m r).0 n))
          → mailbox (broadcast_to A M (t ∷ targets) m r e).0 n
            ≡ ite (dec_mem n (t ∷ targets)) (grown m (mailbox r n)) (mailbox r n)
      by_sending sent q rest = rw (broadcast_to, q) (rest e ∙ step)
      by_sending full q rest = rw (broadcast_to, q) (rest _ ∙ step)
      by_sending panicked q rest = absurd (send_safe A M t m r v q)

  IsMap-Nodup : {V : Type 0} (c : Map V) → IsMap c → Nodup (keys c)
  IsMap-Nodup [] h = tt
  IsMap-Nodup ((k, x) ∷ c) h = (h.0, IsMap-Nodup c h.1)

  -- On a valid runtime a broadcast does not panic, and puts the message at the end of the mailbox of
  -- every name that has a channel and fewer than a hundred messages, registered or not; the other
  -- mailboxes stay as they were.
  pub mailbox-broadcast :
      (n : String) (m : M) (r : LocalRuntime A M)
      → IsValid A M r
      → ((broadcast A M m r).2 ≡ true)
        × (mailbox (broadcast A M m r).0 n
            ≡ (elim (lookup n r.channels) [ none ↦ [] | some _ ↦ grown m (mailbox r n) ]))
  unfolding broadcast
  mailbox-broadcast n m r v =
      let (v', returned) = broadcast_to-IsValid A M (keys r.channels) m r none v in
      let each =
        mailbox-broadcast_to (keys r.channels) n m r none (IsMap-Nodup r.channels v.wired.keyed)
          v in
      (
        returned,
        elim (Option-cases (lookup n r.channels)) [
          | inl e ↦ ground (arith, lookup-eq-some n r.channels)
          | inr (i, e) ↦ let mem = mem_of_lookup n r.channels i e in ground arith
        ],
      )
