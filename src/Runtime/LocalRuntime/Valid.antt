-- ===== src/Runtime/LocalRuntime/Valid.antt =====
-- What holds of a LocalRuntime between two calls.
use aixgo.Common.{
  ℕ, ◌≡◌, ◌≢◌, ◌↔◌, List, [], ◌∷◌, ◌++◌, Option, none, some, String, Bool, true, false, ◌∈◌, Nodup,
  ∈-append_left, ∈-append_right, ∈-append, arith, refl, ◌&&◌,
}
use aixgo.Common.Maps.{lookup, delete, keys, lookup-insert, lookup-delete}
use aixgo.Runtime.Channels.{Sending, sent, full, panicked, try_send_open}
use aixgo.Runtime.LocalRuntime.{
  LocalRuntime, RuntimeError, new_local_runtime, register, remove_first, drop_channel, unregister,
  recv, post, send, find_channel, broadcast, broadcast_to,
}
use aixgo.Runtime.LocalRuntime.Wired.{
  Wired, make_channel-Wired, drop_channel-Wired, post-Wired, lookup-make_channel,
  lookup-drop_channel,
}

module _ (A M : Type 0) where
  -- The order lists exactly the registered agents, each once, and each has a channel.
  pub record IsValid (r : LocalRuntime A M) : Type 0 where
    pub each_once : Nodup r.order
    pub listed : (n : String) → (n ∈ r.order) ↔ (lookup n r.agents ≢ none)
    pub has_channel : (n : String) → n ∈ r.order → lookup n r.channels ≢ none
    pub wired : Wired A M r.channels r.heap

  remove_first-mem :
      (name n : String) (o : List String)
      → Nodup o
      → (n ∈ remove_first A M name o) ↔ ((n ∈ o) × (n ≢ name))
  unfolding remove_first
  remove_first-mem name n [] h = ground arith
  remove_first-mem name n (x ∷ o) h = ground (arith, remove_first-mem name n o h.1)

  remove_first-Nodup : (name : String) (o : List String) → Nodup o → Nodup (remove_first A M name o)
  unfolding remove_first
  remove_first-Nodup name [] h = h
  remove_first-Nodup name (x ∷ o) h =
      ground (arith, remove_first-mem name x o h.1, remove_first-Nodup name o h.1)

  append-Nodup : (name : String) (o : List String) → Nodup o → ¬ (name ∈ o) → Nodup (o ++ name ∷ [])
  append-Nodup name [] h n = ground arith
  append-Nodup name (x ∷ o) h n = ground (arith, append-Nodup name o h.1, ∈-append x o (name ∷ []))

  pub register-IsValid :
      (name : String) (agent : A) (r : LocalRuntime A M)
      → IsValid r
      → IsValid (register A M name agent r).0
  unfolding register
  register-IsValid name agent r v = by_lookup (lookup name r.agents) refl
    where
      by_lookup : (x : Option A) → lookup name r.agents ≡ x → IsValid (register A M name agent r).0
      by_lookup (some _) e = rw (register, e) v
      by_lookup none e =
          rw (register, e)
            (record {
              each_once =
                  append-Nodup name r.order v.each_once (λ m. ground (arith, v.listed name));
              listed = λ n.
                  let put = lookup-insert name n agent r.agents in
                  ground (
                    arith,
                    v.listed n,
                    ∈-append n r.order (name ∷ []),
                    ∈-append_left n r.order (name ∷ []),
                    ∈-append_right n r.order (name ∷ []),
                  );
              has_channel = λ n h. ground (
                arith,
                lookup-make_channel A M name n r,
                ∈-append n r.order (name ∷ []),
                v.has_channel n,
              );
              wired = make_channel-Wired A M name r v.wired;
            })

  pub unregister-IsValid :
      (name : String) (r : LocalRuntime A M) → IsValid r → IsValid (unregister A M name r).0
  unfolding unregister
  unregister-IsValid name r v = by_lookup (lookup name r.agents) refl
    where
      by_lookup : (x : Option A) → lookup name r.agents ≡ x → IsValid (unregister A M name r).0
      by_lookup none e = rw (unregister, e) v
      by_lookup (some _) e =
          rw (unregister, e)
            (record {
              each_once = remove_first-Nodup name r.order v.each_once;
              listed = λ n.
                  let gone = lookup-delete name n r.agents in
                  let r' = record r { agents = delete name r.agents } in
                  let kept : (drop_channel A M name r').agents ≡ delete name r.agents =
                    ground arith in
                  ground (arith, v.listed n, remove_first-mem name n r.order v.each_once);
              has_channel = λ n h. ground (
                arith,
                lookup-drop_channel A M name n (record r { agents = delete name r.agents }),
                remove_first-mem name n r.order v.each_once,
                v.has_channel n,
              );
              wired =
                  drop_channel-Wired A M name (record r { agents = delete name r.agents }) v.wired;
            })

  pub recv-IsValid :
      (source : String) (r : LocalRuntime A M) → IsValid r → IsValid (recv A M source r).0
  unfolding recv
  recv-IsValid source r v = by_lookup (lookup source r.channels) refl
    where
      by_lookup : (x : Option ℕ) → lookup source r.channels ≡ x → IsValid (recv A M source r).0
      by_lookup (some _) e = rw (recv, e) v
      by_lookup none e =
          rw (recv, e)
            (record {
              each_once = v.each_once;
              listed = v.listed;
              has_channel =
                  λ n h. ground (arith, lookup-make_channel A M source n r, v.has_channel n);
              wired = make_channel-Wired A M source r v.wired;
            })

  post-IsValid : (i : ℕ) (m : M) (r : LocalRuntime A M) → IsValid r → IsValid (post A M i m r).0
  post-IsValid i m r v = record {
    each_once = unfold post in v.each_once;
    listed = unfold post in v.listed;
    has_channel = unfold post in v.has_channel;
    wired = post-Wired A M i m r v.wired;
  }

  pub send-recv :
      (target : String) (m : M) (r : LocalRuntime A M)
      → send A M target m r ≡ post A M (recv A M target r).1 m (recv A M target r).0
  unfolding send find_channel recv
  send-recv target m r = ground arith

  pub send-IsValid :
      (target : String) (m : M) (r : LocalRuntime A M) → IsValid r → IsValid (send A M target m r).0
  send-IsValid target m r v =
      rw (send-recv target m r) (post-IsValid _ m _ (recv-IsValid target r v))

  -- `Recv` answers with the channel that the name has from then on.
  pub recv_finds :
      (source : String) (r : LocalRuntime A M)
      → lookup source (recv A M source r).0.channels ≡ some (recv A M source r).1
  unfolding recv
  recv_finds source r = ground (arith, lookup-make_channel A M source source r)

  -- No send panics on a valid runtime, since the channel that it finds is open.
  pub send_safe :
      (target : String) (m : M) (r : LocalRuntime A M)
      → IsValid r
      → (send A M target m r).1 ≢ panicked
  send_safe target m r v =
      let (r', i) = recv A M target r in
      let v' = recv-IsValid target r v in
      let (c, at, is_open) = v'.wired.open_channel target i (recv_finds target r) in
      rw (send-recv target m r)
        (unfold post in ground (arith, try_send_open i m r'.heap c at is_open))

  pub broadcast_to-IsValid :
      (targets : List String) (m : M) (r : LocalRuntime A M) (e : Option RuntimeError)
      → IsValid r
      → IsValid (broadcast_to A M targets m r e).0 × ((broadcast_to A M targets m r e).2 ≡ true)
  unfolding broadcast_to
  broadcast_to-IsValid [] m r e v = (v, refl)
  broadcast_to-IsValid (t ∷ targets) m r e v =
      by_sending (send A M t m r).1 refl
        (λ e'. broadcast_to-IsValid targets m (send A M t m r).0 e' (send-IsValid t m r v))
    where
      by_sending :
          (s : Sending)
          → (send A M t m r).1 ≡ s
          → ((e' : Option RuntimeError)
              → IsValid (broadcast_to A M targets m (send A M t m r).0 e').0
                × ((broadcast_to A M targets m (send A M t m r).0 e').2 ≡ true))
          → IsValid (broadcast_to A M (t ∷ targets) m r e).0
            × ((broadcast_to A M (t ∷ targets) m r e).2 ≡ true)
      by_sending sent q rest = rw (broadcast_to, q) (rest e)
      by_sending full q rest = rw (broadcast_to, q) (rest _)
      by_sending panicked q rest = absurd (send_safe t m r v q)

  new_local_runtime-IsValid : IsValid (new_local_runtime A M)
  unfolding new_local_runtime lookup
  new_local_runtime-IsValid = record {
    each_once = tt;
    listed = λ n. ground arith;
    has_channel = λ n h. absurd h;
    wired = record { keyed = tt; open_channel = λ n i h. cc; apart = λ n k i h h'. cc };
  }

  -- The calls that change the agents or the channels.
  pub data Call : Type 0 where
    calls_register : String → A → Call
    calls_unregister calls_recv : String → Call
    calls_send : String → M → Call
    calls_broadcast : M → Call

  -- The runtime after a call, and whether the call returned: a panic does not.
  abbrev pub apply : Call → LocalRuntime A M → LocalRuntime A M × Bool
  apply (calls_register name agent) r = ((register A M name agent r).0, true)
  apply (calls_unregister name) r = ((unregister A M name r).0, true)
  apply (calls_recv name) r = ((recv A M name r).0, true)
  apply (calls_send name m) r =
      let (r', s) = send A M name m r in
      (r', elim s [ sent ↦ true | full ↦ true | panicked ↦ false ])
  apply (calls_broadcast m) r = let (r', e, returned) = broadcast A M m r in (r', returned)

  abbrev pub apply_all : List Call → LocalRuntime A M → LocalRuntime A M × Bool
  apply_all [] r = (r, true)
  apply_all (c ∷ cs) r =
      let (r', returned) = apply c r in
      let (r'', others) = apply_all cs r' in (r'', returned && others)

  apply-IsValid :
      (c : Call) (r : LocalRuntime A M) → IsValid r → IsValid (apply c r).0 × ((apply c r).1 ≡ true)
  unfolding broadcast
  apply-IsValid (calls_register name agent) r v = (register-IsValid name agent r v, refl)
  apply-IsValid (calls_unregister name) r v = (unregister-IsValid name r v, refl)
  apply-IsValid (calls_recv name) r v = (recv-IsValid name r v, refl)
  apply-IsValid (calls_send name m) r v =
      (send-IsValid name m r v, ground (arith, send_safe name m r v))
  apply-IsValid (calls_broadcast m) r v = broadcast_to-IsValid (keys r.channels) m r none v

  apply_all-IsValid_from :
      (cs : List Call) (r : LocalRuntime A M)
      → IsValid r
      → IsValid (apply_all cs r).0 × ((apply_all cs r).1 ≡ true)
  apply_all-IsValid_from [] r v = (v, refl)
  apply_all-IsValid_from (c ∷ cs) r v =
      let (v', returned) = apply-IsValid c r v in
      let (v'', others) = apply_all-IsValid_from cs (apply c r).0 v' in (v'', ground arith)

  -- After any sequence of whole calls of a new runtime, none of which panicked, the order lists
  -- exactly the registered agents, each once; each of them has a channel; and the names lead to open
  -- channels, no two to the same one.
  pub apply_all-IsValid :
      (cs : List Call)
      → IsValid (apply_all cs (new_local_runtime A M)).0
        × ((apply_all cs (new_local_runtime A M)).1 ≡ true)
  apply_all-IsValid cs = apply_all-IsValid_from cs (new_local_runtime A M) new_local_runtime-IsValid
