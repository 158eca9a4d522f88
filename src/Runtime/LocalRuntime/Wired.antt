-- ===== src/Runtime/LocalRuntime/Wired.antt =====
-- The channels of a LocalRuntime: names lead to open channels of their own.
use aixgo.Common.{
  ℕ, ◌<◌, ◌≡◌, List, [], ◌∷◌, Option, none, some, String, string_discrete, ite, length, arith, refl,
}
use aixgo.Common.Maps.{Map, lookup, lookup-insert, lookup-delete, IsMap, insert-IsMap, delete-IsMap}
use aixgo.Runtime.Channels.{
  Channel, new_channel, get_bound, get-append, get-append_last, IsOpen, try_send-IsOpen,
  close_channel-IsOpen,
}
use aixgo.Runtime.LocalRuntime.{LocalRuntime, make_channel, drop_channel, post}

module _ (A M : Type 0) where
  -- Each name once; names lead to open channels, and two names never to the same one.
  pub record Wired (channels : Map ℕ) (heap : List (Channel M)) : Type 0 where
    pub keyed : IsMap channels
    pub open_channel : (n : String) (i : ℕ) → lookup n channels ≡ some i → IsOpen heap i
    pub apart :
        (n k : String) (i : ℕ) → lookup n channels ≡ some i → lookup k channels ≡ some i → n ≡ k

  Wired-bound :
      (channels : Map ℕ) (heap : List (Channel M)) (n : String) (i : ℕ)
      → Wired channels heap
      → lookup n channels ≡ some i
      → i < length heap
  Wired-bound channels heap n i v h =
      let (c, at, is_open) = v.open_channel n i h in get_bound i c heap at

  pub make_channel-Wired :
      (name : String) (r : LocalRuntime A M)
      → Wired r.channels r.heap
      → Wired (make_channel A M name r).channels (make_channel A M name r).heap
  unfolding make_channel
  make_channel-Wired name r v = record {
    keyed = insert-IsMap name (length r.heap) r.channels v.keyed;
    open_channel = λ n i h. elim (string_discrete name n) [
      | yes e ↦
          let last = get-append_last new_channel r.heap in
          let put = lookup-insert name n (length r.heap) r.channels in
          (new_channel, ground arith, refl)
      | no ne ↦
          let put = lookup-insert name n (length r.heap) r.channels in
          let (c, at, is_open) = v.open_channel n i (ground arith) in
          (c, get-append i c r.heap (new_channel ∷ []) at, is_open)
    ];
    apart = λ n k i h h'.
        let put = lookup-insert name n (length r.heap) r.channels in
        let put' = lookup-insert name k (length r.heap) r.channels in
        ground (
          arith,
          v.apart n k i,
          Wired-bound r.channels r.heap n i v,
          Wired-bound r.channels r.heap k i v,
        );
  }

  -- Taking a name away and closing its channel.
  pub drop_channel-Wired :
      (name : String) (r : LocalRuntime A M)
      → Wired r.channels r.heap
      → Wired (drop_channel A M name r).channels (drop_channel A M name r).heap
  unfolding drop_channel
  drop_channel-Wired name r v = by_lookup (lookup name r.channels) refl
    where
      by_lookup :
          (x : Option ℕ)
          → lookup name r.channels ≡ x
          → Wired (drop_channel A M name r).channels (drop_channel A M name r).heap
      by_lookup none e = rw (drop_channel, e) v
      by_lookup (some i) e =
          rw (drop_channel, e)
            (record {
              keyed = delete-IsMap name r.channels v.keyed;
              open_channel = λ n j h.
                  let gone = lookup-delete name n r.channels in
                  let old : lookup n r.channels ≡ some j = ground arith in
                  close_channel-IsOpen i j r.heap (λ same. ground (arith, v.apart name n i))
                    (v.open_channel n j old);
              apart = λ n k j h h'.
                  let gone = lookup-delete name n r.channels in
                  let gone' = lookup-delete name k r.channels in
                  v.apart n k j (ground arith) (ground arith);
            })

  pub post-Wired :
      (i : ℕ) (m : M) (r : LocalRuntime A M)
      → Wired r.channels r.heap
      → Wired (post A M i m r).0.channels (post A M i m r).0.heap
  unfolding post
  post-Wired i m r v = record {
    keyed = v.keyed;
    open_channel = λ n j h. try_send-IsOpen i j m r.heap (v.open_channel n j h);
    apart = v.apart;
  }

  pub lookup-make_channel :
      (name n : String) (r : LocalRuntime A M)
      → lookup n (make_channel A M name r).channels
        ≡ ite (string_discrete name n) (some (length r.heap)) (lookup n r.channels)
  unfolding make_channel
  lookup-make_channel name n r = lookup-insert name n (length r.heap) r.channels

  pub lookup-drop_channel :
      (name n : String) (r : LocalRuntime A M)
      → lookup n (drop_channel A M name r).channels
        ≡ ite (string_discrete name n) none (lookup n r.channels)
  unfolding drop_channel
  lookup-drop_channel name n r = ground (arith, lookup-delete name n r.channels)
