-- ===== src/Security/RateLimiter/Laws.antt =====
-- Which buckets a request touches.
use aixgo.Common.{
  ◌≡◌, ◌≢◌, ◌↔◌, ◌⊎◌, true, if◌then◌else◌, none, some, String, arith, string_discrete, ite,
}
use aixgo.Common.Maps.{lookup, insert, lookup-insert}
use aixgo.Security.Limiter.{LimiterPackage}
use aixgo.Security.RateLimiter.{
  RateLimiter, global_rate_limit, get_client_limiter, allow, wait_client, wait,
}

module _ (p : LimiterPackage) where
  open p use {W, Limiter, new_limiter}

  -- The bucket that a client has, or gets at its first request.
  abbrev pub bucket : RateLimiter p → String → Limiter
  bucket rl client = elim (lookup client rl.client_limiters) [
    | some limiter ↦ limiter
    | none ↦ new_limiter rl.requests_per_second rl.burst
  ]

  put :
      (client other : String) (l : Limiter) (rl : RateLimiter p)
      → lookup other (insert client l rl.client_limiters)
        ≡ ite (string_discrete client other) (some l) (lookup other rl.client_limiters)
  put client other l rl = lookup-insert client other l rl.client_limiters

  get_client_limiter-bucket :
      (rl : RateLimiter p) (client other : String)
      → let (l, rl') = get_client_limiter p rl client in
        (l ≡ bucket rl client)
        × (rl'.global_limiter ≡ rl.global_limiter)
        × (client ≢ other → lookup other rl'.client_limiters ≡ lookup other rl.client_limiters)
  unfolding get_client_limiter
  get_client_limiter-bucket rl client other =
      ground (arith, put client other (new_limiter rl.requests_per_second rl.burst) rl)

  -- A request is allowed exactly when the common bucket and the client's own bucket both have a
  -- token. Every request uses the common bucket. Only a request that the common bucket lets through
  -- uses the client's bucket, or makes one; the buckets of other clients are left alone.
  pub allow_buckets :
      (rl : RateLimiter p) (client other : String) (w : W)
      → client ≢ other
      → let global = p.allow rl.global_limiter w in
        let own = p.allow (bucket rl client) w in
        let (ok, rl') = allow p rl client w in
        ((ok ≡ true) ↔ ((global.0 ≡ true) × (own.0 ≡ true)))
        × (rl'.global_limiter ≡ global.1)
        × (lookup client rl'.client_limiters
            ≡ (if global.0 then some own.1 else lookup client rl.client_limiters))
        × (lookup other rl'.client_limiters ≡ lookup other rl.client_limiters)
  unfolding allow
  allow_buckets rl client other w h =
      let global = p.allow rl.global_limiter w in
      let rl' : RateLimiter p = record rl { global_limiter = global.1 } in
      let (l, rl'') = get_client_limiter p rl' client in
      let used = (p.allow l w).1 in
      ground (
        arith,
        get_client_limiter-bucket rl' client other,
        put client other used rl'',
        put client client used rl'',
      )

  -- `Wait` waits on the common bucket first. If that fails, no client bucket is made or used, and
  -- the error is the common one; otherwise it waits on the client's own bucket, which is kept, and
  -- succeeds or fails with that. The buckets of other clients are left alone.
  pub wait_buckets :
      (rl : RateLimiter p) (client other : String) (w : W)
      → client ≢ other
      → let (w₁, global, e) = p.wait rl.global_limiter w in
        let (w₂, own, e') = p.wait (bucket rl client) w₁ in
        let (after, rl', result) = wait p rl client w in
        (rl'.global_limiter ≡ global)
        × (lookup other rl'.client_limiters ≡ lookup other rl.client_limiters)
        × (((e ≡ none)
              × (after ≡ w₂)
              × (lookup client rl'.client_limiters ≡ some own)
              × ((result ≡ none) ↔ (e' ≡ none)))
            ⊎ ((e ≢ none)
                × (after ≡ w₁)
                × (rl'.client_limiters ≡ rl.client_limiters)
                × (result ≡ elim e [ none ↦ none | some x ↦ some (global_rate_limit x) ])))
  unfolding wait wait_client
  wait_buckets rl client other w h =
      let (w₁, global, e) = p.wait rl.global_limiter w in
      let rl' : RateLimiter p = record rl { global_limiter = global } in
      let (l, rl'') = get_client_limiter p rl' client in
      let used = (p.wait l w₁).1 in
      ground (
        arith,
        get_client_limiter-bucket rl' client other,
        put client other used rl'',
        put client client used rl'',
      )
