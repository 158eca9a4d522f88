-- ===== src/Security/RateLimiter.antt =====
-- RateLimiter of pkg/security/ratelimit.go: one token bucket for all requests, and one for each
-- client, made at the client's first request that the common bucket lets through. The limiters
-- are shared pointers in the source; here the map is written after each use of one.
pub mod Laws
use aixgo.Common.{ℕ, if◌then◌else◌, Bool, true, false, [], Option, none, some, String}
use aixgo.Common.Maps.{Map, lookup, insert}
use aixgo.Security.Limiter.{LimiterPackage}

pub data RateError (E : Type 0) : Type 0 where
  global_rate_limit : E → RateError E
  client_rate_limit : E → RateError E

module _ (p : LimiterPackage) where
  open p use {W, Rate, Limiter, WaitError, new_limiter}

  pub record RateLimiter : Type 0 where
    pub global_limiter : Limiter
    pub client_limiters : Map Limiter
    pub requests_per_second : Rate
    pub burst : ℕ

  pub new_rate_limiter : Rate → ℕ → RateLimiter
  new_rate_limiter requests_per_second burst = record {
    global_limiter = new_limiter requests_per_second burst;
    client_limiters = [];
    requests_per_second = requests_per_second;
    burst = burst;
  }

  -- The client's limiter, and the map, which holds it from now on.
  get_client_limiter : RateLimiter → String → Limiter × RateLimiter
  get_client_limiter rl client = elim (lookup client rl.client_limiters) [
    | some limiter ↦ (limiter, rl)
    | none ↦
        let limiter = new_limiter rl.requests_per_second rl.burst in
        (limiter, record rl { client_limiters = insert client limiter rl.client_limiters })
  ]

  unfoldable pub allow : RateLimiter → String → W → Bool × RateLimiter
  unfolding get_client_limiter
  allow rl client w =
      let (ok, global) = p.allow rl.global_limiter w in
      let rl' = record rl { global_limiter = global } in
      if ok
      then (let (limiter, rl'') = get_client_limiter rl' client in
          let (ok', limiter') = p.allow limiter w in
          (ok', record rl'' { client_limiters = insert client limiter' rl''.client_limiters }))
      else (false, rl')

  wait_client : RateLimiter → String → W → W × RateLimiter × Option (RateError WaitError)
  unfolding get_client_limiter
  wait_client rl client w =
      let (limiter, rl') = get_client_limiter rl client in
      let (w', limiter', e) = p.wait limiter w in
      let rl'' = record rl' { client_limiters = insert client limiter' rl'.client_limiters } in
      (w', rl'', elim e [ none ↦ none | some x ↦ some (client_rate_limit x) ])

  pub wait : RateLimiter → String → W → W × RateLimiter × Option (RateError WaitError)
  unfolding wait_client
  wait rl client w =
      let (w', global, e) = p.wait rl.global_limiter w in
      let rl' = record rl { global_limiter = global } in
      elim e [ none ↦ wait_client rl' client w' | some x ↦ (w', rl', some (global_rate_limit x)) ]
