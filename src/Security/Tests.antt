-- ===== src/Security/Tests.antt =====
-- Runs of the rate limiters and of the timeout manager. The bucket of the tests counts its tokens
-- down and never refills; waiting for a token takes one tick, and fails without one.
use aixgo.Common.{
  ℕ, zero, suc, ◌+◌, ◌≡◌, ◌≢◌, ◌↔◌, refl, List, [], ◌∷◌, Bool, true, false, Option, none, some,
  String, string_discrete, string_ne,
}
use aixgo.Common.Maps.{lookup, insert}
use aixgo.Security.Limiter.{LimiterPackage}
use aixgo.Security.RateLimiter
use aixgo.Security.RateLimiter.{RateLimiter, RateError, global_rate_limit}
use aixgo.Security.RateLimiter.Laws.{bucket, allow_buckets}

abbrev take_token : ℕ → Bool × ℕ
take_token zero = (false, 0)
take_token (suc n) = (true, n)

abbrev wait_token : ℕ → ℕ → ℕ × ℕ × Option (Unit {0})
wait_token zero w = (w, 0, some tt)
wait_token (suc n) w = (w + 1, n, none)

abbrev tokens : LimiterPackage
tokens = record {
  W = ℕ;
  Rate = Unit;
  Limiter = ℕ;
  WaitError = Unit;
  new_limiter = λ _ burst. burst;
  allow = λ l w. take_token l;
  wait = wait_token;
}

abbrev limiter : RateLimiter tokens
limiter = record {
  global_limiter = 3;
  client_limiters = ("ann", 1) ∷ [];
  requests_per_second = tt;
  burst = 2;
}

-- Two requests of a client with one token: the second is refused, though the common bucket has one.
second_refused :
    (RateLimiter.allow tokens (RateLimiter.allow tokens limiter "ann" 0).1 "ann" 0).0 ≡ false
unfolding RateLimiter.allow lookup insert string_discrete
second_refused = refl

bob_ne_ann : ◌≢◌ {A = String} "bob" "ann"
bob_ne_ann = string_ne "bob" "ann" refl

allow_buckets_example :
    let (ok, rl') = RateLimiter.allow tokens limiter "bob" 0 in
    ((ok ≡ true)
      ↔ (((take_token 3).0 ≡ true) × ((take_token (bucket tokens limiter "bob")).0 ≡ true)))
    × (rl'.global_limiter ≡ 2)
    × (lookup "bob" rl'.client_limiters ≡ some (take_token (bucket tokens limiter "bob")).1)
    × (lookup "ann" rl'.client_limiters ≡ lookup "ann" limiter.client_limiters)
allow_buckets_example = allow_buckets tokens limiter "bob" "ann" 0 bob_ne_ann

abbrev settings : List (String × ℕ)
settings = ("git", 5) ∷ ("shell", 7) ∷ ("git", 9) ∷ []
