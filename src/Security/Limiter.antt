-- ===== src/Security/Limiter.antt =====
-- golang.org/x/time/rate, as far as pkg/security/ratelimit.go uses it: a token bucket with its two
-- operations, which read the clock and the context off a world `W`.
use aixgo.Common.{ℕ, Bool, Option}

pub record LimiterPackage : Type 1 where
  pub W : Type 0
  pub Rate : Type 0
  pub Limiter : Type 0
  pub WaitError : Type 0
  pub new_limiter : Rate → ℕ → Limiter
  -- `Allow` takes a token if there is one, and says whether it did.
  pub allow : Limiter → W → Bool × Limiter
  -- `Wait` lets time pass, and takes a token unless the context ends first.
  pub wait : Limiter → W → W × Limiter × Option WaitError
