-- ===== src/Security/ToolRateLimiter.antt =====
-- ToolRateLimiter of pkg/security/ratelimit.go: a token bucket for each tool that has been given
-- one; a tool without one is not limited.
pub mod Laws
use aixgo.Common.{ℕ, Bool, true, [], Option, none, some, String}
use aixgo.Common.Maps.{Map, lookup, insert}
use aixgo.Security.Limiter.{LimiterPackage}

module _ (p : LimiterPackage) where
  open p use {W, Rate, Limiter, WaitError, new_limiter}

  pub record ToolRateLimiter : Type 0 where
    pub tool_limiters : Map Limiter

  pub new_tool_rate_limiter : ToolRateLimiter
  new_tool_rate_limiter = record { tool_limiters = [] }

  pub set_tool_limit : ToolRateLimiter → String → Rate → ℕ → ToolRateLimiter
  set_tool_limit trl tool requests_per_second burst = record {
    tool_limiters = insert tool (new_limiter requests_per_second burst) trl.tool_limiters;
  }

  pub allow_tool : ToolRateLimiter → String → W → Bool × ToolRateLimiter
  allow_tool trl tool w = elim (lookup tool trl.tool_limiters) [
    | none ↦ (true, trl)
    | some limiter ↦
        let (ok, limiter') = p.allow limiter w in
        (ok, record { tool_limiters = insert tool limiter' trl.tool_limiters })
  ]

  pub wait_tool : ToolRateLimiter → String → W → W × ToolRateLimiter × Option WaitError
  wait_tool trl tool w = elim (lookup tool trl.tool_limiters) [
    | none ↦ (w, trl, none)
    | some limiter ↦
        let (w', limiter', e) = p.wait limiter w in
        (w', record { tool_limiters = insert tool limiter' trl.tool_limiters }, e)
  ]
