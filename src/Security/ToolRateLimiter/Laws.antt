-- ===== src/Security/ToolRateLimiter/Laws.antt =====
-- What a limit on one tool means for that tool and for the others.
use aixgo.Common.{ℕ, ◌≡◌, ◌≢◌, some, String, arith}
use aixgo.Common.Maps.{lookup, insert, lookup-insert}
use aixgo.Security.Limiter.{LimiterPackage}
use aixgo.Security.ToolRateLimiter.{ToolRateLimiter, set_tool_limit, allow_tool}

module _ (p : LimiterPackage) where
  open p use {W, Rate, new_limiter}

  -- After a limit is set on a tool, that tool is answered by a new bucket, and what the bucket
  -- becomes is kept; another tool is answered as before.
  pub allow_tool-set_tool_limit :
      (trl : ToolRateLimiter p) (tool other : String) (rate : Rate) (burst : ℕ) (w : W)
      → tool ≢ other
      → let limited = set_tool_limit p trl tool rate burst in
        let first = p.allow (new_limiter rate burst) w in
        ((allow_tool p limited tool w).0 ≡ first.0)
        × (lookup tool (allow_tool p limited tool w).1.tool_limiters ≡ some first.1)
        × ((allow_tool p limited other w).0 ≡ (allow_tool p trl other w).0)
  unfolding set_tool_limit allow_tool
  allow_tool-set_tool_limit trl tool other rate burst w h =
      let l = new_limiter rate burst in
      ground (
        arith,
        lookup-insert tool tool l trl.tool_limiters,
        lookup-insert tool other l trl.tool_limiters,
        lookup-insert tool tool (p.allow l w).1 (insert tool l trl.tool_limiters),
      )
