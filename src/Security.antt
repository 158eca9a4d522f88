-- ===== src/Security.antt =====
-- pkg/security: what guards a tool call, in ratelimit.go.
pub mod Breaker
pub mod Limiter
pub mod RateLimiter
pub mod ToolRateLimiter
pub mod TimeoutManager
pub mod Tests
