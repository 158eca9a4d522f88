-- ===== src/Patterns.antt =====
-- internal/supervisor/patterns: ways to run several agents on one input.
pub mod Sequential
