-- ===== src/Runtime.antt =====
-- agent/local_runtime.go: the runtime that runs all agents in one process.
pub mod Channels
pub mod LocalRuntime
pub mod Agents
pub mod Calls
pub mod Lifecycle
pub mod Phases
