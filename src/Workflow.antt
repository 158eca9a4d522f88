-- ===== src/Workflow.antt =====
-- internal/workflow: workflows, their execution with checkpoints (executor.go), and where states and
-- checkpoints are kept (persistence.go).
pub mod Types
pub mod Store
pub mod MemoryStore
pub mod Executor
