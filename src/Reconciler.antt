-- ===== src/Reconciler.antt =====
-- packages/drift/src/reconciler.ts: the planning of what becomes of drifted and orphaned resources.
pub mod Types
pub mod Scope
pub mod Matching
pub mod Target
pub mod Guards
pub mod Plan
pub mod Planned
pub mod Discovery
pub mod Execution
pub mod Runs
pub mod Interleaved
mod Tests
