-- ===== src/Reconciler/Discovery.antt =====
-- packages/drift/src/discovery.ts: `discoverReconcileTargets`, which lists the resources of the
-- state and of the cloud that are in a scope.
pub mod Types
pub mod Selection
pub mod Targets
pub mod Origins
pub mod Coverage
pub mod Deletions
mod Tests
