-- ===== src/Sca/Scope.antt =====
-- tools/sca/src/scope/policy.ts: which manifests are acted on.
pub mod Glob
pub mod Policy
pub mod Directories
pub mod RedLine
mod Tests
