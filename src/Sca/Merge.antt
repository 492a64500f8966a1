-- ===== src/Sca/Merge.antt =====
-- The gate of an automatic merge: tools/sca/src/cli/verify-ruleset.ts, tools/sca/src/audit/record.ts
-- and `mergeEmergencyPr` and `mergeFromFiles` of tools/sca/src/cli/merge.ts.
pub mod Ruleset
pub mod Audit
pub mod Gate
pub mod Files
pub mod Guarded
pub mod Unreported
mod Tests
