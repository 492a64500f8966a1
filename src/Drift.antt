-- ===== src/Drift.antt =====
-- The drift package (packages/drift/src): verdicts, the on-disk cache and the classifier.
pub mod Types
pub mod Verdict
pub mod Monotonicity
pub mod Probe
pub mod EvidenceWindow
pub mod Urn
pub mod Cache
pub mod Conclusion
pub mod Classifier
mod Tests
