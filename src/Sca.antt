-- ===== src/Sca.antt =====
-- tools/sca/src: the routing of vulnerable dependencies, the scope of the manifests, and the gate of
-- an automatic merge.
pub mod Evidence
pub mod Route
pub mod Store
pub mod Triage
pub mod Scope
pub mod Merge
mod Tests
