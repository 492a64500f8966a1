-- ===== src/NodeLabel.antt =====
-- packages/k8s-baseline/src/trusted-node-label-reconciler-core.ts: the trust decision on the
-- protected label of an EKS node.
pub mod Types
pub mod Patterns
pub mod Attest
pub mod Plan
pub mod Controller
mod Samples
mod Tests
