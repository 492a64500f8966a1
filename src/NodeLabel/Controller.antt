-- ===== src/NodeLabel/Controller.antt =====
-- `runTrustedNodeLabelControllerCycle` and `runTrustedNodeLabelController` of
-- packages/k8s-baseline/src/trusted-node-label-controller.ts. What AWS, Kubernetes, the clock and
-- the digest answer is an argument; the time stamps of the audit events are left out.
pub mod Adapters
pub mod Nodes
pub mod Cycle
pub mod Sent
pub mod Clean
pub mod Loop
mod Tests
