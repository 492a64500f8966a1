-- ===== src/NodeLabel/Plan/Overfull.antt =====
-- A node with more labels than packages/k8s-baseline/src/trusted-node-label-reconciler-core.ts
-- accepts.
use hulumi.Prelude.{
  ◌<◌, false, Option, none, some, Text, length, Option-cases, ◌≡◌, refl, ap, ◌∙◌, inl, inr, arith,
}
use hulumi.NodeLabel.Types.{
  NodeSnapshot, TrustedNodeLabelPolicy, ReconciliationInput, DenyReason, ReconciliationDecision,
  deny, noop, patch, revoke, first_failure, first_failure-eq-none,
}
use hulumi.NodeLabel.Attest.{bounds_ok, input_failure, input_checks}
use hulumi.NodeLabel.Plan.{
  plan_trusted_node_label, plan_trusted_node_label_failure, plan_shaped, can_safely_revoke,
}
use hulumi.NodeLabel.Plan.Decisions.{failure-ne-noop, failure-revoke, failure-ne-patch}
use hulumi.NodeLabel.Plan.Relabelled.{true_of_not-false}

overfull-unsafe :
    (policy : TrustedNodeLabelPolicy) (node : NodeSnapshot)
    → 256 < length node.labels
    → can_safely_revoke policy node ≡ false
unfolding can_safely_revoke
overfull-unsafe policy node h = ground arith

overfull-bounds :
    (input : ReconciliationInput) → 256 < length input.node.labels → bounds_ok input ≡ false
unfolding bounds_ok
overfull-bounds input h = ground arith

overfull-input_failure :
    (input : ReconciliationInput)
    → 256 < length input.node.labels
    → (reason : DenyReason) × (input_failure input ≡ some reason)
unfolding input_failure
overfull-input_failure input h = elim (Option-cases (first_failure (input_checks input))) [
  | inr failure ↦ failure
  | inl passed ↦
      let (_, (_, (bounds, _))) = first_failure-eq-none (input_checks input) passed in
      absurd (cc (true_of_not-false (bounds_ok input) bounds, overfull-bounds input h))
]

-- The decision of a failed check on a node whose label cannot be revoked safely.
unsafe_failure-denies :
    (policy : TrustedNodeLabelPolicy) (node : NodeSnapshot) (reason : DenyReason) (id : Option Text)
    (d : ReconciliationDecision)
    → can_safely_revoke policy node ≡ false
    → plan_trusted_node_label_failure policy node reason id ≡ d
    → (r : DenyReason) × (plan_trusted_node_label_failure policy node reason id ≡ deny r)
unsafe_failure-denies policy node reason id (deny r) h e = (r, e)
unsafe_failure-denies policy node reason id (noop kept) h e =
    absurd (failure-ne-noop policy node reason id kept e)
unsafe_failure-denies policy node reason id (patch plan ops) h e =
    absurd (failure-ne-patch policy node reason id plan ops e)
unsafe_failure-denies policy node reason id (revoke r plan ops) h e =
    let (_, safe, _, _) = failure-revoke policy node reason r id plan ops e in absurd (cc (safe, h))

-- A node with more than 256 labels, such as one that had 256 of them when it got the protected one,
-- is only ever denied: its label is never revoked, whatever the evidence says.
pub overfull_denied :
    (input : ReconciliationInput)
    → 256 < length input.node.labels
    → (r : DenyReason) × (plan_trusted_node_label input ≡ deny r)
unfolding plan_trusted_node_label
overfull_denied input h =
    let (reason, failure) = overfull-input_failure input h in
    let (r, denied) =
      unsafe_failure-denies input.policy input.node reason none _
        (overfull-unsafe input.policy input.node h) refl in
    (r, ap (plan_shaped input) failure ∙ denied)
