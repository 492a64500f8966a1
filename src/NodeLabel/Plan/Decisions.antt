-- ===== src/NodeLabel/Plan/Decisions.antt =====
-- The four decisions on a node (packages/k8s-baseline/src/trusted-node-label-reconciler-core.ts).
use hulumi.Prelude.{
  true, false, Option, none, some, List, Text, text_eq, text_eq_iff, Bool-cases, Option-cases, ◌≡◌,
  ◌≢◌, ◌∙◌, inl, inr, refl, arith,
}
use hulumi.NodeLabel.Types.{
  NodeSnapshot, TrustedNodeLabelPolicy, ReconciliationInput, DenyReason, provider_id_malformed,
  protected_label_conflict, JsonPatchOperation, adding, removing, ReconciliationPlan,
  ReconciliationDecision, deny, noop, patch, revoke, label_of,
}
use hulumi.NodeLabel.Patterns.{parse_provider_id}
use hulumi.NodeLabel.Attest.{input_failure}
use hulumi.NodeLabel.Plan.{
  can_safely_revoke, plan_for, removal_patch, addition_patch, plan_trusted_node_label_failure,
  plan_attested, attestation_failure, plan_checked, plan_identified, plan_shaped,
  plan_trusted_node_label,
}
use hulumi.NodeLabel.Plan.Safety.{IsTrusted, attested-IsTrusted}

-- A decision is that of a failed check or that on a trusted node.
data Decided (input : ReconciliationInput) (d : ReconciliationDecision) : Type 0 where
  failed :
      (reason : DenyReason) (id : Option Text)
      → d ≡ plan_trusted_node_label_failure input.policy input.node reason id
      → Decided input d
  trusted :
      (zone id : Text)
      → IsTrusted input zone id
      → d ≡ plan_attested input.policy input.node id
      → Decided input d

checked-Decided :
    (input : ReconciliationInput) (zone id : Text) (failure : Option DenyReason)
    → parse_provider_id input.node.provider_id ≡ some (zone, id)
    → attestation_failure input zone id ≡ failure
    → Decided input (plan_checked input id failure)
checked-Decided input zone id none p e = trusted zone id (attested-IsTrusted input zone id p e) refl
checked-Decided input zone id (some reason) p e = failed reason (some id) refl

identified-Decided :
    (input : ReconciliationInput) (found : Option (Text × Text))
    → parse_provider_id input.node.provider_id ≡ found
    → Decided input (plan_identified input found)
identified-Decided input none p = failed provider_id_malformed none refl
identified-Decided input (some (zone, id)) p =
    checked-Decided input zone id (attestation_failure input zone id) p refl

shaped-Decided :
    (input : ReconciliationInput) (failure : Option DenyReason)
    → Decided input (plan_shaped input failure)
shaped-Decided input none = identified-Decided input (parse_provider_id input.node.provider_id) refl
shaped-Decided input (some reason) = failed reason none refl

plan-Decided : (input : ReconciliationInput) → Decided input (plan_trusted_node_label input)
unfolding plan_trusted_node_label
plan-Decided input = shaped-Decided input (input_failure input)

-- A failed check never adds or keeps the label.
module _ (policy : TrustedNodeLabelPolicy) (node : NodeSnapshot) (reason : DenyReason)
    (id : Option Text) where
  pub failure-ne-patch :
      (plan : ReconciliationPlan) (ops : List JsonPatchOperation)
      → plan_trusted_node_label_failure policy node reason id ≢ patch plan ops
  unfolding plan_trusted_node_label_failure
  failure-ne-patch plan ops e = ground arith

  pub failure-ne-noop :
      (kept : Text) → plan_trusted_node_label_failure policy node reason id ≢ noop kept
  unfolding plan_trusted_node_label_failure
  failure-ne-noop kept e = ground arith

module _ (policy : TrustedNodeLabelPolicy) (node : NodeSnapshot) (id : Text) where
  pub attested-patch :
      (plan : ReconciliationPlan) (ops : List JsonPatchOperation)
      → plan_attested policy node id ≡ patch plan ops
      → (label_of policy.protected_label_key node.labels ≡ none)
        × (plan ≡ plan_for adding policy node (some id))
        × (ops ≡ addition_patch policy node)
  unfolding plan_attested
  attested-patch plan ops e =
      elim (Option-cases (label_of policy.protected_label_key node.labels)) [
        | inl empty ↦ (empty, ground arith, ground arith)
        | inr (x, there) ↦ absurd (ground arith)
      ]

  attested-noop :
      (kept : Text)
      → plan_attested policy node id ≡ noop kept
      → (kept ≡ id)
        × (label_of policy.protected_label_key node.labels ≡ some policy.protected_label_value)
  unfolding plan_attested
  attested-noop kept e = elim (Option-cases (label_of policy.protected_label_key node.labels)) [
    | inl empty ↦ absurd (ground arith)
    | inr (x, there) ↦
        (ground arith, rw there (ground (arith, text_eq_iff x policy.protected_label_value)))
  ]

  pub attested-ne-revoke :
      (reason : DenyReason) (plan : ReconciliationPlan) (ops : List JsonPatchOperation)
      → plan_attested policy node id ≢ revoke reason plan ops
  unfolding plan_attested
  attested-ne-revoke reason plan ops e = ground arith

module _ (policy : TrustedNodeLabelPolicy) (node : NodeSnapshot) where
  failure_conflict :
      (r : DenyReason) (id : Option Text) (x : Text)
      → label_of policy.protected_label_key node.labels ≡ some x
      → text_eq x policy.protected_label_value ≡ false
      → plan_trusted_node_label_failure policy node r id ≡ deny protected_label_conflict
  unfolding plan_trusted_node_label_failure
  failure_conflict r id x there differs = rw (there, differs) refl

  attested_conflict :
      (id x : Text)
      → label_of policy.protected_label_key node.labels ≡ some x
      → text_eq x policy.protected_label_value ≡ false
      → plan_attested policy node id ≡ deny protected_label_conflict
  unfolding plan_attested
  attested_conflict id x there differs = rw (there, differs) refl

-- The label is added only to a trusted node that does not have it, and the patch is then the three
-- tests of the node's identity and version, with the addition after them.
pub decided_patch :
    (input : ReconciliationInput) (plan : ReconciliationPlan) (ops : List JsonPatchOperation)
    → plan_trusted_node_label input ≡ patch plan ops
    → (zone : Text) × (id : Text) × IsTrusted input zone id
      × (label_of input.policy.protected_label_key input.node.labels ≡ none)
      × (plan ≡ plan_for adding input.policy input.node (some id))
      × (ops ≡ addition_patch input.policy input.node)
decided_patch input plan ops e = by_decision (plan-Decided input)
  where
    by_decision :
        Decided input (plan_trusted_node_label input)
        → (zone : Text) × (id : Text) × IsTrusted input zone id
          × (label_of input.policy.protected_label_key input.node.labels ≡ none)
          × (plan ≡ plan_for adding input.policy input.node (some id))
          × (ops ≡ addition_patch input.policy input.node)
    by_decision (failed reason id same) =
        absurd (failure-ne-patch input.policy input.node reason id plan ops (cc))
    by_decision (trusted zone id holds same) =
        let (absent, p, o) = attested-patch input.policy input.node id plan ops (cc) in
        (zone, id, holds, absent, p, o)

-- The label is kept only on a trusted node that has it with the policy's value.
pub plan-eq-noop :
    (input : ReconciliationInput) (id : Text)
    → plan_trusted_node_label input ≡ noop id
    → (zone : Text) × IsTrusted input zone id
      × (label_of input.policy.protected_label_key input.node.labels
          ≡ some input.policy.protected_label_value)
plan-eq-noop input id e = by_decision (plan-Decided input)
  where
    by_decision :
        Decided input (plan_trusted_node_label input)
        → (zone : Text) × IsTrusted input zone id
          × (label_of input.policy.protected_label_key input.node.labels
              ≡ some input.policy.protected_label_value)
    by_decision (failed reason other same) =
        absurd (failure-ne-noop input.policy input.node reason other id (cc))
    by_decision (trusted zone other holds same) =
        let (kept, there) = attested-noop input.policy input.node other id (cc) in
        (zone, rw kept holds, there)

pub failure-revoke :
    (policy : TrustedNodeLabelPolicy) (node : NodeSnapshot) (r reason : DenyReason)
    (id : Option Text) (plan : ReconciliationPlan) (ops : List JsonPatchOperation)
    → plan_trusted_node_label_failure policy node r id ≡ revoke reason plan ops
    → (label_of policy.protected_label_key node.labels ≡ some policy.protected_label_value)
      × (can_safely_revoke policy node ≡ true)
      × (plan ≡ plan_for removing policy node id)
      × (ops ≡ removal_patch policy node)
unfolding plan_trusted_node_label_failure
failure-revoke policy node r reason id plan ops e =
    elim (Option-cases (label_of policy.protected_label_key node.labels)) [
      | inl empty ↦ absurd (ground arith)
      | inr (x, there) ↦ (
        rw there (ground (arith, text_eq_iff x policy.protected_label_value)),
        ground arith,
        ground arith,
        ground arith,
      )
    ]

-- A label is revoked only where the node has it with the policy's value, and the patch tests that
-- value, the node's identity and its version before it removes the label.
pub decided_revoke :
    (input : ReconciliationInput) (reason : DenyReason) (plan : ReconciliationPlan)
    (ops : List JsonPatchOperation)
    → plan_trusted_node_label input ≡ revoke reason plan ops
    → (id : Option Text) × (label_of input.policy.protected_label_key input.node.labels
        ≡ some input.policy.protected_label_value)
      × (can_safely_revoke input.policy input.node ≡ true)
      × (plan ≡ plan_for removing input.policy input.node id)
      × (ops ≡ removal_patch input.policy input.node)
decided_revoke input reason plan ops e = by_decision (plan-Decided input)
  where
    by_decision :
        Decided input (plan_trusted_node_label input)
        → (id : Option Text) × (label_of input.policy.protected_label_key input.node.labels
            ≡ some input.policy.protected_label_value)
          × (can_safely_revoke input.policy input.node ≡ true)
          × (plan ≡ plan_for removing input.policy input.node id)
          × (ops ≡ removal_patch input.policy input.node)
    by_decision (failed r id same) =
        let (there, revocable, p, o) =
          failure-revoke input.policy input.node r reason id plan ops (cc) in
        (id, there, revocable, p, o)
    by_decision (trusted zone id holds same) =
        absurd (attested-ne-revoke input.policy input.node id reason plan ops (cc))

-- A label that the node has with another value is never touched, whatever the evidence: the decision
-- is a denial that names the conflict.
pub plan_conflict :
    (input : ReconciliationInput) (x : Text)
    → label_of input.policy.protected_label_key input.node.labels ≡ some x
    → x ≢ input.policy.protected_label_value
    → plan_trusted_node_label input ≡ deny protected_label_conflict
plan_conflict input x there other = by_decision (plan-Decided input)
  where
    differs : text_eq x input.policy.protected_label_value ≡ false
    differs = elim (Bool-cases (text_eq x input.policy.protected_label_value)) [
      | inl same ↦ absurd (other ((text_eq_iff _ _).0 same))
      | inr ne ↦ ne
    ]

    by_decision :
        Decided input (plan_trusted_node_label input)
        → plan_trusted_node_label input ≡ deny protected_label_conflict
    by_decision (failed r id same) =
        same ∙ failure_conflict input.policy input.node r id x there differs
    by_decision (trusted zone id holds same) =
        same ∙ attested_conflict input.policy input.node id x there differs
