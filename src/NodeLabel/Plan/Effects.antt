-- ===== src/NodeLabel/Plan/Effects.antt =====
-- What the plans and the patches of
-- packages/k8s-baseline/src/trusted-node-label-reconciler-core.ts do.
use hulumi.Prelude.{
  Bool, true, false, if◌then◌else◌, Option, none, some, List, Text, sym, subst, ◌∙◌, ◌≡◌, ◌↔◌, refl,
  ap,
}
use hulumi.NodeLabel.Types.{
  NodeSnapshot, TrustedNodeLabelPolicy, ReconciliationInput, DenyReason, provider_id_malformed,
  JsonPatchOperation, Mutation, adding, removing, ReconciliationPlan, deny, patch, revoke, label_of,
}
use hulumi.NodeLabel.Patterns.{parse_provider_id}
use hulumi.NodeLabel.Attest.{input_failure}
use hulumi.NodeLabel.Plan.{
  addition_patch, removal_patch, can_safely_revoke, plan_for, plan_trusted_node_label_failure,
  attestation_failure, plan_checked, plan_identified, plan_shaped, plan_trusted_node_label,
}
use hulumi.NodeLabel.Plan.Safety.{IsTrusted}
use hulumi.NodeLabel.Plan.Decisions.{decided_patch, decided_revoke, attested-ne-revoke}
use hulumi.NodeLabel.Plan.Application.{
  apply_patch, labelled, without_label, addition_patch_iff, removal_patch_iff,
}

-- The plan names the node as it was seen, and the label of the policy.
pub record IsPlanFor (input : ReconciliationInput) (mutation : Mutation) (id : Option Text)
    (plan : ReconciliationPlan) : Type 0 where
  pub same_mutation : plan.mutation ≡ mutation
  pub same_name : plan.node_name ≡ input.node.name
  pub same_uid : plan.node_uid ≡ input.node.uid
  pub same_version : plan.resource_version ≡ input.node.resource_version
  pub same_provider : plan.provider_id ≡ input.node.provider_id
  pub same_instance : plan.instance_id ≡ id
  pub same_key : plan.protected_label_key ≡ input.policy.protected_label_key
  pub same_value : plan.protected_label_value ≡ input.policy.protected_label_value

plan_for-IsPlanFor :
    (input : ReconciliationInput) (mutation : Mutation) (id : Option Text)
    (plan : ReconciliationPlan)
    → plan ≡ plan_for mutation input.policy input.node id
    → IsPlanFor input mutation id plan
plan_for-IsPlanFor input mutation id plan e = record {
  same_mutation = ap (λ p. p.mutation) e;
  same_name = ap (λ p. p.node_name) e;
  same_uid = ap (λ p. p.node_uid) e;
  same_version = ap (λ p. p.resource_version) e;
  same_provider = ap (λ p. p.provider_id) e;
  same_instance = ap (λ p. p.instance_id) e;
  same_key = ap (λ p. p.protected_label_key) e;
  same_value = ap (λ p. p.protected_label_value) e;
}

-- The patch succeeds on a node exactly when this has the uid, the version and the provider id of
-- the one given, and then gives it the label of the policy and changes nothing else.
abbrev pub Adds : TrustedNodeLabelPolicy → NodeSnapshot → List JsonPatchOperation → Type 0
Adds policy node ops =
    (m n : NodeSnapshot)
    → (apply_patch ops m ≡ some n) ↔ (
        (m.uid ≡ node.uid)
        × (m.resource_version ≡ node.resource_version)
        × (m.provider_id ≡ node.provider_id)
        × (n ≡ labelled policy.protected_label_key policy.protected_label_value m))

-- The patch succeeds on a node exactly when this has the uid, the version and the provider id of
-- the one given and the label with the policy's value, and then removes the label and changes
-- nothing else.
abbrev pub Removes : TrustedNodeLabelPolicy → NodeSnapshot → List JsonPatchOperation → Type 0
Removes policy node ops =
    (m n : NodeSnapshot)
    → (apply_patch ops m ≡ some n) ↔ (
        (m.uid ≡ node.uid)
        × (m.resource_version ≡ node.resource_version)
        × (m.provider_id ≡ node.provider_id)
        × (label_of policy.protected_label_key m.labels ≡ some policy.protected_label_value)
        × (n ≡ without_label policy.protected_label_key m))

pub addition_patch-Adds :
    (policy : TrustedNodeLabelPolicy) (node : NodeSnapshot) (ops : List JsonPatchOperation)
    → ops ≡ addition_patch policy node
    → Adds policy node ops
addition_patch-Adds policy node ops same m n = rw same (addition_patch_iff policy node m n)

pub removal_patch-Removes :
    (policy : TrustedNodeLabelPolicy) (node : NodeSnapshot) (ops : List JsonPatchOperation)
    → ops ≡ removal_patch policy node
    → Removes policy node ops
removal_patch-Removes policy node ops same m n = rw same (removal_patch_iff policy node m n)

-- The label is added only to a trusted node that does not have it. The plan names that node; and the
-- patch succeeds on a node exactly when this has the uid, the version and the provider id of that
-- node, and then gives it the label of the policy and changes nothing else.
pub plan-eq-patch :
    (input : ReconciliationInput) (plan : ReconciliationPlan) (ops : List JsonPatchOperation)
    (m n : NodeSnapshot)
    → plan_trusted_node_label input ≡ patch plan ops
    → (zone : Text) × (id : Text) × IsTrusted input zone id
      × (label_of input.policy.protected_label_key input.node.labels ≡ none)
      × IsPlanFor input adding (some id) plan
      × ((apply_patch ops m ≡ some n) ↔ (
          (m.uid ≡ input.node.uid)
          × (m.resource_version ≡ input.node.resource_version)
          × (m.provider_id ≡ input.node.provider_id)
          × (n ≡ labelled input.policy.protected_label_key input.policy.protected_label_value m)))
plan-eq-patch input plan ops m n e =
    let (zone, id, trusted, absent, planned, same) = decided_patch input plan ops e in
    (
      zone,
      id,
      trusted,
      absent,
      plan_for-IsPlanFor input adding (some id) plan planned,
      addition_patch-Adds input.policy input.node ops same m n,
    )

-- The first check that fails, and the instance as far as it is known.
pub data FailsWith (input : ReconciliationInput) (reason : DenyReason) : Option Text → Type 0 where
  at_input : input_failure input ≡ some reason → FailsWith input reason none
  at_provider :
      input_failure input ≡ none
      → parse_provider_id input.node.provider_id ≡ none
      → reason ≡ provider_id_malformed
      → FailsWith input reason none
  at_evidence :
      (zone id : Text)
      → input_failure input ≡ none
      → parse_provider_id input.node.provider_id ≡ some (zone, id)
      → attestation_failure input zone id ≡ some reason
      → FailsWith input reason (some id)

revoke-reason :
    (a b : Bool) (x r reason : DenyReason) (p plan : ReconciliationPlan)
    (o ops : List JsonPatchOperation)
    → (if a then deny x else if b then deny r else revoke r p o) ≡ revoke reason plan ops
    → (r ≡ reason) × (p ≡ plan)
revoke-reason true b x r reason p plan o ops e = cc
revoke-reason false true x r reason p plan o ops e = cc
revoke-reason false false x r reason p plan o ops e = (cc, cc)

module _ (input : ReconciliationInput) (reason : DenyReason) (plan : ReconciliationPlan)
    (ops : List JsonPatchOperation) where
  failure-reason :
      (r : DenyReason) (id : Option Text)
      → plan_trusted_node_label_failure input.policy input.node r id ≡ revoke reason plan ops
      → (r ≡ reason) × (plan_for removing input.policy input.node id ≡ plan)
  unfolding plan_trusted_node_label_failure
  failure-reason r id e = revoke-reason _ _ _ r reason _ plan _ ops e

  checked-FailsWith :
      (zone id : Text) (failure : Option DenyReason)
      → input_failure input ≡ none
      → parse_provider_id input.node.provider_id ≡ some (zone, id)
      → attestation_failure input zone id ≡ failure
      → plan_checked input id failure ≡ revoke reason plan ops
      → FailsWith input reason plan.instance_id
  checked-FailsWith zone id none i p a e =
      absurd (attested-ne-revoke input.policy input.node id reason plan ops e)
  checked-FailsWith zone id (some r) i p a e =
      let (same, planned) = failure-reason r (some id) e in
      subst (FailsWith input reason) (ap (λ p. p.instance_id) planned)
        (at_evidence zone id i p (a ∙ ap some same))

  identified-FailsWith :
      (found : Option (Text × Text))
      → input_failure input ≡ none
      → parse_provider_id input.node.provider_id ≡ found
      → plan_identified input found ≡ revoke reason plan ops
      → FailsWith input reason plan.instance_id
  identified-FailsWith none i p e =
      let (same, planned) = failure-reason provider_id_malformed none e in
      subst (FailsWith input reason) (ap (λ p. p.instance_id) planned) (at_provider i p (sym same))
  identified-FailsWith (some (zone, id)) i p e =
      checked-FailsWith zone id (attestation_failure input zone id) i p refl e

  shaped-FailsWith :
      (failure : Option DenyReason)
      → input_failure input ≡ failure
      → plan_shaped input failure ≡ revoke reason plan ops
      → FailsWith input reason plan.instance_id
  shaped-FailsWith none i e =
      identified-FailsWith (parse_provider_id input.node.provider_id) i refl e
  shaped-FailsWith (some r) i e =
      let (same, planned) = failure-reason r none e in
      subst (FailsWith input reason) (ap (λ p. p.instance_id) planned) (at_input (i ∙ ap some same))

  revoked-FailsWith :
      plan_trusted_node_label input ≡ revoke reason plan ops
      → FailsWith input reason plan.instance_id
  unfolding plan_trusted_node_label
  revoked-FailsWith e = shaped-FailsWith (input_failure input) refl e

-- A label is revoked only for the first check that fails, and only where the node has it with the
-- policy's value. The plan names that node; and the patch succeeds on a node exactly when this has
-- the uid, the version and the provider id of that node and the label with that value, and then
-- removes the label and changes nothing else.
pub plan-eq-revoke :
    (input : ReconciliationInput) (reason : DenyReason) (plan : ReconciliationPlan)
    (ops : List JsonPatchOperation) (m n : NodeSnapshot)
    → plan_trusted_node_label input ≡ revoke reason plan ops
    → FailsWith input reason plan.instance_id
      × (label_of input.policy.protected_label_key input.node.labels
          ≡ some input.policy.protected_label_value)
      × (can_safely_revoke input.policy input.node ≡ true)
      × IsPlanFor input removing plan.instance_id plan
      × ((apply_patch ops m ≡ some n) ↔ (
          (m.uid ≡ input.node.uid)
          × (m.resource_version ≡ input.node.resource_version)
          × (m.provider_id ≡ input.node.provider_id)
          × (label_of input.policy.protected_label_key m.labels
              ≡ some input.policy.protected_label_value)
          × (n ≡ without_label input.policy.protected_label_key m)))
plan-eq-revoke input reason plan ops m n e =
    let (id, there, revocable, planned, same) = decided_revoke input reason plan ops e in
    let named = plan_for-IsPlanFor input removing id plan planned in
    (
      revoked-FailsWith input reason plan ops e,
      there,
      revocable,
      subst (λ i. IsPlanFor input removing i plan) (sym named.same_instance) named,
      removal_patch-Removes input.policy input.node ops same m n,
    )
