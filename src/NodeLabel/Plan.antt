-- ===== src/NodeLabel/Plan.antt =====
-- `planTrustedNodeLabelFailure`, `planTrustedNodeLabel`, `validateReconciliationPlan` and
-- `classifyNodeGroupCapacity` of packages/k8s-baseline/src/trusted-node-label-reconciler-core.ts. Its
-- `catch`, for values that are not of their declared types, has no place in the model.
pub mod Evidence
pub mod Application
pub mod Safety
pub mod Decisions
pub mod Effects
pub mod Validation
pub mod Patches
pub mod Capacity
pub mod Convergence
mod Relabelled
pub mod Overfull
use hulumi.Prelude.{
  ℕ, Bool, true, false, not, ◌&&◌, ◌||◌, Option, none, some, List, [], ◌∷◌, ◌++◌, Text, lit,
  text_eq, leb, ◌==◌, length, if◌then◌else◌,
}
use hulumi.Prelude.Int.{ℤ, pos, negsuc, ltb_ℤ}
use hulumi.NodeLabel.Types.{
  JsNumber, value_of, is_non_negative_integer, NodeSnapshot, TrustedNodeLabelPolicy,
  ReconciliationInput, DenyReason, provider_id_malformed, node_group_mismatch,
  node_group_unavailable, protected_label_conflict, JsonPatchOperation, test, add, remove, Mutation,
  adding, removing, ReconciliationPlan, ReconciliationDecision, deny, noop, patch, revoke,
  first_failure, label_of, is_value,
}
use hulumi.NodeLabel.Patterns.{
  has_length, is_label_name, is_bounded_identifier, is_valid_protected_label_key, parse_provider_id,
}
use hulumi.NodeLabel.Attest.{
  input_failure, evidence_failure, attest_membership, attest_ec2_and_node, attest_taints,
}

-- `value.replaceAll(unit, by)`
unfoldable pub replace_all : ℕ → Text → Text → Text
replace_all u by [] = []
replace_all u by (c ∷ rest) =
    let tail = replace_all u by rest in if c == u then by ++ tail else c ∷ tail

unfoldable pub json_pointer_escape : Text → Text
unfolding replace_all
json_pointer_escape value = replace_all b'/' (lit "~1") (replace_all b'~' (lit "~0") value)

unfoldable pub can_safely_revoke : TrustedNodeLabelPolicy → NodeSnapshot → Bool
unfolding is_valid_protected_label_key is_label_name is_bounded_identifier
can_safely_revoke policy node =
    is_valid_protected_label_key policy.protected_label_key
    && is_label_name policy.protected_label_value
    && is_bounded_identifier node.name
    && has_length 1 128 node.uid
    && has_length 1 128 node.resource_version
    && has_length 1 256 node.provider_id
    && leb (length node.labels) 256

unfoldable pub uid_path : Text
uid_path = lit "/metadata/uid"

unfoldable pub version_path : Text
version_path = lit "/metadata/resourceVersion"

unfoldable pub provider_path : Text
provider_path = lit "/spec/providerID"

unfoldable pub label_path : Text → Text
unfolding json_pointer_escape
label_path key = lit "/metadata/labels/" ++ json_pointer_escape key

abbrev pub plan_for :
    Mutation → TrustedNodeLabelPolicy → NodeSnapshot → Option Text → ReconciliationPlan
plan_for mutation policy node instance_id = record {
  mutation = mutation;
  node_name = node.name;
  node_uid = node.uid;
  resource_version = node.resource_version;
  provider_id = node.provider_id;
  instance_id = instance_id;
  protected_label_key = policy.protected_label_key;
  protected_label_value = policy.protected_label_value;
}

abbrev pub removal_patch : TrustedNodeLabelPolicy → NodeSnapshot → List JsonPatchOperation
removal_patch policy node =
    test uid_path node.uid
    ∷ test version_path node.resource_version
    ∷ test provider_path node.provider_id
    ∷ test (label_path policy.protected_label_key) policy.protected_label_value
    ∷ remove (label_path policy.protected_label_key)
    ∷ []

abbrev pub addition_patch : TrustedNodeLabelPolicy → NodeSnapshot → List JsonPatchOperation
addition_patch policy node =
    test uid_path node.uid
    ∷ test version_path node.resource_version
    ∷ test provider_path node.provider_id
    ∷ add (label_path policy.protected_label_key) policy.protected_label_value
    ∷ []

-- The label is present with another value.
abbrev pub conflicts : Option Text → Text → Bool
conflicts none v = false
conflicts (some x) v = not (text_eq x v)

unfoldable pub plan_trusted_node_label_failure :
    TrustedNodeLabelPolicy → NodeSnapshot → DenyReason → Option Text → ReconciliationDecision
unfolding label_of text_eq can_safely_revoke label_path uid_path version_path provider_path
plan_trusted_node_label_failure policy node reason instance_id =
    let existing = label_of policy.protected_label_key node.labels in
    if conflicts existing policy.protected_label_value
    then deny protected_label_conflict
    else if not (is_value existing policy.protected_label_value)
        || not (can_safely_revoke policy node)
    then deny reason
    else revoke reason (plan_for removing policy node instance_id) (removal_patch policy node)

-- The last step, for a node that every check attests.
unfoldable pub plan_attested : TrustedNodeLabelPolicy → NodeSnapshot → Text → ReconciliationDecision
unfolding label_of text_eq label_path uid_path version_path provider_path
plan_attested policy node instance_id =
    let existing = label_of policy.protected_label_key node.labels in
    if conflicts existing policy.protected_label_value
    then deny protected_label_conflict
    else if is_value existing policy.protected_label_value
    then noop instance_id
    else patch (plan_for adding policy node (some instance_id)) (addition_patch policy node)

-- The first failure of the checks on a node whose provider id names a zone and an instance.
infixr 6 ◌or_else◌
abbrev pub ◌or_else◌ : Option DenyReason → Option DenyReason → Option DenyReason
none or_else later = later
(some reason) or_else later = some reason

abbrev pub group_checks : ReconciliationInput → List (Bool × DenyReason)
group_checks input =
    (
      not (text_eq input.node_group.cluster_name input.policy.cluster_name)
          || not (text_eq input.node_group.node_group_name input.policy.node_group_name),
      node_group_mismatch,
    )
    ∷ (
      not (text_eq input.node_group.status (lit "ACTIVE"))
          && not (text_eq input.node_group.status (lit "UPDATING")),
      node_group_unavailable,
    )
    ∷ []

unfoldable pub group_failure : ReconciliationInput → Option DenyReason
unfolding first_failure text_eq
group_failure input = first_failure (group_checks input)

unfoldable pub attestation_failure : ReconciliationInput → Text → Text → Option DenyReason
unfolding evidence_failure group_failure attest_membership attest_ec2_and_node attest_taints
attestation_failure input zone instance_id =
    evidence_failure input
    or_else group_failure input
    or_else attest_membership input instance_id
    or_else attest_ec2_and_node input.policy input.ec2_instance input.node instance_id zone
    or_else attest_taints input.policy.expected_taints input.node.taints

abbrev pub plan_checked : ReconciliationInput → Text → Option DenyReason → ReconciliationDecision
plan_checked input instance_id none = plan_attested input.policy input.node instance_id
plan_checked input instance_id (some reason) =
    plan_trusted_node_label_failure input.policy input.node reason (some instance_id)

abbrev pub plan_identified : ReconciliationInput → Option (Text × Text) → ReconciliationDecision
plan_identified input none =
    plan_trusted_node_label_failure input.policy input.node provider_id_malformed none
plan_identified input (some (zone, instance_id)) =
    plan_checked input instance_id (attestation_failure input zone instance_id)

abbrev pub plan_shaped : ReconciliationInput → Option DenyReason → ReconciliationDecision
plan_shaped input none = plan_identified input (parse_provider_id input.node.provider_id)
plan_shaped input (some reason) =
    plan_trusted_node_label_failure input.policy input.node reason none

unfoldable pub plan_trusted_node_label : ReconciliationInput → ReconciliationDecision
unfolding input_failure parse_provider_id attestation_failure plan_trusted_node_label_failure
    plan_attested
plan_trusted_node_label input = plan_shaped input (input_failure input)

pub data PlanInvalid : Type 0 where
  node_name_changed node_uid_changed resource_version_changed provider_id_changed
        protected_label_changed :
      PlanInvalid

-- Whether the label is as the plan needs it.
abbrev pub label_fits : Mutation → Option Text → Text → Bool
label_fits adding none v = true
label_fits adding (some x) v = false
label_fits removing current v = is_value current v

-- `none` for a valid plan.
unfoldable pub validate_reconciliation_plan : ReconciliationPlan → NodeSnapshot → Option PlanInvalid
unfolding text_eq label_of
validate_reconciliation_plan plan node =
    if not (text_eq node.name plan.node_name)
    then some node_name_changed
    else if not (text_eq node.uid plan.node_uid)
    then some node_uid_changed
    else if not (text_eq node.resource_version plan.resource_version)
    then some resource_version_changed
    else if not (text_eq node.provider_id plan.provider_id)
    then some provider_id_changed
    else if not (
        label_fits plan.mutation (label_of plan.protected_label_key node.labels)
          plan.protected_label_value)
    then some protected_label_changed
    else none

pub data CapacityState : Type 0 where
  invalid zero_capacity awaiting_nodes reconciling ready : CapacityState

abbrev is_zero_ℤ : ℤ → Bool
is_zero_ℤ (pos n) = n == 0
is_zero_ℤ (negsuc n) = false

abbrev is_zero : JsNumber → Bool
is_zero n = is_zero_ℤ (value_of n)

unfoldable pub classify_node_group_capacity : JsNumber → JsNumber → CapacityState
unfolding is_non_negative_integer
classify_node_group_capacity desired observed =
    if not (is_non_negative_integer desired) || not (is_non_negative_integer observed)
    then invalid
    else if is_zero desired && is_zero observed
    then zero_capacity
    else if ltb_ℤ (pos 0) (value_of desired) && is_zero observed
    then awaiting_nodes
    else if ltb_ℤ (value_of observed) (value_of desired)
    then reconciling
    else ready
