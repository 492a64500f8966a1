-- ===== src/NodeLabel/Types.antt =====
-- The data of packages/k8s-baseline/src/trusted-node-label-reconciler-core.ts. A label map is its
-- list of entries.
use hulumi.Prelude.{
  Bool, true, false, Option, none, some, List, [], ◌∷◌, Text, text_eq, if◌then◌else◌, All, ◌≡◌,
  arith,
}
use hulumi.Prelude.Int.{ℤ, pos, leb_ℤ}

-- A `number`: a safe integer, or any other value.
pub data JsNumber : Type 0 where
  safe : ℤ → JsNumber
  unsafe : JsNumber

abbrev pub is_safe : JsNumber → Bool
is_safe (safe n) = true
is_safe unsafe = false

-- Read only where `is_safe` was tested before.
abbrev pub value_of : JsNumber → ℤ
value_of (safe n) = n
value_of unsafe = pos 0

unfoldable pub is_non_negative_integer : JsNumber → Bool
is_non_negative_integer (safe n) = leb_ℤ (pos 0) n
is_non_negative_integer unsafe = false

pub record KubernetesTaint : Type 0 where
  pub key : Text
  pub value : Text
  pub effect : Text

pub record NodeSnapshot : Type 0 where
  pub name : Text
  pub uid : Text
  pub resource_version : Text
  pub provider_id : Text
  pub labels : List (Text × Text)
  pub taints : List KubernetesTaint

pub record TrustedNodeLabelPolicy : Type 0 where
  pub cluster_name : Text
  pub node_group_name : Text
  pub aws_account_id : Text
  pub region : Text
  pub protected_label_key : Text
  pub protected_label_value : Text
  pub allowed_instance_types : List Text
  pub expected_taints : List KubernetesTaint
  pub max_evidence_age_ms : JsNumber
  pub max_evidence_skew_ms : JsNumber

pub record EksNodeGroupAttestation : Type 0 where
  pub cluster_name : Text
  pub node_group_name : Text
  pub status : Text
  pub auto_scaling_group_names : List Text
  pub min_size : JsNumber
  pub desired_size : JsNumber
  pub max_size : JsNumber
  pub captured_at : JsNumber

pub record AsgInstance : Type 0 where
  pub instance_id : Text
  pub lifecycle_state : Text
  pub health_status : Text

pub record AutoScalingGroupAttestation : Type 0 where
  pub name : Text
  pub instances : List AsgInstance
  pub captured_at : JsNumber

pub record Ec2InstanceAttestation : Type 0 where
  pub instance_id : Text
  pub account_id : Text
  pub region : Text
  pub availability_zone : Text
  pub instance_type : Text
  pub state : Text
  pub captured_at : JsNumber

pub record ReconciliationInput : Type 0 where
  pub now : JsNumber
  pub policy : TrustedNodeLabelPolicy
  pub node : NodeSnapshot
  pub node_group : EksNodeGroupAttestation
  pub auto_scaling_groups : List AutoScalingGroupAttestation
  pub ec2_instance : Ec2InstanceAttestation

pub data DenyReason : Type 0 where
  input_malformed input_bounds_exceeded protected_label_key_invalid provider_id_malformed
        evidence_from_future evidence_stale evidence_skew_exceeded evidence_unavailable
        node_group_mismatch node_group_unavailable asg_not_attested asg_evidence_incomplete
        membership_missing membership_ambiguous membership_unhealthy instance_id_mismatch
        account_mismatch region_mismatch availability_zone_mismatch instance_type_denied
        instance_not_running node_zone_label_mismatch node_instance_type_label_mismatch
        expected_taint_missing expected_taint_conflict protected_label_conflict :
      DenyReason

pub data JsonPatchOperation : Type 0 where
  test : (path value : Text) → JsonPatchOperation
  add : (path value : Text) → JsonPatchOperation
  remove : (path : Text) → JsonPatchOperation

pub data Mutation : Type 0 where
  adding removing : Mutation

pub record ReconciliationPlan : Type 0 where
  pub mutation : Mutation
  pub node_name : Text
  pub node_uid : Text
  pub resource_version : Text
  pub provider_id : Text
  pub instance_id : Option Text
  pub protected_label_key : Text
  pub protected_label_value : Text

pub data ReconciliationDecision : Type 0 where
  deny : DenyReason → ReconciliationDecision
  noop : (instance_id : Text) → ReconciliationDecision
  patch : ReconciliationPlan → List JsonPatchOperation → ReconciliationDecision
  revoke : DenyReason → ReconciliationPlan → List JsonPatchOperation → ReconciliationDecision

-- `labels[key]`
unfoldable pub label_of : Text → List (Text × Text) → Option Text
label_of key [] = none
label_of key ((k, v) ∷ labels) = if text_eq k key then some v else label_of key labels

-- `labels[key] === value`
abbrev pub is_value : Option Text → Text → Bool
is_value none v = false
is_value (some x) v = text_eq x v

-- The reason of the first test that is true: a chain of `if (test) return reason;`.
unfoldable pub first_failure : List (Bool × DenyReason) → Option DenyReason
first_failure [] = none
first_failure ((bad, reason) ∷ checks) = if bad then some reason else first_failure checks

pub first_failure-eq-none :
    (checks : List (Bool × DenyReason))
    → first_failure checks ≡ none
    → All (λ c. c.0 ≡ false) checks
unfolding first_failure
first_failure-eq-none [] h = tt
first_failure-eq-none ((bad, reason) ∷ checks) h = ground (arith, first_failure-eq-none checks)
