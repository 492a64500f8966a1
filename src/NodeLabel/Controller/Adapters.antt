-- ===== src/NodeLabel/Controller/Adapters.antt =====
-- The adapters and the results of packages/k8s-baseline/src/trusted-node-label-controller.ts.
use hulumi.Prelude.{ℕ, Option, none, some, List, Text, lit}
use hulumi.Prelude.Result.{Result}
use hulumi.NodeLabel.Types.{
  JsNumber, NodeSnapshot, TrustedNodeLabelPolicy, EksNodeGroupAttestation,
  AutoScalingGroupAttestation, Ec2InstanceAttestation, DenyReason, JsonPatchOperation,
}
use hulumi.NodeLabel.Plan.{PlanInvalid, CapacityState}

-- What an adapter throws: its `code`, where that is a string.
pub record Thrown : Type 0 where
  pub code : Option Text

abbrev code_or : Option Text → Text
code_or (some code) = code
code_or none = lit "unexpected_failure"

unfoldable pub error_code : Thrown → Text
error_code error = code_or error.code

-- What the adapters answer while the cycle is at one node.
pub record Answers : Type 0 where
  pub describe_ec2_instance : Text → Result Thrown Ec2InstanceAttestation
  pub now : JsNumber
  pub get_node : Text → Result Thrown NodeSnapshot
  pub patch_node : Text → List JsonPatchOperation → Text → Text → Result Thrown (Unit {0})

pub record Metrics : Type 0 where
  pub decisions : ℕ
  pub failures : ℕ
  pub missing_trusted_labels : ℕ

-- `at_node n` has the answers at the n-th node of the cycle, from 0.
pub record Dependencies : Type 0 where
  pub describe_node_group : Result Thrown EksNodeGroupAttestation
  pub describe_auto_scaling_groups : List Text → Result Thrown (List AutoScalingGroupAttestation)
  pub list_candidate_nodes : Text → Text → Result Thrown (List NodeSnapshot)
  pub at_node : ℕ → Answers
  pub publish_metrics : Metrics → Result Thrown (Unit {0})

pub data ControllerAuditEvent : Type 0 where
  provider_failure : (reason : Text) → (node_ref : Option Text) → ControllerAuditEvent
  node_denied : DenyReason → (node_ref : Text) → ControllerAuditEvent
  node_noop : (node_ref : Text) → ControllerAuditEvent
  node_revoked : DenyReason → (node_ref : Text) → ControllerAuditEvent
  node_patched : (node_ref : Text) → ControllerAuditEvent
  stale_plan : PlanInvalid → (node_ref : Text) → ControllerAuditEvent
  patch_rejected : (reason : Text) → (node_ref : Text) → ControllerAuditEvent
  metric_publish_failed : (reason : Text) → ControllerAuditEvent
  cycle_complete : CapacityState → Metrics → ControllerAuditEvent

-- A call of `patchNode`.
pub record SentPatch : Type 0 where
  pub node_name : Text
  pub operations : List JsonPatchOperation
  pub label_key : Text
  pub label_value : Text

-- The variables of a cycle, with its events and its calls of `patchNode`, the latest first.
pub record CycleState : Type 0 where
  pub decisions : ℕ
  pub failures : ℕ
  pub missing_trusted_labels : ℕ
  pub patched : ℕ
  pub events : List ControllerAuditEvent
  pub sent : List SentPatch

pub record TrustedNodeLabelCycleResult : Type 0 where
  pub capacity : CapacityState
  pub state : CycleState

-- The configuration's policy with what a cycle read first.
pub record CycleEvidence : Type 0 where
  pub policy : TrustedNodeLabelPolicy
  pub node_group : EksNodeGroupAttestation
  pub auto_scaling_groups : List AutoScalingGroupAttestation
