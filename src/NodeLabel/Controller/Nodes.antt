-- ===== src/NodeLabel/Controller/Nodes.antt =====
-- The loop over the nodes of a cycle of
-- packages/k8s-baseline/src/trusted-node-label-controller.ts.
use hulumi.Prelude.{
  ℕ, suc, Bool, true, false, not, Option, none, some, is_some, List, [], ◌∷◌, ◌++◌, Text, lit,
  text_eq,
}
use hulumi.Prelude.Result.{Result, ok, err}
use hulumi.NodeLabel.Types.{
  NodeSnapshot, TrustedNodeLabelPolicy, Ec2InstanceAttestation, ReconciliationInput, DenyReason,
  provider_id_malformed, evidence_unavailable, JsonPatchOperation, ReconciliationPlan,
  ReconciliationDecision, deny, noop, patch, revoke, label_of, is_value,
}
use hulumi.NodeLabel.Patterns.{parse_provider_id}
use hulumi.NodeLabel.Plan.{
  plan_trusted_node_label, plan_trusted_node_label_failure, validate_reconciliation_plan,
  PlanInvalid,
}
use hulumi.NodeLabel.Controller.Adapters.{
  Thrown, error_code, Answers, ControllerAuditEvent, provider_failure, node_denied, node_noop,
  node_revoked, node_patched, stale_plan, patch_rejected, SentPatch, CycleState, CycleEvidence,
}

unfoldable pub node_group_label : Text
node_group_label = lit "eks.amazonaws.com/nodegroup"

-- `isNodeGroupCandidate`
unfoldable pub is_node_group_candidate : TrustedNodeLabelPolicy → NodeSnapshot → Bool
unfolding label_of text_eq node_group_label
is_node_group_candidate policy node =
    is_value (label_of node_group_label node.labels) policy.node_group_name

-- `missingAtRead`
unfoldable pub missing_at_read : TrustedNodeLabelPolicy → NodeSnapshot → Bool
unfolding label_of
missing_at_read policy node = not (is_some (label_of policy.protected_label_key node.labels))

abbrev pub input_of :
    CycleEvidence → Answers → NodeSnapshot → Ec2InstanceAttestation → ReconciliationInput
input_of evidence answers node ec2 = record {
  now = answers.now;
  policy = evidence.policy;
  node = node;
  node_group = evidence.node_group;
  auto_scaling_groups = evidence.auto_scaling_groups;
  ec2_instance = ec2;
}

-- The decision from what `describeEc2Instance` answers for the instance.
abbrev pub decide_with :
    CycleEvidence
    → Answers
    → NodeSnapshot
    → Text
    → Result Thrown Ec2InstanceAttestation
    → ReconciliationDecision
decide_with evidence answers node id (ok ec2) =
    plan_trusted_node_label (input_of evidence answers node ec2)
decide_with evidence answers node id (err error) =
    plan_trusted_node_label_failure evidence.policy node evidence_unavailable (some id)

abbrev pub decide_for :
    CycleEvidence → Answers → NodeSnapshot → Option (Text × Text) → ReconciliationDecision
decide_for evidence answers node none =
    plan_trusted_node_label_failure evidence.policy node provider_id_malformed none
decide_for evidence answers node (some (zone, id)) =
    decide_with evidence answers node id (answers.describe_ec2_instance id)

unfoldable pub decide : CycleEvidence → Answers → NodeSnapshot → ReconciliationDecision
unfolding parse_provider_id plan_trusted_node_label plan_trusted_node_label_failure
decide evidence answers node = decide_for evidence answers node (parse_provider_id node.provider_id)

abbrev failure_event : Text → Result Thrown Ec2InstanceAttestation → List ControllerAuditEvent
failure_event ref (ok ec2) = []
failure_event ref (err error) = provider_failure (error_code error) (some ref) ∷ []

abbrev events_for : Answers → Text → Option (Text × Text) → List ControllerAuditEvent
events_for answers ref none = []
events_for answers ref (some (zone, id)) = failure_event ref (answers.describe_ec2_instance id)

-- The event of a call of `describeEc2Instance` that throws.
unfoldable pub decide_events : Answers → Text → NodeSnapshot → List ControllerAuditEvent
unfolding parse_provider_id error_code
decide_events answers ref node = events_for answers ref (parse_provider_id node.provider_id)

abbrev pub count : Bool → ℕ → ℕ
count true n = suc n
count false n = n

abbrev pub noted : ControllerAuditEvent → CycleState → CycleState
noted event s = record {
  decisions = s.decisions;
  failures = s.failures;
  missing_trusted_labels = s.missing_trusted_labels;
  patched = s.patched;
  events = event ∷ s.events;
  sent = s.sent;
}

-- `failures += 1; if (missing) missingTrustedLabels += 1;`
abbrev pub failed : Bool → CycleState → CycleState
failed missing s = record {
  decisions = s.decisions;
  failures = suc s.failures;
  missing_trusted_labels = count missing s.missing_trusted_labels;
  patched = s.patched;
  events = s.events;
  sent = s.sent;
}

abbrev pub sending : SentPatch → CycleState → CycleState
sending p s = record {
  decisions = s.decisions;
  failures = s.failures;
  missing_trusted_labels = s.missing_trusted_labels;
  patched = s.patched;
  events = s.events;
  sent = p ∷ s.sent;
}

abbrev pub patched_one : CycleState → CycleState
patched_one s = record {
  decisions = s.decisions;
  failures = s.failures;
  missing_trusted_labels = s.missing_trusted_labels;
  patched = suc s.patched;
  events = s.events;
  sent = s.sent;
}

-- A decision that patches: its plan, its patch, whether it is an addition, and its event.
pub record PatchStep : Type 0 where
  pub plan : ReconciliationPlan
  pub operations : List JsonPatchOperation
  pub is_addition : Bool
  pub success : ControllerAuditEvent

abbrev pub patch_step : ReconciliationPlan → List JsonPatchOperation → Text → PatchStep
patch_step plan ops ref = record {
  plan = plan;
  operations = ops;
  is_addition = true;
  success = node_patched ref;
}

abbrev pub revoke_step :
    DenyReason → ReconciliationPlan → List JsonPatchOperation → Text → PatchStep
revoke_step reason plan ops ref = record {
  plan = plan;
  operations = ops;
  is_addition = false;
  success = node_revoked reason ref;
}

abbrev pub patch_of : TrustedNodeLabelPolicy → PatchStep → SentPatch
patch_of policy step = record {
  node_name = step.plan.node_name;
  operations = step.operations;
  label_key = policy.protected_label_key;
  label_value = policy.protected_label_value;
}

abbrev pub after_patch : PatchStep → Text → Result Thrown (Unit {0}) → CycleState → CycleState
after_patch step ref (ok _) s = noted step.success (patched_one s)
after_patch step ref (err error) s =
    noted (patch_rejected (error_code error) ref) (failed step.is_addition s)

abbrev pub after_validation :
    TrustedNodeLabelPolicy
    → Answers
    → PatchStep
    → Text
    → Option PlanInvalid
    → CycleState
    → CycleState
after_validation policy answers step ref (some reason) s =
    noted (stale_plan reason ref) (failed step.is_addition s)
after_validation policy answers step ref none s =
    after_patch step ref
      (answers.patch_node step.plan.node_name step.operations policy.protected_label_key
        policy.protected_label_value)
      (sending (patch_of policy step) s)

abbrev pub after_read :
    TrustedNodeLabelPolicy
    → Answers
    → PatchStep
    → Text
    → Result Thrown NodeSnapshot
    → CycleState
    → CycleState
after_read policy answers step ref (err error) s =
    noted (patch_rejected (error_code error) ref) (failed step.is_addition s)
after_read policy answers step ref (ok current) s =
    after_validation policy answers step ref (validate_reconciliation_plan step.plan current) s

-- The `try` of a decision that patches.
unfoldable pub apply_patch :
    TrustedNodeLabelPolicy → Answers → PatchStep → Text → CycleState → CycleState
unfolding validate_reconciliation_plan error_code
apply_patch policy answers step ref s =
    after_read policy answers step ref (answers.get_node step.plan.node_name) s

unfoldable pub act :
    TrustedNodeLabelPolicy
    → Answers
    → NodeSnapshot
    → Text
    → ReconciliationDecision
    → CycleState
    → CycleState
unfolding apply_patch is_node_group_candidate missing_at_read
act policy answers node ref (deny reason) s =
    noted (node_denied reason ref) (failed (missing_at_read policy node) s)
act policy answers node ref (noop id) s = noted (node_noop ref) s
act policy answers node ref (revoke reason plan ops) s =
    apply_patch policy answers (revoke_step reason plan ops ref) ref
      (failed (is_node_group_candidate policy node) s)
act policy answers node ref (patch plan ops) s =
    apply_patch policy answers (patch_step plan ops ref) ref s

abbrev pub counted : List ControllerAuditEvent → CycleState → CycleState
counted more s = record {
  decisions = suc s.decisions;
  failures = s.failures;
  missing_trusted_labels = s.missing_trusted_labels;
  patched = s.patched;
  events = more ++ s.events;
  sent = s.sent;
}

-- The body of the loop. `node_ref` is the digest of a node's uid.
unfoldable pub run_node :
    (Text → Text) → CycleEvidence → Answers → NodeSnapshot → CycleState → CycleState
unfolding decide decide_events act
run_node node_ref evidence answers node s =
    let ref = node_ref node.uid in
    act evidence.policy answers node ref (decide evidence answers node)
      (counted (decide_events answers ref node) s)

-- The loop from the n-th node on.
unfoldable pub run_nodes :
    (Text → Text) → CycleEvidence → (ℕ → Answers) → ℕ → List NodeSnapshot → CycleState → CycleState
unfolding run_node
run_nodes node_ref evidence at_node n [] s = s
run_nodes node_ref evidence at_node n (node ∷ nodes) s =
    run_nodes node_ref evidence at_node (suc n) nodes
      (run_node node_ref evidence (at_node n) node s)
