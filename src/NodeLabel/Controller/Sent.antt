-- ===== src/NodeLabel/Controller/Sent.antt =====
-- Which patches a cycle of packages/k8s-baseline/src/trusted-node-label-controller.ts sends.
use hulumi.Prelude.{
  ℕ, suc, true, Option, none, some, List, [], ◌∷◌, Text, All, All-mono, All-Member, Member, ◌≡◌,
  refl, sym, ap, subst, ◌∙◌,
}
use hulumi.Prelude.Result.{Result, ok, err}
use hulumi.NodeLabel.Types.{
  NodeSnapshot, TrustedNodeLabelPolicy, Ec2InstanceAttestation, JsonPatchOperation, adding,
  removing, ReconciliationPlan, ReconciliationDecision, deny, noop, patch, revoke, label_of,
  DenyReason, provider_id_malformed, evidence_unavailable,
}
use hulumi.NodeLabel.Patterns.{parse_provider_id}
use hulumi.NodeLabel.Plan.{
  plan_for, addition_patch, removal_patch, can_safely_revoke, validate_reconciliation_plan,
  PlanInvalid,
}
use hulumi.NodeLabel.Plan.Safety.{IsTrusted}
use hulumi.NodeLabel.Plan.Decisions.{
  decided_patch, decided_revoke, failure-ne-patch, failure-revoke,
}
use hulumi.NodeLabel.Plan.Effects.{Adds, Removes, addition_patch-Adds, removal_patch-Removes}
use hulumi.NodeLabel.Controller.Adapters.{
  Thrown, Answers, Dependencies, provider_failure, error_code, SentPatch, CycleState, CycleEvidence,
}
use hulumi.NodeLabel.Controller.Nodes.{
  input_of, decide_with, decide_for, decide, PatchStep, patch_of, patch_step, revoke_step, failed,
  is_node_group_candidate, sending, after_patch, after_validation, after_read, apply_patch, act,
  noted, counted, decide_events, run_node, run_nodes,
}
use hulumi.NodeLabel.Controller.Cycle.{
  Gathered, gather, initial_failures, initial_missing, start, metrics_of, noted_publish,
  publish_metrics_safely, capacity_of, after_gather, run_trusted_node_label_controller_cycle,
}

-- The node is trusted by the evidence that the cycle read, and does not have the label.
pub record IsToLabel (evidence : CycleEvidence) (answers : Answers) (node : NodeSnapshot)
    (id : Text) : Type 0 where
  pub zone : Text
  pub ec2 : Ec2InstanceAttestation
  pub described : answers.describe_ec2_instance id ≡ ok ec2
  pub is_trusted : IsTrusted (input_of evidence answers node ec2) zone id
  pub unlabelled : label_of evidence.policy.protected_label_key node.labels ≡ none

decide_with-eq-patch :
    (evidence : CycleEvidence) (answers : Answers) (node : NodeSnapshot) (zone id : Text)
    (answer : Result Thrown Ec2InstanceAttestation) (plan : ReconciliationPlan)
    (ops : List JsonPatchOperation)
    → parse_provider_id node.provider_id ≡ some (zone, id)
    → answers.describe_ec2_instance id ≡ answer
    → decide_with evidence answers node id answer ≡ patch plan ops
    → IsToLabel evidence answers node id
      × (plan ≡ plan_for adding evidence.policy node (some id))
      × (ops ≡ addition_patch evidence.policy node)
decide_with-eq-patch evidence answers node zone id (err error) plan ops p e h =
    absurd (failure-ne-patch evidence.policy node evidence_unavailable (some id) plan ops h)
decide_with-eq-patch evidence answers node zone id (ok ec2) plan ops p e h =
    let (z, i, holds, absent, same, o) =
      decided_patch (input_of evidence answers node ec2) plan ops h in
    let i_id : i ≡ id = cc (holds.provider, p) in
    (
      record {
        zone = z;
        ec2 = ec2;
        described = e;
        is_trusted = subst (λ x. IsTrusted (input_of evidence answers node ec2) z x) i_id holds;
        unlabelled = absent;
      },
      same ∙ ap (λ x. plan_for adding evidence.policy node (some x)) i_id,
      o,
    )

pub decide-eq-patch :
    (evidence : CycleEvidence) (answers : Answers) (node : NodeSnapshot)
    (found : Option (Text × Text)) (plan : ReconciliationPlan) (ops : List JsonPatchOperation)
    → parse_provider_id node.provider_id ≡ found
    → decide_for evidence answers node found ≡ patch plan ops
    → (id : Text) × IsToLabel evidence answers node id
      × (plan ≡ plan_for adding evidence.policy node (some id))
      × (ops ≡ addition_patch evidence.policy node)
decide-eq-patch evidence answers node none plan ops p h =
    absurd (failure-ne-patch evidence.policy node provider_id_malformed none plan ops h)
decide-eq-patch evidence answers node (some (zone, id)) plan ops p h =
    let (label, same, o) =
      decide_with-eq-patch evidence answers node zone id (answers.describe_ec2_instance id) plan ops
        p refl h in
    (id, label, same, o)

-- The node has the policy's label.
abbrev pub HasLabel : TrustedNodeLabelPolicy → NodeSnapshot → Type 0
HasLabel policy node =
    label_of policy.protected_label_key node.labels ≡ some policy.protected_label_value

abbrev pub IsRemoval :
    TrustedNodeLabelPolicy → NodeSnapshot → ReconciliationPlan → List JsonPatchOperation → Type 0
IsRemoval policy node plan ops =
    (id : Option Text) × HasLabel policy node
    × (can_safely_revoke policy node ≡ true)
    × (plan ≡ plan_for removing policy node id)
    × (ops ≡ removal_patch policy node)

decide_with-eq-revoke :
    (evidence : CycleEvidence) (answers : Answers) (node : NodeSnapshot) (id : Text)
    (answer : Result Thrown Ec2InstanceAttestation) (reason : DenyReason)
    (plan : ReconciliationPlan) (ops : List JsonPatchOperation)
    → decide_with evidence answers node id answer ≡ revoke reason plan ops
    → IsRemoval evidence.policy node plan ops
decide_with-eq-revoke evidence answers node id (err error) reason plan ops h =
    let (has, safe, same, o) =
      failure-revoke evidence.policy node evidence_unavailable reason (some id) plan ops h in
    (some id, has, safe, same, o)
decide_with-eq-revoke evidence answers node id (ok ec2) reason plan ops h =
    decided_revoke (input_of evidence answers node ec2) reason plan ops h

decide-eq-revoke :
    (evidence : CycleEvidence) (answers : Answers) (node : NodeSnapshot)
    (found : Option (Text × Text)) (reason : DenyReason) (plan : ReconciliationPlan)
    (ops : List JsonPatchOperation)
    → decide_for evidence answers node found ≡ revoke reason plan ops
    → IsRemoval evidence.policy node plan ops
decide-eq-revoke evidence answers node none reason plan ops h =
    let (has, safe, same, o) =
      failure-revoke evidence.policy node provider_id_malformed reason none plan ops h in
    (none, has, safe, same, o)
decide-eq-revoke evidence answers node (some (zone, id)) reason plan ops h =
    decide_with-eq-revoke evidence answers node id (answers.describe_ec2_instance id) reason plan
      ops h

-- Just before the patch is sent, the node reads back in the state that the plan was made for.
abbrev pub IsCurrent : Answers → ReconciliationPlan → Type 0
IsCurrent answers plan =
    (current : NodeSnapshot) × (answers.get_node plan.node_name ≡ ok current)
    × (validate_reconciliation_plan plan current ≡ none)

-- Why a patch may be sent while the cycle is at a node.
pub data Reason (evidence : CycleEvidence) (answers : Answers) (node : NodeSnapshot) (p : SentPatch)
    : Type 0 where
  addition :
      (id : Text)
      → IsToLabel evidence answers node id
      → IsCurrent answers (plan_for adding evidence.policy node (some id))
      → p.node_name ≡ node.name
      → p.operations ≡ addition_patch evidence.policy node
      → Adds evidence.policy node p.operations
      → Reason evidence answers node p
  removal :
      (id : Option Text)
      → HasLabel evidence.policy node
      → IsCurrent answers (plan_for removing evidence.policy node id)
      → p.node_name ≡ node.name
      → p.operations ≡ removal_patch evidence.policy node
      → Removes evidence.policy node p.operations
      → Reason evidence answers node p

module _ (P : SentPatch → Type 0) (policy : TrustedNodeLabelPolicy) (answers : Answers)
    (step : PatchStep) (ref : Text) where
  after_patch-sent :
      (answer : Result Thrown (Unit {0})) (s : CycleState)
      → All P s.sent
      → All P (after_patch step ref answer s).sent
  after_patch-sent (ok _) s h = h
  after_patch-sent (err error) s h = h

  after_validation-sent :
      (invalid : Option PlanInvalid) (s : CycleState)
      → All P s.sent
      → (invalid ≡ none → P (patch_of policy step))
      → All P (after_validation policy answers step ref invalid s).sent
  after_validation-sent none s h k =
      after_patch-sent
        (answers.patch_node step.plan.node_name step.operations policy.protected_label_key
          policy.protected_label_value)
        (sending (patch_of policy step) s) (k refl, h)
  after_validation-sent (some reason) s h k = h

  after_read-sent :
      (answer : Result Thrown NodeSnapshot) (s : CycleState)
      → answers.get_node step.plan.node_name ≡ answer
      → All P s.sent
      → (IsCurrent answers step.plan → P (patch_of policy step))
      → All P (after_read policy answers step ref answer s).sent
  after_read-sent (err error) s e h k = h
  after_read-sent (ok current) s e h k =
      after_validation-sent (validate_reconciliation_plan step.plan current) s h
        (λ valid. k (current, e, valid))

  apply_patch-sent :
      (s : CycleState)
      → All P s.sent
      → (IsCurrent answers step.plan → P (patch_of policy step))
      → All P (apply_patch policy answers step ref s).sent
  unfolding apply_patch
  apply_patch-sent s h k = after_read-sent (answers.get_node step.plan.node_name) s refl h k

act-sent :
    (P : SentPatch → Type 0) (evidence : CycleEvidence) (answers : Answers) (node : NodeSnapshot)
    (ref : Text) (d : ReconciliationDecision) (s : CycleState)
    → decide_for evidence answers node (parse_provider_id node.provider_id) ≡ d
    → ((p : SentPatch) → Reason evidence answers node p → P p)
    → All P s.sent
    → All P (act evidence.policy answers node ref d s).sent
unfolding act
act-sent P evidence answers node ref (deny reason) s e k h = h
act-sent P evidence answers node ref (noop id) s e k h = h
act-sent P evidence answers node ref (patch plan ops) s e k h =
    let (id, label, same, o) = decide-eq-patch evidence answers node _ plan ops refl e in
    apply_patch-sent P evidence.policy answers (patch_step plan ops ref) ref s h (λ current. k _ (
      addition id label (subst (IsCurrent answers) same current) (ap (λ q. q.node_name) same) o
        (addition_patch-Adds evidence.policy node ops o)))
act-sent P evidence answers node ref (revoke reason plan ops) s e k h =
    let (id, has, safe, same, o) = decide-eq-revoke evidence answers node _ reason plan ops e in
    apply_patch-sent P evidence.policy answers (revoke_step reason plan ops ref) ref
      (failed (is_node_group_candidate evidence.policy node) s) h
      (λ current. k _ (
        removal id has (subst (IsCurrent answers) same current) (ap (λ q. q.node_name) same) o
          (removal_patch-Removes evidence.policy node ops o)))

run_node-sent :
    (P : SentPatch → Type 0) (node_ref : Text → Text) (evidence : CycleEvidence) (answers : Answers)
    (node : NodeSnapshot) (s : CycleState)
    → ((p : SentPatch) → Reason evidence answers node p → P p)
    → All P s.sent
    → All P (run_node node_ref evidence answers node s).sent
unfolding run_node decide
run_node-sent P node_ref evidence answers node s k h =
    act-sent P evidence answers node (node_ref node.uid) (decide evidence answers node)
      (counted (decide_events answers (node_ref node.uid) node) s) refl k h

-- A patch that the cycle sent at one of the nodes, for a reason.
abbrev pub IsReasoned : CycleEvidence → (ℕ → Answers) → List NodeSnapshot → SentPatch → Type 0
IsReasoned evidence at_node nodes p =
    (node : NodeSnapshot) × (n : ℕ) × Member node nodes × Reason evidence (at_node n) node p

pub run_nodes-sent :
    (node_ref : Text → Text) (evidence : CycleEvidence) (at_node : ℕ → Answers)
    (nodes : List NodeSnapshot) (n : ℕ) (rest : List NodeSnapshot) (s : CycleState)
    → All (λ node. Member node nodes) rest
    → All (IsReasoned evidence at_node nodes) s.sent
    → All (IsReasoned evidence at_node nodes) (run_nodes node_ref evidence at_node n rest s).sent
unfolding run_nodes
run_nodes-sent node_ref evidence at_node nodes n [] s m h = h
run_nodes-sent node_ref evidence at_node nodes n (node ∷ rest) s (m, ms) h =
    run_nodes-sent node_ref evidence at_node nodes (suc n) rest _ ms (
      run_node-sent (IsReasoned evidence at_node nodes) node_ref evidence (at_node n) node s
        (λ p r. (node, n, m, r)) h)

publish_metrics_safely-sent :
    (dependencies : Dependencies) (s : CycleState)
    → (publish_metrics_safely dependencies s).sent ≡ s.sent
unfolding publish_metrics_safely
publish_metrics_safely-sent dependencies s =
    elim (dependencies.publish_metrics (metrics_of s))
      as (λ answer. (noted_publish answer s).sent ≡ s.sent) [ ok done ↦ refl | err error ↦ refl ]

-- A patch of a cycle: what the cycle read, and the reason at one of the nodes that it listed.
abbrev pub IsJustified : TrustedNodeLabelPolicy → Dependencies → SentPatch → Type 0
IsJustified policy dependencies p =
    (g : Gathered) × (gather policy dependencies ≡ ok g)
    × IsReasoned g.evidence dependencies.at_node g.nodes p

after_gather-sent :
    (node_ref : Text → Text) (policy : TrustedNodeLabelPolicy) (dependencies : Dependencies)
    (gathered : Result Thrown Gathered)
    → gather policy dependencies ≡ gathered
    → All (IsJustified policy dependencies) (after_gather node_ref dependencies gathered).state.sent
after_gather-sent node_ref policy dependencies (err error) e =
    subst (All (IsJustified policy dependencies))
      (sym (
        publish_metrics_safely-sent dependencies
          (noted (provider_failure (error_code error) none) (start 1 0))))
      tt
after_gather-sent node_ref policy dependencies (ok g) e =
    let first = start (initial_failures (capacity_of g)) (initial_missing (capacity_of g)) in
    let last = run_nodes node_ref g.evidence dependencies.at_node 0 g.nodes first in
    subst (All (IsJustified policy dependencies))
      (sym (publish_metrics_safely-sent dependencies last))
      (All-mono (IsReasoned g.evidence dependencies.at_node g.nodes)
        (IsJustified policy dependencies) last.sent (λ p (node, n, m, r). (g, e, (node, n, m, r)))
        (run_nodes-sent node_ref g.evidence dependencies.at_node g.nodes 0 g.nodes first
          (All-Member g.nodes) tt))

-- Each patch that a cycle sends is for a listed node. It adds the label to a node that does not have
-- it and is trusted by the evidence of this cycle, or it removes the policy's label; and the node
-- was read again just before, in the state that the patch was planned for. The operations succeed
-- only on a node of the uid, the version and the provider id of the listed one, and change nothing
-- but that label.
pub cycle-sent :
    (node_ref : Text → Text) (policy : TrustedNodeLabelPolicy) (dependencies : Dependencies)
    → All
        (IsJustified policy dependencies)
        (run_trusted_node_label_controller_cycle node_ref policy dependencies).state.sent
unfolding run_trusted_node_label_controller_cycle
cycle-sent node_ref policy dependencies =
    after_gather-sent node_ref policy dependencies (gather policy dependencies) refl
