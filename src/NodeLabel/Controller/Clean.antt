-- ===== src/NodeLabel/Controller/Clean.antt =====
-- What a cycle of packages/k8s-baseline/src/trusted-node-label-controller.ts that reports no failure
-- has done.
use hulumi.Prelude.{ℕ, suc, Option, none, some, List, [], ◌∷◌, Text, ◌≡◌, ◌≢◌, refl, sym, ap, ◌∙◌}
use hulumi.Prelude.Result.{Result, ok, err}
use hulumi.NodeLabel.Types.{
  NodeSnapshot, TrustedNodeLabelPolicy, Ec2InstanceAttestation, ReconciliationDecision, deny, noop,
  patch, revoke, provider_id_malformed, evidence_unavailable,
}
use hulumi.NodeLabel.Patterns.{parse_provider_id}
use hulumi.NodeLabel.Plan.{
  addition_patch, validate_reconciliation_plan, PlanInvalid, CapacityState, invalid, awaiting_nodes,
  zero_capacity, reconciling, ready,
}
use hulumi.NodeLabel.Plan.Safety.{IsTrusted}
use hulumi.NodeLabel.Plan.Decisions.{plan-eq-noop, failure-ne-noop}
use hulumi.NodeLabel.Controller.Adapters.{
  Thrown, Answers, Dependencies, provider_failure, error_code, CycleState, CycleEvidence,
}
use hulumi.NodeLabel.Controller.Nodes.{
  input_of, decide_with, decide_for, decide, PatchStep, patch_of, patch_step, revoke_step, failed,
  is_node_group_candidate, sending, after_patch, after_validation, after_read, apply_patch, act,
  noted, counted, decide_events, run_node, run_nodes,
}
use hulumi.NodeLabel.Controller.Cycle.{
  Gathered, gather, initial_failures, initial_missing, start, metrics_of, noted_publish,
  publish_metrics_safely, capacity_of, after_gather, run_trusted_node_label_controller_cycle,
}
use hulumi.NodeLabel.Controller.Sent.{IsToLabel, HasLabel, decide-eq-patch}

-- The node is trusted by the evidence of the cycle and has the label, or the API server took the
-- patch that adds it.
pub data IsServed (evidence : CycleEvidence) (answers : Answers) (node : NodeSnapshot)
    : Type 0 where
  kept :
      (zone id : Text) (ec2 : Ec2InstanceAttestation)
      → answers.describe_ec2_instance id ≡ ok ec2
      → IsTrusted (input_of evidence answers node ec2) zone id
      → HasLabel evidence.policy node
      → IsServed evidence answers node
  labelled :
      (id : Text)
      → IsToLabel evidence answers node id
      → answers.patch_node node.name
          (addition_patch evidence.policy node)
          evidence.policy.protected_label_key
          evidence.policy.protected_label_value
        ≡ ok tt
      → IsServed evidence answers node

abbrev pub AllServed : CycleEvidence → (ℕ → Answers) → ℕ → List NodeSnapshot → Type 0
AllServed evidence at_node n [] = Unit
AllServed evidence at_node n (node ∷ nodes) =
    IsServed evidence (at_node n) node × AllServed evidence at_node (suc n) nodes

module _ (policy : TrustedNodeLabelPolicy) (answers : Answers) (step : PatchStep) (ref : Text) where
  abbrev IsTaken : Type 0
  IsTaken =
      answers.patch_node step.plan.node_name step.operations policy.protected_label_key
        policy.protected_label_value
      ≡ ok tt

  after_patch_clean :
      (answer : Result Thrown (Unit {0})) (s : CycleState)
      → answers.patch_node step.plan.node_name step.operations policy.protected_label_key
          policy.protected_label_value
        ≡ answer
      → (after_patch step ref answer s).failures ≡ 0
      → (s.failures ≡ 0) × IsTaken
  after_patch_clean (ok tt) s e h = (h, e)
  after_patch_clean (err error) s e h = cc

  after_validation_clean :
      (bad : Option PlanInvalid) (s : CycleState)
      → (after_validation policy answers step ref bad s).failures ≡ 0
      → (s.failures ≡ 0) × IsTaken
  after_validation_clean (some reason) s h = cc
  after_validation_clean none s h =
      after_patch_clean
        (answers.patch_node step.plan.node_name step.operations policy.protected_label_key
          policy.protected_label_value)
        (sending (patch_of policy step) s) refl h

  after_read_clean :
      (answer : Result Thrown NodeSnapshot) (s : CycleState)
      → (after_read policy answers step ref answer s).failures ≡ 0
      → (s.failures ≡ 0) × IsTaken
  after_read_clean (err error) s h = cc
  after_read_clean (ok current) s h =
      after_validation_clean (validate_reconciliation_plan step.plan current) s h

  apply_patch_clean :
      (s : CycleState)
      → (apply_patch policy answers step ref s).failures ≡ 0
      → (s.failures ≡ 0) × IsTaken
  unfolding apply_patch
  apply_patch_clean s h = after_read_clean (answers.get_node step.plan.node_name) s h

decide_with-eq-noop :
    (evidence : CycleEvidence) (answers : Answers) (node : NodeSnapshot) (zone id : Text)
    (answer : Result Thrown Ec2InstanceAttestation) (kept_id : Text)
    → parse_provider_id node.provider_id ≡ some (zone, id)
    → answers.describe_ec2_instance id ≡ answer
    → decide_with evidence answers node id answer ≡ noop kept_id
    → IsServed evidence answers node
decide_with-eq-noop evidence answers node zone id (err error) kept_id p e h =
    absurd (failure-ne-noop evidence.policy node evidence_unavailable (some id) kept_id h)
decide_with-eq-noop evidence answers node zone id (ok ec2) kept_id p e h =
    let (z, holds, has) = plan-eq-noop (input_of evidence answers node ec2) kept_id h in
    let same : kept_id ≡ id = cc (holds.provider, p) in
    kept z kept_id ec2 (ap answers.describe_ec2_instance same ∙ e) holds has

decide-eq-noop :
    (evidence : CycleEvidence) (answers : Answers) (node : NodeSnapshot)
    (found : Option (Text × Text)) (kept_id : Text)
    → parse_provider_id node.provider_id ≡ found
    → decide_for evidence answers node found ≡ noop kept_id
    → IsServed evidence answers node
decide-eq-noop evidence answers node none kept_id p h =
    absurd (failure-ne-noop evidence.policy node provider_id_malformed none kept_id h)
decide-eq-noop evidence answers node (some (zone, id)) kept_id p h =
    decide_with-eq-noop evidence answers node zone id (answers.describe_ec2_instance id) kept_id p
      refl h

act_clean :
    (evidence : CycleEvidence) (answers : Answers) (node : NodeSnapshot) (ref : Text)
    (d : ReconciliationDecision) (s : CycleState)
    → decide_for evidence answers node (parse_provider_id node.provider_id) ≡ d
    → (act evidence.policy answers node ref d s).failures ≡ 0
    → (s.failures ≡ 0) × IsServed evidence answers node
unfolding act
act_clean evidence answers node ref (deny reason) s e h = cc
act_clean evidence answers node ref (noop id) s e h =
    (h, decide-eq-noop evidence answers node _ id refl e)
act_clean evidence answers node ref (revoke reason plan ops) s e h =
    let (none_before, taken) =
      apply_patch_clean evidence.policy answers (revoke_step reason plan ops ref) ref
        (failed (is_node_group_candidate evidence.policy node) s) h in
    cc
act_clean evidence answers node ref (patch plan ops) s e h =
    let (id, label, same, o) = decide-eq-patch evidence answers node _ plan ops refl e in
    let (none_before, taken) =
      apply_patch_clean evidence.policy answers (patch_step plan ops ref) ref s h in
    (none_before, labelled id label (cc (taken, ap (λ q. q.node_name) same, o)))

run_node_clean :
    (node_ref : Text → Text) (evidence : CycleEvidence) (answers : Answers) (node : NodeSnapshot)
    (s : CycleState)
    → (run_node node_ref evidence answers node s).failures ≡ 0
    → (s.failures ≡ 0) × IsServed evidence answers node
unfolding run_node decide
run_node_clean node_ref evidence answers node s h =
    act_clean evidence answers node (node_ref node.uid) (decide evidence answers node)
      (counted (decide_events answers (node_ref node.uid) node) s) refl h

run_nodes_clean :
    (node_ref : Text → Text) (evidence : CycleEvidence) (at_node : ℕ → Answers) (n : ℕ)
    (nodes : List NodeSnapshot) (s : CycleState)
    → (run_nodes node_ref evidence at_node n nodes s).failures ≡ 0
    → (s.failures ≡ 0) × AllServed evidence at_node n nodes
unfolding run_nodes
run_nodes_clean node_ref evidence at_node n [] s h = (h, tt)
run_nodes_clean node_ref evidence at_node n (node ∷ nodes) s h =
    let (after, served) =
      run_nodes_clean node_ref evidence at_node (suc n) nodes
        (run_node node_ref evidence (at_node n) node s) h in
    let (before, here) = run_node_clean node_ref evidence (at_node n) node s after in
    (before, (here, served))

publish_metrics_safely_failures :
    (dependencies : Dependencies) (s : CycleState)
    → (publish_metrics_safely dependencies s).failures ≡ s.failures
unfolding publish_metrics_safely
publish_metrics_safely_failures dependencies s =
    elim (dependencies.publish_metrics (metrics_of s))
      as (λ answer. (noted_publish answer s).failures ≡ s.failures) [
        | ok done ↦ refl
        | err error ↦ refl
      ]

initial_failures-eq-zero :
    (c : CapacityState) → initial_failures c ≡ 0 → (c ≢ invalid) × (c ≢ awaiting_nodes)
initial_failures-eq-zero invalid h = cc
initial_failures-eq-zero awaiting_nodes h = cc
initial_failures-eq-zero zero_capacity h = (λ e. cc, λ e. cc)
initial_failures-eq-zero reconciling h = (λ e. cc, λ e. cc)
initial_failures-eq-zero ready h = (λ e. cc, λ e. cc)

-- What a cycle read, and that it served every node.
abbrev pub IsClean : TrustedNodeLabelPolicy → Dependencies → CapacityState → Type 0
IsClean policy dependencies capacity =
    (g : Gathered) × (gather policy dependencies ≡ ok g)
    × (capacity ≡ capacity_of g)
    × (capacity ≢ invalid)
    × (capacity ≢ awaiting_nodes)
    × AllServed g.evidence dependencies.at_node 0 g.nodes

after_gather-IsClean :
    (node_ref : Text → Text) (policy : TrustedNodeLabelPolicy) (dependencies : Dependencies)
    (gathered : Result Thrown Gathered)
    → gather policy dependencies ≡ gathered
    → (after_gather node_ref dependencies gathered).state.failures ≡ 0
    → IsClean policy dependencies (after_gather node_ref dependencies gathered).capacity
after_gather-IsClean node_ref policy dependencies (err error) e h = cc (
  publish_metrics_safely_failures dependencies
      (noted (provider_failure (error_code error) none) (start 1 0)),
  h,
)
after_gather-IsClean node_ref policy dependencies (ok g) e h =
    let first = start (initial_failures (capacity_of g)) (initial_missing (capacity_of g)) in
    let last = run_nodes node_ref g.evidence dependencies.at_node 0 g.nodes first in
    let (initial, served) =
      run_nodes_clean node_ref g.evidence dependencies.at_node 0 g.nodes first
        (sym (publish_metrics_safely_failures dependencies last) ∙ h) in
    let (valid, staffed) = initial_failures-eq-zero (capacity_of g) initial in
    (g, e, refl, valid, staffed, served)

-- A cycle that reports no failure has read all its evidence, the capacity of the node group is
-- neither invalid nor without any node, and each listed node is trusted by that evidence and has
-- the label or got it by a patch that the API server took.
pub cycle-IsClean :
    (node_ref : Text → Text) (policy : TrustedNodeLabelPolicy) (dependencies : Dependencies)
    → (run_trusted_node_label_controller_cycle node_ref policy dependencies).state.failures ≡ 0
    → IsClean policy dependencies
        (run_trusted_node_label_controller_cycle node_ref policy dependencies).capacity
unfolding run_trusted_node_label_controller_cycle
cycle-IsClean node_ref policy dependencies h =
    after_gather-IsClean node_ref policy dependencies (gather policy dependencies) refl h
