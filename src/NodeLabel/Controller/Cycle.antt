-- ===== src/NodeLabel/Controller/Cycle.antt =====
-- One cycle of packages/k8s-baseline/src/trusted-node-label-controller.ts.
use hulumi.Prelude.{ℕ, suc, none, List, [], ◌∷◌, Text, if◌then◌else◌}
use hulumi.Prelude.Int.{pos}
use hulumi.Prelude.Result.{Result, ok, err, ◌>>=◌}
use hulumi.NodeLabel.Types.{safe, NodeSnapshot, TrustedNodeLabelPolicy}
use hulumi.NodeLabel.Plan.{
  CapacityState, invalid, awaiting_nodes, reconciling, classify_node_group_capacity,
}
use hulumi.NodeLabel.Controller.Adapters.{
  Thrown, error_code, Metrics, Dependencies, provider_failure, metric_publish_failed,
  cycle_complete, CycleState, TrustedNodeLabelCycleResult, CycleEvidence,
}
use hulumi.NodeLabel.Controller.Nodes.{is_node_group_candidate, noted, run_nodes}

-- What a cycle reads first.
pub record Gathered : Type 0 where
  pub evidence : CycleEvidence
  pub nodes : List NodeSnapshot

unfoldable pub gather : TrustedNodeLabelPolicy → Dependencies → Result Thrown Gathered
gather policy dependencies = dependencies.describe_node_group >>= λ group.
    dependencies.describe_auto_scaling_groups group.auto_scaling_group_names >>= λ groups.
    dependencies.list_candidate_nodes policy.protected_label_key policy.protected_label_value
    >>= λ nodes. ok (record {
      evidence = record { policy = policy; node_group = group; auto_scaling_groups = groups };
      nodes = nodes;
    })

-- `nodeGroupNodeCount`
unfoldable pub count_candidates : TrustedNodeLabelPolicy → List NodeSnapshot → ℕ
unfolding is_node_group_candidate
count_candidates policy [] = 0
count_candidates policy (node ∷ nodes) =
    let n = count_candidates policy nodes in
    if is_node_group_candidate policy node then suc n else n

-- The initial `failures` and `missingTrustedLabels`.
abbrev pub initial_failures : CapacityState → ℕ
initial_failures invalid = 1
initial_failures awaiting_nodes = 1
initial_failures _ = 0

abbrev pub initial_missing : CapacityState → ℕ
initial_missing awaiting_nodes = 1
initial_missing reconciling = 1
initial_missing _ = 0

abbrev pub start : ℕ → ℕ → CycleState
start failures missing = record {
  decisions = 0;
  failures = failures;
  missing_trusted_labels = missing;
  patched = 0;
  events = [];
  sent = [];
}

abbrev pub metrics_of : CycleState → Metrics
metrics_of s = record {
  decisions = s.decisions;
  failures = s.failures;
  missing_trusted_labels = s.missing_trusted_labels;
}

abbrev pub noted_publish : Result Thrown (Unit {0}) → CycleState → CycleState
noted_publish (ok _) s = s
noted_publish (err error) s = noted (metric_publish_failed (error_code error)) s

unfoldable pub publish_metrics_safely : Dependencies → CycleState → CycleState
unfolding error_code
publish_metrics_safely dependencies s =
    noted_publish (dependencies.publish_metrics (metrics_of s)) s

abbrev pub completed : CapacityState → Dependencies → CycleState → TrustedNodeLabelCycleResult
completed capacity dependencies s = record {
  capacity = capacity;
  state = noted (cycle_complete capacity (metrics_of s)) (publish_metrics_safely dependencies s);
}

abbrev pub capacity_of : Gathered → CapacityState
capacity_of g =
    classify_node_group_capacity g.evidence.node_group.desired_size
      (safe (pos (count_candidates g.evidence.policy g.nodes)))

abbrev pub after_gather :
    (Text → Text) → Dependencies → Result Thrown Gathered → TrustedNodeLabelCycleResult
after_gather node_ref dependencies (err error) = record {
  capacity = invalid;
  state =
      publish_metrics_safely dependencies
        (noted (provider_failure (error_code error) none) (start 1 0));
}
after_gather node_ref dependencies (ok g) = completed (capacity_of g) dependencies (
    run_nodes node_ref g.evidence dependencies.at_node 0 g.nodes
      (start (initial_failures (capacity_of g)) (initial_missing (capacity_of g))))

unfoldable pub run_trusted_node_label_controller_cycle :
    (Text → Text) → TrustedNodeLabelPolicy → Dependencies → TrustedNodeLabelCycleResult
unfolding gather count_candidates classify_node_group_capacity run_nodes publish_metrics_safely
    error_code
run_trusted_node_label_controller_cycle node_ref policy dependencies =
    after_gather node_ref dependencies (gather policy dependencies)
