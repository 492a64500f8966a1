-- ===== src/NodeLabel/Controller/Tests.antt =====
-- Cycles over one node, and the theorems of the controller at them.
use hulumi.Prelude.{
  ℕ, zero, suc, Bool, true, false, none, some, List, [], ◌∷◌, Text, lit, All, ◌≡◌, refl, arith,
}
use hulumi.Prelude.Result.{ok, err}
use hulumi.NodeLabel.Types.{NodeSnapshot, ReconciliationInput, DenyReason, deny, noop}
use hulumi.NodeLabel.Samples.{
  key, policy, unlabelled, node, group, asg, ec2, input, with_label, fresh_input, adding_plan,
}
use hulumi.NodeLabel.Plan.{addition_patch, removal_patch, plan_trusted_node_label, ready}
use hulumi.NodeLabel.Plan.Application.{apply_patch}
use hulumi.NodeLabel.Plan.Convergence.{evidence_on, with_version, patch_converges}
use hulumi.NodeLabel.Plan.Overfull.{overfull_denied}
use hulumi.NodeLabel.Controller.Adapters.{Answers, Dependencies}
use hulumi.NodeLabel.Controller.Cycle.{run_trusted_node_label_controller_cycle}
use hulumi.NodeLabel.Controller.Sent.{IsJustified, cycle-sent}
use hulumi.NodeLabel.Controller.Clean.{IsClean, cycle-IsClean}
use hulumi.NodeLabel.Controller.Loop.{
  TrustedNodeLabelControllerConfig, Turn, LoopStep, run_trusted_node_label_controller, cycles_of,
  cycles_at, run_trusted_node_label_controller_ends,
}

abbrev member : List (Text × Text) → NodeSnapshot
member labels = node ((lit "eks.amazonaws.com/nodegroup", lit "g") ∷ labels)

abbrev answers : Text → NodeSnapshot → Answers
answers state current = record {
  describe_ec2_instance = λ i. ok (ec2 state);
  now = (input unlabelled state).now;
  get_node = λ name. ok current;
  patch_node = λ name ops k v. ok tt;
}

abbrev serving : Text → NodeSnapshot → Dependencies
serving state n = record {
  describe_node_group = ok group;
  describe_auto_scaling_groups = λ names. ok (asg ∷ []);
  list_candidate_nodes = λ k v. ok (n ∷ []);
  at_node = λ i. answers state n;
  publish_metrics = λ m. ok tt;
}

abbrev silent : Dependencies
silent = record {
  describe_node_group = err (record { code = some (lit "AccessDenied") });
  describe_auto_scaling_groups = λ names. ok [];
  list_candidate_nodes = λ k v. ok [];
  at_node = λ i. answers (lit "running") (node unlabelled);
  publish_metrics = λ m. err (record { code = none });
}

abbrev no_digest : Text → Text
no_digest t = t

abbrev fresh : Dependencies
fresh = serving (lit "running") (member unlabelled)

labels_fresh :
    (run_trusted_node_label_controller_cycle no_digest policy fresh).state.sent
    ≡ record {
      node_name = lit "n";
      operations = addition_patch policy (member unlabelled);
      label_key = key;
      label_value = lit "trusted";
    }
      ∷ []
unfolding run_trusted_node_label_controller_cycle
labels_fresh = refl

abbrev stopped : Dependencies
stopped = serving (lit "stopped") (member (with_label (lit "trusted")))

revokes_stopped :
    (run_trusted_node_label_controller_cycle no_digest policy stopped).state.sent
    ≡ record {
      node_name = lit "n";
      operations = removal_patch policy (member (with_label (lit "trusted")));
      label_key = key;
      label_value = lit "trusted";
    }
      ∷ []
unfolding run_trusted_node_label_controller_cycle
revokes_stopped = refl

silence_fails : (run_trusted_node_label_controller_cycle no_digest policy silent).state.failures ≡ 1
unfolding run_trusted_node_label_controller_cycle
silence_fails = refl

cycle-sent_example :
    All
      (IsJustified policy fresh)
      (run_trusted_node_label_controller_cycle no_digest policy fresh).state.sent
cycle-sent_example = cycle-sent no_digest policy fresh

cycle-IsClean_example : IsClean policy fresh ready
unfolding run_trusted_node_label_controller_cycle
cycle-IsClean_example = cycle-IsClean no_digest policy fresh refl

abbrev config : TrustedNodeLabelControllerConfig
config = record { policy = policy; reconcile_interval_ms = 30000 }

abbrev before : ℕ → Bool
before zero = false
before (suc n) = true

abbrev turns : ℕ → Turn
turns n = record { dependencies = fresh; aborted_before = before n; aborted_after = false }

run_trusted_node_label_controller_ends_example :
    (steps : List LoopStep) × (run_trusted_node_label_controller no_digest config turns 2 0
      ≡ some steps)
    × (cycles_of steps ≡ cycles_at no_digest config turns 1 0)
run_trusted_node_label_controller_ends_example =
    run_trusted_node_label_controller_ends no_digest config turns 1 0 2 (refl, refl) (omega arith)

patch_converges_example :
    (patched : NodeSnapshot) × (apply_patch
        (addition_patch policy (node unlabelled))
        (node unlabelled)
      ≡ some patched)
    × (i : Text) × (plan_trusted_node_label
          (evidence_on fresh_input (with_version (lit "43") patched))
        ≡ noop i)
unfolding plan_trusted_node_label
patch_converges_example =
    patch_converges fresh_input adding_plan (addition_patch policy (node unlabelled)) (lit "43")
      refl (omega arith) refl

abbrev many : ℕ → List (Text × Text)
many zero = unlabelled
many (suc n) = (lit "l", lit "v") ∷ many n

abbrev overfull : ReconciliationInput
overfull = input ((key, lit "trusted") ∷ many 256) (lit "stopped")

overfull_denied_example : (r : DenyReason) × (plan_trusted_node_label overfull ≡ deny r)
overfull_denied_example = overfull_denied overfull (omega arith)
