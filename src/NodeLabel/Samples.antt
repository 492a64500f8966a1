-- ===== src/NodeLabel/Samples.antt =====
-- A policy, a node and the evidence on it, for the tests.
use hulumi.Prelude.{some, List, [], ◌∷◌, Text, lit}
use hulumi.Prelude.Int.{pos}
use hulumi.NodeLabel.Types.{
  safe, KubernetesTaint, NodeSnapshot, TrustedNodeLabelPolicy, EksNodeGroupAttestation,
  AutoScalingGroupAttestation, Ec2InstanceAttestation, ReconciliationInput, adding, removing,
  ReconciliationPlan,
}
use hulumi.NodeLabel.Plan.{plan_for}

abbrev pub key : Text
key = lit "hulumi.node-restriction.kubernetes.io/trust"

abbrev pub taint : KubernetesTaint
taint = record { key = lit "dedicated"; value = lit "tenant"; effect = lit "NoSchedule" }

abbrev pub id : Text
id = lit "i-0123456789abcdef0"

abbrev pub policy : TrustedNodeLabelPolicy
policy = record {
  cluster_name = lit "c";
  node_group_name = lit "g";
  aws_account_id = lit "123456789012";
  region = lit "eu-west-1";
  protected_label_key = key;
  protected_label_value = lit "trusted";
  allowed_instance_types = lit "m5.large" ∷ [];
  expected_taints = taint ∷ [];
  max_evidence_age_ms = safe (pos 60000);
  max_evidence_skew_ms = safe (pos 30000);
}

abbrev pub unlabelled : List (Text × Text)
unlabelled =
    (lit "topology.kubernetes.io/zone", lit "eu-west-1a")
    ∷ (lit "node.kubernetes.io/instance-type", lit "m5.large")
    ∷ []

abbrev pub node : List (Text × Text) → NodeSnapshot
node labels = record {
  name = lit "n";
  uid = lit "u-1";
  resource_version = lit "42";
  provider_id = lit "aws:///eu-west-1a/i-0123456789abcdef0";
  labels = labels;
  taints = taint ∷ [];
}

abbrev pub group : EksNodeGroupAttestation
group = record {
  cluster_name = lit "c";
  node_group_name = lit "g";
  status = lit "ACTIVE";
  auto_scaling_group_names = lit "asg" ∷ [];
  min_size = safe (pos 1);
  desired_size = safe (pos 1);
  max_size = safe (pos 2);
  captured_at = safe (pos 1000);
}

abbrev pub asg : AutoScalingGroupAttestation
asg = record {
  name = lit "asg";
  instances =
      record {
        instance_id = lit "i-0123456789abcdef0";
        lifecycle_state = lit "InService";
        health_status = lit "Healthy";
      }
      ∷ [];
  captured_at = safe (pos 1500);
}

abbrev pub ec2 : Text → Ec2InstanceAttestation
ec2 state = record {
  instance_id = lit "i-0123456789abcdef0";
  account_id = lit "123456789012";
  region = lit "eu-west-1";
  availability_zone = lit "eu-west-1a";
  instance_type = lit "m5.large";
  state = state;
  captured_at = safe (pos 1200);
}

abbrev pub input : List (Text × Text) → Text → ReconciliationInput
input labels state = record {
  now = safe (pos 2000);
  policy = policy;
  node = node labels;
  node_group = group;
  auto_scaling_groups = asg ∷ [];
  ec2_instance = ec2 state;
}

abbrev pub with_label : Text → List (Text × Text)
with_label value = (key, value) ∷ unlabelled

abbrev pub fresh_input : ReconciliationInput
fresh_input = input unlabelled (lit "running")

abbrev pub kept_input : ReconciliationInput
kept_input = input (with_label (lit "trusted")) (lit "running")

abbrev pub stopped_input : ReconciliationInput
stopped_input = input (with_label (lit "trusted")) (lit "stopped")

abbrev pub other_input : ReconciliationInput
other_input = input (with_label (lit "other")) (lit "running")

abbrev pub adding_plan : ReconciliationPlan
adding_plan = plan_for adding policy (node unlabelled) (some id)

abbrev pub removing_plan : ReconciliationPlan
removing_plan = plan_for removing policy (node (with_label (lit "trusted"))) (some id)
