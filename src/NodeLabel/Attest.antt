-- ===== src/NodeLabel/Attest.antt =====
-- The checks of packages/k8s-baseline/src/trusted-node-label-reconciler-core.ts: input bounds, the
-- freshness of the evidence, the membership in an Auto Scaling group, EC2, and the taints. Each
-- gives the reason of the first failure.
use hulumi.Prelude.{
  ℕ, suc, ◌+◌, Bool, true, false, not, ◌&&◌, ◌||◌, Option, none, some, List, [], ◌∷◌, ◌++◌, Text,
  lit, text_eq, text_contains, starts_with, leb, ltb, ◌==◌, any, all, length, map, if◌then◌else◌,
}
use hulumi.Prelude.Int.{ℤ, pos, ◌-ℤ◌, ltb_ℤ, leb_ℤ}
use hulumi.NodeLabel.Types.{
  JsNumber, is_safe, value_of, is_non_negative_integer, KubernetesTaint, NodeSnapshot,
  TrustedNodeLabelPolicy, EksNodeGroupAttestation, AsgInstance, AutoScalingGroupAttestation,
  Ec2InstanceAttestation, ReconciliationInput, DenyReason, input_malformed, input_bounds_exceeded,
  protected_label_key_invalid, evidence_from_future, evidence_stale, evidence_skew_exceeded,
  asg_not_attested, asg_evidence_incomplete, membership_missing, membership_ambiguous,
  membership_unhealthy, instance_id_mismatch, account_mismatch, region_mismatch,
  availability_zone_mismatch, instance_type_denied, instance_not_running, node_zone_label_mismatch,
  node_instance_type_label_mismatch, expected_taint_missing, expected_taint_conflict, first_failure,
  label_of, is_value,
}
use hulumi.NodeLabel.Patterns.{
  is_lower, has_length, is_instance_id, is_account_id, is_region, is_label_name,
  is_bounded_identifier, is_valid_protected_label_key,
}

abbrev pub max_asgs : ℕ
max_asgs = 8

abbrev pub max_evidence_age_ms : ℤ
max_evidence_age_ms = pos 600000

-- `new Set(values).size === values.length`
unfoldable pub has_no_duplicates : List Text → Bool
unfolding text_contains
has_no_duplicates [] = true
has_no_duplicates (v ∷ values) = not (text_contains values v) && has_no_duplicates values

unfoldable pub is_unique_non_empty : List Text → ℕ → Bool
unfolding has_no_duplicates is_bounded_identifier
is_unique_non_empty values maximum =
    ltb 0 (length values)
    && leb (length values) maximum
    && all is_bounded_identifier values
    && has_no_duplicates values

unfoldable pub has_valid_scaling_bounds : EksNodeGroupAttestation → Bool
unfolding is_non_negative_integer
has_valid_scaling_bounds g =
    is_non_negative_integer g.min_size
    && is_non_negative_integer g.desired_size
    && is_non_negative_integer g.max_size
    && leb_ℤ (value_of g.min_size) (value_of g.desired_size)
    && leb_ℤ (value_of g.desired_size) (value_of g.max_size)

-- The strings of the policy and of the node.
unfoldable pub identities_ok : TrustedNodeLabelPolicy → NodeSnapshot → Bool
unfolding is_bounded_identifier is_account_id is_region is_label_name
identities_ok policy node =
    is_bounded_identifier policy.cluster_name
    && is_bounded_identifier policy.node_group_name
    && is_account_id policy.aws_account_id
    && is_region policy.region
    && is_label_name policy.protected_label_value
    && is_bounded_identifier node.name
    && has_length 1 128 node.uid
    && has_length 1 128 node.resource_version

abbrev pub group_ok : AutoScalingGroupAttestation → Bool
group_ok g = leb (length g.instances) 2048 && all (λ i. is_instance_id i.instance_id) g.instances

-- The sizes of the collections.
unfoldable pub bounds_ok : ReconciliationInput → Bool
unfolding is_unique_non_empty is_instance_id
bounds_ok input =
    is_unique_non_empty input.policy.allowed_instance_types 16
    && is_unique_non_empty input.node_group.auto_scaling_group_names max_asgs
    && ltb 0 (length input.policy.expected_taints)
    && leb (length input.policy.expected_taints) 16
    && leb (length input.node.labels) 256
    && leb (length input.node.taints) 64
    && leb (length input.auto_scaling_groups) max_asgs
    && all group_ok input.auto_scaling_groups

abbrev pub taint_effects : List Text
taint_effects = lit "NoSchedule" ∷ lit "PreferNoSchedule" ∷ lit "NoExecute" ∷ []

abbrev pub taint_ok : KubernetesTaint → Bool
taint_ok t = is_label_name t.key && leb (length t.value) 63 && text_contains taint_effects t.effect

-- The text that joins a taint's key and effect by the unit 0.
abbrev pub taint_id : KubernetesTaint → Text
taint_id t = t.key ++ (0 ∷ t.effect)

-- The taints and the numbers of the policy.
unfoldable pub policy_ok : TrustedNodeLabelPolicy → EksNodeGroupAttestation → Bool
unfolding is_label_name text_contains has_no_duplicates has_valid_scaling_bounds
policy_ok policy group =
    all taint_ok policy.expected_taints
    && has_no_duplicates (map taint_id policy.expected_taints)
    && has_valid_scaling_bounds group
    && is_safe policy.max_evidence_age_ms
    && leb_ℤ (pos 1) (value_of policy.max_evidence_age_ms)
    && leb_ℤ (value_of policy.max_evidence_age_ms) max_evidence_age_ms
    && is_safe policy.max_evidence_skew_ms
    && leb_ℤ (pos 0) (value_of policy.max_evidence_skew_ms)
    && leb_ℤ (value_of policy.max_evidence_skew_ms) (value_of policy.max_evidence_age_ms)

abbrev pub input_checks : ReconciliationInput → List (Bool × DenyReason)
input_checks input =
    (not (identities_ok input.policy input.node), input_malformed)
    ∷ (
      not (is_valid_protected_label_key input.policy.protected_label_key),
      protected_label_key_invalid,
    )
    ∷ (not (bounds_ok input), input_bounds_exceeded)
    ∷ (not (policy_ok input.policy input.node_group), input_malformed)
    ∷ []

unfoldable pub input_failure : ReconciliationInput → Option DenyReason
unfolding first_failure identities_ok is_valid_protected_label_key bounds_ok policy_ok
input_failure input = first_failure (input_checks input)

unfoldable pub timestamps : ReconciliationInput → List JsNumber
timestamps input =
    input.node_group.captured_at
    ∷ (map (λ g. g.captured_at) input.auto_scaling_groups ++ input.ec2_instance.captured_at ∷ [])

abbrev pub max_ℤ : ℤ → ℤ → ℤ
max_ℤ a b = if leb_ℤ a b then b else a

abbrev pub min_ℤ : ℤ → ℤ → ℤ
min_ℤ a b = if leb_ℤ a b then a else b

-- `Math.max(...timestamps)` and `Math.min(...timestamps)` of a list with a first element.
unfoldable pub latest : ℤ → List JsNumber → ℤ
latest m [] = m
latest m (t ∷ ts) = latest (max_ℤ m (value_of t)) ts

unfoldable pub earliest : ℤ → List JsNumber → ℤ
earliest m [] = m
earliest m (t ∷ ts) = earliest (min_ℤ m (value_of t)) ts

abbrev pub skew_of : List JsNumber → ℤ
skew_of [] = pos 0
skew_of (t ∷ ts) = latest (value_of t) ts -ℤ earliest (value_of t) ts

abbrev pub evidence_checks :
    JsNumber → TrustedNodeLabelPolicy → List JsNumber → List (Bool × DenyReason)
evidence_checks now policy ts =
    (not (is_safe now) || any (λ t. not (is_safe t)) ts, input_malformed)
    ∷ (any (λ t. ltb_ℤ (value_of now) (value_of t)) ts, evidence_from_future)
    ∷ (
      any (λ t. ltb_ℤ (value_of policy.max_evidence_age_ms) (value_of now -ℤ value_of t)) ts,
      evidence_stale,
    )
    ∷ (ltb_ℤ (value_of policy.max_evidence_skew_ms) (skew_of ts), evidence_skew_exceeded)
    ∷ []

unfoldable pub evidence_failure : ReconciliationInput → Option DenyReason
unfolding first_failure timestamps latest earliest
evidence_failure input = first_failure (evidence_checks input.now input.policy (timestamps input))

-- The instances with an id, of all groups.
unfoldable pub with_id : Text → List AsgInstance → List AsgInstance
with_id id [] = []
with_id id (i ∷ is) =
    let rest = with_id id is in if text_eq i.instance_id id then i ∷ rest else rest

unfoldable pub memberships : Text → List AutoScalingGroupAttestation → List AsgInstance
unfolding with_id
memberships id [] = []
memberships id (g ∷ gs) = with_id id g.instances ++ memberships id gs

abbrev pub is_healthy : AsgInstance → Bool
is_healthy i =
    text_eq i.lifecycle_state (lit "InService") && text_eq i.health_status (lit "Healthy")

unfoldable pub membership_failure : List AsgInstance → Option DenyReason
membership_failure [] = some membership_missing
membership_failure (i ∷ []) = if is_healthy i then none else some membership_unhealthy
membership_failure (i ∷ j ∷ is) = some membership_ambiguous

-- `new Set(names).size`
unfoldable pub distinct_count : List Text → ℕ
unfolding text_contains
distinct_count [] = 0
distinct_count (v ∷ values) =
    let n = distinct_count values in if text_contains values v then n else suc n

unfoldable pub attest_membership : ReconciliationInput → Text → Option DenyReason
unfolding text_contains has_no_duplicates distinct_count memberships membership_failure
attest_membership input id =
    let allowed = input.node_group.auto_scaling_group_names in
    let names = map (λ g. g.name) input.auto_scaling_groups in
    if any (λ n. not (text_contains allowed n)) names
    then some asg_not_attested
    else if not (has_no_duplicates names)
        || not (length names == distinct_count allowed)
        || any (λ n. not (text_contains names n)) allowed
    then some asg_evidence_incomplete
    else membership_failure (memberships id input.auto_scaling_groups)

abbrev pub last_is_lower : Text → Bool
last_is_lower [] = false
last_is_lower (c ∷ []) = is_lower c
last_is_lower (c ∷ d ∷ rest) = last_is_lower (d ∷ rest)

abbrev pub zone_in_region : Text → Text → Bool
zone_in_region zone region =
    length zone == length region + 1 && starts_with zone region && last_is_lower zone

unfoldable pub zone_label : Text
zone_label = lit "topology.kubernetes.io/zone"

unfoldable pub instance_type_label : Text
instance_type_label = lit "node.kubernetes.io/instance-type"

abbrev pub ec2_checks :
    TrustedNodeLabelPolicy
    → Ec2InstanceAttestation
    → NodeSnapshot
    → Text
    → Text
    → List (Bool × DenyReason)
ec2_checks policy ec2 node id zone =
    (not (text_eq ec2.instance_id id), instance_id_mismatch)
    ∷ (not (text_eq ec2.account_id policy.aws_account_id), account_mismatch)
    ∷ (not (text_eq ec2.region policy.region), region_mismatch)
    ∷ (
      not (text_eq ec2.availability_zone zone) || not (zone_in_region zone policy.region),
      availability_zone_mismatch,
    )
    ∷ (not (text_contains policy.allowed_instance_types ec2.instance_type), instance_type_denied)
    ∷ (not (text_eq ec2.state (lit "running")), instance_not_running)
    ∷ (
      not (is_value (label_of zone_label node.labels) ec2.availability_zone),
      node_zone_label_mismatch,
    )
    ∷ (
      not (is_value (label_of instance_type_label node.labels) ec2.instance_type),
      node_instance_type_label_mismatch,
    )
    ∷ []

unfoldable pub attest_ec2_and_node :
    TrustedNodeLabelPolicy → Ec2InstanceAttestation → NodeSnapshot → Text → Text → Option DenyReason
unfolding first_failure text_eq starts_with text_contains label_of zone_label instance_type_label
attest_ec2_and_node policy ec2 node id zone = first_failure (ec2_checks policy ec2 node id zone)

unfoldable pub with_key : Text → List KubernetesTaint → List KubernetesTaint
with_key key [] = []
with_key key (t ∷ ts) = let rest = with_key key ts in if text_eq t.key key then t ∷ rest else rest

unfoldable pub taint_failure : KubernetesTaint → List KubernetesTaint → Option DenyReason
unfolding text_eq
taint_failure expected [] = some expected_taint_missing
taint_failure expected (t ∷ []) =
    if text_eq t.value expected.value && text_eq t.effect expected.effect
    then none
    else some expected_taint_conflict
taint_failure expected (t ∷ u ∷ ts) = some expected_taint_conflict

unfoldable pub attest_taints : List KubernetesTaint → List KubernetesTaint → Option DenyReason
unfolding with_key taint_failure
attest_taints [] taints = none
attest_taints (expected ∷ rest) taints =
    let later = attest_taints rest taints in
    elim (taint_failure expected (with_key expected.key taints)) [
      | some reason ↦ some reason
      | none ↦ later
    ]
