-- ===== src/NodeLabel/Plan/Safety.antt =====
-- When a node is trusted (packages/k8s-baseline/src/trusted-node-label-reconciler-core.ts): what the
-- provider's evidence says of a node whose label is added or kept.
use hulumi.Prelude.{
  true, false, not, Option, none, some, List, [], ◌∷◌, Text, lit, text_eq, text_eq_iff,
  text_contains, any, or-eq-false, All, Option-cases, map, Bool-cases, ◌&&◌, ◌⊎◌, ◌≡◌, inl, inr,
  refl, arith,
}
use hulumi.Prelude.Int.{ℤ, ◌≤ℤ◌, ◌-ℤ◌, ltb_ℤ}
use hulumi.NodeLabel.Types.{
  JsNumber, is_safe, value_of, KubernetesTaint, AsgInstance, ReconciliationInput, DenyReason,
  first_failure-eq-none, label_of, is_value,
}
use hulumi.NodeLabel.Patterns.{parse_provider_id}
use hulumi.NodeLabel.Attest.{
  timestamps, evidence_checks, evidence_failure, ec2_checks, zone_in_region, memberships,
  membership_failure, attest_membership, zone_label, instance_type_label, attest_ec2_and_node,
  with_key, taint_failure, attest_taints,
}
use hulumi.NodeLabel.Plan.Evidence.{
  WithinSkew, skew_sound, IsZoneOf, zone_sound, AreItsGroups, membership-AreItsGroups,
}
use hulumi.NodeLabel.Plan.{◌or_else◌, group_failure, group_checks, attestation_failure}

-- The evidence was captured at or before the decision, and not longer before it than allowed.
abbrev pub IsFresh : ReconciliationInput → JsNumber → Type 0
IsFresh input t =
    (value_of t ≤ℤ value_of input.now)
    × (value_of input.now -ℤ value_of t ≤ℤ value_of input.policy.max_evidence_age_ms)

-- One taint of the node has the key, and it has the value and the effect.
abbrev pub HasTaint : List KubernetesTaint → KubernetesTaint → Type 0
HasTaint taints e =
    (t : KubernetesTaint) × (with_key e.key taints ≡ t ∷ [])
    × (t.value ≡ e.value)
    × (t.effect ≡ e.effect)

pub record IsTrusted (input : ReconciliationInput) (zone instance_id : Text) : Type 0 where
  pub provider : parse_provider_id input.node.provider_id ≡ some (zone, instance_id)
  pub fresh : All (IsFresh input) (timestamps input)
  pub all_safe : All (λ t. is_safe t ≡ true) (input.now ∷ timestamps input)
  pub close : WithinSkew (value_of input.policy.max_evidence_skew_ms) (timestamps input)
  pub cluster : input.node_group.cluster_name ≡ input.policy.cluster_name
  pub group : input.node_group.node_group_name ≡ input.policy.node_group_name
  pub available :
      (input.node_group.status ≡ lit "ACTIVE") ⊎ (input.node_group.status ≡ lit "UPDATING")
  pub its_groups :
      AreItsGroups input.node_group.auto_scaling_group_names
        (map (λ g. g.name) input.auto_scaling_groups)
  pub member : AsgInstance
  pub only_member : memberships instance_id input.auto_scaling_groups ≡ member ∷ []
  pub in_service : member.lifecycle_state ≡ lit "InService"
  pub healthy : member.health_status ≡ lit "Healthy"
  pub same_instance : input.ec2_instance.instance_id ≡ instance_id
  pub same_account : input.ec2_instance.account_id ≡ input.policy.aws_account_id
  pub same_region : input.ec2_instance.region ≡ input.policy.region
  pub same_zone : input.ec2_instance.availability_zone ≡ zone
  pub in_region : IsZoneOf zone input.policy.region
  pub allowed_type :
      text_contains input.policy.allowed_instance_types input.ec2_instance.instance_type ≡ true
  pub running : input.ec2_instance.state ≡ lit "running"
  pub zone_labelled : label_of zone_label input.node.labels ≡ some zone
  pub type_labelled :
      label_of instance_type_label input.node.labels ≡ some input.ec2_instance.instance_type
  pub tainted : All (HasTaint input.node.taints) input.policy.expected_taints

pub or_else-eq-none : (a b : Option DenyReason) → (a or_else b) ≡ none → (a ≡ none) × (b ≡ none)
or_else-eq-none none b h = (refl, h)
or_else-eq-none (some r) b h = cc

pub eq-some_of_is_value : (o : Option Text) (v : Text) → is_value o v ≡ true → o ≡ some v
eq-some_of_is_value none v h = cc
eq-some_of_is_value (some x) v h = ground (arith, text_eq_iff x v)

le_of_not_ltb : (a b : ℤ) → ltb_ℤ a b ≡ false → b ≤ℤ a
le_of_not_ltb a b h = ground arith

not_stale :
    (now age : ℤ) (ts : List JsNumber)
    → any (λ t. ltb_ℤ now (value_of t)) ts ≡ false
    → any (λ t. ltb_ℤ age (now -ℤ value_of t)) ts ≡ false
    → All (λ t. (value_of t ≤ℤ now) × (now -ℤ value_of t ≤ℤ age)) ts
not_stale now age [] h k = tt
not_stale now age (t ∷ ts) h k =
    let (h1, hs) = or-eq-false (ltb_ℤ now (value_of t)) (any (λ t. ltb_ℤ now (value_of t)) ts) h in
    let (k1, ks) =
      or-eq-false (ltb_ℤ age (now -ℤ value_of t)) (any (λ t. ltb_ℤ age (now -ℤ value_of t)) ts) k in
    (
      (le_of_not_ltb now (value_of t) h1, le_of_not_ltb age (now -ℤ value_of t) k1),
      not_stale now age ts hs ks,
    )

all_safe :
    (ts : List JsNumber) → any (λ t. not (is_safe t)) ts ≡ false → All (λ t. is_safe t ≡ true) ts
all_safe [] h = tt
all_safe (t ∷ ts) h =
    let (first, more) = or-eq-false (not (is_safe t)) (any (λ t. not (is_safe t)) ts) h in
    (ground arith, all_safe ts more)

evidence_sound :
    (input : ReconciliationInput)
    → evidence_failure input ≡ none
    → All (IsFresh input) (timestamps input)
      × All (λ t. is_safe t ≡ true) (input.now ∷ timestamps input)
      × WithinSkew (value_of input.policy.max_evidence_skew_ms) (timestamps input)
unfolding evidence_failure
evidence_sound input h =
    let (unsafe, (future, (stale, (skewed, _)))) =
      first_failure-eq-none (evidence_checks input.now input.policy (timestamps input)) h in
    let (now, others) =
      or-eq-false (not (is_safe input.now)) (any (λ t. not (is_safe t)) (timestamps input))
        unsafe in
    (
      not_stale (value_of input.now) (value_of input.policy.max_evidence_age_ms) (timestamps input)
          future stale,
      (ground arith, all_safe (timestamps input) others),
      skew_sound (value_of input.policy.max_evidence_skew_ms) (timestamps input) skewed,
    )

status_sound :
    (status : Text)
    → (not (text_eq status (lit "ACTIVE")) && not (text_eq status (lit "UPDATING"))) ≡ false
    → (status ≡ lit "ACTIVE") ⊎ (status ≡ lit "UPDATING")
status_sound status h = elim (Bool-cases (text_eq status (lit "ACTIVE"))) [
  | inl active ↦ inl ((text_eq_iff status (lit "ACTIVE")).0 active)
  | inr other ↦ inr ((text_eq_iff status (lit "UPDATING")).0 (ground arith))
]

membership_sound :
    (is : List AsgInstance)
    → membership_failure is ≡ none
    → (i : AsgInstance) × (is ≡ i ∷ [])
      × (i.lifecycle_state ≡ lit "InService")
      × (i.health_status ≡ lit "Healthy")
unfolding membership_failure
membership_sound [] h = cc
membership_sound (i ∷ j ∷ is) h = cc
membership_sound (i ∷ []) h = (
  i,
  refl,
  ground (arith, text_eq_iff i.lifecycle_state (lit "InService")),
  ground (arith, text_eq_iff i.health_status (lit "Healthy")),
)

taint_sound :
    (e : KubernetesTaint) (ts : List KubernetesTaint)
    → taint_failure e ts ≡ none
    → (t : KubernetesTaint) × (ts ≡ t ∷ []) × (t.value ≡ e.value) × (t.effect ≡ e.effect)
unfolding taint_failure
taint_sound e [] h = cc
taint_sound e (t ∷ u ∷ ts) h = cc
taint_sound e (t ∷ []) h = (
  t,
  refl,
  ground (arith, text_eq_iff t.value e.value),
  ground (arith, text_eq_iff t.effect e.effect),
)

taints_sound : (es ts : List KubernetesTaint) → attest_taints es ts ≡ none → All (HasTaint ts) es
unfolding attest_taints
taints_sound [] ts h = tt
taints_sound (e ∷ es) ts h = elim (Option-cases (taint_failure e (with_key e.key ts))) [
  | inl fine ↦ (taint_sound e _ fine, taints_sound es ts (ground arith))
  | inr (r, bad) ↦ absurd (ground arith)
]

eq_of_not_ne : (a b : Text) → not (text_eq a b) ≡ false → a ≡ b
eq_of_not_ne a b h = ground (arith, text_eq_iff a b)

pub attested-IsTrusted :
    (input : ReconciliationInput) (zone id : Text)
    → parse_provider_id input.node.provider_id ≡ some (zone, id)
    → attestation_failure input zone id ≡ none
    → IsTrusted input zone id
unfolding attestation_failure group_failure attest_ec2_and_node
attested-IsTrusted input zone id parsed h =
    let (fresh, h1) = or_else-eq-none (evidence_failure input) _ h in
    let (group, h2) = or_else-eq-none (group_failure input) _ h1 in
    let (member, h3) = or_else-eq-none (attest_membership input id) _ h2 in
    let (ec2, taints) =
      or_else-eq-none (attest_ec2_and_node input.policy input.ec2_instance input.node id zone) _
        h3 in
    let (named, (unavailable, _)) = first_failure-eq-none (group_checks input) group in
    let (cluster, group_name) =
      or-eq-false (not (text_eq input.node_group.cluster_name input.policy.cluster_name))
        (not (text_eq input.node_group.node_group_name input.policy.node_group_name)) named in
    let (groups, member_fine) = membership-AreItsGroups input id member in
    let (i, only, service, health) =
      membership_sound (memberships id input.auto_scaling_groups) member_fine in
    let (times, numbers, close) = evidence_sound input fresh in
    let (e1, (e2, (e3, (e4, (e5, (e6, (e7, (e8, _)))))))) =
      first_failure-eq-none (ec2_checks input.policy input.ec2_instance input.node id zone) ec2 in
    let (zone_ne, zone_out) =
      or-eq-false (not (text_eq input.ec2_instance.availability_zone zone))
        (not (zone_in_region zone input.policy.region)) e4 in
    let same_zone = eq_of_not_ne _ _ zone_ne in
    record {
      provider = parsed;
      fresh = times;
      all_safe = numbers;
      close = close;
      cluster = eq_of_not_ne _ _ cluster;
      group = eq_of_not_ne _ _ group_name;
      available = status_sound input.node_group.status unavailable;
      its_groups = groups;
      member = i;
      only_member = only;
      in_service = service;
      healthy = health;
      same_instance = eq_of_not_ne _ _ e1;
      same_account = eq_of_not_ne _ _ e2;
      same_region = eq_of_not_ne _ _ e3;
      same_zone = same_zone;
      in_region = zone_sound zone input.policy.region (ground arith);
      allowed_type = ground arith;
      running = eq_of_not_ne _ _ e6;
      zone_labelled =
          rw (← same_zone)
            (eq-some_of_is_value (label_of zone_label input.node.labels) _ (ground arith));
      type_labelled =
          eq-some_of_is_value (label_of instance_type_label input.node.labels) _ (ground arith);
      tainted = taints_sound input.policy.expected_taints input.node.taints taints;
    }
