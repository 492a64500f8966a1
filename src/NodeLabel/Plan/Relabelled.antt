-- ===== src/NodeLabel/Plan/Relabelled.antt =====
-- Which checks of packages/k8s-baseline/src/trusted-node-label-reconciler-core.ts a node that gets
-- the label still passes.
use hulumi.Prelude.{
  ◌<◌, Bool, true, false, not, ◌&&◌, none, some, List, [], ◌∷◌, ◌++◌, Text, length, length-append,
  All, and-eq-true, Option-cases, ◌≡◌, refl, sym, ap, ap₂, ◌∙◌, inl, inr, arith, text_eq_refl,
}
use hulumi.NodeLabel.Types.{
  NodeSnapshot, TrustedNodeLabelPolicy, ReconciliationInput, DenyReason, noop, first_failure,
  first_failure-eq-none, label_of, is_value,
}
use hulumi.NodeLabel.Patterns.{has_length}
use hulumi.NodeLabel.Attest.{
  identities_ok, bounds_ok, input_failure, input_checks, evidence_failure, attest_membership,
  attest_ec2_and_node, ec2_checks, zone_label, instance_type_label,
}
use hulumi.NodeLabel.Plan.{plan_attested, ◌or_else◌, attestation_failure, group_failure}
use hulumi.NodeLabel.Plan.Safety.{or_else-eq-none}

-- A node with the label as the last one, and another version.
abbrev pub relabelled : TrustedNodeLabelPolicy → NodeSnapshot → Text → NodeSnapshot
relabelled policy node version = record {
  name = node.name;
  uid = node.uid;
  resource_version = version;
  provider_id = node.provider_id;
  labels = node.labels ++ (policy.protected_label_key, policy.protected_label_value) ∷ [];
  taints = node.taints;
}

-- The same evidence on the patched node.
abbrev pub after_addition : ReconciliationInput → Text → ReconciliationInput
after_addition input version = record {
  now = input.now;
  policy = input.policy;
  node = relabelled input.policy input.node version;
  node_group = input.node_group;
  auto_scaling_groups = input.auto_scaling_groups;
  ec2_instance = input.ec2_instance;
}

pub first_failure_complete :
    (checks : List (Bool × DenyReason))
    → All (λ c. c.0 ≡ false) checks
    → first_failure checks ≡ none
unfolding first_failure
first_failure_complete [] h = refl
first_failure_complete ((bad, reason) ∷ checks) (h, hs) = rw h (first_failure_complete checks hs)

pub label_of-append_left :
    (k v : Text) (labels more : List (Text × Text))
    → label_of k labels ≡ some v
    → label_of k (labels ++ more) ≡ some v
unfolding label_of
label_of-append_left k v [] more h = cc
label_of-append_left k v ((x, y) ∷ labels) more h =
    ground (arith, label_of-append_left k v labels more)

pub label_of-append_right :
    (k : Text) (labels more : List (Text × Text))
    → label_of k labels ≡ none
    → label_of k (labels ++ more) ≡ label_of k more
unfolding label_of
label_of-append_right k [] more h = refl
label_of-append_right k ((x, y) ∷ labels) more h =
    ground (arith, label_of-append_right k labels more)

pub label_of-added : (k v : Text) → label_of k ((k, v) ∷ []) ≡ some v
unfolding label_of
label_of-added k v = rw (text_eq_refl k) refl

pub identities-relabelled :
    (policy : TrustedNodeLabelPolicy) (node : NodeSnapshot) (version : Text)
    → identities_ok policy node ≡ true
    → has_length 1 128 version ≡ true
    → identities_ok policy (relabelled policy node version) ≡ true
unfolding identities_ok
identities-relabelled policy node version h v = ap₂ ◌&&◌ (and-eq-true _ _ h).0 v

pub bounds-relabelled :
    (input : ReconciliationInput) (version : Text)
    → bounds_ok input ≡ true
    → length input.node.labels < 256
    → bounds_ok (after_addition input version) ≡ true
unfolding bounds_ok
bounds-relabelled input version h less = ground (
  arith,
  length-append input.node.labels
      ((input.policy.protected_label_key, input.policy.protected_label_value) ∷ []),
)

pub true_of_not-false : (b : Bool) → not b ≡ false → b ≡ true
true_of_not-false b h = ground arith

pub absent_value :
    (k v : Text) (labels : List (Text × Text))
    → label_of k labels ≡ none
    → not (is_value (label_of k labels) v) ≡ false
    → ⊥
absent_value k v labels absent h = cc (absent, h)

pub input_failure-relabelled :
    (input : ReconciliationInput) (version : Text)
    → input_failure input ≡ none
    → length input.node.labels < 256
    → has_length 1 128 version ≡ true
    → input_failure (after_addition input version) ≡ none
unfolding input_failure
input_failure-relabelled input version h less v =
    let (identities, (key, (bounds, (policy, _)))) = first_failure-eq-none (input_checks input) h in
    first_failure_complete (input_checks (after_addition input version)) (
      ap not (
          identities-relabelled input.policy input.node version
            (true_of_not-false (identities_ok input.policy input.node) identities) v),
      (
        key,
        (
          ap not
              (bounds-relabelled input version (true_of_not-false (bounds_ok input) bounds) less),
          (policy, tt),
        ),
      ),
    )

pub is_value-append_left :
    (k v : Text) (labels more : List (Text × Text))
    → not (is_value (label_of k labels) v) ≡ false
    → not (is_value (label_of k (labels ++ more)) v) ≡ false
is_value-append_left k v labels more h = elim (Option-cases (label_of k labels)) [
  | inl absent ↦ absurd (absent_value k v labels absent h)
  | inr (x, there) ↦
      ap (λ o. not (is_value o v)) (label_of-append_left k x labels more there ∙ sym there) ∙ h
]

pub ec2-relabelled :
    (input : ReconciliationInput) (version id zone : Text)
    → attest_ec2_and_node input.policy input.ec2_instance input.node id zone ≡ none
    → attest_ec2_and_node input.policy input.ec2_instance
        (relabelled input.policy input.node version)
        id
        zone
      ≡ none
unfolding attest_ec2_and_node
ec2-relabelled input version id zone h =
    let (e1, (e2, (e3, (e4, (e5, (e6, (e7, (e8, _)))))))) =
      first_failure-eq-none (ec2_checks input.policy input.ec2_instance input.node id zone) h in
    first_failure_complete
      (ec2_checks input.policy input.ec2_instance (relabelled input.policy input.node version) id
        zone)
      (
        e1,
        (
          e2,
          (
            e3,
            (
              e4,
              (
                e5,
                (
                  e6,
                  (
                    is_value-append_left zone_label _ input.node.labels _ e7,
                    (is_value-append_left instance_type_label _ input.node.labels _ e8, tt),
                  ),
                ),
              ),
            ),
          ),
        ),
      )

pub attestation-relabelled :
    (input : ReconciliationInput) (version id zone : Text)
    → attestation_failure input zone id ≡ none
    → attestation_failure (after_addition input version) zone id ≡ none
unfolding attestation_failure evidence_failure group_failure attest_membership
attestation-relabelled input version id zone h =
    let (fresh, h1) = or_else-eq-none (evidence_failure input) _ h in
    let (group, h2) = or_else-eq-none (group_failure input) _ h1 in
    let (member, h3) = or_else-eq-none (attest_membership input id) _ h2 in
    let (ec2, taints) =
      or_else-eq-none (attest_ec2_and_node input.policy input.ec2_instance input.node id zone) _
        h3 in
    ap₂ ◌or_else◌ fresh (
      ap₂ ◌or_else◌ group
        (ap₂ ◌or_else◌ member (ap₂ ◌or_else◌ (ec2-relabelled input version id zone ec2) taints)))

pub attested_keeps :
    (policy : TrustedNodeLabelPolicy) (node : NodeSnapshot) (id version : Text)
    → label_of policy.protected_label_key node.labels ≡ none
    → plan_attested policy (relabelled policy node version) id ≡ noop id
unfolding plan_attested
attested_keeps policy node id version absent =
    rw
      (
        label_of-append_right policy.protected_label_key node.labels
              ((policy.protected_label_key, policy.protected_label_value) ∷ []) absent
            ∙ label_of-added policy.protected_label_key policy.protected_label_value,
        text_eq_refl policy.protected_label_value,
      )
      refl
