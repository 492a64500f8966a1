-- ===== src/NodeLabel/Plan/Validation.antt =====
-- `validateReconciliationPlan` of packages/k8s-baseline/src/trusted-node-label-reconciler-core.ts
-- against the patch that is sent after it.
use hulumi.Prelude.{true, Option, none, some, Text, text_eq_iff, ◌≡◌, ◌↔◌, refl, arith}
use hulumi.NodeLabel.Types.{
  NodeSnapshot, TrustedNodeLabelPolicy, adding, removing, ReconciliationPlan, label_of,
}
use hulumi.NodeLabel.Plan.{
  plan_for, addition_patch, removal_patch, label_fits, validate_reconciliation_plan,
}
use hulumi.NodeLabel.Plan.Safety.{eq-some_of_is_value}
use hulumi.NodeLabel.Plan.Application.{
  apply_patch, labelled, without_label, addition_patch_iff, removal_patch_iff,
}

fields_iff :
    (plan : ReconciliationPlan) (node : NodeSnapshot)
    → (validate_reconciliation_plan plan node ≡ none) ↔ (
        (node.name ≡ plan.node_name)
        × (node.uid ≡ plan.node_uid)
        × (node.resource_version ≡ plan.resource_version)
        × (node.provider_id ≡ plan.provider_id)
        × (label_fits plan.mutation
              (label_of plan.protected_label_key node.labels)
              plan.protected_label_value
            ≡ true))
unfolding validate_reconciliation_plan
fields_iff plan node = ground (
  arith,
  text_eq_iff node.name plan.node_name,
  text_eq_iff node.uid plan.node_uid,
  text_eq_iff node.resource_version plan.resource_version,
  text_eq_iff node.provider_id plan.provider_id,
)

absent_iff : (x : Option Text) (v : Text) → (label_fits adding x v ≡ true) ↔ (x ≡ none)
absent_iff none v = (λ _. refl, λ _. refl)
absent_iff (some y) v = (λ e. cc, λ e. cc)

some_eq : (y v : Text) → some y ≡ some v → y ≡ v
some_eq y v e = cc

held_iff : (x : Option Text) (v : Text) → (label_fits removing x v ≡ true) ↔ (x ≡ some v)
held_iff none v = (λ e. cc, λ e. cc)
held_iff (some y) v =
    (λ e. eq-some_of_is_value (some y) v e, λ e. (text_eq_iff y v).1 (some_eq y v e))

-- The plan of an addition is valid for a node exactly when this has the name that was planned for,
-- does not have the label, and the patch succeeds on it. The plan of a removal is valid exactly
-- when the node has the name and the patch succeeds on it.
pub validate_reconciliation_plan_iff :
    (policy : TrustedNodeLabelPolicy) (node current : NodeSnapshot) (id : Option Text)
    → ((validate_reconciliation_plan (plan_for adding policy node id) current ≡ none) ↔ (
        (current.name ≡ node.name)
        × (label_of policy.protected_label_key current.labels ≡ none)
        × (apply_patch (addition_patch policy node) current
            ≡ some (labelled policy.protected_label_key policy.protected_label_value current))))
      × ((validate_reconciliation_plan (plan_for removing policy node id) current ≡ none) ↔ (
          (current.name ≡ node.name)
          × (apply_patch (removal_patch policy node) current
              ≡ some (without_label policy.protected_label_key current))))
validate_reconciliation_plan_iff policy node current id =
    let key = policy.protected_label_key in
    let v = policy.protected_label_value in
    let plus = addition_patch_iff policy node current (labelled key v current) in
    let minus = removal_patch_iff policy node current (without_label key current) in
    let adds = fields_iff (plan_for adding policy node id) current in
    let removes = fields_iff (plan_for removing policy node id) current in
    let absent = absent_iff (label_of key current.labels) v in
    let held = held_iff (label_of key current.labels) v in
    (
      (
        λ e. let (a, b, c, d, f) = adds.0 e in (a, absent.0 f, plus.1 (b, c, d, refl)),
        λ (a, f, e). let (b, c, d, _) = plus.0 e in adds.1 (a, b, c, d, absent.1 f),
      ),
      (
        λ e. let (a, b, c, d, f) = removes.0 e in (a, minus.1 (b, c, d, held.0 f, refl)),
        λ (a, e). let (b, c, d, f, _) = minus.0 e in removes.1 (a, b, c, d, held.1 f),
      ),
    )
