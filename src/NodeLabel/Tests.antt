-- ===== src/NodeLabel/Tests.antt =====
-- The decisions on four nodes, and the reconciler's theorems at them.
use hulumi.Prelude.{true, none, some, Text, lit, All, ◌≡◌, ◌≢◌, ◌↔◌, refl}
use hulumi.NodeLabel.Types.{
  NodeSnapshot, instance_not_running, adding, removing, noop, patch, revoke, label_of,
}
use hulumi.NodeLabel.Plan.{
  label_path, uid_path, version_path, provider_path, json_pointer_escape, can_safely_revoke,
  plan_for, addition_patch, removal_patch, plan_trusted_node_label, validate_reconciliation_plan,
}
use hulumi.NodeLabel.Plan.Safety.{IsTrusted}
use hulumi.NodeLabel.Plan.Effects.{IsPlanFor, FailsWith, plan-eq-patch, plan-eq-revoke}
use hulumi.NodeLabel.Plan.Validation.{validate_reconciliation_plan_iff}
use hulumi.NodeLabel.Plan.Application.{apply_patch, labelled, without_label, set_label, drop_label}
use hulumi.NodeLabel.Plan.Patches.{json_pointer_unescape, json_pointer_escape-step}
use hulumi.NodeLabel.Samples.{
  key, id, policy, unlabelled, node, with_label, fresh_input, kept_input, stopped_input,
  adding_plan, removing_plan,
}

fresh_decision :
    plan_trusted_node_label fresh_input
    ≡ patch adding_plan (addition_patch policy (node unlabelled))
unfolding plan_trusted_node_label
fresh_decision = refl

kept_decision : plan_trusted_node_label kept_input ≡ noop id
unfolding plan_trusted_node_label
kept_decision = refl

stopped_decision :
    plan_trusted_node_label stopped_input
    ≡ revoke instance_not_running removing_plan
        (removal_patch policy (node (with_label (lit "trusted"))))
unfolding plan_trusted_node_label
stopped_decision = refl

abbrev trusting : NodeSnapshot
trusting = node (with_label (lit "trusted"))

patched_nodes :
    (apply_patch (addition_patch policy (node unlabelled)) (node unlabelled)
      ≡ some (labelled key (lit "trusted") (node unlabelled)))
    × (apply_patch
          (addition_patch policy (node unlabelled))
          (record (node unlabelled) { resource_version = lit "43" })
        ≡ none)
    × (apply_patch (removal_patch policy trusting) trusting ≡ some (node unlabelled))
    × (apply_patch (removal_patch policy trusting) (node unlabelled) ≡ none)
unfolding apply_patch set_label drop_label label_path uid_path version_path provider_path
patched_nodes = (refl, refl, refl, refl)

plan-eq-patch_example :
    (zone : Text) × (i : Text) × IsTrusted fresh_input zone i
    × (label_of key unlabelled ≡ none)
    × IsPlanFor fresh_input adding (some i) adding_plan
    × ((apply_patch (addition_patch policy (node unlabelled)) (node unlabelled)
          ≡ some (labelled key (lit "trusted") (node unlabelled)))
        ↔ ((lit "u-1" ≡ lit "u-1")
            × (lit "42" ≡ lit "42")
            × ((node unlabelled).provider_id ≡ (node unlabelled).provider_id)
            × (labelled key (lit "trusted") (node unlabelled)
                ≡ labelled key (lit "trusted") (node unlabelled))))
plan-eq-patch_example =
    plan-eq-patch fresh_input adding_plan (addition_patch policy (node unlabelled))
      (node unlabelled) (labelled key (lit "trusted") (node unlabelled)) fresh_decision

plan-eq-revoke_example :
    FailsWith stopped_input instance_not_running (some id)
    × (label_of key (with_label (lit "trusted")) ≡ some (lit "trusted"))
    × (can_safely_revoke policy trusting ≡ true)
    × IsPlanFor stopped_input removing (some id) removing_plan
    × ((apply_patch (removal_patch policy trusting) trusting ≡ some (without_label key trusting))
        ↔ ((lit "u-1" ≡ lit "u-1")
            × (lit "42" ≡ lit "42")
            × (trusting.provider_id ≡ trusting.provider_id)
            × (label_of key trusting.labels ≡ some (lit "trusted"))
            × (without_label key trusting ≡ without_label key trusting)))
plan-eq-revoke_example =
    plan-eq-revoke stopped_input instance_not_running removing_plan (removal_patch policy trusting)
      trusting (without_label key trusting) stopped_decision

validate_reconciliation_plan_iff_example :
    ((validate_reconciliation_plan (plan_for adding policy (node unlabelled) (some id)) trusting
        ≡ none)
      ↔ ((lit "n" ≡ lit "n")
          × (label_of key (with_label (lit "trusted")) ≡ none)
          × (apply_patch (addition_patch policy (node unlabelled)) trusting
              ≡ some (labelled key (lit "trusted") trusting))))
    × ((validate_reconciliation_plan (plan_for removing policy (node unlabelled) (some id)) trusting
          ≡ none)
        ↔ ((lit "n" ≡ lit "n")
            × (apply_patch (removal_patch policy (node unlabelled)) trusting
                ≡ some (without_label key trusting))))
validate_reconciliation_plan_iff_example =
    validate_reconciliation_plan_iff policy (node unlabelled) trusting (some id)

json_pointer_escape-step_example :
    All (λ c. c ≢ b'/') (json_pointer_escape key)
    × (json_pointer_unescape (json_pointer_escape key) ≡ key)
json_pointer_escape-step_example = json_pointer_escape-step key
