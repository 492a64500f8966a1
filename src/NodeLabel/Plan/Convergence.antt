-- ===== src/NodeLabel/Plan/Convergence.antt =====
-- What becomes of a node once the patch that adds its label is applied
-- (packages/k8s-baseline/src/trusted-node-label-reconciler-core.ts).
use hulumi.Prelude.{
  ◌<◌, true, Option, none, some, List, [], ◌∷◌, ◌++◌, Text, length, ◌≡◌, refl, sym, ap, ◌∙◌, inl,
  inr, text_eq, Bool-cases,
}
use hulumi.NodeLabel.Types.{
  NodeSnapshot, ReconciliationInput, DenyReason, JsonPatchOperation, ReconciliationPlan, noop,
  patch, label_of, provider_id_malformed,
}
use hulumi.NodeLabel.Patterns.{has_length, parse_provider_id}
use hulumi.NodeLabel.Attest.{input_failure}
use hulumi.NodeLabel.Plan.{
  plan_trusted_node_label, plan_attested, plan_checked, plan_identified, plan_shaped,
  attestation_failure,
}
use hulumi.NodeLabel.Plan.Decisions.{failure-ne-patch, attested-patch, decided_patch}
use hulumi.NodeLabel.Plan.Application.{apply_patch, set_label, labelled, addition_patch_iff}
use hulumi.NodeLabel.Plan.Relabelled.{
  after_addition, input_failure-relabelled, attestation-relabelled, attested_keeps,
}

-- The same evidence on another snapshot of the node.
abbrev pub evidence_on : ReconciliationInput → NodeSnapshot → ReconciliationInput
evidence_on input node = record input { node = node }

-- The API server gives a node that it changes another version.
abbrev pub with_version : Text → NodeSnapshot → NodeSnapshot
with_version version node = record node { resource_version = version }

set_label-absent :
    (k v : Text) (labels : List (Text × Text))
    → label_of k labels ≡ none
    → set_label k v labels ≡ labels ++ (k, v) ∷ []
unfolding set_label label_of
set_label-absent k v [] h = refl
set_label-absent k v ((x, y) ∷ labels) h = elim (Bool-cases (text_eq x k)) [
  | inl same ↦ let there = rw same at h in cc
  | inr other ↦ rw other (ap (λ ls. (x, y) ∷ ls) (set_label-absent k v labels (rw other at h)))
]

-- Every check of the input passes.
pub record IsAttested (input : ReconciliationInput) : Type 0 where
  pub zone : Text
  pub id : Text
  pub sound_input : input_failure input ≡ none
  pub provider : parse_provider_id input.node.provider_id ≡ some (zone, id)
  pub attested : attestation_failure input zone id ≡ none

attested-plan :
    (input : ReconciliationInput) (h : IsAttested input)
    → plan_trusted_node_label input ≡ plan_attested input.policy input.node h.id
unfolding plan_trusted_node_label
attested-plan input h =
    ap (plan_shaped input) h.sound_input
    ∙ ap (plan_identified input) h.provider
    ∙ ap (plan_checked input h.id) h.attested

checked-IsAttested :
    (input : ReconciliationInput) (zone id : Text) (failure : Option DenyReason)
    (plan : ReconciliationPlan) (ops : List JsonPatchOperation)
    → input_failure input ≡ none
    → parse_provider_id input.node.provider_id ≡ some (zone, id)
    → attestation_failure input zone id ≡ failure
    → plan_checked input id failure ≡ patch plan ops
    → IsAttested input
checked-IsAttested input zone id none plan ops i p a h = record {
  zone = zone;
  id = id;
  sound_input = i;
  provider = p;
  attested = a;
}
checked-IsAttested input zone id (some reason) plan ops i p a h =
    absurd (failure-ne-patch input.policy input.node reason (some id) plan ops h)

identified-IsAttested :
    (input : ReconciliationInput) (found : Option (Text × Text)) (plan : ReconciliationPlan)
    (ops : List JsonPatchOperation)
    → input_failure input ≡ none
    → parse_provider_id input.node.provider_id ≡ found
    → plan_identified input found ≡ patch plan ops
    → IsAttested input
identified-IsAttested input none plan ops i p h =
    absurd (failure-ne-patch input.policy input.node provider_id_malformed none plan ops h)
identified-IsAttested input (some (zone, id)) plan ops i p h =
    checked-IsAttested input zone id (attestation_failure input zone id) plan ops i p refl h

shaped-IsAttested :
    (input : ReconciliationInput) (failure : Option DenyReason) (plan : ReconciliationPlan)
    (ops : List JsonPatchOperation)
    → input_failure input ≡ failure
    → plan_shaped input failure ≡ patch plan ops
    → IsAttested input
shaped-IsAttested input none plan ops i h =
    identified-IsAttested input (parse_provider_id input.node.provider_id) plan ops i refl h
shaped-IsAttested input (some reason) plan ops i h =
    absurd (failure-ne-patch input.policy input.node reason none plan ops h)

patched-IsAttested :
    (input : ReconciliationInput) (plan : ReconciliationPlan) (ops : List JsonPatchOperation)
    → plan_trusted_node_label input ≡ patch plan ops
    → IsAttested input
unfolding plan_trusted_node_label
patched-IsAttested input plan ops h = shaped-IsAttested input (input_failure input) plan ops refl h

labelled_converges :
    (input : ReconciliationInput) (plan : ReconciliationPlan) (ops : List JsonPatchOperation)
    (version : Text)
    → plan_trusted_node_label input ≡ patch plan ops
    → length input.node.labels < 256
    → has_length 1 128 version ≡ true
    → (id : Text) × (plan_trusted_node_label (after_addition input version) ≡ noop id)
labelled_converges input plan ops version h less v =
    let here = patched-IsAttested input plan ops h in
    let (absent, _, _) =
      attested-patch input.policy input.node here.id plan ops
        (sym (attested-plan input here) ∙ h) in
    (
      here.id,
      attested-plan (after_addition input version) (record {
        zone = here.zone;
        id = here.id;
        sound_input = input_failure-relabelled input version here.sound_input less v;
        provider = here.provider;
        attested = attestation-relabelled input version here.id here.zone here.attested;
      })
          ∙ attested_keeps input.policy input.node here.id version absent,
    )

-- A node that is to get the label and has fewer than 256 labels is kept once it has it: the patch
-- succeeds on the node, and on the same evidence and whatever the version of the patched node is,
-- the decision on it is then to do nothing.
pub patch_converges :
    (input : ReconciliationInput) (plan : ReconciliationPlan) (ops : List JsonPatchOperation)
    (version : Text)
    → plan_trusted_node_label input ≡ patch plan ops
    → length input.node.labels < 256
    → has_length 1 128 version ≡ true
    → (patched : NodeSnapshot) × (apply_patch ops input.node ≡ some patched)
      × (id : Text) × (plan_trusted_node_label (evidence_on input (with_version version patched))
          ≡ noop id)
patch_converges input plan ops version h less v =
    let (zone, id, trusted, absent, planned, same) = decided_patch input plan ops h in
    let key = input.policy.protected_label_key in
    let value = input.policy.protected_label_value in
    let patched = labelled key value input.node in
    let (kept, decided) = labelled_converges input plan ops version h less v in
    (
      patched,
      rw same (
          (addition_patch_iff input.policy input.node input.node patched).1
            (refl, refl, refl, refl)),
      kept,
      ap
            (λ ls.
              plan_trusted_node_label
                (evidence_on input (record input.node { resource_version = version; labels = ls })))
            (set_label-absent key value input.node.labels absent)
          ∙ decided,
    )
