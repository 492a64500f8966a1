-- ===== src/Reconciler/Target.antt =====
-- `classifyTarget` of packages/drift/src/reconciler.ts: the guards, the choice of an action, and the
-- action of a plan. Its id is left as the index that it is made from; the digest of the resource's
-- identity is the other part of it.
use hulumi.Prelude.{
  ℕ, Bool, true, false, not, ◌&&◌, ◌||◌, Option, none, some, List, [], ◌∷◌, ◌++◌, Text, lit,
  text_contains, get_or_else, ltb, if◌then◌else◌,
}
use hulumi.Reconciler.Types.{
  ReconcileMode, ReconcileDecision, no_op, refresh_state, import_to_state, state_delete,
  delete_cloud_resource, retain_external, codify_production, revert_production,
  ignore_with_justification, blocked, ReconcileActionType, drain_s3_bucket_versions,
  retain_unsupported_resource, retain_shared_singleton, state_delete_already_absent_resource,
  import_resource, refresh, ReconcileRisk, low, medium, high, risk_blocked, ReconcileTarget,
  ReconcileScope, BlockReason, prefix_required, outside_prefix, outside_regions, outside_accounts,
  too_new, insufficient_ownership, singleton_deletion_disabled, no_executor, ReconcileBlockedAction,
  ReconcilePlanAction,
}
use hulumi.Reconciler.Matching.{
  is_s3_bucket, non_s3_aws_delete_action_family, is_security_singleton_type,
  requires_registered_executor, mode_allows, matches_prefix, matches_one, matches_age, signal_count,
  is_singleton, cloud_only,
}

abbrev no_prefix : Option Text → Bool
no_prefix none = true
no_prefix (some p) = false

abbrev pub min_signals : ReconcileScope → ℕ
min_signals scope = get_or_else scope.ownership_min_signals 2

abbrev block : BlockReason → ReconcileBlockedAction
block reason = record { action = blocked; reason = reason }

abbrev guard :
    Bool → ReconcileBlockedAction → List ReconcileBlockedAction → List ReconcileBlockedAction
guard bad b rest = if bad then b ∷ rest else rest

-- The guards, in their order.
unfoldable pub guards :
    (Text → Option ℕ) → ReconcileTarget → ReconcileScope → ℕ → List ReconcileBlockedAction
unfolding matches_prefix matches_one matches_age signal_count is_security_singleton_type
guards date_parse target scope now =
    guard (no_prefix scope.resource_prefix && cloud_only target) (block prefix_required) (
      guard (not (matches_prefix target.identity scope.resource_prefix)) (block outside_prefix) (
        guard (not (matches_one target.identity.region scope.regions)) (block outside_regions) (
          guard (not (matches_one target.identity.account_id scope.account_ids))
            (block outside_accounts)
            (guard
              (not (matches_age date_parse target.identity.created_at scope.min_age_minutes now))
              (block too_new)
              (guard (cloud_only target && ltb (signal_count target.ownership) (min_signals scope))
                (block insufficient_ownership)
                (guard (is_singleton target.identity && not scope.allow_singleton_delete)
                  (record { action = delete_cloud_resource; reason = singleton_deletion_disabled })
                  []))))))

-- The local variables that the branches of `classifyTarget` set.
pub record Choice : Type 0 where
  pub recommended_action : ReconcileDecision
  pub type : ReconcileActionType
  pub state_mutation : Bool
  pub cloud_mutation : Bool
  pub allowed_actions : List ReconcileDecision
  pub risk : ReconcileRisk
  pub why : Text

unfoldable pub supports_text : ReconcileTarget → Text → Bool
unfolding text_contains
supports_text target t = text_contains target.supported_actions t

-- `preferredSupportedDecision` of the four decisions on a resource that is in both places.
unfoldable pub preferred_state_decision : ReconcileTarget → Option ReconcileDecision
unfolding supports_text
preferred_state_decision target =
    if supports_text target (lit "refreshState")
    then some refresh_state
    else if supports_text target (lit "codifyProduction")
    then some codify_production
    else if supports_text target (lit "revertProduction")
    then some revert_production
    else if supports_text target (lit "ignoreWithJustification")
    then some ignore_with_justification
    else none

abbrev decision_text : ReconcileDecision → Text
decision_text refresh_state = lit "refreshState"
decision_text codify_production = lit "codifyProduction"
decision_text revert_production = lit "revertProduction"
decision_text _ = lit "ignoreWithJustification"

abbrev is_refresh : ReconcileDecision → Bool
is_refresh refresh_state = true
is_refresh _ = false

abbrev both_decisions : List ReconcileDecision
both_decisions =
    refresh_state ∷ codify_production ∷ revert_production ∷ ignore_with_justification ∷ no_op ∷ []

abbrev pub choose_both : Option ReconcileDecision → Choice
choose_both none = record {
  recommended_action = no_op;
  type = retain_unsupported_resource;
  state_mutation = false;
  cloud_mutation = false;
  allowed_actions = both_decisions;
  risk = low;
  why = lit "resource is present in Pulumi state and cloud";
}
choose_both (some d) = record {
  recommended_action = d;
  type = if is_refresh d then refresh else retain_unsupported_resource;
  state_mutation = is_refresh d;
  cloud_mutation = false;
  allowed_actions = both_decisions;
  risk = medium;
  why = lit "caller requested " ++ decision_text d ++ lit " planning for state-owned resource";
}

abbrev pub choose_delete : ReconcileActionType → Text → Choice
choose_delete type why = record {
  recommended_action = delete_cloud_resource;
  type = type;
  state_mutation = false;
  cloud_mutation = true;
  allowed_actions = delete_cloud_resource ∷ import_to_state ∷ retain_external ∷ [];
  risk = high;
  why = why;
}

abbrev pub choose_family : Option ReconcileActionType → Choice
choose_family (some family) =
    choose_delete family (lit "resource maps to a planning-only AWS cleanup action family")
choose_family none = record {
  recommended_action = retain_external;
  type = retain_unsupported_resource;
  state_mutation = false;
  cloud_mutation = false;
  allowed_actions = import_to_state ∷ retain_external ∷ [];
  risk = medium;
  why = lit "resource is cloud-only but this type has no delete executor";
}

abbrev pub choose_cloud_only : ReconcileTarget → Choice
choose_cloud_only target =
    if supports_text target (lit "importToState")
    then record {
      recommended_action = import_to_state;
      type = import_resource;
      state_mutation = true;
      cloud_mutation = false;
      allowed_actions = import_to_state ∷ retain_external ∷ delete_cloud_resource ∷ [];
      risk = medium;
      why =
          lit
            "cloud-only resource has strong ownership evidence and caller requested adoption planning";
    }
    else if is_s3_bucket target.identity.type
    then choose_delete drain_s3_bucket_versions
        (lit "S3 bucket is cloud-only with strong ownership evidence")
    else choose_family (non_s3_aws_delete_action_family target.identity.type)

abbrev pub undecided : Text → ReconcileDecision → ReconcileActionType → Choice
undecided why d type = record {
  recommended_action = d;
  type = type;
  state_mutation = false;
  cloud_mutation = false;
  allowed_actions = [];
  risk = risk_blocked;
  why = why;
}

abbrev pub choose_unblocked : ReconcileTarget → Choice
choose_unblocked target =
    if target.in_state && target.exists_in_cloud
    then choose_both (preferred_state_decision target)
    else if target.in_state && not target.exists_in_cloud
    then record {
      recommended_action = state_delete;
      type = state_delete_already_absent_resource;
      state_mutation = true;
      cloud_mutation = false;
      allowed_actions = state_delete ∷ [];
      risk = medium;
      why = lit "resource is present in state but absent from cloud";
    }
    else if cloud_only target
    then choose_cloud_only target
    else undecided [] blocked retain_unsupported_resource

unfoldable pub choose : ReconcileTarget → List ReconcileBlockedAction → Choice
unfolding preferred_state_decision supports_text is_s3_bucket non_s3_aws_delete_action_family
    is_security_singleton_type
choose target [] = choose_unblocked target
choose target (b ∷ bs) =
    if is_singleton target.identity
    then undecided (lit "guardrails prevent mutation") retain_external retain_shared_singleton
    else undecided (lit "guardrails prevent mutation") blocked retain_unsupported_resource

abbrev is_no_op : ReconcileDecision → Bool
is_no_op no_op = true
is_no_op _ = false

abbrev pub is_unblocked : List ReconcileBlockedAction → Bool
is_unblocked [] = true
is_unblocked (b ∷ bs) = false

abbrev pub same_decision : ReconcileDecision → ReconcileDecision → Bool
same_decision no_op no_op = true
same_decision refresh_state refresh_state = true
same_decision import_to_state import_to_state = true
same_decision state_delete state_delete = true
same_decision delete_cloud_resource delete_cloud_resource = true
same_decision retain_external retain_external = true
same_decision codify_production codify_production = true
same_decision revert_production revert_production = true
same_decision ignore_with_justification ignore_with_justification = true
same_decision blocked blocked = true
same_decision _ _ = false

abbrev without : ReconcileDecision → List ReconcileDecision → List ReconcileDecision
without d [] = []
without d (e ∷ es) = let rest = without d es in if same_decision d e then rest else e ∷ rest

-- `uniqueDecisions([recommendedAction, ...allowedActions])`, of allowed actions that do not repeat.
abbrev unique_decisions : ReconcileDecision → List ReconcileDecision → List ReconcileDecision
unique_decisions d allowed = d ∷ without d allowed

abbrev pub missing_executor : (ReconcileActionType → Bool) → Choice → Bool
missing_executor has_executor c = requires_registered_executor c.type && not (has_executor c.type)

abbrev pub is_executable :
    (ReconcileActionType → Bool) → ReconcileMode → List ReconcileBlockedAction → Choice → Bool
is_executable has_executor mode bs c =
    is_unblocked bs
    && not (missing_executor has_executor c)
    && mode_allows mode c.recommended_action
    && (c.state_mutation || c.cloud_mutation)
    && not (is_no_op c.recommended_action)

abbrev final_blocked :
    (ReconcileActionType → Bool)
    → List ReconcileBlockedAction
    → Choice
    → List ReconcileBlockedAction
final_blocked has_executor bs c =
    if missing_executor has_executor c
    then bs ++ record { action = c.recommended_action; reason = no_executor } ∷ []
    else bs

abbrev final_risk : Bool → List ReconcileBlockedAction → ReconcileRisk → ReconcileRisk
final_risk executable bs risk =
    if executable then risk else if is_unblocked bs then risk else risk_blocked

-- The action of a choice.
unfoldable pub action_of :
    (ReconcileActionType → Bool)
    → ReconcileTarget
    → ReconcileMode
    → ℕ
    → List ReconcileBlockedAction
    → Choice
    → ReconcilePlanAction
unfolding requires_registered_executor mode_allows
action_of has_executor target mode index bs c = record {
  index = index;
  type = c.type;
  resource = target.identity;
  recommended_action = c.recommended_action;
  allowed_actions = unique_decisions c.recommended_action c.allowed_actions;
  blocked_actions = final_blocked has_executor bs c;
  why = c.why;
  evidence = target.ownership;
  risk = final_risk (is_executable has_executor mode bs c) (final_blocked has_executor bs c) c.risk;
  requires_approval = c.state_mutation || c.cloud_mutation;
  state_mutation = c.state_mutation;
  cloud_mutation = c.cloud_mutation;
  executable = is_executable has_executor mode bs c;
}

unfoldable pub classify_target :
    (Text → Option ℕ)
    → ReconcileTarget
    → ReconcileScope
    → ReconcileMode
    → ℕ
    → ℕ
    → (ReconcileActionType → Bool)
    → ReconcilePlanAction
unfolding guards choose action_of
classify_target date_parse target scope mode now index has_executor =
    let bs = guards date_parse target scope now in
    action_of has_executor target mode index bs (choose target bs)
