-- ===== src/Reconciler/Tests.antt =====
-- Plans for a bucket and for a singleton, and the theorems at the bucket.
use hulumi.Prelude.{
  map, All, List, ℕ, ◌≤◌, Bool, true, false, Option, none, some, [], ◌∷◌, Text, lit, ◌≡◌, ◌≢◌, ◌⊎◌,
  refl,
}
use hulumi.Reconciler.Types.{
  ReconcileMode, check_only, sweep_only, delete_cloud_resource, retain_external,
  ReconcileActionType, tag, name_prefix, aws, ResourceIdentity, ReconcileTarget, ReconcileScope,
  ReconcilePlanAction,
}
use hulumi.Reconciler.Matching.{matches_prefix, signal_count}
use hulumi.Reconciler.Target.{classify_target, min_signals}
use hulumi.Reconciler.Guards.{
  IsInScope, IsAllowed, classify_target-guarded, classify_target-deletes,
}
use hulumi.Reconciler.Plan.{Compare, plan_actions, summarize}
use mathlib.Core.List.{Perm}
use hulumi.Reconciler.Planned.Outcomes.{
  outcome, is_deletion, is_state_change, is_adoption, is_retention, is_left, deciding,
  plan_actions_complete,
}
use hulumi.Reconciler.Execution.{
  ReconcilePlan, ReconcileExecuteOptions, returned, Executors, ActionResult, executed,
  action_of_result, allows, ExecuteState, execute, store_plan,
}
use hulumi.Reconciler.Runs.{IfExecuted, execute_guarded}
use hulumi.Reconciler.Scope.{normalize_scope, PrefixKept, normalize_scope-PrefixKept}

abbrev identity : Text → ResourceIdentity
identity type = record {
  provider = aws;
  type = type;
  urn = none;
  physical_id = some (lit "staging-7-logs");
  region = some (lit "eu-west-1");
  account_id = none;
  tags = none;
  created_at = none;
  singleton = false;
}

abbrev orphan : Text → ReconcileTarget
orphan type = record {
  identity = identity type;
  in_state = false;
  exists_in_cloud = true;
  ownership =
      record { signal = tag; subject = lit "t" }
      ∷ record { signal = name_prefix; subject = lit "n" }
      ∷ [];
  relationship = none;
  supported_actions = [];
}

abbrev scope : ReconcileScope
scope = record {
  resource_prefix = some (lit "staging-7");
  regions = some (lit "eu-west-1" ∷ []);
  account_ids = none;
  min_age_minutes = 60;
  ownership_min_signals = none;
  allow_singleton_delete = false;
  max_actions = none;
}

abbrev no_dates : Text → Option ℕ
no_dates t = none

abbrev no_executors : ReconcileActionType → Bool
no_executors type = false

abbrev bucket : ReconcileTarget
bucket = orphan (lit "aws:s3/bucketV2:BucketV2")

abbrev action : ReconcileTarget → ReconcileMode → ReconcilePlanAction
action target mode = classify_target no_dates target scope mode 0 0 no_executors

sweeps :
    ((action bucket sweep_only).executable ≡ true)
    × ((action bucket sweep_only).recommended_action ≡ delete_cloud_resource)
    × ((action bucket check_only).executable ≡ false)
unfolding classify_target
sweeps = (refl, refl, refl)

singletons :
    ((action (orphan (lit "aws:guardduty/detector:Detector")) sweep_only).recommended_action
      ≡ retain_external)
    × ((action (orphan (lit "aws:sns/topic:Topic")) sweep_only).executable ≡ false)
unfolding classify_target
singletons = (refl, refl)

classify_target-guarded_example :
    IsInScope no_dates bucket scope 0
    × IsAllowed no_executors sweep_only
        (classify_target no_dates bucket scope sweep_only 0 0 no_executors)
unfolding classify_target
classify_target-guarded_example =
    classify_target-guarded no_dates bucket scope sweep_only 0 0 no_executors refl

classify_target-deletes_example :
    (false ≡ false)
    × (true ≡ true)
    × (scope.resource_prefix ≢ none)
    × (matches_prefix (identity (lit "aws:s3/bucketV2:BucketV2")) scope.resource_prefix ≡ true)
    × (min_signals scope ≤ signal_count bucket.ownership)
unfolding classify_target
classify_target-deletes_example =
    classify_target-deletes no_dates bucket scope sweep_only 0 0 no_executors refl refl

abbrev executors : Executors
executors type = some (λ a. returned (lit "drained"))

abbrev nothing_stored : ExecuteState
nothing_stored = record { raw_actions_by_token = λ t. none; active_execution_locks = [] }

abbrev sweep : ReconcilePlan
sweep = record {
  schema_version = lit "hulumi.drift.reconcile.plan.v1";
  mode = sweep_only;
  confirm_token = lit "c0ffee";
  lock_key = lit "k";
}

abbrev confirmed : ReconcileExecuteOptions
confirmed = record { confirm_token = lit "c0ffee"; allow = delete_cloud_resource ∷ [] }

abbrev in_order : Compare
in_order a b = true

abbrev planned : List ReconcilePlanAction
planned = plan_actions no_dates scope sweep_only 0 no_executors in_order (bucket ∷ [])

swept : planned ≡ action bucket sweep_only ∷ []
unfolding plan_actions
swept = refl

plan_actions_complete_example :
    Perm
      (map outcome planned)
      ((0, identity (lit "aws:s3/bucketV2:BucketV2"), delete_cloud_resource) ∷ [])
    × ((summarize planned).cleaned_up ≡ deciding is_deletion planned)
    × ((summarize planned).state_reconciled ≡ deciding is_state_change planned)
    × ((summarize planned).adopted ≡ deciding is_adoption planned)
    × ((summarize planned).retained ≡ deciding is_retention planned)
    × ((summarize planned).blocked_count ≡ deciding is_left planned)
    × ((1 ≤ 50) ⊎ All (λ a. a.executable ≡ false) planned)
unfolding classify_target
plan_actions_complete_example =
    plan_actions_complete no_dates scope sweep_only 0 no_executors in_order (bucket ∷ [])

abbrev drained : List ActionResult
drained = executed (action bucket sweep_only) (returned (lit "drained")) ∷ []

execute_guarded_example :
    (false ≡ false)
    × (lit "c0ffee" ≡ lit "c0ffee")
    × (map action_of_result drained ≡ planned)
    × All
        (IfExecuted (λ a.
          (allows (delete_cloud_resource ∷ []) a.recommended_action ≡ true)
          × (target : ReconcileTarget) × (index : ℕ) × (a
              ≡ classify_target no_dates target scope sweep_only 0 index no_executors)
          × IsInScope no_dates target scope 0
          × IsAllowed no_executors sweep_only a))
        drained
    × (◌≡◌ {A = List Text} [] [])
unfolding execute plan_actions store_plan
execute_guarded_example =
    execute_guarded no_dates scope sweep_only 0 no_executors in_order (bucket ∷ []) executors sweep
      confirmed nothing_stored drained (store_plan (lit "c0ffee") planned nothing_stored) refl

abbrev prefix_only : Text → ReconcileScope
prefix_only prefix = record scope { resource_prefix = some prefix }

scopes :
    (normalize_scope (prefix_only (lit "  Production ")) ≡ none)
    × (normalize_scope (prefix_only (lit "stagi*-7")) ≡ none)
    × (normalize_scope (prefix_only (lit " staging-7 "))
        ≡ some (record scope { ownership_min_signals = some 2 }))
unfolding normalize_scope
scopes = (refl, refl, refl)

normalize_scope-PrefixKept_example :
    (◌≡◌ {A = Option ℕ} (some 2) (some 2))
    × PrefixKept (some (lit " staging-7 ")) (some (lit "staging-7"))
unfolding normalize_scope
normalize_scope-PrefixKept_example =
    normalize_scope-PrefixKept (prefix_only (lit " staging-7 "))
      (record scope { ownership_min_signals = some 2 }) refl
