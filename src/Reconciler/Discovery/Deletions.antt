-- ===== src/Reconciler/Discovery/Deletions.antt =====
-- packages/drift/src/discovery.ts together with `classifyTarget` of packages/drift/src/reconciler.ts:
-- which discovered resources are deleted.
use hulumi.Prelude.{ℕ, Bool, true, false, Option, Text, All-at, Member, ◌≡◌, ◌∙◌, ap, inl, inr}
use hulumi.Prelude.Int.{ℤ}
use hulumi.Prelude.Result.{ok}
use hulumi.Reconciler.Types.{
  ReconcileMode, ReconcileActionType, ReconcileTarget, ReconcilePlanAction,
}
use hulumi.Reconciler.Target.{classify_target}
use hulumi.Reconciler.Guards.{classify_target-deletes}
use hulumi.Reconciler.Discovery.Types.{
  DiscoverReconcileTargetsRequest, DiscoverReconcileTargetsResult,
}
use hulumi.Reconciler.Discovery.Selection.{get_state_resources}
use hulumi.Reconciler.Discovery.Targets.{state_target, discover_reconcile_targets}
use hulumi.Reconciler.Discovery.Origins.{Origin, CloudOrigin, discover_reconcile_targets-origins}

not_in_state :
    (request : DiscoverReconcileTargetsRequest) (t : ReconcileTarget)
    → t.in_state ≡ false
    → Origin request.scope request.cloud_resources (get_state_resources request.pulumi_state) t
    → CloudOrigin request.scope request.cloud_resources (get_state_resources request.pulumi_state) t
unfolding state_target
not_in_state request t h (inr cloud) = cloud
not_in_state request t h (inl state) = cc (h, ap (λ r. r.in_state) state.its_target)

-- An executable action that changes the cloud, for a target of a discovery, is on a resource of
-- the cloud in the scope of the discovery whose physical id no resource of the state in that scope
-- has.
pub discovered-deletes :
    (sha256 : Text → Text) (locale_compare : Text → Text → ℤ)
    (request : DiscoverReconcileTargetsRequest) (result : DiscoverReconcileTargetsResult)
    (target : ReconcileTarget) (date_parse : Text → Option ℕ) (mode : ReconcileMode) (now index : ℕ)
    (executors : ReconcileActionType → Bool) (action : ReconcilePlanAction)
    → discover_reconcile_targets sha256 locale_compare request ≡ ok result
    → Member target result.targets
    → classify_target date_parse target request.scope.reconcile_scope mode now index executors
      ≡ action
    → action.executable ≡ true
    → action.cloud_mutation ≡ true
    → CloudOrigin request.scope request.cloud_resources
        (get_state_resources request.pulumi_state)
        target
discovered-deletes sha256 locale_compare request result target date_parse mode now index executors
      action h m same e c =
    not_in_state request target
      (classify_target-deletes date_parse target request.scope.reconcile_scope mode now index
        executors (ap (λ a. a.executable) same ∙ e) (ap (λ a. a.cloud_mutation) same ∙ c)).0
      (All-at
        (Origin request.scope request.cloud_resources (get_state_resources request.pulumi_state))
        result.targets target
        (discover_reconcile_targets-origins sha256 locale_compare request result h) m)
