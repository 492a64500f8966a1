-- ===== src/Reconciler/Discovery/Tests.antt =====
-- Discoveries of two buckets of which the state has one, and the theorems at them.
use hulumi.Prelude.{
  ℕ, Bool, true, false, Option, none, some, List, [], ◌∷◌, Text, lit, ◌≡◌, inl, inr, refl,
}
use hulumi.Prelude.Int.{ℤ, pos}
use hulumi.Prelude.Result.{err}
use hulumi.Reconciler.Types.{
  sweep_only, delete_cloud_resource, ReconcileActionType, aws, ReconcileTarget, ReconcilePlanAction,
}
use hulumi.Reconciler.Target.{classify_target}
use hulumi.Reconciler.Discovery.Types.{
  PulumiStateResource, CloudInventoryResource, DiscoveryScope, DiscoverReconcileTargetsRequest,
  DiscoverReconcileTargetsResult,
}
use hulumi.Reconciler.Discovery.Selection.{get_state_resources}
use hulumi.Reconciler.Discovery.Targets.{
  scoped_cloud, state_target, cloud_target, discover_reconcile_targets, found, no_explicit_selector,
}
use hulumi.Reconciler.Discovery.Origins.{CloudOrigin}
use hulumi.Reconciler.Discovery.Coverage.{
  IsStateReported, IsCloudReported, discover_reconcile_targets_complete,
}
use hulumi.Reconciler.Discovery.Deletions.{discovered-deletes}

abbrev bucket : Text → CloudInventoryResource
bucket id = record {
  identity = record {
    provider = aws;
    type = lit "aws:s3/bucket:Bucket";
    urn = none;
    physical_id = some id;
    region = none;
    account_id = none;
    tags = some ((lit "hulumi:tier", lit "gold") ∷ []);
    created_at = none;
    singleton = false;
  };
  ownership = none;
}

abbrev logs : PulumiStateResource
logs = record {
  urn = lit "urn:logs";
  type = lit "aws:s3/bucket:Bucket";
  id = none;
  outputs = (lit "bucket", some (lit "app-logs")) ∷ [];
}

abbrev scope : Option (List Text) → DiscoveryScope
scope urns = record {
  reconcile_scope = record {
    resource_prefix = some (lit "app-");
    regions = none;
    account_ids = none;
    min_age_minutes = 0;
    ownership_min_signals = none;
    allow_singleton_delete = false;
    max_actions = none;
  };
  urns = urns;
  physical_ids = none;
  resource_types = none;
  tags = none;
}

abbrev request : Option (List Text) → DiscoverReconcileTargetsRequest
request urns = record {
  scope = scope urns;
  pulumi_state = some (record { resources = none; deployment = some (logs ∷ []) });
  cloud_resources = bucket (lit "app-logs") ∷ bucket (lit "app-old") ∷ bucket (lit "x") ∷ [];
}

abbrev digest : Text → Text
digest t = t

abbrev compare_none : Text → Text → ℤ
compare_none a b = pos 0

abbrev discovered : Option (List Text) → DiscoverReconcileTargetsResult
discovered urns = found digest compare_none (scope urns) (logs ∷ []) (request urns).cloud_resources

two :
    (discovered none).targets
    ≡ state_target logs (some (bucket (lit "app-logs")))
      ∷ cloud_target (scope none) (bucket (lit "app-old"))
      ∷ []
unfolding discover_reconcile_targets
two = refl

abbrev unselected : Option (List Text)
unselected = some (lit "urn:other" ∷ [])

-- A bucket of the state that the selector of URNs leaves out is reported as the cloud's only, and
-- the reconciler deletes it.
unselected_reported :
    (discovered unselected).targets
    ≡ cloud_target (scope unselected) (bucket (lit "app-logs"))
      ∷ cloud_target (scope unselected) (bucket (lit "app-old"))
      ∷ []
unfolding discover_reconcile_targets
unselected_reported = refl

abbrev no_dates : Text → Option ℕ
no_dates t = none

abbrev no_executors : ReconcileActionType → Bool
no_executors type = false

abbrev sweep : ReconcileTarget → ReconcilePlanAction
sweep t = classify_target no_dates t (scope unselected).reconcile_scope sweep_only 0 0 no_executors

unselected_deleted :
    ((sweep (cloud_target (scope unselected) (bucket (lit "app-logs")))).executable ≡ true)
    × ((sweep (cloud_target (scope unselected) (bucket (lit "app-logs")))).recommended_action
        ≡ delete_cloud_resource)
unfolding discover_reconcile_targets classify_target
unselected_deleted = (refl, refl)

abbrev no_selector : DiscoveryScope
no_selector = record {
  reconcile_scope = record {
    resource_prefix = none;
    regions = none;
    account_ids = none;
    min_age_minutes = 0;
    ownership_min_signals = none;
    allow_singleton_delete = false;
    max_actions = none;
  };
  urns = some [];
  physical_ids = none;
  resource_types = none;
  tags = some [];
}

no_selector_refused :
    discover_reconcile_targets digest compare_none
      (record { scope = no_selector; pulumi_state = none; cloud_resources = [] })
    ≡ err no_explicit_selector
unfolding discover_reconcile_targets
no_selector_refused = refl

discover_reconcile_targets_complete_example :
    IsStateReported
      (scope none)
      (scoped_cloud (scope none) (request none).cloud_resources)
      (discovered none).targets
      logs
    × IsCloudReported digest
        (scope none)
        (get_state_resources (request none).pulumi_state)
        (discovered none)
        (bucket (lit "app-old"))
unfolding discover_reconcile_targets
discover_reconcile_targets_complete_example =
    discover_reconcile_targets_complete digest compare_none (request none) (discovered none) logs
      (bucket (lit "app-old")) refl (inl refl) (inr (inl refl))

abbrev old_target : ReconcileTarget
old_target = cloud_target (scope unselected) (bucket (lit "app-old"))

discovered-deletes_example :
    CloudOrigin
      (scope unselected)
      (request unselected).cloud_resources
      (get_state_resources (request unselected).pulumi_state)
      old_target
unfolding discover_reconcile_targets classify_target
discovered-deletes_example =
    discovered-deletes digest compare_none (request unselected) (discovered unselected) old_target
      no_dates sweep_only 0 0 no_executors (sweep old_target) refl (inr (inl refl)) refl refl refl
