-- ===== src/Reconciler/Discovery/Targets.antt =====
-- `discoverReconcileTargets` of packages/drift/src/discovery.ts.
use hulumi.Prelude.{
  Bool, true, false, ◌&&◌, ◌||◌, Option, none, some, is_some, get_or_else, List, [], ◌∷◌, ◌++◌,
  Text, lit, text_eq, starts_with, take, any, if◌then◌else◌,
}
use hulumi.Prelude.Int.{ℤ, pos, leb_ℤ}
use hulumi.Prelude.Result.{Result, ok, err}
use hulumi.Prelude.Sorting.{sort_by}
use hulumi.Reconciler.Types.{
  pulumi_state, tag, name_prefix, ResourceRelationship, state_owned, state_missing,
  cloud_only_orphan, shared_singleton, unknown, ResourceIdentity, ResourceOwnershipEvidence,
  ReconcileTarget,
}
use hulumi.Reconciler.Matching.{is_security_singleton_type, matches_prefix}
use hulumi.Reconciler.Discovery.Types.{
  PulumiStateResource, CloudInventoryResource, DiscoveryScope, OutOfScopeReason,
  DiscoveryDiagnostic, DiscoverReconcileTargetsRequest, DiscoverReconcileTargetsResult,
}
use hulumi.Reconciler.Discovery.Selection.{
  is_nonempty, has_selector, get_state_resources, state_physical_id, provider_from_type, is_text,
  out_of_scope_reason, state_in_scope,
}

abbrev hulumi_tags : List (Text × Text) → List ResourceOwnershipEvidence
hulumi_tags [] = []
hulumi_tags ((key, value) ∷ tags) =
    let later = hulumi_tags tags in
    if starts_with key (lit "hulumi:")
    then record { signal = tag; subject = key ++ (lit "=" ++ value) } ∷ later
    else later

abbrev prefix_evidence : ResourceIdentity → Option Text → List ResourceOwnershipEvidence
prefix_evidence resource none = []
prefix_evidence resource (some prefix) =
    if matches_prefix resource (some prefix)
    then record { signal = name_prefix; subject = get_or_else resource.physical_id prefix } ∷ []
    else []

unfoldable pub ownership_evidence_for :
    CloudInventoryResource → DiscoveryScope → List ResourceOwnershipEvidence
unfolding starts_with matches_prefix
ownership_evidence_for resource scope =
    get_or_else resource.ownership []
    ++ (prefix_evidence resource.identity scope.reconcile_scope.resource_prefix
        ++ hulumi_tags (get_or_else resource.identity.tags []))

unfoldable pub relationship_for :
    ResourceIdentity → List ResourceOwnershipEvidence → ResourceRelationship
relationship_for resource evidence =
    if resource.singleton
    then shared_singleton
    else if is_nonempty evidence
    then cloud_only_orphan
    else unknown

-- `createHash("sha256")` is an argument: the digest of a text in hexadecimal.
unfoldable pub stable_ref : (Text → Text) → ResourceIdentity → Text
stable_ref sha256 resource =
    let subject = get_or_else resource.physical_id (get_or_else resource.urn (lit "unknown")) in
    lit "<redacted:" ++ (take 12 (sha256 (resource.type ++ (lit ":" ++ subject))) ++ lit ">")

-- `request.cloudResources.filter(...)`.
unfoldable pub scoped_cloud :
    DiscoveryScope → List CloudInventoryResource → List CloudInventoryResource
unfolding out_of_scope_reason
scoped_cloud scope [] = []
scoped_cloud scope (r ∷ rs) =
    let later = scoped_cloud scope rs in
    if is_some (out_of_scope_reason r.identity scope) then later else r ∷ later

abbrev diagnose_with :
    Text → Option OutOfScopeReason → List DiscoveryDiagnostic → List DiscoveryDiagnostic
diagnose_with ref none later = later
diagnose_with ref (some reason) later = record { resource_ref = ref; reason = reason } ∷ later

-- What the filter leaves in `diagnostics`.
unfoldable pub diagnose :
    (Text → Text) → DiscoveryScope → List CloudInventoryResource → List DiscoveryDiagnostic
unfolding out_of_scope_reason stable_ref
diagnose sha256 scope [] = []
diagnose sha256 scope (r ∷ rs) =
    diagnose_with (stable_ref sha256 r.identity) (out_of_scope_reason r.identity scope)
      (diagnose sha256 scope rs)

-- `cloudByPhysicalId.get(id)`: the last resource with that id.
unfoldable pub cloud_by_physical_id :
    Text → List CloudInventoryResource → Option CloudInventoryResource
unfolding text_eq
cloud_by_physical_id id [] = none
cloud_by_physical_id id (r ∷ rs) =
    let later = cloud_by_physical_id id rs in
    if is_some later then later else if is_text r.identity.physical_id id then some r else none

abbrev pub cloud_at : Option Text → List CloudInventoryResource → Option CloudInventoryResource
cloud_at none cloud = none
cloud_at (some id) cloud = cloud_by_physical_id id cloud

abbrev pub cloud_of :
    PulumiStateResource → List CloudInventoryResource → Option CloudInventoryResource
cloud_of resource cloud = cloud_at (state_physical_id resource) cloud

abbrev from_cloud :
    {A : Type 0} → (ResourceIdentity → Option A) → Option CloudInventoryResource → Option A
from_cloud field none = none
from_cloud field (some r) = field r.identity

abbrev cloud_singleton : Option CloudInventoryResource → Bool
cloud_singleton none = false
cloud_singleton (some r) = r.identity.singleton

unfoldable pub state_target : PulumiStateResource → Option CloudInventoryResource → ReconcileTarget
unfolding state_physical_id provider_from_type is_security_singleton_type
state_target resource cloud = record {
  identity = record {
    provider = provider_from_type resource.type;
    type = resource.type;
    urn = some resource.urn;
    physical_id = state_physical_id resource;
    region = from_cloud (λ r. r.region) cloud;
    account_id = from_cloud (λ r. r.account_id) cloud;
    tags = from_cloud (λ r. r.tags) cloud;
    created_at = from_cloud (λ r. r.created_at) cloud;
    singleton = cloud_singleton cloud || is_security_singleton_type resource.type;
  };
  in_state = true;
  exists_in_cloud = is_some cloud;
  ownership = record { signal = pulumi_state; subject = resource.urn } ∷ [];
  relationship = some (if is_some cloud then state_owned else state_missing);
  supported_actions = [];
}

unfoldable pub state_targets :
    DiscoveryScope → List CloudInventoryResource → List PulumiStateResource → List ReconcileTarget
unfolding state_in_scope cloud_by_physical_id state_target
state_targets scope cloud [] = []
state_targets scope cloud (s ∷ rest) =
    let later = state_targets scope cloud rest in
    if state_in_scope s scope then state_target s (cloud_of s cloud) ∷ later else later

-- The loop over the state adds the id to `matchedCloudIds` at this resource.
unfoldable pub claims :
    DiscoveryScope → List CloudInventoryResource → Text → PulumiStateResource → Bool
unfolding state_in_scope cloud_by_physical_id text_eq
claims scope cloud id s =
    state_in_scope s scope && is_some (cloud_of s cloud) && is_text (state_physical_id s) id

-- `matchedCloudIds.has(id)` after that loop.
unfoldable pub is_matched :
    DiscoveryScope → List CloudInventoryResource → List PulumiStateResource → Text → Bool
unfolding claims
is_matched scope cloud state id = any (claims scope cloud id) state

-- `identity`, with the singletons of security marked.
unfoldable pub mark_singleton : ResourceIdentity → ResourceIdentity
unfolding is_security_singleton_type
mark_singleton resource = record {
  provider = resource.provider;
  type = resource.type;
  urn = resource.urn;
  physical_id = resource.physical_id;
  region = resource.region;
  account_id = resource.account_id;
  tags = resource.tags;
  created_at = resource.created_at;
  singleton = resource.singleton || is_security_singleton_type resource.type;
}

unfoldable pub cloud_target : DiscoveryScope → CloudInventoryResource → ReconcileTarget
unfolding ownership_evidence_for mark_singleton relationship_for
cloud_target scope resource =
    let ownership = ownership_evidence_for resource scope in
    record {
      identity = mark_singleton resource.identity;
      in_state = false;
      exists_in_cloud = true;
      ownership = ownership;
      relationship = some (relationship_for (mark_singleton resource.identity) ownership);
      supported_actions = [];
    }

abbrev pub id_matched :
    DiscoveryScope → List CloudInventoryResource → List PulumiStateResource → Option Text → Bool
id_matched scope cloud state none = false
id_matched scope cloud state (some id) = is_matched scope cloud state id

-- The loop over the cloud's resources in scope, `rest`; `cloud` has all of them.
unfoldable pub cloud_targets :
    DiscoveryScope
    → List CloudInventoryResource
    → List PulumiStateResource
    → List CloudInventoryResource
    → List ReconcileTarget
unfolding is_matched cloud_target
cloud_targets scope cloud state [] = []
cloud_targets scope cloud state (r ∷ rest) =
    let later = cloud_targets scope cloud state rest in
    if id_matched scope cloud state r.identity.physical_id
    then later
    else cloud_target scope r ∷ later

abbrev relationship_text : Option ResourceRelationship → Text
relationship_text none = []
relationship_text (some state_owned) = lit "state-owned"
relationship_text (some state_missing) = lit "state-missing"
relationship_text (some cloud_only_orphan) = lit "cloud-only"
relationship_text (some shared_singleton) = lit "shared-singleton"
relationship_text (some unknown) = lit "unknown"

abbrev target_text : ReconcileTarget → Text
target_text t =
    relationship_text t.relationship
    ++ (lit ":"
        ++ (t.identity.type
            ++ (lit ":"
                ++ (get_or_else t.identity.urn []
                    ++ (lit ":" ++ get_or_else t.identity.physical_id [])))))

-- `compareTargets(a, b)` is not positive. `localeCompare` is an argument.
unfoldable pub target_le : (Text → Text → ℤ) → ReconcileTarget → ReconcileTarget → Bool
target_le locale_compare a b = leb_ℤ (locale_compare (target_text a) (target_text b)) (pos 0)

pub data DiscoveryError : Type 0 where
  no_explicit_selector : DiscoveryError

abbrev pub found :
    (Text → Text)
    → (Text → Text → ℤ)
    → DiscoveryScope
    → List PulumiStateResource
    → List CloudInventoryResource
    → DiscoverReconcileTargetsResult
found sha256 locale_compare scope state resources =
    let cloud = scoped_cloud scope resources in
    record {
      targets =
          sort_by (target_le locale_compare)
            (state_targets scope cloud state ++ cloud_targets scope cloud state cloud);
      diagnostics = diagnose sha256 scope resources;
    }

unfoldable pub discover_reconcile_targets :
    (Text → Text)
    → (Text → Text → ℤ)
    → DiscoverReconcileTargetsRequest
    → Result DiscoveryError DiscoverReconcileTargetsResult
unfolding has_selector get_state_resources scoped_cloud diagnose state_targets cloud_targets
    target_le sort_by
discover_reconcile_targets sha256 locale_compare request =
    if has_selector request.scope
    then ok (
        found sha256 locale_compare request.scope (get_state_resources request.pulumi_state)
          request.cloud_resources)
    else err no_explicit_selector
