-- ===== src/Reconciler/Discovery/Selection.antt =====
-- What packages/drift/src/discovery.ts asks of a resource of the state and of one of the cloud: its
-- physical id, and whether it is in the scope. A map is its list of entries.
use hulumi.Prelude.{
  Bool, true, false, not, ◌&&◌, ◌||◌, Option, none, some, is_some, get_or_else, List, [], ◌∷◌, Text,
  lit, text_eq, text_contains, lookup, starts_with, all, if◌then◌else◌,
}
use hulumi.Reconciler.Types.{
  Provider, aws, github, kubernetes, pulumi, unknown_provider, ResourceIdentity,
}
use hulumi.Reconciler.Matching.{matches_prefix}
use hulumi.Reconciler.Discovery.Types.{
  PulumiStateResource, PulumiStateExport, DiscoveryScope, OutOfScopeReason, account_out_of_scope,
  region_out_of_scope, prefix_out_of_scope, tag_out_of_scope, type_out_of_scope,
}

abbrev pub is_nonempty {ℓ} : {A : Type ℓ} → List A → Bool
is_nonempty [] = false
is_nonempty (x ∷ xs) = true

-- `(list?.length ?? 0) > 0`
abbrev has_entries : {A : Type 0} → Option (List A) → Bool
has_entries list = is_nonempty (get_or_else list [])

-- The test of `assertExplicitSelector`.
unfoldable pub has_selector : DiscoveryScope → Bool
has_selector scope =
    is_some scope.reconcile_scope.resource_prefix
    || has_entries scope.tags
    || has_entries scope.urns
    || has_entries scope.physical_ids
    || has_entries scope.resource_types

abbrev resources_of : PulumiStateExport → List PulumiStateResource
resources_of state = get_or_else state.deployment (get_or_else state.resources [])

unfoldable pub get_state_resources : Option PulumiStateExport → List PulumiStateResource
get_state_resources none = []
get_state_resources (some state) = resources_of state

abbrev nonempty_text : Option (Option Text) → Option Text
nonempty_text (some (some (c ∷ value))) = some (c ∷ value)
nonempty_text _ = none

abbrev first_output : List Text → List (Text × Option Text) → Option Text
first_output [] outputs = none
first_output (key ∷ keys) outputs =
    let value = nonempty_text (lookup key outputs) in
    let later = first_output keys outputs in if is_some value then value else later

unfoldable pub state_physical_id : PulumiStateResource → Option Text
unfolding lookup
state_physical_id resource =
    let given = nonempty_text (some resource.id) in
    if is_some given
    then given
    else first_output (lit "bucket" ∷ lit "name" ∷ lit "arn" ∷ lit "id" ∷ []) resource.outputs

unfoldable pub provider_from_type : Text → Provider
unfolding starts_with
provider_from_type type =
    if starts_with type (lit "aws:")
    then aws
    else if starts_with type (lit "github:")
    then github
    else if starts_with type (lit "kubernetes:")
    then kubernetes
    else if starts_with type (lit "pulumi:")
    then pulumi
    else unknown_provider

-- `allowed !== undefined && value !== undefined && !allowed.includes(value)`
abbrev excludes : Option (List Text) → Option Text → Bool
excludes (some allowed) (some value) = not (text_contains allowed value)
excludes _ _ = false

-- `allowed !== undefined && !allowed.includes(value)`
abbrev lacks : Option (List Text) → Text → Bool
lacks none value = false
lacks (some allowed) value = not (text_contains allowed value)

abbrev pub is_text : Option Text → Text → Bool
is_text none value = false
is_text (some given) value = text_eq given value

abbrev tag_is : List (Text × Text) → Text × Text → Bool
tag_is tags (key, value) = is_text (lookup key tags) value

unfoldable pub matches_tags : Option (List (Text × Text)) → List (Text × Text) → Bool
unfolding lookup
matches_tags none selector = false
matches_tags (some tags) selector = all (tag_is tags) selector

-- A selector of tags that the resource does not have.
abbrev fails_tags : Option (List (Text × Text)) → Option (List (Text × Text)) → Bool
fails_tags tags none = false
fails_tags tags (some selector) = not (matches_tags tags selector)

unfoldable pub out_of_scope_reason : ResourceIdentity → DiscoveryScope → Option OutOfScopeReason
unfolding text_contains matches_prefix matches_tags
out_of_scope_reason resource scope =
    if excludes scope.reconcile_scope.account_ids resource.account_id
    then some account_out_of_scope
    else if excludes scope.reconcile_scope.regions resource.region
    then some region_out_of_scope
    else if lacks scope.resource_types resource.type
    then some type_out_of_scope
    else if lacks scope.physical_ids (get_or_else resource.physical_id [])
    then some prefix_out_of_scope
    else if not (matches_prefix resource scope.reconcile_scope.resource_prefix)
    then some prefix_out_of_scope
    else if fails_tags resource.tags scope.tags
    then some tag_out_of_scope
    else none

-- The physical id does not start with the prefix, where there are both.
abbrev fails_prefix : Option Text → Option Text → Bool
fails_prefix (some prefix) (some id) = not (starts_with id prefix)
fails_prefix _ _ = false

unfoldable pub state_in_scope : PulumiStateResource → DiscoveryScope → Bool
unfolding text_contains starts_with state_physical_id
state_in_scope resource scope =
    not (lacks scope.urns resource.urn)
    && not (lacks scope.resource_types resource.type)
    && not (lacks scope.physical_ids (get_or_else (state_physical_id resource) []))
    && not (fails_prefix scope.reconcile_scope.resource_prefix (state_physical_id resource))
