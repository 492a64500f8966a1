-- ===== src/Reconciler/Discovery/Origins.antt =====
-- Where the targets that packages/drift/src/discovery.ts reports come from.
use hulumi.Prelude.{
  true, false, Option, none, some, is_some, get_or_else, List, [], ◌∷◌, ◌++◌, Text, All, Member,
  All-Member, All-mono, All-both, All-append, Bool-cases, or-eq-false, Option-cases, text_eq_iff,
  ◌≡◌, ◌≢◌, ◌↔◌, ◌⊎◌, inl, inr, refl, ap, ap₂, sym, subst, ◌∙◌, arith, ◌&&◌,
}
use hulumi.Prelude.Int.{ℤ}
use hulumi.Prelude.Result.{ok, if-eq-ok}
use hulumi.Prelude.Sorting.{All-sort_by}
use hulumi.Reconciler.Types.{ReconcileTarget}
use hulumi.Reconciler.Discovery.Types.{
  PulumiStateResource, CloudInventoryResource, DiscoveryScope, DiscoverReconcileTargetsRequest,
  DiscoverReconcileTargetsResult,
}
use hulumi.Reconciler.Discovery.Selection.{
  has_selector, get_state_resources, state_physical_id, is_text, out_of_scope_reason,
  state_in_scope,
}
use hulumi.Reconciler.Discovery.Targets.{
  no_explicit_selector, scoped_cloud, cloud_by_physical_id, cloud_at, cloud_of, state_target,
  state_targets, is_matched, claims, id_matched, cloud_target, cloud_targets, target_le,
  discover_reconcile_targets, found,
}

-- A resource of the state that is in the scope, and its target.
pub record StateOrigin (scope : DiscoveryScope) (cloud : List CloudInventoryResource)
    (state : List PulumiStateResource) (target : ReconcileTarget) : Type 0 where
  pub resource : PulumiStateResource
  pub is_member : Member resource state
  pub in_scope : state_in_scope resource scope ≡ true
  pub its_target : target ≡ state_target resource (cloud_of resource cloud)

-- A resource of the state does not claim an id: it is out of the scope, or has another id or none.
abbrev pub LeavesFree : DiscoveryScope → Option Text → PulumiStateResource → Type 0
LeavesFree scope id s =
    (state_in_scope s scope ≡ false) ⊎ ((state_physical_id s ≡ none) ⊎ (state_physical_id s ≢ id))

-- A resource of the cloud that is in the scope and that no resource of the state claims, and its
-- target.
pub record CloudOrigin (scope : DiscoveryScope) (resources : List CloudInventoryResource)
    (state : List PulumiStateResource) (target : ReconcileTarget) : Type 0 where
  pub resource : CloudInventoryResource
  pub is_member : Member resource resources
  pub in_scope : out_of_scope_reason resource.identity scope ≡ none
  pub is_free : All (LeavesFree scope resource.identity.physical_id) state
  pub its_target : target ≡ cloud_target scope resource

pub is_text_iff : (o : Option Text) (v : Text) → (is_text o v ≡ true) ↔ (o ≡ some v)
is_text_iff none v = (λ h. cc, λ h. cc)
is_text_iff (some x) v =
    (λ h. ap some ((text_eq_iff x v).0 h), λ h. (text_eq_iff x v).1 (ap (λ o. get_or_else o []) h))

-- An id of one of the resources of the cloud has a resource.
cloud_by_physical_id-is_some :
    (id : Text) (cloud : List CloudInventoryResource) (r : CloudInventoryResource)
    → Member r cloud
    → r.identity.physical_id ≡ some id
    → is_some (cloud_by_physical_id id cloud) ≡ true
unfolding cloud_by_physical_id
cloud_by_physical_id-is_some id [] r m e = elim m [ ]
cloud_by_physical_id-is_some id (x ∷ xs) r (inl here) e =
    let h = (is_text_iff x.identity.physical_id id).1 (ap (λ c. c.identity.physical_id) here ∙ e) in
    rw h (ground arith)
cloud_by_physical_id-is_some id (x ∷ xs) r (inr later) e =
    rw (cloud_by_physical_id-is_some id xs r later e) (cloud_by_physical_id-is_some id xs r later e)

-- A resource of the state that does not claim the id of a resource of the cloud leaves it free.
claims-LeavesFree :
    (scope : DiscoveryScope) (cloud : List CloudInventoryResource) (r : CloudInventoryResource)
    (id : Text) (s : PulumiStateResource)
    → Member r cloud
    → r.identity.physical_id ≡ some id
    → claims scope cloud id s ≡ false
    → LeavesFree scope (some id) s
unfolding claims
claims-LeavesFree scope cloud r id s m e h = elim (Bool-cases (state_in_scope s scope)) [
  | inr out ↦ inl out
  | inl inside ↦ elim (Bool-cases (is_text (state_physical_id s) id)) [
    | inr other ↦ inr (inr (λ same. cc (other, (is_text_iff (state_physical_id s) id).1 same)))
    | inl text ↦
        let same = (is_text_iff (state_physical_id s) id).0 text in
        let known =
          ap (λ o. is_some (cloud_at o cloud)) same ∙ cloud_by_physical_id-is_some id cloud r m e in
        let claimed = ap₂ ◌&&◌ (ap₂ ◌&&◌ inside known) text in inl (cc (sym claimed ∙ h))
  ]
]

is_matched-eq-false :
    (scope : DiscoveryScope) (cloud : List CloudInventoryResource) (r : CloudInventoryResource)
    (id : Text) (state : List PulumiStateResource)
    → Member r cloud
    → r.identity.physical_id ≡ some id
    → is_matched scope cloud state id ≡ false
    → All (LeavesFree scope (some id)) state
unfolding is_matched
is_matched-eq-false scope cloud r id [] m e h = tt
is_matched-eq-false scope cloud r id (s ∷ rest) m e h =
    let (a, b) = or-eq-false (claims scope cloud id s) (is_matched scope cloud rest id) h in
    (claims-LeavesFree scope cloud r id s m e a, is_matched-eq-false scope cloud r id rest m e b)

none_free :
    (scope : DiscoveryScope) (state : List PulumiStateResource) → All (LeavesFree scope none) state
none_free scope [] = tt
none_free scope (s ∷ rest) = (
  elim (Option-cases (state_physical_id s)) [
    | inl no_id ↦ inr (inl no_id)
    | inr (p, some_p) ↦ inr (inr (λ e. cc))
  ],
  none_free scope rest,
)

id_matched-eq-false :
    (scope : DiscoveryScope) (cloud : List CloudInventoryResource)
    (state : List PulumiStateResource) (r : CloudInventoryResource)
    → Member r cloud
    → id_matched scope cloud state r.identity.physical_id ≡ false
    → All (LeavesFree scope r.identity.physical_id) state
id_matched-eq-false scope cloud state r m h = elim (Option-cases r.identity.physical_id) [
  | inl e ↦ rw e (none_free scope state)
  | inr (id, e) ↦ rw e (
      is_matched-eq-false scope cloud r id state m e
        (ap (id_matched scope cloud state) (sym e) ∙ h))
]

scoped_cloud-in_scope :
    (scope : DiscoveryScope) (resources : List CloudInventoryResource)
    → All
        (λ r. Member r resources × (out_of_scope_reason r.identity scope ≡ none))
        (scoped_cloud scope resources)
unfolding scoped_cloud
scoped_cloud-in_scope scope [] = tt
scoped_cloud-in_scope scope (r ∷ rs) =
    let later =
      All-mono (λ x. Member x rs × (out_of_scope_reason x.identity scope ≡ none))
        (λ x. Member x (r ∷ rs) × (out_of_scope_reason x.identity scope ≡ none))
        (scoped_cloud scope rs) (λ x h. (inr h.0, h.1)) (scoped_cloud-in_scope scope rs) in
    elim (Option-cases (out_of_scope_reason r.identity scope)) [
      | inl e ↦ rw e ((inl refl, e), later)
      | inr (reason, e) ↦ rw e later
    ]

state_targets-origin :
    (scope : DiscoveryScope) (cloud : List CloudInventoryResource)
    (state : List PulumiStateResource)
    → All (StateOrigin scope cloud state) (state_targets scope cloud state)
unfolding state_targets
state_targets-origin scope cloud [] = tt
state_targets-origin scope cloud (s ∷ rest) =
    let later =
      All-mono (StateOrigin scope cloud rest) (StateOrigin scope cloud (s ∷ rest))
        (state_targets scope cloud rest)
        (λ t o. record {
          resource = o.resource;
          is_member = inr o.is_member;
          in_scope = o.in_scope;
          its_target = o.its_target;
        })
        (state_targets-origin scope cloud rest) in
    elim (Bool-cases (state_in_scope s scope)) [
      | inl e ↦
          rw e
            (record { resource = s; is_member = inl refl; in_scope = e; its_target = refl }, later)
      | inr e ↦ rw e later
    ]

cloud_targets-origin :
    (scope : DiscoveryScope) (resources cloud rest : List CloudInventoryResource)
    (state : List PulumiStateResource)
    → All
        (λ r. Member r cloud × (Member r resources × (out_of_scope_reason r.identity scope ≡ none)))
        rest
    → All (CloudOrigin scope resources state) (cloud_targets scope cloud state rest)
unfolding cloud_targets
cloud_targets-origin scope resources cloud [] state h = tt
cloud_targets-origin scope resources cloud (r ∷ rest) state ((m, (n, o)), h) =
    let later = cloud_targets-origin scope resources cloud rest state h in
    elim (Bool-cases (id_matched scope cloud state r.identity.physical_id)) [
      | inl e ↦ rw e later
      | inr e ↦ rw e (
        record {
          resource = r;
          is_member = n;
          in_scope = o;
          is_free = id_matched-eq-false scope cloud state r m e;
          its_target = refl;
        },
        later,
      )
    ]

abbrev pub Origin :
    DiscoveryScope
    → List CloudInventoryResource
    → List PulumiStateResource
    → ReconcileTarget
    → Type 0
Origin scope resources state t =
    StateOrigin scope (scoped_cloud scope resources) state t ⊎ CloudOrigin scope resources state t

found-origins :
    (sha256 : Text → Text) (locale_compare : Text → Text → ℤ) (scope : DiscoveryScope)
    (state : List PulumiStateResource) (resources : List CloudInventoryResource)
    → All (Origin scope resources state) (found sha256 locale_compare scope state resources).targets
found-origins sha256 locale_compare scope state resources =
    let cloud = scoped_cloud scope resources in
    let members =
      All-both (λ r. Member r cloud)
        (λ r. Member r resources × (out_of_scope_reason r.identity scope ≡ none)) cloud
        (All-Member cloud) (scoped_cloud-in_scope scope resources) in
    All-sort_by (target_le locale_compare) (Origin scope resources state)
      (state_targets scope cloud state ++ cloud_targets scope cloud state cloud)
      (All-append (Origin scope resources state) (state_targets scope cloud state)
        (cloud_targets scope cloud state cloud)
        (All-mono (StateOrigin scope cloud state) (Origin scope resources state)
          (state_targets scope cloud state) (λ t o. inl o) (state_targets-origin scope cloud state))
        (All-mono (CloudOrigin scope resources state) (Origin scope resources state)
          (cloud_targets scope cloud state cloud) (λ t o. inr o)
          (cloud_targets-origin scope resources cloud cloud state members)))

-- A discovery that returns had a selector and returns what was found.
pub discover_reconcile_targets-eq-ok :
    (sha256 : Text → Text) (locale_compare : Text → Text → ℤ)
    (request : DiscoverReconcileTargetsRequest) (result : DiscoverReconcileTargetsResult)
    → discover_reconcile_targets sha256 locale_compare request ≡ ok result
    → (has_selector request.scope ≡ true)
      × (found sha256 locale_compare request.scope
            (get_state_resources request.pulumi_state)
            request.cloud_resources
          ≡ result)
unfolding discover_reconcile_targets
discover_reconcile_targets-eq-ok sha256 locale_compare request result h =
    if-eq-ok (has_selector request.scope)
      (found sha256 locale_compare request.scope (get_state_resources request.pulumi_state)
        request.cloud_resources)
      result no_explicit_selector h

-- Each discovered target is that of a resource of the state in the scope, or that of a resource of
-- the cloud in the scope whose physical id no resource of the state in the scope has.
pub discover_reconcile_targets-origins :
    (sha256 : Text → Text) (locale_compare : Text → Text → ℤ)
    (request : DiscoverReconcileTargetsRequest) (result : DiscoverReconcileTargetsResult)
    → discover_reconcile_targets sha256 locale_compare request ≡ ok result
    → All
        (Origin request.scope request.cloud_resources (get_state_resources request.pulumi_state))
        result.targets
discover_reconcile_targets-origins sha256 locale_compare request result h =
    subst
      (λ r.
        All
          (Origin request.scope request.cloud_resources (get_state_resources request.pulumi_state))
          r.targets)
      (discover_reconcile_targets-eq-ok sha256 locale_compare request result h).1
      (found-origins sha256 locale_compare request.scope (get_state_resources request.pulumi_state)
        request.cloud_resources)
