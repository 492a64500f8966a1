-- ===== src/Reconciler/Discovery/Coverage.antt =====
-- What packages/drift/src/discovery.ts says of each resource that it is given.
use hulumi.Prelude.{
  true, false, Option, none, some, List, [], ◌∷◌, ◌++◌, Text, Any, Member, Any-append_left,
  Any-append_right, Bool-cases, and-eq-true, Option-cases, ◌≡◌, ◌≢◌, ◌⊎◌, inl, inr, refl, ap, subst,
  ◌∙◌, arith,
}
use hulumi.Prelude.Int.{ℤ}
use hulumi.Prelude.Result.{ok}
use hulumi.Prelude.Sorting.{Any-sort_by}
use hulumi.Reconciler.Types.{ReconcileTarget}
use hulumi.Reconciler.Discovery.Types.{
  PulumiStateResource, CloudInventoryResource, DiscoveryScope, DiscoverReconcileTargetsRequest,
  DiscoverReconcileTargetsResult, DiscoveryDiagnostic, OutOfScopeReason,
}
use hulumi.Reconciler.Discovery.Selection.{
  get_state_resources, state_physical_id, out_of_scope_reason, state_in_scope,
}
use hulumi.Reconciler.Discovery.Targets.{
  stable_ref, scoped_cloud, diagnose, cloud_of, state_target, state_targets, is_matched, claims,
  id_matched, cloud_target, cloud_targets, target_le, discover_reconcile_targets, found,
}
use hulumi.Reconciler.Discovery.Origins.{is_text_iff, discover_reconcile_targets-eq-ok}

-- A resource of the state in the scope has the physical id.
abbrev pub Claims : DiscoveryScope → Option Text → PulumiStateResource → Type 0
Claims scope id s = (state_in_scope s scope ≡ true) × ((id ≢ none) × (state_physical_id s ≡ id))

-- A resource of the state is out of the scope, or its target is there.
abbrev pub IsStateReported :
    DiscoveryScope
    → List CloudInventoryResource
    → List ReconcileTarget
    → PulumiStateResource
    → Type 0
IsStateReported scope cloud targets s =
    (state_in_scope s scope ≡ false) ⊎ Member (state_target s (cloud_of s cloud)) targets

abbrev pub HasDiagnostic :
    (Text → Text) → DiscoveryScope → List DiscoveryDiagnostic → CloudInventoryResource → Type 0
HasDiagnostic sha256 scope diagnostics r =
    (reason : OutOfScopeReason) × (out_of_scope_reason r.identity scope ≡ some reason)
    × Member (record { resource_ref = stable_ref sha256 r.identity; reason = reason }) diagnostics

-- A resource of the cloud has a diagnostic with the reason, or a resource of the state in the scope
-- has its physical id, or its target is there.
abbrev pub IsCloudReported :
    (Text → Text)
    → DiscoveryScope
    → List PulumiStateResource
    → DiscoverReconcileTargetsResult
    → CloudInventoryResource
    → Type 0
IsCloudReported sha256 scope state result r =
    HasDiagnostic sha256 scope result.diagnostics r
    ⊎ (Any (Claims scope r.identity.physical_id) state
        ⊎ Member (cloud_target scope r) result.targets)

state_targets-cons_in :
    (scope : DiscoveryScope) (cloud : List CloudInventoryResource) (s : PulumiStateResource)
    (rest : List PulumiStateResource)
    → state_in_scope s scope ≡ true
    → state_targets scope cloud (s ∷ rest)
      ≡ state_target s (cloud_of s cloud) ∷ state_targets scope cloud rest
unfolding state_targets
state_targets-cons_in scope cloud s rest e = rw e refl

state_targets-cons_out :
    (scope : DiscoveryScope) (cloud : List CloudInventoryResource) (s : PulumiStateResource)
    (rest : List PulumiStateResource)
    → state_in_scope s scope ≡ false
    → state_targets scope cloud (s ∷ rest) ≡ state_targets scope cloud rest
unfolding state_targets
state_targets-cons_out scope cloud s rest e = rw e refl

state_targets_complete :
    (scope : DiscoveryScope) (cloud : List CloudInventoryResource)
    (state : List PulumiStateResource) (s : PulumiStateResource)
    → Member s state
    → state_in_scope s scope ≡ true
    → Member (state_target s (cloud_of s cloud)) (state_targets scope cloud state)
state_targets_complete scope cloud [] s m e = elim m [ ]
state_targets_complete scope cloud (x ∷ rest) s (inl here) e =
    rw (state_targets-cons_in scope cloud x rest (ap (λ r. state_in_scope r scope) here ∙ e))
      (inl (ap (λ r. state_target r (cloud_of r cloud)) here))
state_targets_complete scope cloud (x ∷ rest) s (inr later) e =
    let found = state_targets_complete scope cloud rest s later e in
    elim (Bool-cases (state_in_scope x scope)) [
      | inl inside ↦ rw (state_targets-cons_in scope cloud x rest inside) (inr found)
      | inr outside ↦ rw (state_targets-cons_out scope cloud x rest outside) found
    ]

claims_sound :
    (scope : DiscoveryScope) (cloud : List CloudInventoryResource) (id : Text)
    (s : PulumiStateResource)
    → claims scope cloud id s ≡ true
    → Claims scope (some id) s
unfolding claims
claims_sound scope cloud id s h =
    let (a, b) = and-eq-true _ _ h in
    ((and-eq-true _ _ a).0, ((λ e. cc), (is_text_iff (state_physical_id s) id).0 b))

id_matched_sound :
    (scope : DiscoveryScope) (cloud : List CloudInventoryResource)
    (state : List PulumiStateResource) (id : Option Text)
    → id_matched scope cloud state id ≡ true
    → Any (Claims scope id) state
unfolding is_matched
id_matched_sound scope cloud state none h = cc
id_matched_sound scope cloud [] (some id) h = cc
id_matched_sound scope cloud (s ∷ rest) (some id) h = elim (Bool-cases (claims scope cloud id s)) [
  | inl e ↦ inl (claims_sound scope cloud id s e)
  | inr e ↦ inr (id_matched_sound scope cloud rest (some id) (ground (arith, e, h)))
]

cloud_targets-cons_matched :
    (scope : DiscoveryScope) (cloud : List CloudInventoryResource)
    (state : List PulumiStateResource) (r : CloudInventoryResource)
    (rest : List CloudInventoryResource)
    → id_matched scope cloud state r.identity.physical_id ≡ true
    → cloud_targets scope cloud state (r ∷ rest) ≡ cloud_targets scope cloud state rest
unfolding cloud_targets
cloud_targets-cons_matched scope cloud state r rest e = rw e refl

cloud_targets-cons_free :
    (scope : DiscoveryScope) (cloud : List CloudInventoryResource)
    (state : List PulumiStateResource) (r : CloudInventoryResource)
    (rest : List CloudInventoryResource)
    → id_matched scope cloud state r.identity.physical_id ≡ false
    → cloud_targets scope cloud state (r ∷ rest)
      ≡ cloud_target scope r ∷ cloud_targets scope cloud state rest
unfolding cloud_targets
cloud_targets-cons_free scope cloud state r rest e = rw e refl

cloud_targets_complete :
    (scope : DiscoveryScope) (cloud rest : List CloudInventoryResource)
    (state : List PulumiStateResource) (r : CloudInventoryResource)
    → Member r rest
    → id_matched scope cloud state r.identity.physical_id ≡ false
    → Member (cloud_target scope r) (cloud_targets scope cloud state rest)
cloud_targets_complete scope cloud [] state r m e = elim m [ ]
cloud_targets_complete scope cloud (x ∷ rest) state r (inl here) e =
    rw
      (cloud_targets-cons_free scope cloud state x rest
        (ap (λ c. id_matched scope cloud state c.identity.physical_id) here ∙ e))
      (inl (ap (cloud_target scope) here))
cloud_targets_complete scope cloud (x ∷ rest) state r (inr later) e =
    let found = cloud_targets_complete scope cloud rest state r later e in
    elim (Bool-cases (id_matched scope cloud state x.identity.physical_id)) [
      | inl matched ↦ rw (cloud_targets-cons_matched scope cloud state x rest matched) found
      | inr free ↦ rw (cloud_targets-cons_free scope cloud state x rest free) (inr found)
    ]

scoped_cloud_complete :
    (scope : DiscoveryScope) (resources : List CloudInventoryResource) (r : CloudInventoryResource)
    → Member r resources
    → out_of_scope_reason r.identity scope ≡ none
    → Member r (scoped_cloud scope resources)
unfolding scoped_cloud
scoped_cloud_complete scope [] r m e = elim m [ ]
scoped_cloud_complete scope (x ∷ rest) r (inl here) e =
    rw (ap (λ c. out_of_scope_reason c.identity scope) here ∙ e) (inl here)
scoped_cloud_complete scope (x ∷ rest) r (inr later) e =
    let found = scoped_cloud_complete scope rest r later e in
    elim (Option-cases (out_of_scope_reason x.identity scope)) [
      | inl inside ↦ rw inside (inr found)
      | inr (reason, outside) ↦ rw outside found
    ]

diagnose_complete :
    (sha256 : Text → Text) (scope : DiscoveryScope) (resources : List CloudInventoryResource)
    (r : CloudInventoryResource) (reason : OutOfScopeReason)
    → Member r resources
    → out_of_scope_reason r.identity scope ≡ some reason
    → Member
        (record { resource_ref = stable_ref sha256 r.identity; reason = reason })
        (diagnose sha256 scope resources)
unfolding diagnose
diagnose_complete sha256 scope [] r reason m e = elim m [ ]
diagnose_complete sha256 scope (x ∷ rest) r reason (inl here) e =
    rw (ap (λ c. out_of_scope_reason c.identity scope) here ∙ e)
      (inl (ap (λ c. record { resource_ref = stable_ref sha256 c.identity; reason = reason }) here))
diagnose_complete sha256 scope (x ∷ rest) r reason (inr later) e =
    let found = diagnose_complete sha256 scope rest r reason later e in
    elim (Option-cases (out_of_scope_reason x.identity scope)) [
      | inl inside ↦ rw inside found
      | inr (reason, outside) ↦ rw outside (inr found)
    ]

module _ (sha256 : Text → Text) (locale_compare : Text → Text → ℤ) (scope : DiscoveryScope)
    (state : List PulumiStateResource) (resources : List CloudInventoryResource) where
  found_target :
      (t : ReconcileTarget)
      → Member t (
          state_targets scope (scoped_cloud scope resources) state
          ++ cloud_targets scope
              (scoped_cloud scope resources)
              state
              (scoped_cloud scope resources))
      → Member t (found sha256 locale_compare scope state resources).targets
  found_target t =
      Any-sort_by (target_le locale_compare) (λ x. x ≡ t)
        (state_targets scope (scoped_cloud scope resources) state
          ++ cloud_targets scope (scoped_cloud scope resources) state
              (scoped_cloud scope resources))

  found-state :
      (s : PulumiStateResource)
      → Member s state
      → IsStateReported scope
          (scoped_cloud scope resources)
          (found sha256 locale_compare scope state resources).targets
          s
  found-state s m = elim (Bool-cases (state_in_scope s scope)) [
    | inr outside ↦ inl outside
    | inl inside ↦
        let cloud = scoped_cloud scope resources in
        inr (
          found_target (state_target s (cloud_of s cloud)) (
            Any-append_left (λ x. x ≡ state_target s (cloud_of s cloud))
              (state_targets scope cloud state) (cloud_targets scope cloud state cloud)
              (state_targets_complete scope cloud state s m inside)))
  ]

  found-cloud :
      (r : CloudInventoryResource)
      → Member r resources
      → IsCloudReported sha256 scope state (found sha256 locale_compare scope state resources) r
  found-cloud r m = elim (Option-cases (out_of_scope_reason r.identity scope)) [
    | inr (reason, outside) ↦
        inl (reason, outside, diagnose_complete sha256 scope resources r reason m outside)
    | inl inside ↦
        let cloud = scoped_cloud scope resources in
        elim (Bool-cases (id_matched scope cloud state r.identity.physical_id)) [
          | inl matched ↦
              inr (inl (id_matched_sound scope cloud state r.identity.physical_id matched))
          | inr free ↦ inr (
              inr (
                found_target (cloud_target scope r) (
                  Any-append_right (λ x. x ≡ cloud_target scope r) (state_targets scope cloud state)
                    (cloud_targets scope cloud state cloud)
                    (cloud_targets_complete scope cloud cloud state r
                      (scoped_cloud_complete scope resources r m inside) free))))
        ]
  ]

-- A discovery that returns has the target of each resource of the state in the scope. It has a
-- diagnostic for each resource of the cloud out of the scope, and for each other one its own target
-- of the cloud only, or a resource of the state in the scope with its physical id: that another
-- resource of the state has the id does not keep it from being reported as the cloud's only.
pub discover_reconcile_targets_complete :
    (sha256 : Text → Text) (locale_compare : Text → Text → ℤ)
    (request : DiscoverReconcileTargetsRequest) (result : DiscoverReconcileTargetsResult)
    (s : PulumiStateResource) (r : CloudInventoryResource)
    → discover_reconcile_targets sha256 locale_compare request ≡ ok result
    → Member s (get_state_resources request.pulumi_state)
    → Member r request.cloud_resources
    → IsStateReported request.scope
        (scoped_cloud request.scope request.cloud_resources)
        result.targets
        s
      × IsCloudReported sha256 request.scope (get_state_resources request.pulumi_state) result r
discover_reconcile_targets_complete sha256 locale_compare request result s r h m n =
    let state = get_state_resources request.pulumi_state in
    let resources = request.cloud_resources in
    subst
      (λ res.
        IsStateReported request.scope (scoped_cloud request.scope resources) res.targets s
        × IsCloudReported sha256 request.scope state res r)
      (discover_reconcile_targets-eq-ok sha256 locale_compare request result h).1
      (
        found-state sha256 locale_compare request.scope state resources s m,
        found-cloud sha256 locale_compare request.scope state resources r n,
      )
