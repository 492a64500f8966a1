-- ===== src/Reconciler/Guards.antt =====
-- What holds of a target whose action can be executed (packages/drift/src/reconciler.ts).
use hulumi.Prelude.{
  ℕ, ◌≤◌, Bool, true, false, Option, none, some, List, [], ◌∷◌, Text, ◌≡◌, ◌≢◌, ◌⊎◌, inr, refl,
  arith,
}
use hulumi.Reconciler.Types.{
  ReconcileMode, ReconcileDecision, delete_cloud_resource, ReconcileActionType, ReconcileTarget,
  ReconcileScope, ReconcileBlockedAction, ReconcilePlanAction,
}
use hulumi.Reconciler.Matching.{
  requires_registered_executor, mode_allows, matches_prefix, matches_one, matches_age, signal_count,
  is_singleton, cloud_only,
}
use hulumi.Reconciler.Target.{
  guards, min_signals, Choice, preferred_state_decision, choose_both, choose_unblocked, choose,
  is_unblocked, action_of, classify_target,
}

-- The scope names the resource: by the prefix, the regions, the accounts and the age. A resource
-- that is only in the cloud needs a prefix and enough kinds of evidence, and a shared singleton needs
-- the scope's leave.
pub record IsInScope (date_parse : Text → Option ℕ) (target : ReconcileTarget)
    (scope : ReconcileScope) (now : ℕ) : Type 0 where
  pub prefix_matches : matches_prefix target.identity scope.resource_prefix ≡ true
  pub region_matches : matches_one target.identity.region scope.regions ≡ true
  pub account_matches : matches_one target.identity.account_id scope.account_ids ≡ true
  pub old_enough :
      matches_age date_parse target.identity.created_at scope.min_age_minutes now ≡ true
  pub prefix_given : cloud_only target ≡ true → scope.resource_prefix ≢ none
  pub owned : cloud_only target ≡ true → min_signals scope ≤ signal_count target.ownership
  pub singleton_allowed : is_singleton target.identity ≡ true → scope.allow_singleton_delete ≡ true

guards-IsInScope :
    (date_parse : Text → Option ℕ) (target : ReconcileTarget) (scope : ReconcileScope) (now : ℕ)
    → guards date_parse target scope now ≡ []
    → IsInScope date_parse target scope now
unfolding guards
guards-IsInScope date_parse target scope now h = record {
  prefix_matches = ground arith;
  region_matches = ground arith;
  account_matches = ground arith;
  old_enough = ground arith;
  prefix_given = λ c e. ground arith;
  owned = λ c. ground arith;
  singleton_allowed = λ c. ground arith;
}

is_unblocked-eq-nil : (bs : List ReconcileBlockedAction) → is_unblocked bs ≡ true → bs ≡ []
is_unblocked-eq-nil [] h = refl
is_unblocked-eq-nil (b ∷ bs) h = cc

-- The mode allows what the choice does, and an executor is there where the type needs one.
abbrev pub IsAllowed : (ReconcileActionType → Bool) → ReconcileMode → ReconcilePlanAction → Type 0
IsAllowed has_executor mode a =
    (mode_allows mode a.recommended_action ≡ true)
    × ((a.state_mutation ≡ true) ⊎ (a.cloud_mutation ≡ true))
    × (requires_registered_executor a.type ≡ true → has_executor a.type ≡ true)

action_of-IsAllowed :
    (has_executor : ReconcileActionType → Bool) (target : ReconcileTarget) (mode : ReconcileMode)
    (index : ℕ) (bs : List ReconcileBlockedAction) (c : Choice)
    → (action_of has_executor target mode index bs c).executable ≡ true
    → (bs ≡ []) × IsAllowed has_executor mode (action_of has_executor target mode index bs c)
unfolding action_of
action_of-IsAllowed has_executor target mode index bs c h =
    (is_unblocked-eq-nil bs (ground arith), (ground arith, ground arith, λ r. ground arith))

-- An action that can be executed is one on a resource that the scope names and that all guards let
-- through, the mode allows its decision, it changes the state or the cloud, and an executor is
-- registered where its type needs one.
pub classify_target-guarded :
    (date_parse : Text → Option ℕ) (target : ReconcileTarget) (scope : ReconcileScope)
    (mode : ReconcileMode) (now index : ℕ) (has_executor : ReconcileActionType → Bool)
    → (classify_target date_parse target scope mode now index has_executor).executable ≡ true
    → IsInScope date_parse target scope now
      × IsAllowed has_executor mode
          (classify_target date_parse target scope mode now index has_executor)
unfolding classify_target
classify_target-guarded date_parse target scope mode now index has_executor h =
    let (free, allowed) =
      action_of-IsAllowed has_executor target mode index (guards date_parse target scope now)
        (choose target (guards date_parse target scope now)) h in
    (guards-IsInScope date_parse target scope now free, allowed)

-- Where a choice deletes in the cloud.
preferred-ne-delete :
    (target : ReconcileTarget) → preferred_state_decision target ≢ some delete_cloud_resource
unfolding preferred_state_decision
preferred-ne-delete target e = ground arith

choose_both-delete :
    (d : Option ReconcileDecision)
    → (choose_both d).recommended_action ≡ delete_cloud_resource
    → d ≡ some delete_cloud_resource
choose_both-delete none e = cc
choose_both-delete (some d) e = ground arith

choose_unblocked-delete :
    (target : ReconcileTarget)
    → ((choose_unblocked target).recommended_action ≡ delete_cloud_resource)
      ⊎ ((choose_unblocked target).cloud_mutation ≡ true)
    → cloud_only target ≡ true
choose_unblocked-delete target e =
    ground (arith, preferred-ne-delete target, choose_both-delete (preferred_state_decision target))

action_of-cloud_mutation :
    (has_executor : ReconcileActionType → Bool) (target : ReconcileTarget) (mode : ReconcileMode)
    (index : ℕ) (bs : List ReconcileBlockedAction) (c : Choice)
    → (action_of has_executor target mode index bs c).cloud_mutation ≡ c.cloud_mutation
unfolding action_of
action_of-cloud_mutation has_executor target mode index bs c = refl

choose_free-delete :
    (target : ReconcileTarget) (bs : List ReconcileBlockedAction)
    → bs ≡ []
    → (choose target bs).cloud_mutation ≡ true
    → cloud_only target ≡ true
unfolding choose
choose_free-delete target bs free e = choose_unblocked-delete target (inr (rw free at e))

-- An action that can be executed and changes the cloud is on a resource that exists in the cloud and
-- not in the state, under a prefix of the scope that it matches, with at least as many kinds of
-- ownership evidence as the scope asks for, two if it does not say.
pub classify_target-deletes :
    (date_parse : Text → Option ℕ) (target : ReconcileTarget) (scope : ReconcileScope)
    (mode : ReconcileMode) (now index : ℕ) (has_executor : ReconcileActionType → Bool)
    → (classify_target date_parse target scope mode now index has_executor).executable ≡ true
    → (classify_target date_parse target scope mode now index has_executor).cloud_mutation ≡ true
    → (target.in_state ≡ false)
      × (target.exists_in_cloud ≡ true)
      × (scope.resource_prefix ≢ none)
      × (matches_prefix target.identity scope.resource_prefix ≡ true)
      × (min_signals scope ≤ signal_count target.ownership)
unfolding classify_target
classify_target-deletes date_parse target scope mode now index has_executor h m =
    let bs = guards date_parse target scope now in
    let (free, allowed) =
      action_of-IsAllowed has_executor target mode index bs (choose target bs) h in
    let inside = guards-IsInScope date_parse target scope now free in
    let only =
      choose_free-delete target bs free
        (rw (action_of-cloud_mutation has_executor target mode index bs (choose target bs)) at m) in
    (ground arith, ground arith, inside.prefix_given only, inside.prefix_matches, inside.owned only)
