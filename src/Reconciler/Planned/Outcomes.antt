-- ===== src/Reconciler/Planned/Outcomes.antt =====
-- The plan against its targets, and its summary against its actions
-- (packages/drift/src/reconciler.ts).
use mathlib.Core.List.{Perm}
use mathlib.Core.List.Perm
use hulumi.Prelude.{
  ℕ, suc, ◌+◌, ◌≤◌, Bool, true, false, Option, List, [], ◌∷◌, Text, get_or_else, ltb, length, map,
  All, Bool-cases, if◌then◌else◌, ◌≡◌, ◌⊎◌, inl, inr, refl, ap, sym, subst, ◌∙◌, arith,
}
use hulumi.Reconciler.Types.{
  ReconcileMode, ReconcileDecision, no_op, refresh_state, import_to_state, state_delete,
  delete_cloud_resource, retain_external, codify_production, revert_production,
  ignore_with_justification, blocked, ReconcileActionType, ResourceIdentity, ReconcileTarget,
  ReconcileScope, ReconcilePlanAction,
}
use hulumi.Reconciler.Target.{classify_target}
use hulumi.Reconciler.Plan.{
  default_max_actions, cap_action, cap_actions, Summary, count_decision, count_actions, summarize,
  empty_summary, Compare, insert_action, sort_actions, classify_targets, plan_actions,
}

-- What a plan says of one target: its place in the request, its resource and the decision.
abbrev pub Outcome : Type 0
Outcome = ℕ × ResourceIdentity × ReconcileDecision

abbrev pub outcome : ReconcilePlanAction → Outcome
outcome a = (a.index, a.resource, a.recommended_action)

module _ (date_parse : Text → Option ℕ) (scope : ReconcileScope) (mode : ReconcileMode) (now : ℕ)
    (has_executor : ReconcileActionType → Bool) where
  -- The outcomes of the targets from a place on.
  abbrev pub outcomes : ℕ → List ReconcileTarget → List Outcome
  outcomes place [] = []
  outcomes place (t ∷ targets) =
      (
        place,
        t.identity,
        (classify_target date_parse t scope mode now place has_executor).recommended_action,
      )
      ∷ outcomes (suc place) targets

  classify_targets-outcomes :
      (place : ℕ) (targets : List ReconcileTarget)
      → map outcome (classify_targets date_parse scope mode now has_executor place targets)
        ≡ outcomes place targets
  unfolding classify_targets classify_target
  classify_targets-outcomes place [] = refl
  classify_targets-outcomes place (t ∷ targets) =
      ap (λ os. outcome (classify_target date_parse t scope mode now place has_executor) ∷ os)
        (classify_targets-outcomes (suc place) targets)

insert_action-Perm :
    (le : Compare) (a : ReconcilePlanAction) (actions : List ReconcilePlanAction)
    → Perm (map outcome (insert_action le a actions)) (outcome a ∷ map outcome actions)
unfolding insert_action
insert_action-Perm le a [] = Perm.refl _
insert_action-Perm le a (b ∷ bs) = elim (Bool-cases (le a b)) [
  | inl before ↦ rw before (Perm.refl _)
  | inr after ↦ rw after (
      Perm.trans (Perm.cons (outcome b) (insert_action-Perm le a bs))
        (Perm.swap (outcome a) (outcome b) (map outcome bs)))
]

sort_actions-Perm :
    (le : Compare) (actions : List ReconcilePlanAction)
    → Perm (map outcome (sort_actions le actions)) (map outcome actions)
unfolding sort_actions
sort_actions-Perm le [] = Perm.refl _
sort_actions-Perm le (a ∷ actions) =
    Perm.trans (insert_action-Perm le a (sort_actions le actions))
      (Perm.cons (outcome a) (sort_actions-Perm le actions))

map-cap_action :
    (n : ℕ) (actions : List ReconcilePlanAction)
    → map outcome (map (cap_action n) actions) ≡ map outcome actions
map-cap_action n [] = refl
map-cap_action n (a ∷ actions) = ap (λ os. outcome a ∷ os) (map-cap_action n actions)

cap_actions-outcomes :
    (n : ℕ) (actions : List ReconcilePlanAction)
    → map outcome (cap_actions n actions) ≡ map outcome actions
unfolding cap_actions
cap_actions-outcomes n actions = elim (Bool-cases (ltb n (length actions))) [
  | inl over ↦ rw over (map-cap_action n actions)
  | inr fits ↦ rw fits refl
]

-- How many actions have a decision.
abbrev pub deciding : (ReconcileDecision → Bool) → List ReconcilePlanAction → ℕ
deciding test [] = 0
deciding test (a ∷ actions) =
    let rest = deciding test actions in if test a.recommended_action then suc rest else rest

abbrev pub is_deletion : ReconcileDecision → Bool
is_deletion delete_cloud_resource = true
is_deletion _ = false

-- The state is changed to what the cloud has.
abbrev pub is_state_change : ReconcileDecision → Bool
is_state_change state_delete = true
is_state_change refresh_state = true
is_state_change _ = false

abbrev pub is_adoption : ReconcileDecision → Bool
is_adoption import_to_state = true
is_adoption _ = false

-- The resource stays as it is.
abbrev pub is_retention : ReconcileDecision → Bool
is_retention retain_external = true
is_retention no_op = true
is_retention _ = false

-- What is left to a human.
abbrev pub is_left : ReconcileDecision → Bool
is_left codify_production = true
is_left revert_production = true
is_left ignore_with_justification = true
is_left blocked = true
is_left _ = false

-- Each number of a summary counts the decisions of its kind, on top of those of another summary.
abbrev pub Counts : Summary → List ReconcilePlanAction → Summary → Type 0
Counts s actions total =
    (total.cleaned_up ≡ s.cleaned_up + deciding is_deletion actions)
    × (total.state_reconciled ≡ s.state_reconciled + deciding is_state_change actions)
    × (total.adopted ≡ s.adopted + deciding is_adoption actions)
    × (total.retained ≡ s.retained + deciding is_retention actions)
    × (total.blocked_count ≡ s.blocked_count + deciding is_left actions)

module _ (d : ReconcileDecision) (s : Summary) where
  -- One decision raises one number.
  raises :
      ((count_decision d s).cleaned_up ≡ s.cleaned_up + (if is_deletion d then 1 else 0))
      × ((count_decision d s).state_reconciled
          ≡ s.state_reconciled + (if is_state_change d then 1 else 0))
      × ((count_decision d s).adopted ≡ s.adopted + (if is_adoption d then 1 else 0))
      × ((count_decision d s).retained ≡ s.retained + (if is_retention d then 1 else 0))
      × ((count_decision d s).blocked_count ≡ s.blocked_count + (if is_left d then 1 else 0))
  raises = ground arith

deciding-cons :
    (test : ReconcileDecision → Bool) (a : ReconcilePlanAction) (actions : List ReconcilePlanAction)
    → deciding test (a ∷ actions)
      ≡ (if test a.recommended_action then 1 else 0) + deciding test actions
deciding-cons test a actions = ground arith

count_actions-Counts :
    (s : Summary) (actions : List ReconcilePlanAction) → Counts s actions (count_actions s actions)
unfolding count_actions
count_actions-Counts s [] = (omega arith, omega arith, omega arith, omega arith, omega arith)
count_actions-Counts s (a ∷ actions) =
    let (c1, c2, c3, c4, c5) =
      count_actions-Counts (count_decision a.recommended_action s) actions in
    let (r1, r2, r3, r4, r5) = raises a.recommended_action s in
    (
      omega (arith, c1, r1, deciding-cons is_deletion a actions),
      omega (arith, c2, r2, deciding-cons is_state_change a actions),
      omega (arith, c3, r3, deciding-cons is_adoption a actions),
      omega (arith, c4, r4, deciding-cons is_retention a actions),
      omega (arith, c5, r5, deciding-cons is_left a actions),
    )

insert_action-length :
    (le : Compare) (a : ReconcilePlanAction) (actions : List ReconcilePlanAction)
    → length (insert_action le a actions) ≡ suc (length actions)
unfolding insert_action
insert_action-length le a [] = refl
insert_action-length le a (b ∷ bs) = elim (Bool-cases (le a b)) [
  | inl before ↦ rw before refl
  | inr after ↦ rw after (ap (λ (n : ℕ). suc n) (insert_action-length le a bs))
]

sort_actions-length :
    (le : Compare) (actions : List ReconcilePlanAction)
    → length (sort_actions le actions) ≡ length actions
unfolding sort_actions
sort_actions-length le [] = refl
sort_actions-length le (a ∷ actions) =
    omega
      (arith, insert_action-length le a (sort_actions le actions), sort_actions-length le actions)

-- No more actions than the limit, or none that can be executed.
cap_actions-IsCapped :
    (n : ℕ) (actions : List ReconcilePlanAction)
    → (length actions ≤ n) ⊎ All (λ a. a.executable ≡ false) (cap_actions n actions)
unfolding cap_actions
cap_actions-IsCapped n actions = elim (Bool-cases (ltb n (length actions))) [
  | inl over ↦ inr (rw over (capped actions))
  | inr fits ↦ inl (ground arith)
]
  where
    capped :
        (others : List ReconcilePlanAction)
        → All (λ a. a.executable ≡ false) (map (cap_action n) others)
    capped [] = tt
    capped (a ∷ others) = (refl, capped others)

module _ (date_parse : Text → Option ℕ) (scope : ReconcileScope) (mode : ReconcileMode) (now : ℕ)
    (has_executor : ReconcileActionType → Bool) where
  classify_targets-length :
      (index : ℕ) (targets : List ReconcileTarget)
      → length (classify_targets date_parse scope mode now has_executor index targets)
        ≡ length targets
  unfolding classify_targets
  classify_targets-length index [] = refl
  classify_targets-length index (t ∷ targets) =
      ap (λ (n : ℕ). suc n) (classify_targets-length (suc index) targets)

-- The outcomes of a plan are, in some order, those of its targets, one for each: its place, its
-- resource and the decision on it. The summary counts the actions of each kind of decision. Where
-- there are more targets than the limit, no action can be executed.
pub plan_actions_complete :
    (date_parse : Text → Option ℕ) (scope : ReconcileScope) (mode : ReconcileMode) (now : ℕ)
    (has_executor : ReconcileActionType → Bool) (le : Compare) (targets : List ReconcileTarget)
    → let actions = plan_actions date_parse scope mode now has_executor le targets in
      Perm (map outcome actions) (outcomes date_parse scope mode now has_executor 0 targets)
      × ((summarize actions).cleaned_up ≡ deciding is_deletion actions)
      × ((summarize actions).state_reconciled ≡ deciding is_state_change actions)
      × ((summarize actions).adopted ≡ deciding is_adoption actions)
      × ((summarize actions).retained ≡ deciding is_retention actions)
      × ((summarize actions).blocked_count ≡ deciding is_left actions)
      × ((length targets ≤ get_or_else scope.max_actions default_max_actions)
          ⊎ All (λ a. a.executable ≡ false) actions)
unfolding plan_actions
plan_actions_complete date_parse scope mode now has_executor le targets =
    let classified = classify_targets date_parse scope mode now has_executor 0 targets in
    let sorted = sort_actions le classified in
    let limit = get_or_else scope.max_actions default_max_actions in
    let (c1, c2, c3, c4, c5) = count_actions-Counts empty_summary (cap_actions limit sorted) in
    let size =
      sort_actions-length le classified
      ∙ classify_targets-length date_parse scope mode now has_executor 0 targets in
    (
      subst (λ os. Perm os (outcomes date_parse scope mode now has_executor 0 targets))
          (sym (cap_actions-outcomes limit sorted))
          (subst (Perm (map outcome sorted))
            (classify_targets-outcomes date_parse scope mode now has_executor 0 targets)
            (sort_actions-Perm le classified)),
      omega (arith, c1),
      omega (arith, c2),
      omega (arith, c3),
      omega (arith, c4),
      omega (arith, c5),
      subst (λ n. (n ≤ limit) ⊎ All (λ a. a.executable ≡ false) (cap_actions limit sorted)) size
          (cap_actions-IsCapped limit sorted),
    )
