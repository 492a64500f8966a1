-- ===== src/Reconciler/Planned.antt =====
-- The actions of a plan are those of its targets, each of them guarded
-- (packages/drift/src/reconciler.ts).
pub mod Outcomes
use hulumi.Prelude.{
  ℕ, suc, ◌+◌, Bool, true, false, Option, List, [], ◌∷◌, Text, get_or_else, ltb, length, map, All,
  Bool-cases, ◌≡◌, inl, inr, refl, ap, ◌∙◌, arith,
}
use hulumi.Reconciler.Types.{
  ReconcileMode, ReconcileDecision, ReconcileActionType, ReconcileTarget, ReconcileScope,
  ReconcilePlanAction,
}
use hulumi.Reconciler.Target.{classify_target}
use hulumi.Reconciler.Guards.{IsInScope, IsAllowed, classify_target-guarded}
use hulumi.Reconciler.Plan.{
  default_max_actions, cap_action, cap_actions, Summary, count_decision, count_actions, summarize,
  Compare, insert_action, sort_actions, classify_targets, plan_actions,
}

module _ (date_parse : Text → Option ℕ) (scope : ReconcileScope) (mode : ReconcileMode) (now : ℕ)
    (has_executor : ReconcileActionType → Bool) where
  -- If the action can be executed then it is that of a target that every guard lets through.
  abbrev pub IsGuarded : ReconcilePlanAction → Type 0
  IsGuarded a =
      a.executable ≡ true
      → (target : ReconcileTarget) × (index : ℕ) × (a
          ≡ classify_target date_parse target scope mode now index has_executor)
        × IsInScope date_parse target scope now
        × IsAllowed has_executor mode a

  classify_targets-IsGuarded :
      (index : ℕ) (targets : List ReconcileTarget)
      → All IsGuarded (classify_targets date_parse scope mode now has_executor index targets)
  unfolding classify_targets
  classify_targets-IsGuarded index [] = tt
  classify_targets-IsGuarded index (t ∷ targets) = (
    λ e.
        let (inside, allowed) =
          classify_target-guarded date_parse t scope mode now index has_executor e in
        (t, index, refl, inside, allowed),
    classify_targets-IsGuarded (suc index) targets,
  )

module _ (P : ReconcilePlanAction → Type 0) where
  All-insert_action :
      (le : Compare) (a : ReconcilePlanAction) (actions : List ReconcilePlanAction)
      → P a
      → All P actions
      → All P (insert_action le a actions)
  unfolding insert_action
  All-insert_action le a [] p ps = (p, tt)
  All-insert_action le a (b ∷ bs) p (q, qs) = elim (Bool-cases (le a b)) [
    | inl before ↦ rw before (p, (q, qs))
    | inr after ↦ rw after (q, All-insert_action le a bs p qs)
  ]

  All-sort_actions :
      (le : Compare) (actions : List ReconcilePlanAction)
      → All P actions
      → All P (sort_actions le actions)
  unfolding sort_actions
  All-sort_actions le [] ps = tt
  All-sort_actions le (a ∷ actions) (p, ps) =
      All-insert_action le a (sort_actions le actions) p (All-sort_actions le actions ps)

  All-cap :
      (max_actions : ℕ) (actions : List ReconcilePlanAction)
      → ((a : ReconcilePlanAction) → a.executable ≡ false → P a)
      → All P (map (cap_action max_actions) actions)
  All-cap max_actions [] h = tt
  All-cap max_actions (a ∷ actions) h =
      (h (cap_action max_actions a) refl, All-cap max_actions actions h)

  All-cap_actions :
      (max_actions : ℕ) (actions : List ReconcilePlanAction)
      → ((a : ReconcilePlanAction) → a.executable ≡ false → P a)
      → All P actions
      → All P (cap_actions max_actions actions)
  unfolding cap_actions
  All-cap_actions max_actions actions h ps = elim (Bool-cases (ltb max_actions (length actions))) [
    | inl over ↦ rw over (All-cap max_actions actions h)
    | inr fits ↦ rw fits ps
  ]

pub plan_actions-IsGuarded :
    (date_parse : Text → Option ℕ) (scope : ReconcileScope) (mode : ReconcileMode) (now : ℕ)
    (has_executor : ReconcileActionType → Bool) (le : Compare) (targets : List ReconcileTarget)
    → All
        (IsGuarded date_parse scope mode now has_executor)
        (plan_actions date_parse scope mode now has_executor le targets)
unfolding plan_actions
plan_actions-IsGuarded date_parse scope mode now has_executor le targets =
    let P = IsGuarded date_parse scope mode now has_executor in
    let sorted =
      sort_actions le (classify_targets date_parse scope mode now has_executor 0 targets) in
    All-cap_actions P (get_or_else scope.max_actions default_max_actions) sorted
      (λ a no yes. absurd (cc))
      (All-sort_actions P le _
        (classify_targets-IsGuarded date_parse scope mode now has_executor 0 targets))
