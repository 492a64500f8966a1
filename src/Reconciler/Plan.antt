-- ===== src/Reconciler/Plan.antt =====
-- `OrphanReconciler.plan` of packages/drift/src/reconciler.ts, down to the actions of the plan. The
-- comparison of `compareActions`, which is that of the locale, is an argument.
use hulumi.Prelude.{
  ℕ, suc, Bool, true, false, not, ◌&&◌, Option, List, [], ◌∷◌, ◌++◌, Text, get_or_else, ltb, length,
  all, map, if◌then◌else◌,
}
use hulumi.Reconciler.Types.{
  ReconcileMode, check_only, plan, ReconcileDecision, no_op, refresh_state, import_to_state,
  state_delete, delete_cloud_resource, retain_external, ReconcileActionType, risk_blocked,
  ReconcileTarget, ReconcileScope, over_max_actions, ReconcilePlanAction,
}
use hulumi.Reconciler.Target.{classify_target}

abbrev pub default_max_actions : ℕ
default_max_actions = 50

abbrev pub is_read_only : ReconcileMode → Bool
is_read_only check_only = true
is_read_only plan = true
is_read_only _ = false

abbrev is_no_action : List ReconcilePlanAction → Bool
is_no_action [] = true
is_no_action (a ∷ actions) = false

-- The plan as a whole can be executed.
unfoldable pub plan_executable : ReconcileMode → List ReconcilePlanAction → Bool
plan_executable mode actions =
    not (is_read_only mode) && not (is_no_action actions) && all (λ a. a.executable) actions

abbrev pub cap_action : ℕ → ReconcilePlanAction → ReconcilePlanAction
cap_action max_actions a = record a {
  executable = false;
  risk = risk_blocked;
  blocked_actions =
      a.blocked_actions
      ++ record { action = a.recommended_action; reason = over_max_actions max_actions } ∷ [];
}

unfoldable pub cap_actions : ℕ → List ReconcilePlanAction → List ReconcilePlanAction
cap_actions max_actions actions =
    if ltb max_actions (length actions) then map (cap_action max_actions) actions else actions

pub record Summary : Type 0 where
  pub cleaned_up : ℕ
  pub state_reconciled : ℕ
  pub adopted : ℕ
  pub retained : ℕ
  pub blocked_count : ℕ

abbrev pub count_decision : ReconcileDecision → Summary → Summary
count_decision delete_cloud_resource s = record s { cleaned_up = suc s.cleaned_up }
count_decision state_delete s = record s { state_reconciled = suc s.state_reconciled }
count_decision refresh_state s = record s { state_reconciled = suc s.state_reconciled }
count_decision import_to_state s = record s { adopted = suc s.adopted }
count_decision retain_external s = record s { retained = suc s.retained }
count_decision no_op s = record s { retained = suc s.retained }
count_decision _ s = record s { blocked_count = suc s.blocked_count }

unfoldable pub count_actions : Summary → List ReconcilePlanAction → Summary
count_actions s [] = s
count_actions s (a ∷ actions) = count_actions (count_decision a.recommended_action s) actions

abbrev pub empty_summary : Summary
empty_summary = record {
  cleaned_up = 0;
  state_reconciled = 0;
  adopted = 0;
  retained = 0;
  blocked_count = 0;
}

abbrev pub summarize : List ReconcilePlanAction → Summary
summarize actions = count_actions empty_summary actions

-- Whether `compareActions` puts an action before another, or beside it.
abbrev pub Compare : Type 0
Compare = ReconcilePlanAction → ReconcilePlanAction → Bool

unfoldable pub insert_action :
    Compare → ReconcilePlanAction → List ReconcilePlanAction → List ReconcilePlanAction
insert_action le a [] = a ∷ []
insert_action le a (b ∷ bs) =
    let later = b ∷ insert_action le a bs in if le a b then a ∷ b ∷ bs else later

-- `actions.sort(compareActions)`, which is stable.
unfoldable pub sort_actions : Compare → List ReconcilePlanAction → List ReconcilePlanAction
unfolding insert_action
sort_actions le [] = []
sort_actions le (a ∷ actions) = insert_action le a (sort_actions le actions)

module _ (date_parse : Text → Option ℕ) (scope : ReconcileScope) (mode : ReconcileMode) (now : ℕ)
    (has_executor : ReconcileActionType → Bool) where
  unfoldable pub classify_targets : ℕ → List ReconcileTarget → List ReconcilePlanAction
  unfolding classify_target
  classify_targets index [] = []
  classify_targets index (t ∷ targets) =
      classify_target date_parse t scope mode now index has_executor
      ∷ classify_targets (suc index) targets

  -- The actions that `plan` stores under the confirmation token.
  unfoldable pub plan_actions : Compare → List ReconcileTarget → List ReconcilePlanAction
  unfolding classify_targets sort_actions cap_actions
  plan_actions le targets =
      cap_actions (get_or_else scope.max_actions default_max_actions)
        (sort_actions le (classify_targets 0 targets))
