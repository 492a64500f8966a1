-- ===== src/Reconciler/Execution.antt =====
-- `OrphanReconciler.execute` of packages/drift/src/reconciler.ts, as one call that no other call
-- interrupts: the actions stored by `plan` under each token and the keys of the locks are the
-- state, and what an executor comes to is an argument. The digest of `executionLockKey` is a field
-- of the plan.
use hulumi.Prelude.{
  Bool, true, not, Option, none, some, List, [], ◌∷◌, Text, text_eq, text_contains, any,
  if◌then◌else◌, lit,
}
use hulumi.Prelude.Result.{Result, ok, err}
use hulumi.Reconciler.Types.{
  ReconcileMode, ReconcileDecision, ReconcileActionType, ReconcilePlanAction,
}
use hulumi.Reconciler.Target.{same_decision}
use hulumi.Reconciler.Plan.{is_read_only}

abbrev pub plan_schema_version : Text
plan_schema_version = lit "hulumi.drift.reconcile.plan.v1"

pub record ReconcilePlan : Type 0 where
  pub schema_version : Text
  pub mode : ReconcileMode
  pub confirm_token : Text
  pub lock_key : Text

pub record ReconcileExecuteOptions : Type 0 where
  pub confirm_token : Text
  pub allow : List ReconcileDecision

-- How an executor ends: with its own result, or with an error of a name.
pub data ExecutorOutcome : Type 0 where
  returned : (message : Text) → ExecutorOutcome
  threw : (name : Text) → ExecutorOutcome

abbrev pub Executors : Type 0
Executors = ReconcileActionType → Option (ReconcilePlanAction → ExecutorOutcome)

pub data ActionResult : Type 0 where
  not_executable not_in_allow_list no_executor : ReconcilePlanAction → ActionResult
  -- The executor of the action was run.
  executed : ReconcilePlanAction → ExecutorOutcome → ActionResult

abbrev pub action_of_result : ActionResult → ReconcilePlanAction
action_of_result (not_executable a) = a
action_of_result (not_in_allow_list a) = a
action_of_result (no_executor a) = a
action_of_result (executed a o) = a

abbrev pub allows : List ReconcileDecision → ReconcileDecision → Bool
allows [] d = true
allows (x ∷ xs) d = any (λ e. same_decision e d) (x ∷ xs)

abbrev run_executor :
    ReconcilePlanAction → Option (ReconcilePlanAction → ExecutorOutcome) → ActionResult
run_executor a none = no_executor a
run_executor a (some executor) = executed a (executor a)

-- The body of the loop over the actions.
unfoldable pub run_action : Executors → List ReconcileDecision → ReconcilePlanAction → ActionResult
run_action executors allow a =
    if not a.executable
    then not_executable a
    else if not (allows allow a.recommended_action)
    then not_in_allow_list a
    else run_executor a (executors a.type)

unfoldable pub run_actions :
    Executors → List ReconcileDecision → List ReconcilePlanAction → List ActionResult
unfolding run_action
run_actions executors allow [] = []
run_actions executors allow (a ∷ actions) =
    run_action executors allow a ∷ run_actions executors allow actions

pub data ExecuteError : Type 0 where
  unsupported_schema read_only_mode token_mismatch unknown_token : ExecuteError

pub data ReconcileResult : Type 0 where
  locked : ReconcileResult
  finished : List ActionResult → ReconcileResult

pub record ExecuteState : Type 0 where
  pub raw_actions_by_token : Text → Option (List ReconcilePlanAction)
  pub active_execution_locks : List Text

-- A `delete` from a set.
unfoldable pub remove_lock : Text → List Text → List Text
unfolding text_eq
remove_lock key [] = []
remove_lock key (k ∷ locks) =
    let rest = remove_lock key locks in if text_eq k key then rest else k ∷ rest

abbrev run_stored :
    Executors
    → ReconcilePlan
    → ReconcileExecuteOptions
    → ExecuteState
    → Option (List ReconcilePlanAction)
    → Result ExecuteError ReconcileResult × ExecuteState
run_stored executors p options s none = (err unknown_token, s)
run_stored executors p options s (some actions) =
    if text_contains s.active_execution_locks p.lock_key then (ok locked, s) else (
      ok (finished (run_actions executors options.allow actions)),
      record s {
        active_execution_locks = remove_lock p.lock_key (p.lock_key ∷ s.active_execution_locks);
      },
    )

unfoldable pub execute :
    Executors
    → ReconcilePlan
    → ReconcileExecuteOptions
    → ExecuteState
    → Result ExecuteError ReconcileResult × ExecuteState
unfolding text_eq text_contains remove_lock run_actions
execute executors p options s =
    if not (text_eq p.schema_version plan_schema_version)
    then (err unsupported_schema, s)
    else if is_read_only p.mode
    then (err read_only_mode, s)
    else if not (text_eq options.confirm_token p.confirm_token)
    then (err token_mismatch, s)
    else run_stored executors p options s (s.raw_actions_by_token p.confirm_token)

-- `plan` stores the actions under the token that it gives out.
unfoldable pub store_plan : Text → List ReconcilePlanAction → ExecuteState → ExecuteState
unfolding text_eq
store_plan token actions s = record s {
  raw_actions_by_token = λ t. if text_eq token t then some actions else s.raw_actions_by_token t;
}
