-- ===== src/Reconciler/Interleaved.antt =====
-- Calls of `execute` of packages/drift/src/reconciler.ts that interleave: each `await` of an executor
-- lets other calls run. The locks are shared by all reconcilers, which a number tells apart; each
-- has the actions that it stored.
pub mod Exclusion
mod Tests
use hulumi.Prelude.{
  ℕ, ◌==◌, false, true, Option, some, ◌&&◌, List, [], ◌∷◌, ◌++◌, Text, text_eq, text_contains,
  if◌then◌else◌, none, ◌≡◌,
}
use hulumi.Reconciler.Types.{ReconcileDecision, ReconcilePlanAction}
use hulumi.Reconciler.Plan.{is_read_only}
use hulumi.Reconciler.Execution.{
  ReconcilePlan, ReconcileExecuteOptions, Executors, ActionResult, run_action, remove_lock,
  plan_schema_version,
}

-- A call that holds its lock: the actions that are left and the results so far, the latest first.
pub record RunningExecution : Type 0 where
  pub lock_key : Text
  pub allow : List ReconcileDecision
  pub remaining : List ReconcilePlanAction
  pub results : List ActionResult

pub record SharedState : Type 0 where
  pub raw_actions_by_token : ℕ → Text → Option (List ReconcilePlanAction)
  pub active_execution_locks : List Text
  pub running : List RunningExecution

abbrev pub started :
    ReconcilePlan → ReconcileExecuteOptions → List ReconcilePlanAction → RunningExecution
started p options actions = record {
  lock_key = p.lock_key;
  allow = options.allow;
  remaining = actions;
  results = [];
}

-- The body of the loop for the next action.
abbrev pub advanced :
    Executors → RunningExecution → ReconcilePlanAction → List ReconcilePlanAction → RunningExecution
advanced executors e a rest = record {
  lock_key = e.lock_key;
  allow = e.allow;
  remaining = rest;
  results = run_action executors e.allow a ∷ e.results;
}

abbrev pub store_actions :
    ℕ
    → Text
    → List ReconcilePlanAction
    → (ℕ → Text → Option (List ReconcilePlanAction))
    → ℕ
    → Text
    → Option (List ReconcilePlanAction)
store_actions reconciler token actions stored r t =
    if (r == reconciler) && text_eq token t then some actions else stored r t

-- `plan` stores actions; a call passes its tests and takes its lock; a running call comes to its
-- next action, whose executor may be any other one each time; and one with no action left
-- releases its lock. A call that is refused or finds its lock taken changes nothing.
pub data ExecuteStep (s : SharedState) : SharedState → Type 0 where
  store :
      (reconciler : ℕ) (token : Text) (actions : List ReconcilePlanAction)
      → ExecuteStep s (record s {
        raw_actions_by_token = store_actions reconciler token actions s.raw_actions_by_token;
      })
  begin_execution :
      (reconciler : ℕ) (p : ReconcilePlan) (options : ReconcileExecuteOptions)
      (actions : List ReconcilePlanAction)
      → p.schema_version ≡ plan_schema_version
      → is_read_only p.mode ≡ false
      → options.confirm_token ≡ p.confirm_token
      → s.raw_actions_by_token reconciler p.confirm_token ≡ some actions
      → text_contains s.active_execution_locks p.lock_key ≡ false
      → ExecuteStep s (record s {
        active_execution_locks = p.lock_key ∷ s.active_execution_locks;
        running = started p options actions ∷ s.running;
      })
  act :
      (executors : Executors) (before after : List RunningExecution) (e : RunningExecution)
      (a : ReconcilePlanAction) (rest : List ReconcilePlanAction)
      → s.running ≡ before ++ (e ∷ after)
      → e.remaining ≡ a ∷ rest
      → ExecuteStep s (record s { running = before ++ (advanced executors e a rest ∷ after) })
  end_execution :
      (before after : List RunningExecution) (e : RunningExecution)
      → s.running ≡ before ++ (e ∷ after)
      → e.remaining ≡ []
      → ExecuteStep s (record s {
        active_execution_locks = remove_lock e.lock_key s.active_execution_locks;
        running = before ++ after;
      })

abbrev pub idle : SharedState
idle = record { raw_actions_by_token = λ r t. none; active_execution_locks = []; running = [] }

pub data Reachable : SharedState → Type 0 where
  at_start : Reachable idle
  later : {s t : SharedState} → Reachable s → ExecuteStep s t → Reachable t
