-- ===== src/Reconciler/Interleaved/Tests.antt =====
-- A call of `execute` that runs while a plan is stored, and the theorem at its state.
use hulumi.Prelude.{text_eq, text_contains, none, [], ◌∷◌, lit, refl}
use hulumi.Reconciler.Types.{sweep_only, delete_cloud_resource}
use hulumi.Reconciler.Execution.{ReconcilePlan, ReconcileExecuteOptions, plan_schema_version}
use hulumi.Reconciler.Interleaved.{
  SharedState, started, store_actions, store, begin_execution, Reachable, at_start, later,
}
use hulumi.Reconciler.Interleaved.Exclusion.{IsExclusive, reachable-IsExclusive}

abbrev sweep : ReconcilePlan
sweep = record {
  schema_version = plan_schema_version;
  mode = sweep_only;
  confirm_token = lit "c0ffee";
  lock_key = lit "k";
}

abbrev confirmed : ReconcileExecuteOptions
confirmed = record { confirm_token = lit "c0ffee"; allow = delete_cloud_resource ∷ [] }

abbrev busy : SharedState
busy = record {
  raw_actions_by_token = store_actions 0 (lit "c0ffee") [] (λ r t. none);
  active_execution_locks = lit "k" ∷ [];
  running = started sweep confirmed [] ∷ [];
}

busy_reachable : Reachable busy
unfolding text_eq text_contains
busy_reachable =
    later (later at_start (store 0 (lit "c0ffee") []))
      (begin_execution 0 sweep confirmed [] refl refl refl refl refl)

reachable-IsExclusive_example : IsExclusive busy
reachable-IsExclusive_example = reachable-IsExclusive busy busy_reachable
