-- ===== src/Reconciler/Runs.antt =====
-- What `OrphanReconciler.execute` runs and leaves (packages/drift/src/reconciler.ts).
use mathlib.Core.Path.{ap₂}
use hulumi.Prelude.{
  ℕ, Bool, true, false, Option, some, List, [], ◌∷◌, Text, text_eq, text_eq_iff, text_eq_refl,
  text_contains, map, All, or-eq-false, Bool-cases, Option-cases, ◌≡◌, ◌∙◌, inl, inr, refl, sym, ap,
  arith,
}
use hulumi.Prelude.Result.{ok}
use hulumi.Reconciler.Types.{
  ReconcileMode, ReconcileDecision, ReconcileActionType, ReconcileTarget, ReconcileScope,
  ReconcilePlanAction,
}
use hulumi.Reconciler.Guards.{IsInScope, IsAllowed}
use hulumi.Reconciler.Target.{classify_target}
use hulumi.Reconciler.Plan.{is_read_only, Compare, plan_actions}
use hulumi.Reconciler.Planned.{plan_actions-IsGuarded}
use hulumi.Reconciler.Execution.{
  ReconcilePlan, ReconcileExecuteOptions, Executors, ActionResult, executed, action_of_result,
  allows, run_action, run_actions, finished, ExecuteState, remove_lock, execute, store_plan,
}

All-map :
    (P Q : ReconcilePlanAction → Type 0)
    → ((a : ReconcilePlanAction) → P a → Q a)
    → (actions : List ReconcilePlanAction) → All P actions
    → All Q actions
All-map P Q f [] h = tt
All-map P Q f (a ∷ actions) (p, ps) = (f a p, All-map P Q f actions ps)

-- If the result is that of an executor then its action has the property.
abbrev pub IfExecuted : (ReconcilePlanAction → Type 0) → ActionResult → Type 0
IfExecuted P (executed a o) = P a
IfExecuted P _ = Unit

module _ (executors : Executors) (allow : List ReconcileDecision) where
  run_action-action :
      (a : ReconcilePlanAction) → action_of_result (run_action executors allow a) ≡ a
  unfolding run_action
  run_action-action a = elim (Bool-cases a.executable) [
    | inr stuck ↦ rw stuck refl
    | inl free ↦ elim (Bool-cases (allows allow a.recommended_action)) [
      | inr other ↦ rw (free, other) refl
      | inl listed ↦ elim (Option-cases (executors a.type)) [
        | inl missing ↦ rw (free, listed, missing) refl
        | inr (executor, there) ↦ rw (free, listed, there) refl
      ]
    ]
  ]

  run_actions-actions :
      (actions : List ReconcilePlanAction)
      → map action_of_result (run_actions executors allow actions) ≡ actions
  unfolding run_actions
  run_actions-actions [] = refl
  run_actions-actions (a ∷ actions) = ap₂ ◌∷◌ (run_action-action a) (run_actions-actions actions)

  run_action-IfExecuted :
      (P : ReconcilePlanAction → Type 0) (a : ReconcilePlanAction)
      → (a.executable ≡ true → allows allow a.recommended_action ≡ true → P a)
      → IfExecuted P (run_action executors allow a)
  unfolding run_action
  run_action-IfExecuted P a h = elim (Bool-cases a.executable) [
    | inr stuck ↦ rw stuck tt
    | inl free ↦ elim (Bool-cases (allows allow a.recommended_action)) [
      | inr other ↦ rw (free, other) tt
      | inl listed ↦ elim (Option-cases (executors a.type)) [
        | inl missing ↦ rw (free, listed, missing) tt
        | inr (executor, there) ↦ simp (free, listed, there) (h free listed)
      ]
    ]
  ]

  run_actions-IfExecuted :
      (P : ReconcilePlanAction → Type 0) (actions : List ReconcilePlanAction)
      → All (λ a. a.executable ≡ true → allows allow a.recommended_action ≡ true → P a) actions
      → All (IfExecuted P) (run_actions executors allow actions)
  unfolding run_actions
  run_actions-IfExecuted P [] h = tt
  run_actions-IfExecuted P (a ∷ actions) (h, hs) =
      (run_action-IfExecuted P a h, run_actions-IfExecuted P actions hs)

remove_lock_missing :
    (key : Text) (locks : List Text)
    → text_contains locks key ≡ false
    → remove_lock key locks ≡ locks
unfolding text_contains remove_lock
remove_lock_missing key [] h = refl
remove_lock_missing key (k ∷ locks) h =
    let (other, rest) = or-eq-false (text_eq k key) (text_contains locks key) h in
    rw other (ap (λ ks. k ∷ ks) (remove_lock_missing key locks rest))

remove_lock-added :
    (key : Text) (locks : List Text)
    → text_contains locks key ≡ false
    → remove_lock key (key ∷ locks) ≡ locks
unfolding remove_lock
remove_lock-added key locks h = rw (text_eq_refl key) (remove_lock_missing key locks h)

-- A call that finished, with the actions that were stored under its token.
pub record Finished (executors : Executors) (p : ReconcilePlan) (options : ReconcileExecuteOptions)
    (s : ExecuteState) (results : List ActionResult) (s' : ExecuteState) : Type 0 where
  pub writes : is_read_only p.mode ≡ false
  pub confirmed : options.confirm_token ≡ p.confirm_token
  pub actions : List ReconcilePlanAction
  pub stored : s.raw_actions_by_token p.confirm_token ≡ some actions
  pub ran : results ≡ run_actions executors options.allow actions
  pub unlocked : s'.active_execution_locks ≡ s.active_execution_locks

module _ (executors : Executors) (p : ReconcilePlan) (options : ReconcileExecuteOptions)
    (s : ExecuteState) (results : List ActionResult) (s' : ExecuteState) where
  execute-Finished :
      execute executors p options s ≡ (ok (finished results), s')
      → Finished executors p options s results s'
  unfolding execute
  execute-Finished h = elim (Option-cases (s.raw_actions_by_token p.confirm_token)) [
    | inl unknown ↦ absurd (ground arith)
    | inr (actions, there) ↦ record {
      writes = ground arith;
      confirmed = ground (arith, text_eq_iff options.confirm_token p.confirm_token);
      actions = actions;
      stored = there;
      ran = ground arith;
      unlocked = ground (arith, remove_lock-added p.lock_key s.active_execution_locks);
    }
  ]

store_plan_lem :
    (token : Text) (actions : List ReconcilePlanAction) (s : ExecuteState)
    → (store_plan token actions s).raw_actions_by_token token ≡ some actions
unfolding store_plan
store_plan_lem token actions s = rw (text_eq_refl token) refl

some-injective :
    {a b : List ReconcilePlanAction}
    → ◌≡◌ {A = Option (List ReconcilePlanAction)} (some a) (some b)
    → a ≡ b
some-injective e = cc

-- A call of `execute` that finishes, on the plan whose token it is given, was not one in a read-only
-- mode and had that token confirmed. It gives one result for each action of the plan, in their order,
-- and it runs an executor only on an action that the caller allows and that is the one planned for a
-- target which the scope names and every guard lets through, in the mode that was planned; the locks
-- are then as before.
pub execute_guarded :
    (date_parse : Text → Option ℕ) (scope : ReconcileScope) (mode : ReconcileMode) (now : ℕ)
    (has_executor : ReconcileActionType → Bool) (le : Compare) (targets : List ReconcileTarget)
    (executors : Executors) (p : ReconcilePlan) (options : ReconcileExecuteOptions)
    (s : ExecuteState) (results : List ActionResult) (s' : ExecuteState)
    → execute executors p options (
        store_plan p.confirm_token
          (plan_actions date_parse scope mode now has_executor le targets)
          s)
      ≡ (ok (finished results), s')
    → (is_read_only p.mode ≡ false)
      × (options.confirm_token ≡ p.confirm_token)
      × (map action_of_result results
          ≡ plan_actions date_parse scope mode now has_executor le targets)
      × All
          (IfExecuted (λ a.
            (allows options.allow a.recommended_action ≡ true)
            × (target : ReconcileTarget) × (index : ℕ) × (a
                ≡ classify_target date_parse target scope mode now index has_executor)
            × IsInScope date_parse target scope now
            × IsAllowed has_executor mode a))
          results
      × (s'.active_execution_locks ≡ s.active_execution_locks)
unfolding store_plan
execute_guarded date_parse scope mode now has_executor le targets executors p options s results s'
      h =
    let planned = plan_actions date_parse scope mode now has_executor le targets in
    let f =
      execute-Finished executors p options (store_plan p.confirm_token planned s) results s' h in
    let same = some-injective (sym f.stored ∙ store_plan_lem p.confirm_token planned s) in
    let ran = f.ran ∙ ap (run_actions executors options.allow) same in
    (
      f.writes,
      f.confirmed,
      rw ran (run_actions-actions executors options.allow planned),
      rw ran (
          run_actions-IfExecuted executors options.allow _ planned (
            All-map _ _
              (λ a guarded e listed.
                let (t, i, is_planned, inside, allowed) = guarded e in
                (listed, t, i, is_planned, inside, allowed))
              planned (plan_actions-IsGuarded date_parse scope mode now has_executor le targets))),
      f.unlocked,
    )
