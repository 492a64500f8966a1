-- ===== src/Sca/Merge/Guarded.antt =====
-- When `mergeEmergencyPr` of tools/sca/src/cli/merge.ts merges.
use hulumi.Prelude.{
  Bool, true, false, not, ◌||◌, Option, none, some, List, [], ◌∷◌, Text, text_eq, text_eq_iff,
  or-eq-false, lookup, All, Bool-cases, ◌≡◌, ◌≢◌, refl, sym, ap, ◌∙◌, inl, inr, arith,
}
use hulumi.Prelude.Result.{Result, ok, err, ok-injective, bind-eq-ok}
use hulumi.Sca.Evidence.{ScaError}
use hulumi.Sca.Merge.Ruleset.{
  required_checks, RulesetConfig, RulesetFailure, merge, ruleset_failures, verify_ruleset,
  role_allows, can_role_perform,
}
use hulumi.Sca.Merge.Audit.{CheckStatus, success, failure, skipped, AuditRecord, build_audit_record}
use hulumi.Sca.Merge.Gate.{
  ReviewState, approved, request_changes, pending, dismissed, BlockedReason, ruleset_drift,
  merger_identity_required, major_bump, stale_approval, missing_approval, block, not_again,
  MergeInput, MergeOptions, MergeResult, failing, failing_checks, is_success, is_approved,
  approval_missing, audit_args, after_write, audit_and_merge, after_checks, after_role,
  after_ruleset, merge_emergency_pr,
}

-- The audit record was written before the merge, and it is the one of this merge.
abbrev pub IsAudited : MergeInput → MergeOptions → MergeResult → Type 0
IsAudited input options r =
    (a : AuditRecord) × (w : AuditRecord) × (build_audit_record options.is_datetime options.sign
        (audit_args input options)
      ≡ ok a)
    × (options.audit_writer a ≡ ok w)
    × (r.audit_record ≡ some w)
    × (r.audit_written_before_merge ≡ true)

pub record IsMergeable (input : MergeInput) (options : MergeOptions) (r : MergeResult)
    : Type 0 where
  pub not_remediated : input.already_remediated ≡ false
  pub ruleset_holds : ruleset_failures options.ruleset_config ≡ []
  pub is_merger : options.actor ≡ options.ruleset_config.merger
  pub not_remediator : options.actor ≢ options.ruleset_config.remediator
  pub not_reviewer : options.actor ≢ options.ruleset_config.reviewer
  pub not_major : input.major_version_bump ≡ false
  pub not_stale : input.approval_stale ≡ false
  pub by_reviewer : input.reviewer ≡ options.ruleset_config.reviewer
  pub not_author : input.reviewer ≢ input.author
  pub is_approved : input.reviewer_state ≡ approved
  pub checks_green : All (λ c. lookup c input.checks ≡ some success) required_checks
  pub is_audited : IsAudited input options r

after_write_merged :
    (input : MergeInput) (options : MergeOptions) (a : AuditRecord)
    (answer : Result Text AuditRecord) (r : MergeResult)
    → build_audit_record options.is_datetime options.sign (audit_args input options) ≡ ok a
    → options.audit_writer a ≡ answer
    → after_write answer ≡ r
    → r.merged ≡ true
    → IsAudited input options r
after_write_merged input options a (ok w) r b e same m = (
  a,
  w,
  b,
  e,
  sym (ap (λ x. x.audit_record) same),
  sym (ap (λ x. x.audit_written_before_merge) same),
)
after_write_merged input options a (err message) r b e same m = cc (same, m)

audit_and_merge_merged :
    (input : MergeInput) (options : MergeOptions) (r : MergeResult)
    → audit_and_merge input options ≡ ok r
    → r.merged ≡ true
    → IsAudited input options r
unfolding audit_and_merge
audit_and_merge_merged input options r h m =
    let (a, b, f) =
      bind-eq-ok (build_audit_record options.is_datetime options.sign (audit_args input options))
        (λ a. ok (after_write (options.audit_writer a))) r h in
    after_write_merged input options a (options.audit_writer a) r b refl (ok-injective _ _ _ refl f)
      m

is_success_sound : (o : Option CheckStatus) → is_success o ≡ true → o ≡ some success
is_success_sound none h = cc
is_success_sound (some success) h = refl
is_success_sound (some failure) h = cc
is_success_sound (some skipped) h = cc

failing-eq-nil :
    (checks : List (Text × CheckStatus)) (names : List Text)
    → failing checks names ≡ []
    → All (λ c. lookup c checks ≡ some success) names
failing-eq-nil checks [] h = tt
failing-eq-nil checks (c ∷ names) h = elim (Bool-cases (is_success (lookup c checks))) [
  | inl green ↦
      (is_success_sound (lookup c checks) green, failing-eq-nil checks names (rw green at h))
  | inr red ↦ absurd (cc (rw red at h))
]

after_checks_merged :
    (input : MergeInput) (options : MergeOptions) (names : List Text) (r : MergeResult)
    → after_checks input options names ≡ ok r
    → r.merged ≡ true
    → (names ≡ []) × IsAudited input options r
after_checks_merged input options [] r h m = (refl, audit_and_merge_merged input options r h m)
after_checks_merged input options (c ∷ names) r h m =
    cc (ap (λ x. x.merged) (ok-injective _ r _ refl h), m)

approved_sound : (s : ReviewState) → is_approved s ≡ true → s ≡ approved
approved_sound approved h = refl
approved_sound request_changes h = cc
approved_sound pending h = cc
approved_sound dismissed h = cc

-- No block merges.
block_not_merged :
    {B : Type 0} (reason : BlockedReason) (rejected : Bool) (r : MergeResult)
    → ◌≡◌ {A = Result ScaError MergeResult} (ok (block reason rejected)) (ok r)
    → r.merged ≡ true
    → B
block_not_merged reason rejected r h m =
    absurd (cc (ap (λ x. x.merged) (ok-injective (block reason rejected) r _ refl h), m))

after_role_merged :
    (input : MergeInput) (options : MergeOptions) (may_merge : Bool) (r : MergeResult)
    → after_role input options may_merge ≡ ok r
    → r.merged ≡ true
    → (may_merge ≡ true)
      × (input.major_version_bump ≡ false)
      × (input.approval_stale ≡ false)
      × (approval_missing input options.ruleset_config ≡ false)
      × (after_checks input options (failing_checks input.checks) ≡ ok r)
unfolding after_role
after_role_merged input options false r h m =
    block_not_merged (merger_identity_required options.actor) _ r h m
after_role_merged input options true r h m = elim (Bool-cases input.major_version_bump) [
  | inl major ↦ block_not_merged major_bump true r (rw major at h) m
  | inr minor ↦ elim (Bool-cases input.approval_stale) [
    | inl stale ↦ block_not_merged stale_approval true r (rw (minor, stale) at h) m
    | inr recent ↦ elim (Bool-cases (approval_missing input options.ruleset_config)) [
      | inl missing ↦ block_not_merged missing_approval true r (rw (minor, recent, missing) at h) m
      | inr given ↦ (refl, minor, recent, given, rw (minor, recent, given) at h)
    ]
  ]
]

role_allows-merge :
    (c : RulesetConfig) (actor : Text)
    → role_allows c actor merge ≡ true
    → (actor ≡ c.merger) × (actor ≢ c.remediator) × (actor ≢ c.reviewer)
unfolding role_allows
role_allows-merge c actor h = elim (Bool-cases (text_eq actor c.remediator)) [
  | inl b ↦ absurd (cc (rw b at h))
  | inr not_b ↦ elim (Bool-cases (text_eq actor c.reviewer)) [
    | inl a ↦ absurd (cc (rw (not_b, a) at h))
    | inr not_a ↦ elim (Bool-cases (text_eq actor c.merger)) [
      | inr not_c ↦ absurd (cc (rw (not_b, not_a, not_c) at h))
      | inl same ↦ (
        (text_eq_iff actor c.merger).0 same,
        (λ e. cc (not_b, (text_eq_iff actor c.remediator).1 e)),
        (λ e. cc (not_a, (text_eq_iff actor c.reviewer).1 e)),
      )
    ]
  ]
]

can_role_perform-eq-ok :
    (c : RulesetConfig) (actor : Text) (b : Bool)
    → can_role_perform c actor merge ≡ ok b
    → role_allows c actor merge ≡ b
unfolding can_role_perform
can_role_perform-eq-ok c actor b h = ground arith

verify_ruleset-eq-ok :
    (c : RulesetConfig) (failures : List RulesetFailure)
    → verify_ruleset c ≡ ok failures
    → ruleset_failures c ≡ failures
unfolding verify_ruleset
verify_ruleset-eq-ok c failures h = ground arith

approval_sound :
    (input : MergeInput) (c : RulesetConfig)
    → approval_missing input c ≡ false
    → (input.reviewer ≡ c.reviewer)
      × (input.reviewer ≢ input.author)
      × (input.reviewer_state ≡ approved)
unfolding approval_missing
approval_sound input c h =
    let other = not (text_eq input.reviewer c.reviewer) in
    let same = text_eq input.reviewer input.author in
    let (h1, state) = or-eq-false (other || same) (not (is_approved input.reviewer_state)) h in
    let (named, author) = or-eq-false other same h1 in
    (
      (text_eq_iff input.reviewer c.reviewer).0 (ground (arith, named)),
      (λ e. cc (author, (text_eq_iff input.reviewer input.author).1 e)),
      approved_sound input.reviewer_state (ground (arith, state)),
    )

-- What the gate asks for after the ruleset.
after_ruleset_merged :
    (input : MergeInput) (options : MergeOptions) (failures : List RulesetFailure) (r : MergeResult)
    → input.already_remediated ≡ false
    → ruleset_failures options.ruleset_config ≡ failures
    → after_ruleset input options failures ≡ ok r
    → r.merged ≡ true
    → IsMergeable input options r
after_ruleset_merged input options (f ∷ fs) r n e h m =
    block_not_merged (ruleset_drift (f ∷ fs)) true r h m
after_ruleset_merged input options [] r n e h m =
    let (b, role, rest) =
      bind-eq-ok (can_role_perform options.ruleset_config options.actor merge)
        (after_role input options) r h in
    let (may, minor, recent, given, checked) = after_role_merged input options b r rest m in
    let (merger, not_b, not_a) =
      role_allows-merge options.ruleset_config options.actor
        (can_role_perform-eq-ok options.ruleset_config options.actor b role ∙ may) in
    let (reviewer, author, state) = approval_sound input options.ruleset_config given in
    let (green, audited) =
      after_checks_merged input options (failing_checks input.checks) r checked m in
    record {
      not_remediated = n;
      ruleset_holds = e;
      is_merger = merger;
      not_remediator = not_b;
      not_reviewer = not_a;
      not_major = minor;
      not_stale = recent;
      by_reviewer = reviewer;
      not_author = author;
      is_approved = state;
      checks_green = failing-eq-nil input.checks required_checks (unfold failing_checks in green);
      is_audited = audited;
    }

-- A pull request is merged only under a ruleset without failures, by the merger, who is neither the
-- remediator nor the reviewer, after a fresh approval by the reviewer, who is not the author, with
-- every required check green and no major version bump, and after the audit record of this merge
-- was written.
pub merge_emergency_pr-IsMergeable :
    (input : MergeInput) (options : MergeOptions) (r : MergeResult)
    → merge_emergency_pr input options ≡ ok r
    → r.merged ≡ true
    → IsMergeable input options r
unfolding merge_emergency_pr
merge_emergency_pr-IsMergeable input options r h m = elim (Bool-cases input.already_remediated) [
  | inl done ↦ absurd (cc (ap (λ x. x.merged) (ok-injective not_again r _ refl (rw done at h)), m))
  | inr fresh ↦
      let (failures, v, rest) =
        bind-eq-ok (verify_ruleset options.ruleset_config) (after_ruleset input options) r
          (rw fresh at h) in
      after_ruleset_merged input options failures r fresh
        (verify_ruleset-eq-ok options.ruleset_config failures v) rest m
]
