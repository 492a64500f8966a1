-- ===== src/Sca/Merge/Gate.antt =====
-- `mergeEmergencyPr` of tools/sca/src/cli/merge.ts.
use hulumi.Prelude.{
  Bool, true, false, not, ◌||◌, Option, none, some, List, [], ◌∷◌, Text, text_eq, lookup,
  if◌then◌else◌,
}
use hulumi.Prelude.Result.{Result, ok, err, ◌>>=◌}
use hulumi.Sca.Evidence.{ScaError}
use hulumi.Sca.Merge.Ruleset.{
  required_checks, RulesetConfig, RulesetFailure, merge, verify_ruleset, can_role_perform,
}
use hulumi.Sca.Merge.Audit.{CheckStatus, success, AuditArgs, AuditRecord, build_audit_record}

pub data ReviewState : Type 0 where
  approved request_changes pending dismissed : ReviewState

-- An absent flag is false.
pub record MergeInput : Type 0 where
  pub finding_key : Text
  pub advisory_id : Text
  pub package_name : Text
  pub from_version : Text
  pub to_version : Text
  pub author : Text
  pub reviewer : Text
  pub reviewer_state : ReviewState
  pub approval_stale : Bool
  pub checks : List (Text × CheckStatus)
  pub already_remediated : Bool
  pub major_version_bump : Bool

pub data MergeState : Type 0 where
  remediated escalated in_progress : MergeState

pub data BlockedReason : Type 0 where
  ruleset_drift : List RulesetFailure → BlockedReason
  merger_identity_required : (actor : Text) → BlockedReason
  major_bump stale_approval missing_approval : BlockedReason
  checks_not_green : List Text → BlockedReason
  audit_write_failed : (message : Text) → BlockedReason
  no_approved_plan : BlockedReason

pub data MergeEvent : Type 0 where
  decided_already_remediated decided_escalated decided_merged release_was_published : MergeEvent

pub record MergeResult : Type 0 where
  pub merged : Bool
  pub release_published : Bool
  pub state : MergeState
  pub audit_record : Option AuditRecord
  pub audit_written_before_merge : Bool
  pub blocked_reason : Option BlockedReason
  pub github_protection_rejected : Bool
  pub events : List MergeEvent

-- `audit_writer` answers the written record or the message of its error.
pub record MergeOptions : Type 0 where
  pub actor : Text
  pub ruleset_config : RulesetConfig
  pub now : Text
  pub is_datetime : Text → Bool
  pub sign : AuditArgs → Text → Text
  pub audit_writer : AuditRecord → Result Text AuditRecord

-- `block(result, reason, githubProtectionRejected)`, before the audit.
abbrev pub block : BlockedReason → Bool → MergeResult
block reason rejected = record {
  merged = false;
  release_published = false;
  state = escalated;
  audit_record = none;
  audit_written_before_merge = false;
  blocked_reason = some reason;
  github_protection_rejected = rejected;
  events = decided_escalated ∷ [];
}

abbrev pub not_again : MergeResult
not_again = record {
  merged = false;
  release_published = false;
  state = remediated;
  audit_record = none;
  audit_written_before_merge = false;
  blocked_reason = none;
  github_protection_rejected = false;
  events = decided_already_remediated ∷ [];
}

abbrev pub merged_with : AuditRecord → MergeResult
merged_with written = record {
  merged = true;
  release_published = true;
  state = remediated;
  audit_record = some written;
  audit_written_before_merge = true;
  blocked_reason = none;
  github_protection_rejected = false;
  events = decided_merged ∷ release_was_published ∷ [];
}

abbrev pub is_success : Option CheckStatus → Bool
is_success (some success) = true
is_success _ = false

abbrev pub failing : List (Text × CheckStatus) → List Text → List Text
failing checks [] = []
failing checks (c ∷ names) =
    let later = failing checks names in if is_success (lookup c checks) then later else c ∷ later

unfoldable pub failing_checks : List (Text × CheckStatus) → List Text
unfolding lookup required_checks
failing_checks checks = failing checks required_checks

abbrev pub is_approved : ReviewState → Bool
is_approved approved = true
is_approved _ = false

unfoldable pub approval_missing : MergeInput → RulesetConfig → Bool
unfolding text_eq
approval_missing input config =
    not (text_eq input.reviewer config.reviewer)
    || text_eq input.reviewer input.author
    || not (is_approved input.reviewer_state)

abbrev pub audit_args : MergeInput → MergeOptions → AuditArgs
audit_args input options = record {
  finding_key = input.finding_key;
  advisory_id = input.advisory_id;
  package_name = input.package_name;
  from_version = input.from_version;
  to_version = input.to_version;
  reviewer = input.reviewer;
  merger = options.actor;
  checks = input.checks;
  created_at = options.now;
}

abbrev pub after_write : Result Text AuditRecord → MergeResult
after_write (ok written) = merged_with written
after_write (err message) = block (audit_write_failed message) false

-- From the tests of the checks on.
unfoldable pub audit_and_merge : MergeInput → MergeOptions → Result ScaError MergeResult
unfolding build_audit_record
audit_and_merge input options =
    build_audit_record options.is_datetime options.sign (audit_args input options) >>= λ r.
    ok (after_write (options.audit_writer r))

abbrev pub after_checks : MergeInput → MergeOptions → List Text → Result ScaError MergeResult
after_checks input options (c ∷ names) = ok (block (checks_not_green (c ∷ names)) true)
after_checks input options [] = audit_and_merge input options

-- From the test of the role on.
unfoldable pub after_role : MergeInput → MergeOptions → Bool → Result ScaError MergeResult
unfolding text_eq approval_missing failing_checks audit_and_merge
after_role input options may_merge =
    if not may_merge
    then ok (
        block (merger_identity_required options.actor)
          (text_eq options.actor options.ruleset_config.remediator))
    else if input.major_version_bump
    then ok (block major_bump true)
    else if input.approval_stale
    then ok (block stale_approval true)
    else if approval_missing input options.ruleset_config
    then ok (block missing_approval true)
    else after_checks input options (failing_checks input.checks)

abbrev pub after_ruleset :
    MergeInput → MergeOptions → List RulesetFailure → Result ScaError MergeResult
after_ruleset input options (f ∷ fs) = ok (block (ruleset_drift (f ∷ fs)) true)
after_ruleset input options [] =
    can_role_perform options.ruleset_config options.actor merge >>= after_role input options

unfoldable pub merge_emergency_pr : MergeInput → MergeOptions → Result ScaError MergeResult
unfolding verify_ruleset can_role_perform after_role
merge_emergency_pr input options =
    if input.already_remediated
    then ok not_again
    else (verify_ruleset options.ruleset_config >>= after_ruleset input options)
