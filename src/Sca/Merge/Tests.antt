-- ===== src/Sca/Merge/Tests.antt =====
-- Merges under a ruleset without failures, and the theorem of the gate at one.
use hulumi.Prelude.{Bool, true, false, some, List, [], map, Text, lit, ◌≡◌, refl}
use hulumi.Prelude.Result.{Result, ok, err}
use hulumi.Sca.Evidence.{ScaError}
use hulumi.Sca.Merge.Ruleset.{required_checks, RulesetConfig}
use hulumi.Sca.Merge.Audit.{CheckStatus, success, AuditRecord}
use hulumi.Sca.Merge.Gate.{
  approved, MergeInput, MergeOptions, MergeResult, block, stale_approval, audit_write_failed,
  merge_emergency_pr,
}
use hulumi.Sca.Merge.Files.{RemediationPlan, merge_from_files}
use hulumi.Sca.Merge.Guarded.{IsMergeable, merge_emergency_pr-IsMergeable}

abbrev ruleset_config : RulesetConfig
unfolding required_checks
ruleset_config = record {
  required_checks = required_checks;
  bypass_actors = [];
  native_auto_merge = false;
  dismiss_stale_reviews = true;
  required_approving_review_count = 1;
  reviewer = lit "a";
  remediator = lit "b";
  merger = lit "c";
  probe_passed = true;
  machine_user_fallback = false;
}

abbrev options : (AuditRecord → Result Text AuditRecord) → MergeOptions
options writer = record {
  actor = lit "c";
  ruleset_config = ruleset_config;
  now = lit "2026-01-01T00:00:00Z";
  is_datetime = λ t. true;
  sign = λ args path. lit "s";
  audit_writer = writer;
}

abbrev writes : AuditRecord → Result Text AuditRecord
writes r = ok r

abbrev pull_request : List (Text × CheckStatus) → Bool → MergeInput
pull_request checks stale = record {
  finding_key = lit "npm:p@1:GHSA-a";
  advisory_id = lit "GHSA-a";
  package_name = lit "p";
  from_version = lit "1";
  to_version = lit "2";
  author = lit "b";
  reviewer = lit "a";
  reviewer_state = approved;
  approval_stale = stale;
  checks = checks;
  already_remediated = false;
  major_version_bump = false;
}

abbrev green : List (Text × CheckStatus)
unfolding required_checks
green = map (λ c. (c, success)) required_checks

abbrev outcome : Result ScaError MergeResult → MergeResult
outcome (ok r) = r
outcome (err e) = block stale_approval false

abbrev merged : MergeResult
unfolding merge_emergency_pr
merged = outcome (merge_emergency_pr (pull_request green false) (options writes))

merges : merged.merged ≡ true
unfolding merge_emergency_pr
merges = refl

stale_blocked :
    merge_emergency_pr (pull_request green true) (options writes) ≡ ok (block stale_approval true)
unfolding merge_emergency_pr
stale_blocked = refl

unaudited_blocked :
    merge_emergency_pr (pull_request green false) (options (λ r. err (lit "disk")))
    ≡ ok (block (audit_write_failed (lit "disk")) false)
unfolding merge_emergency_pr
unaudited_blocked = refl

abbrev unreported : RemediationPlan
unreported = record {
  is_approved = true;
  agent_request = some (record {
    finding_key = lit "npm:p@1:GHSA-a";
    package_name = lit "p";
    from_version = lit "1";
    to_version = lit "2";
  });
  checks = [];
}

-- A plan that reports no check at all is merged.
unreported_merged : (outcome (merge_from_files unreported (options writes))).merged ≡ true
unfolding merge_from_files
unreported_merged = refl

merge_emergency_pr-IsMergeable_example :
    IsMergeable (pull_request green false) (options writes) merged
unfolding merge_emergency_pr
merge_emergency_pr-IsMergeable_example =
    merge_emergency_pr-IsMergeable (pull_request green false) (options writes) merged refl refl

abbrev unreported_result : MergeResult
unfolding merge_from_files
unreported_result = outcome (merge_from_files unreported (options writes))
