-- ===== src/Sca/Merge/Files.antt =====
-- `mergeFromFiles` of tools/sca/src/cli/merge.ts. Reading and writing files, and the environment of
-- the audit, are arguments.
use hulumi.Prelude.{
  Bool, false, Option, none, some, List, [], ◌∷◌, ◌++◌, map, Text, split_on, if◌then◌else◌,
}
use hulumi.Prelude.Result.{Result, ok, ◌>>=◌, throw_if, ◌>>◌}
use hulumi.Sca.Evidence.{is_empty, ScaError, schema_violation}
use hulumi.Sca.Merge.Ruleset.{required_checks, RulesetConfig}
use hulumi.Sca.Merge.Audit.{CheckStatus, success}
use hulumi.Sca.Merge.Gate.{
  approved, in_progress, MergeInput, MergeOptions, MergeResult, no_approved_plan,
  merge_emergency_pr,
}

pub record AgentRequest : Type 0 where
  pub finding_key : Text
  pub package_name : Text
  pub from_version : Text
  pub to_version : Text

-- `is_approved` is the test of `pr?.approved`, which is any JSON value: whether it is there and
-- truthy.
pub record RemediationPlan : Type 0 where
  pub is_approved : Bool
  pub agent_request : Option AgentRequest
  pub checks : List (Text × CheckStatus)

abbrev pub no_merge_result : MergeResult
no_merge_result = record {
  merged = false;
  release_published = false;
  state = in_progress;
  audit_record = none;
  audit_written_before_merge = false;
  blocked_reason = some no_approved_plan;
  github_protection_rejected = false;
  events = [];
}

abbrev last_text : List Text → Text
last_text [] = []
last_text (t ∷ []) = t
last_text (t ∷ u ∷ ts) = last_text (u ∷ ts)

unfoldable pub advisory_from_finding_key : Text → Result ScaError Text
unfolding split_on
advisory_from_finding_key key =
    let advisory = last_text (split_on b':' key) in
    throw_if (is_empty advisory) schema_violation >> ok advisory

-- The checks of the plan before those that stand for it: every required check is a success.
abbrev pub assumed_checks : List (Text × CheckStatus) → List (Text × CheckStatus)
assumed_checks checks = checks ++ map (λ c. (c, success)) required_checks

abbrev pub input_from : AgentRequest → List (Text × CheckStatus) → RulesetConfig → Text → MergeInput
input_from request checks config advisory = record {
  finding_key = request.finding_key;
  advisory_id = advisory;
  package_name = request.package_name;
  from_version = request.from_version;
  to_version = request.to_version;
  author = config.remediator;
  reviewer = config.reviewer;
  reviewer_state = approved;
  approval_stale = false;
  checks = assumed_checks checks;
  already_remediated = false;
  major_version_bump = false;
}

-- The options of the call, with the merger of the ruleset as the actor.
abbrev pub as_merger : MergeOptions → MergeOptions
as_merger options = record {
  actor = options.ruleset_config.merger;
  ruleset_config = options.ruleset_config;
  now = options.now;
  is_datetime = options.is_datetime;
  sign = options.sign;
  audit_writer = options.audit_writer;
}

abbrev pub merge_request :
    Option AgentRequest → RemediationPlan → MergeOptions → Result ScaError MergeResult
merge_request none plan options = ok no_merge_result
merge_request (some request) plan options =
    advisory_from_finding_key request.finding_key >>= λ advisory.
    merge_emergency_pr (input_from request plan.checks options.ruleset_config advisory)
      (as_merger options)

unfoldable pub merge_from_files : RemediationPlan → MergeOptions → Result ScaError MergeResult
unfolding advisory_from_finding_key required_checks merge_emergency_pr
merge_from_files plan options =
    if plan.is_approved then merge_request plan.agent_request plan options else ok no_merge_result
