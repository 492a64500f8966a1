-- ===== src/Sca/Merge/Ruleset.antt =====
-- tools/sca/src/cli/verify-ruleset.ts: `verifyRuleset` and `canRolePerform`.
use hulumi.Prelude.{
  ℕ, Bool, true, false, not, ◌&&◌, List, [], ◌∷◌, Text, lit, text_eq, text_contains, all, length,
  ◌==◌, if◌then◌else◌,
}
use hulumi.Prelude.Result.{Result, ok, throw_if, ◌>>◌}
use hulumi.Sca.Evidence.{is_empty, ScaError, schema_violation}

unfoldable pub required_checks : List Text
required_checks =
    lit "build"
    ∷ lit "test"
    ∷ lit "sast"
    ∷ lit "fixtures-not-installed"
    ∷ lit "release-reviewer-verdict"
    ∷ lit "dependency-review"
    ∷ []

-- `machine_user_fallback` says that `botApprovalProbe.fallback` is there.
pub record RulesetConfig : Type 0 where
  pub required_checks : List Text
  pub bypass_actors : List Text
  pub native_auto_merge : Bool
  pub dismiss_stale_reviews : Bool
  pub required_approving_review_count : ℕ
  pub reviewer : Text
  pub remediator : Text
  pub merger : Text
  pub probe_passed : Bool
  pub machine_user_fallback : Bool

pub data RulesetFailure : Type 0 where
  native_auto_merge_enabled bypass_actors_listed required_checks_differ stale_reviews_kept
        review_count_not_one merger_is_remediator reviewer_is_remediator reviewer_is_merger
        bot_approval_does_not_count :
      RulesetFailure

pub data RoleAction : Type 0 where
  push approve merge : RoleAction

-- The tests of `rulesetConfigSchema`.
unfoldable pub is_ruleset_config : RulesetConfig → Bool
is_ruleset_config r =
    all (λ c. not (is_empty c)) r.required_checks
    && not (is_empty r.reviewer)
    && not (is_empty r.remediator)
    && not (is_empty r.merger)

unfoldable pub same_set : List Text → List Text → Bool
unfolding text_contains
same_set actual expected = length actual == length expected && all (text_contains actual) expected

abbrev pub fails_when : Bool → RulesetFailure → List RulesetFailure → List RulesetFailure
fails_when true failure later = failure ∷ later
fails_when false failure later = later

unfoldable pub ruleset_failures : RulesetConfig → List RulesetFailure
unfolding same_set required_checks text_eq
ruleset_failures r = fails_when r.native_auto_merge native_auto_merge_enabled (
    fails_when (not (length r.bypass_actors == 0)) bypass_actors_listed (
      fails_when (not (same_set r.required_checks required_checks)) required_checks_differ (
        fails_when (not r.dismiss_stale_reviews) stale_reviews_kept (
          fails_when (not (r.required_approving_review_count == 1)) review_count_not_one (
            fails_when (text_eq r.merger r.remediator) merger_is_remediator (
              fails_when (text_eq r.reviewer r.remediator) reviewer_is_remediator (
                fails_when (text_eq r.reviewer r.merger) reviewer_is_merger (
                  fails_when (not r.probe_passed && not r.machine_user_fallback)
                    bot_approval_does_not_count []))))))))

-- The failures of a ruleset; it is `ok` when there are none.
unfoldable pub verify_ruleset : RulesetConfig → Result ScaError (List RulesetFailure)
unfolding is_ruleset_config ruleset_failures
verify_ruleset r = throw_if (not (is_ruleset_config r)) schema_violation >> ok (ruleset_failures r)

abbrev is_action : RoleAction → RoleAction → Bool
is_action push push = true
is_action approve approve = true
is_action merge merge = true
is_action _ _ = false

unfoldable pub role_allows : RulesetConfig → Text → RoleAction → Bool
unfolding text_eq
role_allows r actor action =
    if text_eq actor r.remediator
    then is_action action push
    else if text_eq actor r.reviewer
    then is_action action approve
    else if text_eq actor r.merger
    then is_action action merge
    else false

unfoldable pub can_role_perform : RulesetConfig → Text → RoleAction → Result ScaError Bool
unfolding is_ruleset_config role_allows
can_role_perform r actor action =
    throw_if (not (is_ruleset_config r)) schema_violation >> ok (role_allows r actor action)
