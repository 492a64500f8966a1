-- ===== src/Policies/Oidc/Trust/Tests.antt =====
-- A trust policy for GitHub, and the theorem at it.
use hulumi.Prelude.{true, false, Option, none, some, List, ◌++◌, Text, lit, All, ◌≡◌, ◌⊎◌, refl}
use hulumi.Policies.Json.{
  Json, null, string, array, object, value, end_of_values, Fields, field, end_of_fields,
}
use hulumi.Policies.IamPolicy.{iam_policy_statements}
use hulumi.Policies.Oidc.{has_wildcard}
use hulumi.Policies.Oidc.Trust.{
  federated_entry_is_github_oidc, federated_is_github_oidc, federated_of,
  inspect_aws_iam_trust_policy, uninspectable, no_condition, unsupported_operator, unsafe_subject,
}
use hulumi.Policies.Oidc.Trust.Guarded.{IsRestricted, inspect-IsRestricted}

abbrev one : Text → Json → Json
one name v = object (field name v end_of_fields)

abbrev subject : Text
subject =
    lit "repo:o/r:job_workflow_ref:o/r/.github/workflows/d.yml@refs/heads/main:environment:prod"

abbrev provider : Text
provider = lit "arn:aws:iam::1:oidc-provider/token.actions.githubusercontent.com"

abbrev principal : Json
principal = one (lit "Federated") (array (value (string provider) end_of_values))

abbrev trusted : Json → Json
trusted condition =
    one (lit "Statement")
      (object (field (lit "Principal") principal (field (lit "Condition") condition end_of_fields)))

abbrev condition : Text → Text → Json
condition operator text =
    one operator (one (lit "token.actions.githubusercontent.com:sub") (string text))

abbrev never : Text → Option Json
never s = none

abbrev bound : Json
bound = trusted (condition (lit "StringEquals") subject)

policies :
    (inspect_aws_iam_trust_policy never (some bound) ≡ none)
    × (inspect_aws_iam_trust_policy never (some (string (lit "{"))) ≡ some uninspectable)
    × (inspect_aws_iam_trust_policy never (some (trusted null)) ≡ some no_condition)
    × (inspect_aws_iam_trust_policy never (some (trusted (condition (lit "StringLike") subject)))
        ≡ some (unsupported_operator (lit "StringLike")))
    × (inspect_aws_iam_trust_policy never
          (some (trusted (condition (lit "StringEquals") (lit "repo:o/*"))))
        ≡ some (unsafe_subject has_wildcard))
unfolding inspect_aws_iam_trust_policy
policies = (refl, refl, refl, refl, refl)

issuers :
    (federated_entry_is_github_oidc (provider ++ lit ".evil.com") ≡ false)
    × (federated_entry_is_github_oidc (lit "https://token.actions.githubusercontent.com/x") ≡ true)
unfolding federated_entry_is_github_oidc
issuers = (refl, refl)

inspect-IsRestricted_example :
    (statements : List Fields) × (iam_policy_statements never (some bound) ≡ some statements)
    × All (λ s. (federated_is_github_oidc (federated_of s) ≡ false) ⊎ IsRestricted s) statements
unfolding inspect_aws_iam_trust_policy
inspect-IsRestricted_example = inspect-IsRestricted never (some bound) refl
