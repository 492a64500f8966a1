-- ===== src/Policies/IamPolicy/Tests.antt =====
-- Policies of IAM, and what they grant.
use hulumi.Prelude.{true, false, Option, some, Text, lit, ◌≡◌, refl}
use hulumi.Policies.Json.{Json, string, array, object, value, end_of_values, field, end_of_fields}
use hulumi.Policies.IamPolicy.{
  iam_policy_has_full_admin, iam_policy_has_unsafe_allow_complement,
  contains_administrator_access_arn,
}

abbrev policy : Text → Json → Json
policy actions v = object (
    field (lit "Statement")
      (object (
        field (lit "Effect") (string (lit "Allow"))
          (field actions v (field (lit "Resource") (string (lit "*")) end_of_fields))))
      end_of_fields)

abbrev all_actions : Json
all_actions = array (value (string (lit "*")) end_of_values)

abbrev parse : Text → Option Json
parse s = some (policy (lit "Action") all_actions)

grants :
    (iam_policy_has_full_admin parse (some (policy (lit "Action") all_actions)) ≡ true)
    × (iam_policy_has_full_admin parse (some (string (lit "{}"))) ≡ true)
    × (iam_policy_has_full_admin parse (some (policy (lit "NotAction") all_actions)) ≡ false)
    × (iam_policy_has_unsafe_allow_complement parse (some (policy (lit "NotAction") all_actions))
        ≡ true)
    × (contains_administrator_access_arn
          (some (string (lit "arn:aws-cn:iam::aws:policy/AdministratorAccess")))
        ≡ true)
unfolding iam_policy_has_full_admin iam_policy_has_unsafe_allow_complement
    contains_administrator_access_arn
grants = (refl, refl, refl, refl, refl)
