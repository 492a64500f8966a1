-- ===== src/Policies/Oidc/Trust.antt =====
-- The inspection of the trust policy of an AWS role of packages/policies/src/github/g-oidc-1.ts,
-- and the issuer of packages/policies/src/github/github-oidc-issuer.ts. A violation is the first
-- that is reported, since the inspection returns after it.
pub mod Guarded
mod Tests
use hulumi.Prelude.{
  ℕ, Bool, true, false, not, Option, none, some, List, [], ◌∷◌, Text, lit, text_eq, any, ◌==◌,
  length, if◌then◌else◌,
}
use hulumi.Policies.Json.{Json, string, array, object, Fields, values, entries, get}
use hulumi.Policies.IamPolicy.{fields_of, iam_policy_statements}
use hulumi.Policies.Oidc.{SubjectViolation, aws_subject_violation}

abbrev pub github_oidc_issuer_host : Text
github_oidc_issuer_host = lit "token.actions.githubusercontent.com"

abbrev pub github_oidc_sub_claim : Text
github_oidc_sub_claim = lit "token.actions.githubusercontent.com:sub"

-- What follows a prefix, if the text has it.
unfoldable strip_prefix : Text → Text → Option Text
strip_prefix [] s = some s
strip_prefix (p ∷ prefix) [] = none
strip_prefix (p ∷ prefix) (c ∷ s) =
    let rest = strip_prefix prefix s in if c == p then rest else none

abbrev or_else : Option Text → Option Text → Option Text
or_else (some s) other = some s
or_else none other = other

-- What follows the first occurrence of a marker.
unfoldable after_first : Text → Text → Option Text
unfolding strip_prefix
after_first marker [] = strip_prefix marker []
after_first marker (c ∷ s) = or_else (strip_prefix marker (c ∷ s)) (after_first marker s)

abbrev found_or : Text → Option Text → Text
found_or s (some t) = t
found_or s none = s

-- `host.replace(/^https?:\/\//, "")`
unfoldable without_scheme : Text → Text
unfolding strip_prefix
without_scheme s =
    found_or s (or_else (strip_prefix (lit "https://") s) (strip_prefix (lit "http://") s))

unfoldable until_slash : Text → Text
until_slash [] = []
until_slash (c ∷ s) = let rest = until_slash s in if c == b'/' then [] else c ∷ rest

unfoldable pub federated_entry_is_github_oidc : Text → Bool
unfolding after_first without_scheme until_slash text_eq
federated_entry_is_github_oidc entry =
    text_eq
      (until_slash (without_scheme (found_or entry (after_first (lit "oidc-provider/") entry))))
      github_oidc_issuer_host

abbrev is_github_entry : Json → Bool
unfolding federated_entry_is_github_oidc
is_github_entry (string entry) = federated_entry_is_github_oidc entry
is_github_entry _ = false

unfoldable pub federated_is_github_oidc : Option Json → Bool
unfolding federated_entry_is_github_oidc
federated_is_github_oidc (some (array vs)) = any is_github_entry (values vs)
federated_is_github_oidc (some v) = is_github_entry v
federated_is_github_oidc none = false

abbrev field_of : Text → Option Fields → Option Json
unfolding get
field_of name (some fs) = get name fs
field_of name none = none

-- `s.Principal.Federated`, undefined where the principal is not an object.
unfoldable pub federated_of : Fields → Option Json
unfolding get
federated_of statement = field_of (lit "Federated") (fields_of (get (lit "Principal") statement))

pub record Restriction : Type 0 where
  pub operator : Text
  pub value : Json

abbrev restrict : Text → Option Json → List Restriction → List Restriction
restrict operator none rest = rest
restrict operator (some v) rest = record { operator = operator; value = v } ∷ rest

unfoldable pub restrictions : List (Text × Json) → List Restriction
unfolding get
restrictions [] = []
restrictions ((operator, raw) ∷ conditions) =
    restrict operator (field_of github_oidc_sub_claim (fields_of (some raw)))
      (restrictions conditions)

pub data TrustViolation : Type 0 where
  uninspectable no_condition not_literal : TrustViolation
  not_one_restriction : ℕ → TrustViolation
  unsupported_operator : Text → TrustViolation
  unsafe_subject : SubjectViolation → TrustViolation

abbrev pub unsafe : Option SubjectViolation → Option TrustViolation
unsafe none = none
unsafe (some violation) = some (unsafe_subject violation)

abbrev pub value_violation : Json → Option TrustViolation
value_violation (string subject) = unsafe (aws_subject_violation (some subject))
value_violation _ = some not_literal

abbrev pub restriction_violation : List Restriction → Option TrustViolation
restriction_violation (r ∷ []) =
    if not (text_eq r.operator (lit "StringEquals"))
    then some (unsupported_operator r.operator)
    else value_violation r.value
restriction_violation rs = some (not_one_restriction (length rs))

abbrev pub condition_violation : Option Fields → Option TrustViolation
condition_violation none = some no_condition
condition_violation (some conditions) = restriction_violation (restrictions (entries conditions))

-- The body of the loop over the statements.
unfoldable pub statement_violation : Fields → Option TrustViolation
unfolding federated_of federated_is_github_oidc get restrictions text_eq aws_subject_violation
statement_violation s =
    if not (federated_is_github_oidc (federated_of s))
    then none
    else condition_violation (fields_of (get (lit "Condition") s))

abbrev pub first_violation : Option TrustViolation → Option TrustViolation → Option TrustViolation
first_violation (some v) later = some v
first_violation none later = later

unfoldable pub statements_violation : List Fields → Option TrustViolation
unfolding statement_violation
statements_violation [] = none
statements_violation (s ∷ statements) =
    first_violation (statement_violation s) (statements_violation statements)

abbrev pub inspected : Option (List Fields) → Option TrustViolation
inspected none = some uninspectable
inspected (some statements) = statements_violation statements

unfoldable pub inspect_aws_iam_trust_policy :
    (Text → Option Json) → Option Json → Option TrustViolation
unfolding iam_policy_statements statements_violation
inspect_aws_iam_trust_policy json_parse policy = inspected (iam_policy_statements json_parse policy)
