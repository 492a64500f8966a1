-- ===== src/Policies/Oidc.antt =====
-- packages/policies/src/github/g-oidc-1.ts: the subjects of GitHub Actions that a trust policy of
-- AWS or a federated credential of Azure may name. A subject that is not a string is `none`.
mod Patterns
pub mod Bound
pub mod Trust
pub mod Gcp
mod Tests
use hulumi.Prelude.{
  ℕ, Bool, true, false, not, ◌&&◌, ◌||◌, Option, none, some, List, [], ◌∷◌, Text, lit, text_eq,
  lookup, starts_with, any, split_on, trim, length, ltb, leb, ◌%◌, ◌==◌, is_some, get_or_else,
  if◌then◌else◌,
}
use hulumi.Prelude.Result.{Result, ok, err, throw_if, ◌>>◌, ◌>>=◌}
use hulumi.Policies.Urn.{is_empty}
unfoldable pub use Patterns.{is_subject_key, is_owner_repository, is_workflow_ref}

abbrev pub max_oidc_input_length : ℕ
max_oidc_input_length = 4096

abbrev pub required_subject_keys : List Text
required_subject_keys = lit "repo" ∷ lit "job_workflow_ref" ∷ lit "environment" ∷ []

abbrev pub required_aws_subject_keys : List Text
required_aws_subject_keys = lit "repo" ∷ lit "job_workflow_ref" ∷ []

abbrev pub Claims : Type 0
Claims = List (Text × Text)

-- One constructor for each message.
pub data SubjectViolation : Type 0 where
  not_a_string empty_subject too_long has_wildcard incomplete_pairs : SubjectViolation
  malformed_key repeated_key unsafe_value : (key : Text) → SubjectViolation
  missing_keys : List Text → SubjectViolation
  not_one_context malformed_repository malformed_workflow malformed_ref : SubjectViolation

unfoldable pub sub_claim_is_unsafe : Text → Bool
sub_claim_is_unsafe claim = is_empty claim || any (λ c. c == b'*') claim

unfoldable pub has_ascii_control : Text → Bool
has_ascii_control value = any (λ c. leb c 0x1f || c == 0x7f) value

unfoldable pub is_unsafe_value : Text → Bool
unfolding text_eq trim has_ascii_control sub_claim_is_unsafe
is_unsafe_value value =
    length value == 0
    || not (text_eq value (trim value))
    || has_ascii_control value
    || sub_claim_is_unsafe value

-- The body of the loop of `parseSubject`, before the rest of the loop.
abbrev pub add_claim :
    Claims → Text → Text → Result SubjectViolation Claims → Result SubjectViolation Claims
add_claim seen key value rest =
    if not (is_subject_key key)
    then err (malformed_key key)
    else if is_some (lookup key seen)
    then err (repeated_key key)
    else if is_unsafe_value value
    then err (unsafe_value key)
    else rest >>= λ claims. ok ((key, value) ∷ claims)

unfoldable pub parse_pairs : Claims → List Text → Result SubjectViolation Claims
unfolding lookup is_subject_key is_unsafe_value
parse_pairs seen [] = ok []
parse_pairs seen (key ∷ []) = err incomplete_pairs
parse_pairs seen (key ∷ value ∷ parts) =
    add_claim seen key value (parse_pairs ((key, value) ∷ seen) parts)

abbrev pub parse_parts : List Text → Result SubjectViolation Claims
parse_parts parts =
    if ltb (length parts) 2 || not (length parts % 2 == 0)
    then err incomplete_pairs
    else parse_pairs [] parts

unfoldable pub parse_subject : Option Text → Result SubjectViolation Claims
unfolding parse_pairs split_on sub_claim_is_unsafe
parse_subject none = err not_a_string
parse_subject (some subject) =
    if is_empty subject
    then err empty_subject
    else if ltb max_oidc_input_length (length subject)
    then err too_long
    else if sub_claim_is_unsafe subject
    then err has_wildcard
    else parse_parts (split_on b':' subject)

unfoldable pub missing : List Text → Claims → List Text
unfolding lookup
missing [] claims = []
missing (key ∷ keys) claims =
    let rest = missing keys claims in if is_some (lookup key claims) then rest else key ∷ rest

abbrev pub after_missing : List Text → Option SubjectViolation → Option SubjectViolation
after_missing [] next = next
after_missing (key ∷ keys) next = some (missing_keys (key ∷ keys))

abbrev pub violation_of :
    (Claims → Option SubjectViolation) → Result SubjectViolation Claims → Option SubjectViolation
violation_of test (ok claims) = test claims
violation_of test (err violation) = some violation

unfoldable pub bound_subject_violation : Option Text → Option SubjectViolation
unfolding parse_subject missing
bound_subject_violation subject =
    violation_of (λ claims. after_missing (missing required_subject_keys claims) none)
      (parse_subject subject)

-- `ref` is optional.
abbrev pub is_malformed_ref : Option Text → Bool
is_malformed_ref none = false
is_malformed_ref (some ref) =
    not (starts_with ref (lit "refs/"))
    || text_eq ref (lit "pull_request")
    || text_eq ref (lit "pull_request_target")

-- Exactly one of two.
abbrev pub is_one : Bool → Bool → Bool
is_one true second = not second
is_one false second = second

abbrev pub aws_values_violation : Claims → Option SubjectViolation
aws_values_violation claims =
    if not
      (is_one (is_some (lookup (lit "environment") claims)) (is_some (lookup (lit "ref") claims)))
    then some not_one_context
    else if not (is_owner_repository (get_or_else (lookup (lit "repo") claims) []))
    then some malformed_repository
    else if not (is_workflow_ref (get_or_else (lookup (lit "job_workflow_ref") claims) []))
    then some malformed_workflow
    else if is_malformed_ref (lookup (lit "ref") claims)
    then some malformed_ref
    else none

unfoldable pub aws_claims_violation : Claims → Option SubjectViolation
unfolding lookup missing is_owner_repository is_workflow_ref starts_with text_eq
aws_claims_violation claims =
    after_missing (missing required_aws_subject_keys claims) (aws_values_violation claims)

unfoldable pub aws_subject_violation : Option Text → Option SubjectViolation
unfolding parse_subject aws_claims_violation
aws_subject_violation subject = violation_of aws_claims_violation (parse_subject subject)
