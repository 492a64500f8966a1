-- ===== src/Policies/IamPolicy.antt =====
-- packages/policies/src/aws/iam-policy.ts: the statements of an IAM policy, and what they grant. What
-- `JSON.parse` answers is an argument, `none` where it throws.
mod Tests
use hulumi.Prelude.{
  ℕ, Bool, true, false, not, ◌&&◌, ◌||◌, Option, none, some, List, [], ◌∷◌, Text, lit, text_eq,
  text_contains, any, length, ltb, ◌==◌, is_some, if◌then◌else◌,
}
use hulumi.Policies.Urn.{is_empty}
use hulumi.Policies.Json.{Json, string, array, object, Fields, values, get}

abbrev pub aws_administrator_access_arns : List Text
aws_administrator_access_arns =
    lit "arn:aws:iam::aws:policy/AdministratorAccess"
    ∷ lit "arn:aws-us-gov:iam::aws:policy/AdministratorAccess"
    ∷ lit "arn:aws-cn:iam::aws:policy/AdministratorAccess"
    ∷ []

abbrev pub fields_of : Option Json → Option Fields
fields_of (some (object fs)) = some fs
fields_of _ = none

abbrev pub document_of : (Text → Option Json) → Option Json → Option Fields
document_of json_parse (some (string policy)) =
    if is_empty policy || ltb 262144 (length policy) then none else fields_of (json_parse policy)
document_of json_parse policy = fields_of policy

abbrev add_statement : Option Fields → Option (List Fields) → Option (List Fields)
add_statement (some statement) (some statements) = some (statement ∷ statements)
add_statement _ _ = none

abbrev pub records_of : List Json → Option (List Fields)
records_of [] = some []
records_of (v ∷ vs) = add_statement (fields_of (some v)) (records_of vs)

abbrev bounded_records : List Json → Option (List Fields)
bounded_records vs = if length vs == 0 || ltb 1000 (length vs) then none else records_of vs

abbrev statements_in : Option Json → Option (List Fields)
statements_in none = none
statements_in (some (array vs)) = bounded_records (values vs)
statements_in (some v) = bounded_records (v ∷ [])

abbrev statements_of : Option Fields → Option (List Fields)
unfolding get
statements_of none = none
statements_of (some document) = statements_in (get (lit "Statement") document)

unfoldable pub iam_policy_statements : (Text → Option Json) → Option Json → Option (List Fields)
unfolding get
iam_policy_statements json_parse policy = statements_of (document_of json_parse policy)

abbrev is_string : Text → Option Json → Bool
unfolding text_eq
is_string s (some (string t)) = text_eq t s
is_string s _ = false

unfoldable pub includes_exact_wildcard : Option Json → Bool
unfolding text_eq
includes_exact_wildcard (some (string s)) = text_eq s (lit "*")
includes_exact_wildcard (some (array vs)) = any (λ v. is_string (lit "*") (some v)) (values vs)
includes_exact_wildcard _ = false

abbrev some_statement : (Fields → Bool) → Option (List Fields) → Bool
some_statement test none = false
some_statement test (some statements) = any test statements

unfoldable pub iam_policy_has_full_admin : (Text → Option Json) → Option Json → Bool
unfolding iam_policy_statements includes_exact_wildcard get text_eq
iam_policy_has_full_admin json_parse policy =
    some_statement
      (λ s.
        is_string (lit "Allow") (get (lit "Effect") s)
        && includes_exact_wildcard (get (lit "Action") s)
        && includes_exact_wildcard (get (lit "Resource") s))
      (iam_policy_statements json_parse policy)

unfoldable pub iam_policy_has_unsafe_allow_complement : (Text → Option Json) → Option Json → Bool
unfolding iam_policy_statements get text_eq
iam_policy_has_unsafe_allow_complement json_parse policy =
    some_statement
      (λ s.
        is_string (lit "Allow") (get (lit "Effect") s)
        && (is_some (get (lit "NotAction") s) || is_some (get (lit "NotResource") s)))
      (iam_policy_statements json_parse policy)

abbrev is_administrator_access_arn : Json → Bool
unfolding text_contains
is_administrator_access_arn (string s) = text_contains aws_administrator_access_arns s
is_administrator_access_arn _ = false

unfoldable pub contains_administrator_access_arn : Option Json → Bool
unfolding text_contains
contains_administrator_access_arn (some (array vs)) = any is_administrator_access_arn (values vs)
contains_administrator_access_arn (some v) = is_administrator_access_arn v
contains_administrator_access_arn none = false
