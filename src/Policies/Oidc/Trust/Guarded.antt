-- ===== src/Policies/Oidc/Trust/Guarded.antt =====
-- What a trust policy that packages/policies/src/github/g-oidc-1.ts lets through restricts.
use hulumi.Prelude.{
  false, Option, none, some, List, [], ◌∷◌, Text, lit, text_eq, text_eq_iff, All, Bool-cases, ◌≡◌,
  ◌⊎◌, inl, inr, refl, ap₂,
}
use hulumi.Policies.Json.{Json, string, Fields, entries, get}
use hulumi.Policies.IamPolicy.{fields_of, iam_policy_statements}
use hulumi.Policies.Oidc.{Claims, SubjectViolation, aws_subject_violation}
use hulumi.Policies.Oidc.Bound.{IsExact, IsBound, aws_subject-IsBound}
use hulumi.Policies.Oidc.Trust.{
  Restriction, restrictions, TrustViolation, value_violation, restriction_violation,
  condition_violation, statement_violation, statements_violation, first_violation, inspected,
  inspect_aws_iam_trust_policy, federated_is_github_oidc, federated_of, unsafe,
}

-- The condition of a statement has one restriction of the subject, to one text, whose claims are
-- bound.
pub record IsRestricted (statement : Fields) : Type 0 where
  pub conditions : Fields
  pub is_condition : fields_of (get (lit "Condition") statement) ≡ some conditions
  pub subject : Text
  pub only :
      restrictions (entries conditions)
      ≡ record { operator = lit "StringEquals"; value = string subject } ∷ []
  pub claims : Claims
  pub exact : IsExact subject claims
  pub bound : IsBound claims

unsafe_none : (v : Option SubjectViolation) → unsafe v ≡ none → v ≡ none
unsafe_none none h = refl
unsafe_none (some v) h = cc

literal_value :
    (v : Json)
    → value_violation v ≡ none
    → (subject : Text) × (v ≡ string subject) × (aws_subject_violation (some subject) ≡ none)
literal_value (string subject) h = (subject, refl, unsafe_none _ h)
literal_value Json.null h = cc
literal_value (Json.boolean b) h = cc
literal_value (Json.number n) h = cc
literal_value (Json.array vs) h = cc
literal_value (Json.object fs) h = cc

one_restriction :
    (rs : List Restriction)
    → restriction_violation rs ≡ none
    → (subject : Text) × (rs
        ≡ record { operator = lit "StringEquals"; value = string subject } ∷ [])
      × (aws_subject_violation (some subject) ≡ none)
one_restriction [] h = cc
one_restriction (r ∷ q ∷ rs) h = cc
one_restriction (r ∷ []) h = elim (Bool-cases (text_eq r.operator (lit "StringEquals"))) [
  | inr other ↦ let k = rw other at h in cc
  | inl equals ↦
      let (subject, is_literal, safe) = literal_value r.value (rw equals at h) in
      (
        subject,
        ap₂ (λ operator value. record { operator = operator; value = value } ∷ [])
            ((text_eq_iff r.operator (lit "StringEquals")).0 equals) is_literal,
        safe,
      )
]

condition_restricts :
    (statement : Fields) (condition : Option Fields)
    → fields_of (get (lit "Condition") statement) ≡ condition
    → condition_violation condition ≡ none
    → IsRestricted statement
condition_restricts statement none e h = cc
condition_restricts statement (some conditions) e h =
    let (subject, only, safe) = one_restriction (restrictions (entries conditions)) h in
    let (claims, exact, bound) = aws_subject-IsBound subject safe in
    record {
      conditions = conditions;
      is_condition = e;
      subject = subject;
      only = only;
      claims = claims;
      exact = exact;
      bound = bound;
    }

statement-IsRestricted :
    (s : Fields)
    → statement_violation s ≡ none
    → (federated_is_github_oidc (federated_of s) ≡ false) ⊎ IsRestricted s
unfolding statement_violation
statement-IsRestricted s h = elim (Bool-cases (federated_is_github_oidc (federated_of s))) [
  | inr other ↦ inl other
  | inl github ↦ inr (condition_restricts s _ refl (rw github at h))
]

first_none :
    (first later : Option TrustViolation)
    → first_violation first later ≡ none
    → (first ≡ none) × (later ≡ none)
first_none none later h = (refl, h)
first_none (some v) later h = cc

statements-IsRestricted :
    (statements : List Fields)
    → statements_violation statements ≡ none
    → All (λ s. (federated_is_github_oidc (federated_of s) ≡ false) ⊎ IsRestricted s) statements
unfolding statements_violation
statements-IsRestricted [] h = tt
statements-IsRestricted (s ∷ statements) h =
    let (first, later) = first_none (statement_violation s) (statements_violation statements) h in
    (statement-IsRestricted s first, statements-IsRestricted statements later)

inspected_none :
    (statements : Option (List Fields))
    → inspected statements ≡ none
    → (found : List Fields) × (statements ≡ some found) × (statements_violation found ≡ none)
inspected_none none h = cc
inspected_none (some found) h = (found, refl, h)

-- A trust policy without a violation has statements, and each that trusts the issuer of GitHub has
-- one restriction of the subject, a StringEquals to one text, which is spelled by claims with
-- distinct keys, among which are an exact repository, a workflow at an exact branch or tag, and
-- exactly one of an environment and a ref.
pub inspect-IsRestricted :
    (json_parse : Text → Option Json) (policy : Option Json)
    → inspect_aws_iam_trust_policy json_parse policy ≡ none
    → (statements : List Fields) × (iam_policy_statements json_parse policy ≡ some statements)
      × All (λ s. (federated_is_github_oidc (federated_of s) ≡ false) ⊎ IsRestricted s) statements
unfolding inspect_aws_iam_trust_policy
inspect-IsRestricted json_parse policy h =
    let (statements, found, safe) = inspected_none (iam_policy_statements json_parse policy) h in
    (statements, found, statements-IsRestricted statements safe)
