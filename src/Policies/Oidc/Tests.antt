-- ===== src/Policies/Oidc/Tests.antt =====
-- Subjects of GitHub Actions.
use hulumi.Prelude.{none, some, [], ◌∷◌, ◌++◌, Text, lit, ◌≡◌, refl}
use hulumi.Policies.Oidc.{
  not_a_string, has_wildcard, repeated_key, not_one_context, malformed_workflow, missing_keys,
  aws_subject_violation, bound_subject_violation,
}

abbrev workflow : Text
workflow = lit "job_workflow_ref:o/r/.github/workflows/d.yml@refs/heads/main"

abbrev deploy : Text
deploy = lit "repo:o/r:" ++ workflow ++ lit ":environment:prod"

subjects :
    (aws_subject_violation (some deploy) ≡ none)
    × (bound_subject_violation (some deploy) ≡ none)
    × (aws_subject_violation none ≡ some not_a_string)
    × (aws_subject_violation (some (lit "repo:o/*")) ≡ some has_wildcard)
    × (aws_subject_violation (some (lit "repo:o/r:repo:o/r")) ≡ some (repeated_key (lit "repo")))
    × (aws_subject_violation (some (lit "repo:o/r:" ++ workflow)) ≡ some not_one_context)
    × (aws_subject_violation (some (lit "repo:o/r:job_workflow_ref:o/r/d.yml:ref:refs/heads/main"))
        ≡ some malformed_workflow)
    × (bound_subject_violation (some (lit "repo:o/r:" ++ workflow))
        ≡ some (missing_keys (lit "environment" ∷ [])))
unfolding aws_subject_violation bound_subject_violation
subjects = (refl, refl, refl, refl, refl, refl, refl, refl)
