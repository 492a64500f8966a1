-- ===== src/Policies/Oidc/Gcp/Tests.antt =====
-- Conditions of GCP, and the theorem at one.
use hulumi.Prelude.{none, some, [], ◌∷◌, ◌++◌, Text, lit, ◌≡◌, ◌↔◌, refl}
use hulumi.Policies.Oidc.Gcp.{
  not_literal, not_tokens, not_conjunction, bound_twice, missing_assertions,
  gcp_condition_violation,
}
use hulumi.Policies.Oidc.Gcp.Grammar.{Conjunction}
use hulumi.Policies.Oidc.Gcp.Conjunction.{IsConjunctionOf, gcp_condition_iff}

abbrev condition : Text
condition =
    lit
      "assertion.repository == 'o/r' && ('w' == assertion.job_workflow_ref) && assertion.environment == 'prod'"

abbrev short : Text
short = lit "assertion.repository=='o/r'"

conditions :
    (gcp_condition_violation (some condition) ≡ none)
    × (gcp_condition_violation none ≡ some not_literal)
    × (gcp_condition_violation (some (lit "assertion.repository == 'o/r' || true"))
        ≡ some not_tokens)
    × (gcp_condition_violation (some (lit "assertion.repository == 'o/*'")) ≡ some not_conjunction)
    × (gcp_condition_violation (some (short ++ lit "&&" ++ short))
        ≡ some (bound_twice (lit "assertion.repository")))
    × (gcp_condition_violation (some short)
        ≡ some (
            missing_assertions
              (lit "assertion.job_workflow_ref" ∷ lit "assertion.environment" ∷ [])))
unfolding gcp_condition_violation
conditions = (refl, refl, refl, refl, refl, refl)

gcp_condition_iff_example :
    (gcp_condition_violation (some condition) ≡ none)
    ↔ ((c : Conjunction) × IsConjunctionOf condition c)
gcp_condition_iff_example = gcp_condition_iff condition
