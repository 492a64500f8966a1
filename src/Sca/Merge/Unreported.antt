-- ===== src/Sca/Merge/Unreported.antt =====
-- Which checks `mergeFromFiles` of tools/sca/src/cli/merge.ts asks for.
use hulumi.Prelude.{none, some, Text, lookup, ◌≡◌, ◌⊎◌}
use hulumi.Prelude.Result.{Result}
use hulumi.Sca.Merge.Audit.{success}
use hulumi.Sca.Merge.Files.{RemediationPlan}

-- The plan reports the check as a success, or does not report it.
abbrev pub IsNotRed : RemediationPlan → Text → Type 0
IsNotRed plan c = (lookup c plan.checks ≡ none) ⊎ (lookup c plan.checks ≡ some success)
