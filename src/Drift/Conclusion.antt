-- ===== src/Drift/Conclusion.antt =====
-- The conclusion of packages/drift/src/classifier.ts: from a snapshot, CloudTrail and the Git log
-- to a source and a confidence, and the verdict with its recommendation.
use hulumi.Prelude.{
  Bool, true, false, not, ◌&&◌, Option, none, some, List, Text, lit, if◌then◌else◌,
}
use hulumi.Drift.Types.{
  DriftSource, Confidence, RemediationHint, Evidence, DriftVerdict, VerdictSnapshot, VerdictResult,
}
use hulumi.Drift.Verdict.{hardened_verdict}

unfoldable pub build_recommendation : DriftSource → Option RemediationHint
build_recommendation DriftSource.console_break_glass = some (record {
  action =
      lit
        "Investigate the console mutation. Confirm intent; if intentional, codify in IaC and re-apply.";
  doc = some (
      lit
        "https://github.com/kerberosmansour/hulumi/blob/main/docs/components/drift-classifier.md#console-break-glass");
})
build_recommendation DriftSource.provider_api_churn = some (record {
  action = lit "Re-pin @pulumi/aws after cooling-off (M5 contract: 72h minor/major, 24h patch).";
  doc =
      some
        (lit "https://github.com/kerberosmansour/hulumi/blob/main/SECURITY.md#pulumi-cooling-off");
})
build_recommendation DriftSource.genuine_iac_drift =
    some (record { action = lit "Run `pulumi up` to apply the local IaC changes."; doc = none })
build_recommendation DriftSource.mixed = some (record {
  action =
      lit "Multiple drift sources detected. Inspect evidence; resolve console mutations first.";
  doc = none;
})
build_recommendation DriftSource.unknown = some (record {
  action = lit "Re-run with --min-confidence=low after probe / shallow-clone issue is resolved.";
  doc = none;
})
build_recommendation DriftSource.none = none

abbrev pub result : DriftSource → Confidence → VerdictResult
result s c = record { source = s; confidence = c }

abbrev pub is_escalated : DriftSource → Bool
is_escalated DriftSource.mixed = true
is_escalated DriftSource.console_break_glass = true
is_escalated _ = false

abbrev pub is_unknown : DriftSource → Bool
is_unknown DriftSource.unknown = true
is_unknown _ = false

-- The correction by what CloudTrail itself observed.
unfoldable pub escalate : VerdictSnapshot → Bool → VerdictResult → VerdictResult
escalate s ct r =
    if s.mutated && ct
    then result (if s.provider_drift then DriftSource.mixed else DriftSource.console_break_glass)
        Confidence.high
    else if is_escalated r.source && not ct
    then (if s.provider_drift
        then result DriftSource.provider_api_churn Confidence.medium
        else result DriftSource.unknown Confidence.low)
    else r

unfoldable pub attribute_iac : VerdictSnapshot → Bool → VerdictResult → VerdictResult
attribute_iac s gl r =
    if s.mutated && gl && is_unknown r.source
    then result DriftSource.genuine_iac_drift Confidence.medium
    else r

unfoldable pub correlate : VerdictSnapshot → (ct gl : Bool) → VerdictResult
unfolding hardened_verdict escalate attribute_iac
correlate s ct gl = attribute_iac s gl (escalate s ct (hardened_verdict s))

abbrev pub make_verdict : Text → VerdictResult → List Evidence → DriftVerdict
make_verdict resource r evidence = record {
  resource = resource;
  source = r.source;
  confidence = r.confidence;
  evidence = evidence;
  recommendation = build_recommendation r.source;
  tier_degraded = none;
  feature_not_licensed = none;
}
