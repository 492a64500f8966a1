-- ===== src/Drift/Verdict.antt =====
-- packages/drift/src/verdict.ts: the verdict matrix.
use hulumi.Prelude.{true, false, not, ◌&&◌, ◌≡◌, ◌↔◌, arith, if◌then◌else◌}
use hulumi.Drift.Types.{DriftSource, Confidence, VerdictSnapshot, VerdictResult}

unfoldable pub hardened_verdict : VerdictSnapshot → VerdictResult
hardened_verdict s =
    if not s.mutated
    then record { source = DriftSource.none; confidence = Confidence.none }
    else if s.event_delivered && s.provider_drift
    then record { source = DriftSource.mixed; confidence = Confidence.high }
    else if s.event_delivered
    then record { source = DriftSource.console_break_glass; confidence = Confidence.high }
    else if s.event_in_transit
    then record { source = DriftSource.unknown; confidence = Confidence.low }
    else if s.provider_drift
    then record { source = DriftSource.provider_api_churn; confidence = Confidence.medium }
    else record { source = DriftSource.unknown; confidence = Confidence.low }

abbrev result : DriftSource → Confidence → VerdictResult
result s c = record { source = s; confidence = c }

-- The six rows of the documented matrix, each with the condition of its line and, for the second,
-- with the absence of provider drift, which the sixth takes.
pub data Row (s : VerdictSnapshot) (r : VerdictResult) : Type 0 where
  row1 : s.mutated ≡ false → r ≡ result DriftSource.none Confidence.none → Row s r
  row2 :
      s.mutated ≡ true
      → s.event_delivered ≡ true
      → s.provider_drift ≡ false
      → r ≡ result DriftSource.console_break_glass Confidence.high
      → Row s r
  row3 :
      s.mutated ≡ true
      → s.event_delivered ≡ false
      → s.event_in_transit ≡ true
      → r ≡ result DriftSource.unknown Confidence.low
      → Row s r
  row4 :
      s.mutated ≡ true
      → s.event_delivered ≡ false
      → s.event_in_transit ≡ false
      → s.provider_drift ≡ true
      → r ≡ result DriftSource.provider_api_churn Confidence.medium
      → Row s r
  row5 :
      s.mutated ≡ true
      → s.event_delivered ≡ false
      → s.event_in_transit ≡ false
      → s.provider_drift ≡ false
      → r ≡ result DriftSource.unknown Confidence.low
      → Row s r
  row6 :
      s.mutated ≡ true
      → s.event_delivered ≡ true
      → s.provider_drift ≡ true
      → r ≡ result DriftSource.mixed Confidence.high
      → Row s r

Row-sound : (s : VerdictSnapshot) (r : VerdictResult) → Row s r → hardened_verdict s ≡ r
unfolding hardened_verdict
Row-sound s r (row1 a e) = ground arith
Row-sound s r (row2 a b c e) = ground arith
Row-sound s r (row3 a b c e) = ground arith
Row-sound s r (row4 a b c d e) = ground arith
Row-sound s r (row5 a b c d e) = ground arith
Row-sound s r (row6 a b c e) = ground arith

Row-complete : (s : VerdictSnapshot) → Row s (hardened_verdict s)
unfolding hardened_verdict
Row-complete s = grind (arith, row1, row2, row3, row4, row5, row6)

-- The verdict of a snapshot is r exactly when one of the six documented rows has the snapshot's
-- condition and the result r.
pub hardened_verdict-iff_Row :
    (s : VerdictSnapshot) (r : VerdictResult) → (hardened_verdict s ≡ r) ↔ Row s r
hardened_verdict-iff_Row s r = (λ e. rw (← e) (Row-complete s), Row-sound s r)
