-- ===== src/Drift/Classifier/Judgement.antt =====
-- What the classifier concludes from a run (packages/drift/src/classifier.ts), against a table that
-- is stated by kinds of evidence.
use hulumi.Prelude.{Bool, true, false, ◌≡◌, ◌↔◌, ◌⊎◌, arith}
use hulumi.Drift.Types.{DriftSource, Confidence, VerdictSnapshot, VerdictResult}
use hulumi.Drift.Conclusion.{result, correlate}

-- The probe's event is on its way and has not arrived.
abbrev pub IsPending : VerdictSnapshot → Type 0
IsPending s = (s.event_delivered ≡ false) × (s.event_in_transit ≡ true)

-- `ct` and `gl` tell whether CloudTrail and the Git log observed a change.
pub data Judgement (s : VerdictSnapshot) (ct gl : Bool) (r : VerdictResult) : Type 0 where
  clean : s.mutated ≡ false → r ≡ result DriftSource.none Confidence.none → Judgement s ct gl r
  console :
      s.mutated ≡ true
      → ct ≡ true
      → s.provider_drift ≡ false
      → r ≡ result DriftSource.console_break_glass Confidence.high
      → Judgement s ct gl r
  console_and_provider :
      s.mutated ≡ true
      → ct ≡ true
      → s.provider_drift ≡ true
      → r ≡ result DriftSource.mixed Confidence.high
      → Judgement s ct gl r
  provider :
      s.mutated ≡ true
      → ct ≡ false
      → s.provider_drift ≡ true
      → (s.event_delivered ≡ true) ⊎ (s.event_in_transit ≡ false)
      → r ≡ result DriftSource.provider_api_churn Confidence.medium
      → Judgement s ct gl r
  iac :
      s.mutated ≡ true
      → ct ≡ false
      → (s.provider_drift ≡ false) ⊎ IsPending s
      → gl ≡ true
      → r ≡ result DriftSource.genuine_iac_drift Confidence.medium
      → Judgement s ct gl r
  unexplained :
      s.mutated ≡ true
      → ct ≡ false
      → (s.provider_drift ≡ false) ⊎ IsPending s
      → gl ≡ false
      → r ≡ result DriftSource.unknown Confidence.low
      → Judgement s ct gl r

correlate_sound :
    (s : VerdictSnapshot) (ct gl : Bool) (r : VerdictResult)
    → Judgement s ct gl r
    → correlate s ct gl ≡ r
unfolding correlate
correlate_sound s ct gl r (clean a e) = ground arith
correlate_sound s ct gl r (console a b c e) = ground arith
correlate_sound s ct gl r (console_and_provider a b c e) = ground arith
correlate_sound s ct gl r (provider a b c d e) = ground arith
correlate_sound s ct gl r (iac a b c d e) = ground arith
correlate_sound s ct gl r (unexplained a b c d e) = ground arith

correlate_complete : (s : VerdictSnapshot) (ct gl : Bool) → Judgement s ct gl (correlate s ct gl)
unfolding correlate
correlate_complete s ct gl =
    grind (arith, clean, console, console_and_provider, provider, iac, unexplained)

-- The classifier's conclusion from a snapshot, CloudTrail and the Git log is r exactly when one
-- row of the table by kinds of evidence has this condition and the result r. In particular a
-- console change is claimed only where CloudTrail observed one, whatever the probe says.
pub correlate-iff_Judgement :
    (s : VerdictSnapshot) (ct gl : Bool) (r : VerdictResult)
    → (correlate s ct gl ≡ r) ↔ Judgement s ct gl r
correlate-iff_Judgement s ct gl r =
    (λ e. rw (← e) (correlate_complete s ct gl), correlate_sound s ct gl r)
