-- ===== src/Drift/Monotonicity.antt =====
-- packages/drift/src/monotonicity.ts: a verdict is not replaced by a less confident one.
use hulumi.Prelude.{ℕ, Bool, true, false, Option, none, some, leb}
use hulumi.Prelude.{if◌then◌else◌}
use hulumi.Drift.Types.{Confidence, DriftVerdict}

abbrev pub confidence_rank : Confidence → ℕ
confidence_rank Confidence.none = 0
confidence_rank Confidence.low = 1
confidence_rank Confidence.medium = 2
confidence_rank Confidence.high = 3

-- The reason that is reported, with what its text names.
pub data Reason : Type 0 where
  no_prior_entry : Reason
  non_decreasing : (prior next : Confidence) → Reason
  refusing_to_demote : (existing incoming : DriftVerdict) → Reason

pub record MonotonicityResult : Type 0 where
  pub allow_write : Bool
  pub reason : Reason

unfoldable pub check_monotonicity : Option DriftVerdict → DriftVerdict → MonotonicityResult
check_monotonicity none incoming = record { allow_write = true; reason = no_prior_entry }
check_monotonicity (some existing) incoming =
    if leb (confidence_rank existing.confidence) (confidence_rank incoming.confidence)
    then record {
      allow_write = true;
      reason = non_decreasing existing.confidence incoming.confidence;
    }
    else record { allow_write = false; reason = refusing_to_demote existing incoming }
