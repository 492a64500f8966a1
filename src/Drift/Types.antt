-- ===== src/Drift/Types.antt =====
-- packages/drift/src/types.ts: the data that the drift package passes around. An instant is a
-- number of milliseconds since the epoch, where the source holds an ISO string made from it.
use hulumi.Prelude.{ℕ, Bool, Option, List, Text}

pub data DriftSource : Type 0 where
  none provider_api_churn console_break_glass genuine_iac_drift mixed unknown : DriftSource

pub data Confidence : Type 0 where
  none low medium high : Confidence

pub record RemediationHint : Type 0 where
  pub action : Text
  pub doc : Option Text

-- `raw: unknown`, by where it comes from. What an adapter sends is opaque.
pub data Raw : Type 0 where
  empty : Raw
  opaque : Text → Raw
  adapter_rejected : (adapter reason : Text) → Raw
  probe_failure : (failed_at : ℕ) (message : Text) → Raw

pub record Evidence : Type 0 where
  pub adapter : Text
  pub signal_kind : Text
  pub raw : Raw
  pub timestamp : ℕ

pub record DriftVerdict : Type 0 where
  pub resource : Text
  pub source : DriftSource
  pub confidence : Confidence
  pub evidence : List Evidence
  pub recommendation : Option RemediationHint
  pub tier_degraded : Option Bool
  pub feature_not_licensed : Option (List Text)

pub record AdapterSignal : Type 0 where
  pub detected : Bool
  pub payload : Raw
  pub ok : Bool

pub record EvidenceWindow : Type 0 where
  pub after : Text
  pub before : Text

pub record ClassifyOptions : Type 0 where
  pub window : Option EvidenceWindow
  pub min_confidence : Option Confidence
  pub require_adapters : Option (List Text)
  pub aws_region : Option Text
  pub probe_timeout_ms : Option ℕ
  pub cache_ttl_seconds : Option ℕ
  pub cache_dir : Option Text

pub record VerdictSnapshot : Type 0 where
  pub mutated : Bool
  pub event_in_transit : Bool
  pub event_delivered : Bool
  pub provider_drift : Bool

pub record VerdictResult : Type 0 where
  pub source : DriftSource
  pub confidence : Confidence
