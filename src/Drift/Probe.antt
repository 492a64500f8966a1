-- ===== src/Drift/Probe.antt =====
-- packages/drift/src/probe.ts, and the probe timeout of packages/drift/src/classifier.ts. The
-- probe itself and the timer are not modelled: what they came to is an argument.
use hulumi.Prelude.{
  ℕ, Bool, true, false, Option, none, some, List, [], ◌∷◌, Text, lit, text_eq, trim, if◌then◌else◌,
}

-- How the race of the probe and the timer ended; `threw` also stands for the timeout.
pub data ProbeOutcome : Type 0 where
  finished : (delivered in_transit : Bool) → ProbeOutcome
  threw : (message : Text) → ProbeOutcome

pub record ProbeResult : Type 0 where
  pub ok : Bool
  pub event_delivered : Bool
  pub event_in_transit : Bool
  pub probe_failed_at : Option ℕ
  pub message : Option Text

unfoldable pub run_probe : ProbeOutcome → ℕ → ProbeResult
run_probe (finished delivered in_transit) now = record {
  ok = true;
  event_delivered = delivered;
  event_in_transit = in_transit;
  probe_failed_at = none;
  message = none;
}
run_probe (threw message) now = record {
  ok = false;
  event_delivered = false;
  event_in_transit = false;
  probe_failed_at = some now;
  message = some message;
}

abbrev pub default_probe_timeout_ms : ℕ
default_probe_timeout_ms = 60000

unfoldable pub region_probe_timeout_ms : List (Text × ℕ)
region_probe_timeout_ms =
    (lit "us-east-1", 60000)
    ∷ (lit "us-east-2", 60000)
    ∷ (lit "us-west-1", 60000)
    ∷ (lit "us-west-2", 60000)
    ∷ (lit "eu-west-1", 60000)
    ∷ (lit "eu-west-2", 60000)
    ∷ (lit "eu-central-1", 60000)
    ∷ (lit "ap-southeast-1", 90000)
    ∷ (lit "ap-southeast-2", 90000)
    ∷ (lit "ap-southeast-3", 120000)
    ∷ []

unfoldable pub first_non_blank : List (Option Text) → Option Text
first_non_blank [] = none
first_non_blank (none ∷ rest) = first_non_blank rest
first_non_blank (some value ∷ rest) = elim (trim value) [
  | [] ↦ first_non_blank rest
  | x ∷ xs ↦ some (x ∷ xs)
]

abbrev timeout_for : Text → List (Text × ℕ) → ℕ
timeout_for region [] = default_probe_timeout_ms
timeout_for region ((name, ms) ∷ rest) = if text_eq name region then ms else timeout_for region rest

abbrev timeout_of : Option Text → ℕ
timeout_of none = default_probe_timeout_ms
timeout_of (some region) = timeout_for region region_probe_timeout_ms

pub record ResolveProbeTimeoutArgs : Type 0 where
  pub probe_timeout_ms : Option ℕ
  pub option_region : Option Text
  pub classifier_region : Option Text
  pub env_aws_region : Option Text
  pub env_aws_default_region : Option Text

unfoldable pub resolve_probe_timeout_ms : ResolveProbeTimeoutArgs → ℕ
unfolding first_non_blank
resolve_probe_timeout_ms args = elim args.probe_timeout_ms [
  | some ms ↦ ms
  | none ↦ timeout_of (
      first_non_blank (
        args.option_region ∷ args.classifier_region ∷ args.env_aws_region
        ∷ args.env_aws_default_region ∷ []))
]
