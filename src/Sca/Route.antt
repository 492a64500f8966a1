-- ===== src/Sca/Route.antt =====
-- tools/sca/src/classify/route.ts: which track a vulnerable dependency takes.
pub mod Emergency
use hulumi.Prelude.{
  ℕ, Bool, true, false, not, ◌&&◌, ◌||◌, Option, none, some, is_some, List, [], ◌∷◌, Text, lit,
  trim, leb, if◌then◌else◌,
}
use hulumi.Prelude.Result.{Result, ok, err, throw_if, ◌>>◌}
use hulumi.Sca.Evidence.{
  FindingClass, malicious, critical, Provenance, available, unavailable, NormalizedEvidence,
  ScaError, known_malicious_without_fix, emergency_invariant_failed, is_empty,
}

pub data Track : Type 0 where
  emergency cadence dropped : Track

pub record RouteConfig : Type 0 where
  pub min_cvss : ℕ
  pub epss_threshold : ℕ
  pub treat_kev_as_emergency : Bool
  pub require_fix_available : Bool
  pub require_lockfile_presence : Bool

pub record RouteDecision : Type 0 where
  pub track : Track
  pub reason : Option Text

-- In the unit of a thousandth.
unfoldable pub default_route_config : RouteConfig
default_route_config = record {
  min_cvss = 9000;
  epss_threshold = 500;
  treat_kev_as_emergency = true;
  require_fix_available = true;
  require_lockfile_presence = true;
}

abbrev pub is_malicious : FindingClass → Bool
is_malicious malicious = true
is_malicious critical = false

abbrev pub is_unavailable : Provenance → Bool
is_unavailable available = false
is_unavailable unavailable = true

-- `value !== null && value >= bound`
abbrev pub at_least : Option ℕ → ℕ → Bool
at_least none bound = false
at_least (some n) bound = leb bound n

-- `value === true`
abbrev pub is_true : Option Bool → Bool
is_true none = false
is_true (some b) = b

unfoldable pub missing_severity_data : NormalizedEvidence → Bool
missing_severity_data evidence =
    not (is_malicious evidence.class)
    && (not (is_some evidence.cvss)
        || is_unavailable evidence.provenance.kev
        || is_unavailable evidence.provenance.epss)

-- `hasEmergencyReason`
unfoldable pub has_emergency_reason : NormalizedEvidence → RouteConfig → Bool
unfolding missing_severity_data
has_emergency_reason evidence config =
    is_malicious evidence.class
    || config.treat_kev_as_emergency && is_true evidence.kev_listed
    || at_least evidence.epss_score config.epss_threshold
    || at_least evidence.cvss config.min_cvss
    || missing_severity_data evidence

unfoldable pub assert_emergency_invariant :
    NormalizedEvidence → RouteConfig → Result ScaError (Unit {0})
unfolding has_emergency_reason
assert_emergency_invariant evidence config =
    throw_if
      (not (is_some evidence.fixed_version)
        || not evidence.dependency_review.present
        || not (has_emergency_reason evidence config))
      emergency_invariant_failed

abbrev pub is_blank : Option Text → Bool
is_blank none = true
is_blank (some version) = is_empty (trim version)

abbrev pub decided : Track → Option Text → Result ScaError RouteDecision
decided track reason = ok (record { track = track; reason = reason })

-- The routing of a dependency that may be routed to the emergency track.
unfoldable pub route_severity :
    NormalizedEvidence → RouteConfig → Bool → Result ScaError RouteDecision
unfolding has_emergency_reason assert_emergency_invariant
route_severity evidence config force =
    if force || has_emergency_reason evidence config
    then assert_emergency_invariant evidence config >> decided emergency none
    else decided cadence none

unfoldable pub route_without_fix : NormalizedEvidence → Bool → Result ScaError RouteDecision
unfolding assert_emergency_invariant default_route_config
route_without_fix evidence force =
    if force
    then assert_emergency_invariant evidence default_route_config
      >> decided dropped (some (lit "no fix"))
    else decided dropped (some (lit "no fix"))

-- `force` is `options.forceEmergencyForTest`.
unfoldable pub route_evidence :
    NormalizedEvidence → RouteConfig → Bool → Result ScaError RouteDecision
unfolding trim route_severity route_without_fix
route_evidence evidence config force =
    if not evidence.dependency_review.present && config.require_lockfile_presence
    then decided dropped (some (lit "not present in lockfile"))
    else if is_malicious evidence.class && is_blank evidence.fixed_version
    then err known_malicious_without_fix
    else if not (is_some evidence.fixed_version) && config.require_fix_available
    then route_without_fix evidence force
    else route_severity evidence config force
