-- ===== src/Sca/Tests.antt =====
-- The triage of three findings, and the theorems at them.
use hulumi.Prelude.{
  ℕ, Bool, true, false, Option, none, some, List, [], ◌∷◌, Text, lit, lookup, All, ◌≡◌, ◌≢◌, ◌↔◌,
  ◌⊎◌, trim, refl,
}
use hulumi.Prelude.Result.{Result, ok, err}
use hulumi.Sca.Evidence.{
  npm, critical, available, RawScanFinding, SourceEnrichment, ScaError, NormalizedEvidence,
  known_malicious_without_fix,
}
use hulumi.Sca.Route.{emergency, default_route_config, decided, route_evidence}
use hulumi.Sca.Route.Emergency.{EmergencyReason, route_emergency_iff}
use hulumi.Sca.Store.{FindingRecord, StateStoreData, create_empty_state, remediated}
use hulumi.Sca.Triage.{TriageOptions, TriageState, initial, triage}
use hulumi.Sca.Triage.Once.{IsTally, triage-IsTally, triage-keeps}

abbrev finding : Text → RawScanFinding
finding advisory_id = record {
  ecosystem = npm;
  package_name = lit "p";
  version = lit "1";
  advisory_id = advisory_id;
  manifest_path = lit "package-lock.json";
}

abbrev enrichment : Option Text → ℕ → SourceEnrichment
enrichment fixed_version cvss = record {
  fixed_version = fixed_version;
  severity_class = some critical;
  present = some true;
  cvss = some cvss;
  cvss_unavailable = false;
  ghsa_id = none;
  kev_listed = none;
  kev_unavailable = false;
  epss_score = some 10;
  epss_unavailable = false;
  published_at = none;
}

abbrev options : Option ℕ → TriageOptions
options expected = record {
  enrichments =
      (lit "GHSA-a", enrichment (some (lit "2")) 9800)
      ∷ (lit "GHSA-b", enrichment (some (lit "2")) 7200)
      ∷ (lit "GHSA-c", enrichment none 9800)
      ∷ (lit "GHSA-d", enrichment (some (lit "3")) 9900)
      ∷ [];
  expected_revision = expected;
  force_emergency_for_test = false;
  config = default_route_config;
  now = lit "2026-01-01T00:00:00Z";
}

abbrev any_date : Text → Bool
any_date t = true

abbrev findings : List RawScanFinding
findings = finding (lit "GHSA-a") ∷ finding (lit "GHSA-b") ∷ finding (lit "GHSA-c") ∷ []

abbrev outcome : Result ScaError TriageState → TriageState
outcome (ok s) = s
outcome (err e) = initial create_empty_state

abbrev numbers : TriageState → ℕ × ℕ
numbers s = (s.store.revision, s.deduped_count)

abbrev out : TriageState
unfolding triage default_route_config
out = outcome (triage any_date (options none) create_empty_state findings)

routes : numbers (outcome (triage any_date (options none) create_empty_state findings)) ≡ (3, 0)
unfolding triage default_route_config
routes = refl

malicious_refused :
    triage any_date (options none) create_empty_state (finding (lit "MAL-1") ∷ [])
    ≡ err known_malicious_without_fix
unfolding triage default_route_config
malicious_refused = refl

-- With an expected revision, the first claim changes the revision, and the second emergency of the
-- same triage is skipped as a duplicate although nothing records it.
second_emergency_lost :
    numbers (
      outcome (
        triage any_date
          (options (some 0))
          create_empty_state
          (finding (lit "GHSA-a") ∷ finding (lit "GHSA-d") ∷ [])))
    ≡ (1, 1)
unfolding triage default_route_config
second_emergency_lost = refl

triage-IsTally_example : IsTally create_empty_state 3 out
unfolding triage default_route_config
triage-IsTally_example = triage-IsTally any_date (options none) create_empty_state findings out refl

abbrev kept : FindingRecord
kept = record {
  finding_key = lit "npm:p@1:GHSA-a";
  advisory_id = lit "GHSA-a";
  ecosystem = npm;
  package_name = lit "p";
  affected_version = lit "1";
  class = critical;
  track = emergency;
  fixed_version = some (lit "2");
  state = remediated;
  manifest_paths = lit "package-lock.json" ∷ [];
  first_seen = lit "2025-01-01T00:00:00Z";
  last_seen = lit "2025-01-01T00:00:00Z";
  remediation_ref = none;
  audit_record_path = none;
  reason = none;
}

abbrev remediated_store : StateStoreData
remediated_store = record { revision = 4; findings = (kept.finding_key, kept) ∷ [] }

abbrev later_out : TriageState
unfolding triage default_route_config
later_out = outcome (triage any_date (options none) remediated_store findings)

triage-keeps_example :
    (lookup kept.finding_key later_out.store.findings ≡ some kept)
    × All (λ w. w.finding_key ≢ kept.finding_key) later_out.work_items
unfolding triage default_route_config lookup
triage-keeps_example =
    triage-keeps any_date (options none) remediated_store findings later_out kept.finding_key kept
      refl refl

abbrev known : NormalizedEvidence
known = record {
  finding_key = lit "npm:p@1:GHSA-a";
  advisory_id = lit "GHSA-a";
  class = critical;
  fixed_version = some (lit "2");
  dependency_review = record { present = true; vulnerable_transitives = [] };
  ghsa_id = some (lit "GHSA-a");
  cvss = some 9800;
  kev_listed = some false;
  epss_score = some 10;
  epss_available = true;
  published_at = none;
  provenance = record {
    osv = available;
    dependency_review = available;
    ghsa = available;
    kev = available;
    epss = available;
    registry = available;
  };
  manifest_paths = lit "package-lock.json" ∷ [];
  raw = finding (lit "GHSA-a");
}

route_emergency_iff_example :
    (route_evidence known default_route_config false ≡ decided emergency none) ↔ (
      (true ≡ true)
      × ((version : Text) × (known.fixed_version ≡ some version)
          × ((critical ≡ critical) ⊎ (trim version ≢ [])))
      × EmergencyReason known default_route_config)
route_emergency_iff_example = route_emergency_iff known default_route_config false
