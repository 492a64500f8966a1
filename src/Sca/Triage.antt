-- ===== src/Sca/Triage.antt =====
-- `triage` of tools/sca/src/cli/triage.ts: from findings to work items and the record of findings.
pub mod Steps
pub mod Once
use hulumi.Prelude.{
  ℕ, suc, ◌+◌, Bool, true, false, not, ◌&&◌, Option, none, some, is_some, get_or_else, List, [],
  ◌∷◌, Text, lookup, if◌then◌else◌,
}
use hulumi.Prelude.Result.{Result, ok, err, throw_if, ◌>>◌, ◌>>=◌}
use hulumi.Sca.Evidence.{
  RawScanFinding, SourceEnrichment, NormalizedEvidence, ScaError, schema_violation, is_scan_finding,
  build_finding_key, enrichment_to_evidence_input, normalize_evidence,
}
use hulumi.Sca.Route.{
  Track, emergency, cadence, dropped, RouteConfig, RouteDecision, route_evidence,
}
use hulumi.Sca.Store.{
  FindingState, detected, in_progress, dropped_finding, FindingRecord, StateStoreData, EventName,
  routed, deduped_finding, ClaimResult, claim_finding, write_finding_state, build_record,
}

pub record WorkItem : Type 0 where
  pub finding_key : Text
  pub track : Track
  pub state : FindingState
  pub reason : Option Text

pub record TriageEvent : Type 0 where
  pub name : EventName
  pub finding_key : Text
  pub track : Track

-- `enrichments` has the given ones before the default ones.
pub record TriageOptions : Type 0 where
  pub enrichments : List (Text × SourceEnrichment)
  pub expected_revision : Option ℕ
  pub force_emergency_for_test : Bool
  pub config : RouteConfig
  pub now : Text

-- The variables of the loop; the lists have the latest first.
pub record TriageState : Type 0 where
  pub store : StateStoreData
  pub work_items : List WorkItem
  pub events : List TriageEvent
  pub evidence : List NormalizedEvidence
  pub deduped_count : ℕ

abbrev no_enrichment : SourceEnrichment
no_enrichment = record {
  fixed_version = none;
  severity_class = none;
  present = none;
  cvss = none;
  cvss_unavailable = false;
  ghsa_id = none;
  kev_listed = none;
  kev_unavailable = false;
  epss_score = none;
  epss_unavailable = false;
  published_at = none;
}

unfoldable pub enrichment_for : List (Text × SourceEnrichment) → Text → Text → SourceEnrichment
unfolding lookup
enrichment_for enrichments key advisory_id =
    get_or_else (lookup key enrichments)
      (get_or_else (lookup advisory_id enrichments) no_enrichment)

abbrev pub state_for_track : Track → FindingState
state_for_track emergency = in_progress
state_for_track dropped = dropped_finding
state_for_track cadence = detected

abbrev pub record_of : RawScanFinding → NormalizedEvidence → RouteDecision → Text → FindingRecord
record_of finding evidence decision now = record {
  finding_key = build_finding_key finding;
  advisory_id = finding.advisory_id;
  ecosystem = finding.ecosystem;
  package_name = finding.package_name;
  affected_version = finding.version;
  class = evidence.class;
  track = decision.track;
  fixed_version = evidence.fixed_version;
  state = state_for_track decision.track;
  manifest_paths = evidence.manifest_paths;
  first_seen = now;
  last_seen = now;
  remediation_ref = none;
  audit_record_path = none;
  reason = decision.reason;
}

abbrev pub event_of : EventName → FindingRecord → TriageEvent
event_of name r = record { name = name; finding_key = r.finding_key; track = r.track }

-- The finding has a work item, and the store has its record.
abbrev pub accepted : StateStoreData → FindingRecord → TriageState → TriageState
accepted store r s = record {
  store = store;
  work_items =
      record { finding_key = r.finding_key; track = r.track; state = r.state; reason = r.reason }
      ∷ s.work_items;
  events = event_of routed r ∷ s.events;
  evidence = s.evidence;
  deduped_count = s.deduped_count;
}

abbrev pub skipped : FindingRecord → TriageState → TriageState
skipped r s = record {
  store = s.store;
  work_items = s.work_items;
  events = event_of deduped_finding r ∷ s.events;
  evidence = s.evidence;
  deduped_count = suc s.deduped_count;
}

abbrev pub after_claim : FindingRecord → TriageState → ClaimResult → TriageState
after_claim r s claim = if claim.claimed then accepted claim.state r s else skipped r s

abbrev pub noted_evidence : NormalizedEvidence → TriageState → TriageState
noted_evidence e s = record {
  store = s.store;
  work_items = s.work_items;
  events = s.events;
  evidence = e ∷ s.evidence;
  deduped_count = s.deduped_count;
}

-- The branch for a record of another track than the emergency track.
unfoldable pub settle_write :
    (Text → Bool) → TriageState → FindingRecord → Result ScaError TriageState
unfolding write_finding_state lookup
settle_write is_datetime s r =
    if is_some (lookup r.finding_key s.store.findings)
    then ok (skipped r s)
    else (write_finding_state is_datetime s.store r true r.reason >>= λ store.
        ok (accepted store r s))

-- What the loop does with the record of a finding.
unfoldable pub settle :
    (Text → Bool)
    → TriageOptions
    → TriageState
    → FindingRecord
    → Track
    → Result ScaError TriageState
unfolding claim_finding settle_write
settle is_datetime options s r emergency =
    claim_finding is_datetime s.store r options.expected_revision >>= λ claim.
    ok (after_claim r s claim)
settle is_datetime options s r cadence = settle_write is_datetime s r
settle is_datetime options s r dropped = settle_write is_datetime s r

-- The body of the loop from the decision on.
unfoldable pub triage_decision :
    (Text → Bool)
    → TriageOptions
    → TriageState
    → RawScanFinding
    → NormalizedEvidence
    → RouteDecision
    → Result ScaError TriageState
unfolding build_finding_key build_record settle
triage_decision is_datetime options s finding evidence decision =
    build_record is_datetime (record_of finding evidence decision options.now) >>= λ r.
    settle is_datetime options (noted_evidence evidence s) r decision.track

-- The body of the loop from the evidence on.
unfoldable pub triage_evidence :
    (Text → Bool)
    → TriageOptions
    → TriageState
    → RawScanFinding
    → NormalizedEvidence
    → Result ScaError TriageState
unfolding route_evidence triage_decision
triage_evidence is_datetime options s finding evidence =
    route_evidence evidence options.config options.force_emergency_for_test >>= λ decision.
    triage_decision is_datetime options s finding evidence decision

unfoldable pub evidence_for : TriageOptions → RawScanFinding → Result ScaError NormalizedEvidence
unfolding build_finding_key enrichment_to_evidence_input normalize_evidence enrichment_for
evidence_for options finding = normalize_evidence (
    enrichment_to_evidence_input finding
      (enrichment_for options.enrichments (build_finding_key finding) finding.advisory_id))

-- The body of the loop.
unfoldable pub triage_finding :
    (Text → Bool) → TriageOptions → TriageState → RawScanFinding → Result ScaError TriageState
unfolding evidence_for triage_evidence
triage_finding is_datetime options s finding = evidence_for options finding >>= λ evidence.
    triage_evidence is_datetime options s finding evidence

unfoldable pub triage_all :
    (Text → Bool) → TriageOptions → TriageState → List RawScanFinding → Result ScaError TriageState
unfolding triage_finding
triage_all is_datetime options s [] = ok s
triage_all is_datetime options s (finding ∷ findings) =
    triage_finding is_datetime options s finding >>= λ after.
    triage_all is_datetime options after findings

abbrev all_scan_findings : List RawScanFinding → Bool
all_scan_findings [] = true
all_scan_findings (f ∷ fs) = is_scan_finding f && all_scan_findings fs

abbrev pub initial : StateStoreData → TriageState
initial store = record {
  store = store;
  work_items = [];
  events = [];
  evidence = [];
  deduped_count = 0;
}

-- `triage(findings, options)`, from the state `store`. The findings are parsed before the loop.
unfoldable pub triage :
    (Text → Bool)
    → TriageOptions
    → StateStoreData
    → List RawScanFinding
    → Result ScaError TriageState
unfolding is_scan_finding triage_all
triage is_datetime options store findings =
    throw_if (not (all_scan_findings findings)) schema_violation
    >> triage_all is_datetime options (initial store) findings
