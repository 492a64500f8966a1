-- ===== src/Sca/Evidence.antt =====
-- tools/sca/src/evidence/normalize.ts: what is known of a vulnerable dependency. A score is a whole
-- number of some small unit, since the program only compares scores.
use hulumi.Prelude.{
  ℕ, Bool, true, false, not, ◌&&◌, ◌||◌, Option, none, some, is_some, get_or_else, List, [], ◌∷◌,
  ◌++◌, Text, lit, starts_with, if◌then◌else◌,
}
use hulumi.Prelude.Result.{Result, ok, throw_if, ◌>>◌}

pub data Ecosystem : Type 0 where
  npm pypi nuget : Ecosystem

pub data FindingClass : Type 0 where
  malicious critical : FindingClass

pub data Provenance : Type 0 where
  available unavailable : Provenance

pub record RawScanFinding : Type 0 where
  pub ecosystem : Ecosystem
  pub package_name : Text
  pub version : Text
  pub advisory_id : Text
  pub manifest_path : Text

-- An absent flag is false where the code asks whether it is true.
pub record SourceEnrichment : Type 0 where
  pub fixed_version : Option Text
  pub severity_class : Option FindingClass
  pub present : Option Bool
  pub cvss : Option ℕ
  pub cvss_unavailable : Bool
  pub ghsa_id : Option Text
  pub kev_listed : Option Bool
  pub kev_unavailable : Bool
  pub epss_score : Option ℕ
  pub epss_unavailable : Bool
  pub published_at : Option Text

pub record OsvInput : Type 0 where
  pub fixed_version : Option Text
  pub severity_class : Option FindingClass

pub record DependencyReview : Type 0 where
  pub present : Bool
  pub vulnerable_transitives : List Text

pub record GhsaInput : Type 0 where
  pub id : Option Text
  pub cvss : Option ℕ

pub record KevInput : Type 0 where
  pub listed : Option Bool
  pub unavailable : Bool

pub record EpssInput : Type 0 where
  pub score : Option ℕ
  pub available : Option Bool
  pub unavailable : Bool

pub record RegistryInput : Type 0 where
  pub published_at : Option Text
  pub unavailable : Bool

pub record EvidenceInput : Type 0 where
  pub finding : RawScanFinding
  pub osv : Option OsvInput
  pub dependency_review : Option DependencyReview
  pub ghsa : Option GhsaInput
  pub kev : Option KevInput
  pub epss : Option EpssInput
  pub registry : Option RegistryInput

pub record SourceProvenance : Type 0 where
  pub osv : Provenance
  pub dependency_review : Provenance
  pub ghsa : Provenance
  pub kev : Provenance
  pub epss : Provenance
  pub registry : Provenance

-- The fields of `osv`, `ghsa`, `kev`, `epss` and `registry` side by side.
pub record NormalizedEvidence : Type 0 where
  pub finding_key : Text
  pub advisory_id : Text
  pub class : FindingClass
  pub fixed_version : Option Text
  pub dependency_review : DependencyReview
  pub ghsa_id : Option Text
  pub cvss : Option ℕ
  pub kev_listed : Option Bool
  pub epss_score : Option ℕ
  pub epss_available : Bool
  pub published_at : Option Text
  pub provenance : SourceProvenance
  pub manifest_paths : List Text
  pub raw : RawScanFinding

pub data ScaError : Type 0 where
  schema_violation known_malicious_without_fix emergency_invariant_failed not_claimable
        untrusted_writer dropped_without_reason :
      ScaError

abbrev pub is_empty : Text → Bool
is_empty [] = true
is_empty (c ∷ t) = false

-- The tests of `rawScanFindingSchema`.
unfoldable pub is_scan_finding : RawScanFinding → Bool
is_scan_finding finding =
    not (is_empty finding.package_name)
    && not (is_empty finding.version)
    && not (is_empty finding.advisory_id)
    && not (is_empty finding.manifest_path)

abbrev ecosystem_text : Ecosystem → Text
ecosystem_text npm = lit "npm"
ecosystem_text pypi = lit "PyPI"
ecosystem_text nuget = lit "NuGet"

unfoldable pub build_finding_key : RawScanFinding → Text
build_finding_key finding =
    ecosystem_text finding.ecosystem
    ++ (lit ":"
        ++ (finding.package_name
            ++ (lit "@" ++ (finding.version ++ (lit ":" ++ finding.advisory_id)))))

unfoldable pub infer_class : Text → FindingClass
unfolding starts_with
infer_class advisory_id = if starts_with advisory_id (lit "MAL-") then malicious else critical

unfoldable pub enrichment_to_evidence_input : RawScanFinding → SourceEnrichment → EvidenceInput
unfolding infer_class starts_with
enrichment_to_evidence_input finding enrichment = record {
  finding = finding;
  osv = some (record {
    fixed_version = enrichment.fixed_version;
    severity_class = some (get_or_else enrichment.severity_class (infer_class finding.advisory_id));
  });
  dependency_review =
      some (record { present = get_or_else enrichment.present true; vulnerable_transitives = [] });
  ghsa =
      if enrichment.cvss_unavailable
      then none
      else some (record {
        id =
            if is_some enrichment.ghsa_id
            then enrichment.ghsa_id
            else if starts_with finding.advisory_id (lit "GHSA-")
            then some finding.advisory_id
            else none;
        cvss = enrichment.cvss;
      });
  kev = some (record {
    listed = some (get_or_else enrichment.kev_listed false);
    unavailable = enrichment.kev_unavailable;
  });
  epss = some (record {
    score = enrichment.epss_score;
    available = some (if enrichment.epss_unavailable then false else is_some enrichment.epss_score);
    unavailable = enrichment.epss_unavailable;
  });
  registry = some (record { published_at = enrichment.published_at; unavailable = false });
}

-- `value?.field`, for a field that may be absent too.
abbrev field_of {ℓ} : {A B : Type ℓ} → (A → Option B) → Option A → Option B
field_of field none = none
field_of field (some a) = field a

abbrev kev_is_unavailable : Option KevInput → Bool
kev_is_unavailable none = false
kev_is_unavailable (some kev) = kev.unavailable

-- `available === false`
abbrev is_false : Option Bool → Bool
is_false (some false) = true
is_false _ = false

abbrev epss_is_unavailable : Option EpssInput → Bool
epss_is_unavailable none = false
epss_is_unavailable (some epss) = epss.unavailable || is_false epss.available

abbrev registry_is_unavailable : Option RegistryInput → Bool
registry_is_unavailable none = false
registry_is_unavailable (some registry) = registry.unavailable

abbrev provenance_of : Bool → Provenance
provenance_of true = unavailable
provenance_of false = available

abbrev normalized : EvidenceInput → NormalizedEvidence
normalized input = record {
  finding_key = build_finding_key input.finding;
  advisory_id = input.finding.advisory_id;
  class =
      get_or_else (field_of (λ o. o.severity_class) input.osv)
        (infer_class input.finding.advisory_id);
  fixed_version = field_of (λ o. o.fixed_version) input.osv;
  dependency_review =
      get_or_else input.dependency_review (record { present = true; vulnerable_transitives = [] });
  ghsa_id = field_of (λ g. g.id) input.ghsa;
  cvss = field_of (λ g. g.cvss) input.ghsa;
  kev_listed =
      if kev_is_unavailable input.kev
      then none
      else some (get_or_else (field_of (λ k. k.listed) input.kev) false);
  epss_score = if epss_is_unavailable input.epss then none else field_of (λ e. e.score) input.epss;
  epss_available = not (epss_is_unavailable input.epss);
  published_at =
      if registry_is_unavailable input.registry
      then none
      else field_of (λ r. r.published_at) input.registry;
  provenance = record {
    osv = available;
    dependency_review = available;
    ghsa = provenance_of (
        not (is_some (field_of (λ g. g.cvss) input.ghsa))
        && not (is_some (field_of (λ g. g.id) input.ghsa)));
    kev = provenance_of (kev_is_unavailable input.kev);
    epss = provenance_of (epss_is_unavailable input.epss);
    registry = provenance_of (registry_is_unavailable input.registry);
  };
  manifest_paths = input.finding.manifest_path ∷ [];
  raw = input.finding;
}

unfoldable pub normalize_evidence : EvidenceInput → Result ScaError NormalizedEvidence
unfolding is_scan_finding build_finding_key infer_class
normalize_evidence input =
    throw_if (not (is_scan_finding input.finding)) schema_violation >> ok (normalized input)
