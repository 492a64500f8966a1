-- ===== src/Sca/Scope/Policy.antt =====
-- `classifyManifest`, `diffScope` and `proposeScope` of tools/sca/src/scope/policy.ts.
use hulumi.Prelude.{
  Bool, true, false, not, ◌&&◌, ◌||◌, Option, none, some, is_some, List, [], ◌∷◌, ◌++◌, map, Text,
  lit, text_eq, any, all, if◌then◌else◌,
}
use hulumi.Prelude.Int.{ℤ, pos, leb_ℤ}
use hulumi.Prelude.Result.{Result, ok, throw_if, ◌>>◌}
use hulumi.Prelude.Sorting.{sort_by}
use hulumi.Sca.Evidence.{is_empty, ScaError, schema_violation}
use hulumi.Sca.Scope.Glob.{matches_any}

-- The tracks that only report, those that a convention may give, and all of them.
pub data ReportTrack : Type 0 where
  report_only ignore : ReportTrack

pub data AutonomousTrack : Type 0 where
  cadence : AutonomousTrack
  reporting : ReportTrack → AutonomousTrack

pub data Track : Type 0 where
  emergency : Track
  autonomous : AutonomousTrack → Track

pub record DiscoveredManifest : Type 0 where
  pub path : Text
  pub ecosystem : Text
  pub parser : Text

pub record ScopeEntry : Type 0 where
  pub path : Text
  pub ecosystem : Text
  pub parser : Text
  pub track : Track
  pub note : Option Text

pub record Conventions : Type 0 where
  pub acting_paths : List Text
  pub exclude_paths : List Text
  pub acting_track : AutonomousTrack
  pub excluded_track : ReportTrack
  pub unclassified_track : ReportTrack

pub record ScopeFile : Type 0 where
  pub conventions : Conventions
  pub manifests : List ScopeEntry

-- The texts of `rationale`.
pub data Rationale : Type 0 where
  matches_exclude matches_acting matches_nothing : Rationale

pub record PromotionDecision : Type 0 where
  pub path : Text
  pub ecosystem : Text
  pub parser : Text
  pub track : Track
  pub rationale : Rationale
  pub needs_human : Bool

pub record DriftReport : Type 0 where
  pub first_run : Bool
  pub added : List PromotionDecision
  pub removed : List ScopeEntry
  pub unchanged : List ScopeEntry
  pub needs_human : List PromotionDecision
  pub has_drift : Bool

-- `DEFAULT_CONVENTIONS`.
abbrev pub default_conventions : Conventions
default_conventions = record {
  acting_paths = lit "apps/**" ∷ lit "services/**" ∷ lit "packages/**" ∷ lit "cmd/**" ∷ [];
  exclude_paths =
      lit "**/examples/**"
      ∷ lit "**/example/**"
      ∷ lit "**/testdata/**"
      ∷ lit "**/tests/**"
      ∷ lit "**/test/**"
      ∷ lit "**/__tests__/**"
      ∷ lit "**/fixtures/**"
      ∷ lit "**/*fixture*/**"
      ∷ lit "**/vendor/**"
      ∷ lit "**/third_party/**"
      ∷ lit "**/.archive/**"
      ∷ [];
  acting_track = cadence;
  excluded_track = report_only;
  unclassified_track = report_only;
}

abbrev decision : DiscoveredManifest → Track → Rationale → Bool → PromotionDecision
decision manifest track rationale needs_human = record {
  path = manifest.path;
  ecosystem = manifest.ecosystem;
  parser = manifest.parser;
  track = track;
  rationale = rationale;
  needs_human = needs_human;
}

unfoldable pub classify_manifest : DiscoveredManifest → Conventions → PromotionDecision
unfolding matches_any
classify_manifest manifest conventions =
    if matches_any manifest.path conventions.exclude_paths
    then decision manifest (autonomous (reporting conventions.excluded_track)) matches_exclude false
    else if matches_any manifest.path conventions.acting_paths
    then decision manifest (autonomous conventions.acting_track) matches_acting false
    else decision manifest (autonomous (reporting conventions.unclassified_track)) matches_nothing
        true

-- `scopeByPath.get(path)`: the last entry of the path.
unfoldable pub entry_at : Text → List ScopeEntry → Option ScopeEntry
unfolding text_eq
entry_at path [] = none
entry_at path (e ∷ es) =
    let later = entry_at path es in
    if is_some later then later else if text_eq e.path path then some e else none

abbrev kept_entry : Option ScopeEntry → List ScopeEntry → List ScopeEntry
kept_entry none later = later
kept_entry (some e) later = e ∷ later

-- The two lists that the loop of `diffScope` fills.
unfoldable pub unchanged_of : List DiscoveredManifest → List ScopeEntry → List ScopeEntry
unfolding entry_at
unchanged_of [] manifests = []
unchanged_of (m ∷ ms) manifests = kept_entry (entry_at m.path manifests) (unchanged_of ms manifests)

unfoldable pub added_of :
    List DiscoveredManifest → List ScopeEntry → Conventions → List PromotionDecision
unfolding entry_at classify_manifest
added_of [] manifests conventions = []
added_of (m ∷ ms) manifests conventions =
    let later = added_of ms manifests conventions in
    if is_some (entry_at m.path manifests) then later else classify_manifest m conventions ∷ later

abbrev filter {ℓ} : {A : Type ℓ} → (A → Bool) → List A → List A
filter test [] = []
filter test (x ∷ xs) = let later = filter test xs in if test x then x ∷ later else later

abbrev is_nil {ℓ} : {A : Type ℓ} → List A → Bool
is_nil [] = true
is_nil (x ∷ xs) = false

abbrev is_discovered : List DiscoveredManifest → Text → Bool
is_discovered discovered path = any (λ m. text_eq m.path path) discovered

unfoldable pub diff_scope : List DiscoveredManifest → ScopeFile → Conventions → DriftReport
unfolding unchanged_of added_of text_eq
diff_scope discovered scope conventions =
    let added = added_of discovered scope.manifests conventions in
    let removed = filter (λ e. not (is_discovered discovered e.path)) scope.manifests in
    record {
      first_run = is_nil scope.manifests;
      added = added;
      removed = removed;
      unchanged = unchanged_of discovered scope.manifests;
      needs_human = filter (λ d. d.needs_human) added;
      has_drift = not (is_nil added) || not (is_nil removed);
    }

abbrev pub entry_of : PromotionDecision → ScopeEntry
entry_of d = record {
  path = d.path;
  ecosystem = d.ecosystem;
  parser = d.parser;
  track = d.track;
  note = none;
}

-- The comparison of paths by `localeCompare` is an argument.
abbrev pub path_le : (Text → Text → ℤ) → ScopeEntry → ScopeEntry → Bool
path_le locale_compare a b = leb_ℤ (locale_compare a.path b.path) (pos 0)

abbrev pub is_scope_entry : ScopeEntry → Bool
is_scope_entry e = not (is_empty e.path) && not (is_empty e.ecosystem) && not (is_empty e.parser)

abbrev are_conventions : Conventions → Bool
are_conventions c =
    all (λ g. not (is_empty g)) c.acting_paths && all (λ g. not (is_empty g)) c.exclude_paths

-- The tests of `scopeFileSchema`.
unfoldable pub is_scope_file : ScopeFile → Bool
is_scope_file file = are_conventions file.conventions && all is_scope_entry file.manifests

abbrev pub proposed : (Text → Text → ℤ) → DriftReport → Conventions → ScopeFile
proposed locale_compare report conventions = record {
  conventions = conventions;
  manifests = sort_by (path_le locale_compare) (report.unchanged ++ map entry_of report.added);
}

unfoldable pub propose_scope :
    (Text → Text → ℤ) → DriftReport → Conventions → Result ScaError ScopeFile
unfolding sort_by is_scope_file
propose_scope locale_compare report conventions =
    throw_if (not (is_scope_file (proposed locale_compare report conventions))) schema_violation
    >> ok (proposed locale_compare report conventions)
