-- ===== src/Sca/Scope/Tests.antt =====
-- Two manifests under the default conventions, and the theorems of the scope at them.
use hulumi.Prelude.{true, none, List, [], ◌∷◌, ◌++◌, Text, lit, All, ◌≡◌, ◌↔◌, refl}
use hulumi.Prelude.Int.{ℤ, pos}
use hulumi.Sca.Scope.Glob.{matches_glob}
use hulumi.Sca.Scope.Policy.{
  report_only, cadence, emergency, autonomous, reporting, DiscoveredManifest, ScopeEntry,
  default_conventions, ScopeFile, classify_manifest, diff_scope, propose_scope, proposed,
}
use hulumi.Sca.Scope.Directories.{HasDirectory, matches_glob-directory_iff}
use hulumi.Sca.Scope.RedLine.{IsAuthorized, propose_scope-IsAuthorized}

abbrev manifest : Text → DiscoveredManifest
manifest path = record { path = path; ecosystem = lit "npm"; parser = lit "yarn.lock" }

tracks :
    ((classify_manifest (manifest (lit "packages/a/yarn.lock")) default_conventions).track
      ≡ autonomous cadence)
    × ((classify_manifest (manifest (lit "packages/a/tests/yarn.lock")) default_conventions).track
        ≡ autonomous (reporting report_only))
    × ((classify_manifest
          (manifest (lit "packages/my-fixtures/yarn.lock"))
          default_conventions).track
        ≡ autonomous (reporting report_only))
    × ((classify_manifest (manifest (lit "yarn.lock")) default_conventions).needs_human ≡ true)
unfolding classify_manifest
tracks = (refl, refl, refl, refl)

abbrev trusted_entry : ScopeEntry
trusted_entry = record {
  path = lit "apps/web/yarn.lock";
  ecosystem = lit "npm";
  parser = lit "yarn.lock";
  track = emergency;
  note = none;
}

abbrev file : ScopeFile
file = record { conventions = default_conventions; manifests = trusted_entry ∷ [] }

abbrev discovered : List DiscoveredManifest
discovered = manifest (lit "apps/web/yarn.lock") ∷ manifest (lit "apps/new/yarn.lock") ∷ []

abbrev in_order : Text → Text → ℤ
in_order a b = pos 0

abbrev outcome : ScopeFile
outcome = proposed in_order (diff_scope discovered file default_conventions) default_conventions

matches_glob-directory_iff_example :
    (matches_glob (lit "a/tests/x") (lit "**/" ++ (lit "tests" ++ lit "/**")) ≡ true)
    ↔ (HasDirectory (lit "tests") (lit "a/tests/x"))
matches_glob-directory_iff_example =
    matches_glob-directory_iff (lit "tests") (lit "a/tests/x")
      (refl, (refl, (refl, (refl, (refl, tt)))))

propose_scope-IsAuthorized_example :
    All (IsAuthorized discovered (trusted_entry ∷ []) default_conventions) outcome.manifests
unfolding propose_scope diff_scope
propose_scope-IsAuthorized_example =
    propose_scope-IsAuthorized in_order discovered file default_conventions outcome refl
