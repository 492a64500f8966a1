-- ===== src/Sca/Scope/RedLine.antt =====
-- No autonomous path of tools/sca/src/scope/policy.ts gives emergency authority.
use hulumi.Prelude.{
  none, some, get_or_else, List, [], ◌∷◌, ◌++◌, map, Text, text_eq, All, All-mono, All-Member,
  All-append, Member, Bool-cases, Option-cases, ◌≡◌, ◌≢◌, ◌⊎◌, inl, inr, refl, ap, subst, ◌∙◌,
  arith,
}
use hulumi.Prelude.Int.{ℤ}
use hulumi.Prelude.Result.{ok}
use hulumi.Prelude.Sorting.{All-sort_by}
use hulumi.Sca.Scope.Policy.{
  emergency, DiscoveredManifest, ScopeEntry, Conventions, ScopeFile, DriftReport, classify_manifest,
  entry_at, unchanged_of, added_of, diff_scope, entry_of, path_le, proposed, propose_scope,
}

-- An entry that a human wrote, or one of a discovered manifest that no entry covers, of which the
-- track is not the emergency track.
abbrev pub IsAuthorized :
    List DiscoveredManifest → List ScopeEntry → Conventions → ScopeEntry → Type 0
IsAuthorized discovered manifests conventions e =
    Member e manifests
    ⊎ ((m : DiscoveredManifest) × Member m discovered
        × (entry_at m.path manifests ≡ none)
        × (e ≡ entry_of (classify_manifest m conventions))
        × (e.track ≢ emergency))

classify_manifest-ne_emergency :
    (m : DiscoveredManifest) (c : Conventions) → (classify_manifest m c).track ≢ emergency
unfolding classify_manifest
classify_manifest-ne_emergency m c h = ground arith

-- The entry of a path is one of the entries.
entry_at-Member :
    (path : Text) (es : List ScopeEntry) (e : ScopeEntry) → entry_at path es ≡ some e → Member e es
unfolding entry_at
entry_at-Member path [] e h = cc
entry_at-Member path (x ∷ es) e h = elim (Option-cases (entry_at path es)) [
  | inr (later, found) ↦ inr (entry_at-Member path es e (found ∙ (rw found at h)))
  | inl absent ↦ elim (Bool-cases (text_eq x.path path)) [
    | inl same ↦ inl (ap (λ o. get_or_else o x) (rw (absent, same) at h))
    | inr other ↦ absurd (cc (rw (absent, other) at h))
  ]
]

module _ (all : List DiscoveredManifest) (manifests : List ScopeEntry) (c : Conventions) where
  unchanged_of-Member :
      (ms : List DiscoveredManifest) → All (λ e. Member e manifests) (unchanged_of ms manifests)
  unfolding unchanged_of
  unchanged_of-Member [] = tt
  unchanged_of-Member (m ∷ ms) = elim (Option-cases (entry_at m.path manifests)) [
    | inl absent ↦ rw absent (unchanged_of-Member ms)
    | inr (e, found) ↦ rw found (entry_at-Member m.path manifests e found, unchanged_of-Member ms)
  ]

  added_of-IsAuthorized :
      (ms : List DiscoveredManifest)
      → All (λ m. Member m all) ms
      → All (IsAuthorized all manifests c) (map entry_of (added_of ms manifests c))
  unfolding added_of
  added_of-IsAuthorized [] h = tt
  added_of-IsAuthorized (m ∷ ms) (here, h) = elim (Option-cases (entry_at m.path manifests)) [
    | inr (e, found) ↦ rw found (added_of-IsAuthorized ms h)
    | inl absent ↦ rw absent (
      inr (m, here, absent, refl, classify_manifest-ne_emergency m c),
      added_of-IsAuthorized ms h,
    )
  ]

proposed-IsAuthorized :
    (locale_compare : Text → Text → ℤ) (discovered : List DiscoveredManifest) (scope : ScopeFile)
    (conventions : Conventions)
    → All
        (IsAuthorized discovered scope.manifests conventions)
        (proposed locale_compare (diff_scope discovered scope conventions) conventions).manifests
unfolding diff_scope
proposed-IsAuthorized locale_compare discovered scope conventions =
    let P = IsAuthorized discovered scope.manifests conventions in
    let old = unchanged_of discovered scope.manifests in
    let new = map entry_of (added_of discovered scope.manifests conventions) in
    All-sort_by (path_le locale_compare) P (old ++ new) (
      All-append P old new
        (All-mono (λ e. Member e scope.manifests) P old (λ e m. inl m)
          (unchanged_of-Member discovered scope.manifests conventions discovered))
        (added_of-IsAuthorized discovered scope.manifests conventions discovered
          (All-Member discovered)))

propose_scope-eq-ok :
    (locale_compare : Text → Text → ℤ) (report : DriftReport) (conventions : Conventions)
    (out : ScopeFile)
    → propose_scope locale_compare report conventions ≡ ok out
    → proposed locale_compare report conventions ≡ out
unfolding propose_scope
propose_scope-eq-ok locale_compare report conventions out h = ground arith

-- Each entry of a proposed scope is one of the scope file, whose track a human gave, or that of a
-- discovered manifest without an entry, which has the track of the conventions and never the
-- emergency track.
pub propose_scope-IsAuthorized :
    (locale_compare : Text → Text → ℤ) (discovered : List DiscoveredManifest) (scope : ScopeFile)
    (conventions : Conventions) (out : ScopeFile)
    → propose_scope locale_compare (diff_scope discovered scope conventions) conventions ≡ ok out
    → All (IsAuthorized discovered scope.manifests conventions) out.manifests
propose_scope-IsAuthorized locale_compare discovered scope conventions out h =
    subst
      (λ (file : ScopeFile).
        All (IsAuthorized discovered scope.manifests conventions) file.manifests)
      (propose_scope-eq-ok locale_compare (diff_scope discovered scope conventions) conventions out
        h)
      (proposed-IsAuthorized locale_compare discovered scope conventions)
