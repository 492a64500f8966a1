-- ===== src/Sca/Route/Emergency.antt =====
-- When tools/sca/src/classify/route.ts routes a dependency to the emergency track.
use hulumi.Prelude.{
  ℕ, ◌≤◌, Bool, true, false, ◌&&◌, Option, none, some, is_some, [], ◌∷◌, Text, trim, Bool-cases,
  Option-cases, and-eq-true, or-eq-true, ◌≡◌, ◌≢◌, ◌↔◌, ◌⊎◌, inl, inr, refl, sym, ap, ◌∙◌, arith,
}
use hulumi.Sca.Evidence.{
  FindingClass, malicious, critical, Provenance, available, unavailable, NormalizedEvidence,
  is_empty,
}
use hulumi.Sca.Route.{
  emergency, RouteConfig, is_malicious, is_unavailable, at_least, is_true, missing_severity_data,
  is_blank, has_emergency_reason, decided, route_evidence, route_severity, route_without_fix,
  assert_emergency_invariant,
}

-- A package known to be malicious, a listing of the vulnerability as exploited, a score that reaches
-- its bound, or data on the severity that is missing.
pub data EmergencyReason (evidence : NormalizedEvidence) (config : RouteConfig) : Type 0 where
  malicious_package : evidence.class ≡ malicious → EmergencyReason evidence config
  exploited :
      config.treat_kev_as_emergency ≡ true
      → evidence.kev_listed ≡ some true
      → EmergencyReason evidence config
  likely :
      (score : ℕ)
      → evidence.epss_score ≡ some score
      → config.epss_threshold ≤ score
      → EmergencyReason evidence config
  severe :
      (score : ℕ)
      → evidence.cvss ≡ some score
      → config.min_cvss ≤ score
      → EmergencyReason evidence config
  unscored : evidence.cvss ≡ none → EmergencyReason evidence config
  unsourced :
      (evidence.provenance.kev ≡ unavailable) ⊎ (evidence.provenance.epss ≡ unavailable)
      → EmergencyReason evidence config

-- A version with the fix, which is not blank if the package is malicious.
abbrev pub HasFix : NormalizedEvidence → Type 0
HasFix evidence =
    (version : Text) × (evidence.fixed_version ≡ some version)
    × ((evidence.class ≡ critical) ⊎ (trim version ≢ []))

at_least_iff :
    (value : Option ℕ) (bound : ℕ)
    → (at_least value bound ≡ true) ↔ ((n : ℕ) × (value ≡ some n) × (bound ≤ n))
at_least_iff none bound = (λ h. cc, λ (n, e, le). cc)
at_least_iff (some n) bound = (λ h. (n, refl, ground arith), λ (m, e, le). ground arith)

is_true_iff : (value : Option Bool) → (is_true value ≡ true) ↔ (value ≡ some true)
is_true_iff none = (λ h. cc, λ e. cc)
is_true_iff (some b) = (λ h. ap some h, λ e. cc)

is_malicious_iff : (c : FindingClass) → (is_malicious c ≡ true) ↔ (c ≡ malicious)
is_malicious_iff malicious = (λ h. refl, λ e. refl)
is_malicious_iff critical = (λ h. cc, λ e. cc)

is_malicious-false : (c : FindingClass) → is_malicious c ≡ false → c ≡ critical
is_malicious-false malicious h = cc
is_malicious-false critical h = refl

is_unavailable_iff : (p : Provenance) → (is_unavailable p ≡ true) ↔ (p ≡ unavailable)
is_unavailable_iff available = (λ h. cc, λ e. cc)
is_unavailable_iff unavailable = (λ h. refl, λ e. refl)

module _ (evidence : NormalizedEvidence) (config : RouteConfig) where
  missing_severity_data-EmergencyReason :
      missing_severity_data evidence ≡ true → EmergencyReason evidence config
  unfolding missing_severity_data
  missing_severity_data-EmergencyReason h = elim (Option-cases evidence.cvss) [
    | inl no_score ↦ unscored no_score
    | inr (n, score) ↦ elim (Bool-cases (is_unavailable evidence.provenance.kev)) [
      | inl kev ↦ unsourced (inl ((is_unavailable_iff _).0 kev))
      | inr kev ↦ unsourced (inr ((is_unavailable_iff _).0 (ground arith)))
    ]
  ]

  EmergencyReason-complete :
      EmergencyReason evidence config → has_emergency_reason evidence config ≡ true
  unfolding has_emergency_reason missing_severity_data
  EmergencyReason-complete (malicious_package m) = rw m refl
  EmergencyReason-complete (exploited treated listed) = rw (treated, listed) (ground arith)
  EmergencyReason-complete (likely n score le) =
      let reached = (at_least_iff evidence.epss_score config.epss_threshold).1 (n, score, le) in
      ground arith
  EmergencyReason-complete (severe n score le) =
      let reached = (at_least_iff evidence.cvss config.min_cvss).1 (n, score, le) in ground arith
  EmergencyReason-complete (unscored missing) = rw missing (ground arith)
  EmergencyReason-complete (unsourced (inl kev)) =
      let lost = (is_unavailable_iff evidence.provenance.kev).1 kev in ground arith
  EmergencyReason-complete (unsourced (inr epss)) =
      let lost = (is_unavailable_iff evidence.provenance.epss).1 epss in ground arith

  EmergencyReason-sound :
      has_emergency_reason evidence config ≡ true → EmergencyReason evidence config
  unfolding has_emergency_reason
  EmergencyReason-sound h = elim (or-eq-true _ _ h) [
    | inr missing ↦ missing_severity_data-EmergencyReason missing
    | inl h3 ↦ elim (or-eq-true _ _ h3) [
      | inr cvss ↦ let (n, score, le) = (at_least_iff _ _).0 cvss in severe n score le
      | inl h2 ↦ elim (or-eq-true _ _ h2) [
        | inr epss ↦ let (n, score, le) = (at_least_iff _ _).0 epss in likely n score le
        | inl h1 ↦ elim (or-eq-true _ _ h1) [
          | inl m ↦ malicious_package ((is_malicious_iff _).0 m)
          | inr kev ↦
              let (treated, listed) = and-eq-true _ _ kev in
              exploited treated ((is_true_iff _).0 listed)
        ]
      ]
    ]
  ]

is_empty_iff : (s : Text) → (is_empty s ≡ true) ↔ (s ≡ [])
is_empty_iff [] = (λ h. refl, λ e. refl)
is_empty_iff (c ∷ s) = (λ h. cc, λ e. cc)

not_blank :
    (v w : Text)
    → some v ≡ some w
    → (malicious ≡ critical) ⊎ (trim w ≢ [])
    → is_empty (trim v) ≡ false
not_blank v w e (inl absent) = cc
not_blank v w e (inr full) = elim (Bool-cases (is_empty (trim v))) [
  | inr filled ↦ filled
  | inl blank ↦
      let same : v ≡ w = cc in absurd (full (ap trim (sym same) ∙ (is_empty_iff (trim v)).0 blank))
]

HasFix_iff :
    (c : FindingClass) (fixed_version : Option Text)
    → ((is_some fixed_version ≡ true) × ((is_malicious c && is_blank fixed_version) ≡ false))
      ↔ ((version : Text) × (fixed_version ≡ some version) × ((c ≡ critical) ⊎ (trim version ≢ [])))
HasFix_iff c none = ((λ (h, _). cc), (λ (v, e, _). cc))
HasFix_iff malicious (some v) = (
  (λ (_, h). (v, refl, inr (λ blank. let e = (is_empty_iff (trim v)).1 blank in cc))),
  (λ (w, e, h). (refl, not_blank v w e h)),
)
HasFix_iff critical (some v) = ((λ _. (v, refl, inl refl)), (λ _. (refl, refl)))

routed_iff :
    (evidence : NormalizedEvidence) (config : RouteConfig) (force : Bool)
    → (route_evidence evidence config force ≡ decided emergency none) ↔ (
        (evidence.dependency_review.present ≡ true)
        × (is_some evidence.fixed_version ≡ true)
        × ((is_malicious evidence.class && is_blank evidence.fixed_version) ≡ false)
        × (has_emergency_reason evidence config ≡ true))
unfolding route_evidence route_severity route_without_fix assert_emergency_invariant
routed_iff evidence config force = ground arith

-- A dependency takes the emergency track exactly when it is present in the lockfile, it has a fixed
-- version, which is not blank if it is malicious, and there is an emergency reason, whatever the
-- rest of the configuration says and also where the track is forced.
pub route_emergency_iff :
    (evidence : NormalizedEvidence) (config : RouteConfig) (force : Bool)
    → (route_evidence evidence config force ≡ decided emergency none) ↔ (
        (evidence.dependency_review.present ≡ true)
        × HasFix evidence
        × EmergencyReason evidence config)
route_emergency_iff evidence config force = (
  (λ routed.
      let (present, fixed, blank, reason) = (routed_iff evidence config force).0 routed in
      (
        present,
        (HasFix_iff evidence.class evidence.fixed_version).0 (fixed, blank),
        EmergencyReason-sound evidence config reason,
      )),
  (λ (present, fix, reason).
      let (fixed, blank) = (HasFix_iff evidence.class evidence.fixed_version).1 fix in
      (routed_iff evidence config force).1
        (present, fixed, blank, EmergencyReason-complete evidence config reason)),
)
