-- ===== src/Sca/Triage/Steps.antt =====
-- The steps of the loop of tools/sca/src/cli/triage.ts over the record of findings of
-- tools/sca/src/state/store.ts.
use hulumi.Prelude.{
  ℕ, suc, ◌+◌, Bool, true, false, ◌||◌, Option, none, some, is_some, List, [], ◌∷◌, Text, lookup,
  length, or-eq-false, Bool-cases, ◌≡◌, refl, sym, ap, ap₂, subst, ◌∙◌, ◌⊎◌, inl, inr, arith,
  if◌then◌else◌,
}
use hulumi.Prelude.Result.{ok, ok-injective, bind-eq-ok}
use hulumi.Sca.Evidence.{RawScanFinding, NormalizedEvidence, build_finding_key}
use hulumi.Sca.Route.{Track, emergency, cadence, dropped, RouteDecision, route_evidence}
use hulumi.Sca.Store.{
  FindingRecord, StateStoreData, ClaimResult, with_record, deduped, is_outdated, claim_finding,
  write_finding_state, build_record,
}
use hulumi.Sca.Triage.{
  TriageOptions, TriageState, accepted, skipped, after_claim, noted_evidence, record_of,
  settle_write, settle, triage_decision, triage_evidence, evidence_for, triage_finding, triage_all,
}

eq-none_of_is_some : {A : Type 0} (o : Option A) → is_some o ≡ false → o ≡ none
eq-none_of_is_some none h = refl
eq-none_of_is_some (some a) h = cc

-- A claim leaves the state as it was, or adds the record under a new key.
claim_finding-cases :
    (is_datetime : Text → Bool) (s : StateStoreData) (r : FindingRecord) (expected : Option ℕ)
    (c : ClaimResult)
    → claim_finding is_datetime s r expected ≡ ok c
    → (c ≡ deduped s)
      ⊎ ((lookup r.finding_key s.findings ≡ none)
          × (c.claimed ≡ true)
          × (c.state ≡ with_record s r))
unfolding claim_finding
claim_finding-cases is_datetime s r expected c h =
    elim (Bool-cases
      (is_some (lookup r.finding_key s.findings) || is_outdated expected s.revision)) [
        | inl known ↦ inl (ground arith)
        | inr fresh ↦ inr (
          eq-none_of_is_some (lookup r.finding_key s.findings) (or-eq-false _ _ fresh).0,
          ground arith,
          ground arith,
        )
      ]

write_finding_state-eq-ok :
    (is_datetime : Text → Bool) (s : StateStoreData) (r : FindingRecord) (reason : Option Text)
    (after : StateStoreData)
    → write_finding_state is_datetime s r true reason ≡ ok after
    → after ≡ with_record s r
unfolding write_finding_state
write_finding_state-eq-ok is_datetime s r reason after h = ground arith

-- A finding is skipped, or it is accepted with a new key.
abbrev pub Settled : TriageState → FindingRecord → TriageState → Type 0
Settled s r after =
    (after ≡ skipped r s)
    ⊎ ((lookup r.finding_key s.store.findings ≡ none)
        × (after ≡ accepted (with_record s.store r) r s))

module _ (is_datetime : Text → Bool) (options : TriageOptions) (s : TriageState)
    (r : FindingRecord) where
  settle-claim :
      (after : TriageState)
      → settle is_datetime options s r emergency ≡ ok after
      → Settled s r after
  unfolding settle
  settle-claim after h =
      let (claim, e, f) =
        bind-eq-ok (claim_finding is_datetime s.store r options.expected_revision) _ after h in
      elim (claim_finding-cases is_datetime s.store r options.expected_revision claim e) [
        | inl same ↦ inl (sym (ok-injective _ _ _ refl f) ∙ ap (after_claim r s) same)
        | inr (fresh, claimed, same) ↦ inr (
          fresh,
          sym (ok-injective _ _ _ refl f)
              ∙ ap₂ (λ b store. if b then accepted store r s else skipped r s) claimed same,
        )
      ]

  settle-write : (after : TriageState) → settle_write is_datetime s r ≡ ok after → Settled s r after
  unfolding settle_write
  settle-write after h = elim (Bool-cases (is_some (lookup r.finding_key s.store.findings))) [
    | inl known ↦ inl (ground arith)
    | inr fresh ↦
        let (store, e, f) =
          bind-eq-ok (write_finding_state is_datetime s.store r true r.reason)
            (λ store. ok (accepted store r s)) after (rw fresh at h) in
        inr (
          eq-none_of_is_some (lookup r.finding_key s.store.findings) fresh,
          sym (ok-injective _ _ _ refl f)
              ∙ ap (λ x. accepted x r s)
                  (write_finding_state-eq-ok is_datetime s.store r r.reason store e),
        )
  ]

  settle-Settled :
      (track : Track) (after : TriageState)
      → settle is_datetime options s r track ≡ ok after
      → Settled s r after
  settle-Settled emergency after h = settle-claim after h
  settle-Settled cadence after h = settle-write after (unfold settle in h)
  settle-Settled dropped after h = settle-write after (unfold settle in h)

-- One finding: it was settled under its key.
abbrev pub IsStep : RawScanFinding → TriageState → TriageState → Type 0
IsStep finding s after =
    (e : NormalizedEvidence) × (r : FindingRecord) × (r.finding_key ≡ build_finding_key finding)
    × Settled (noted_evidence e s) r after

build_record-eq-ok :
    (is_datetime : Text → Bool) (given r : FindingRecord)
    → build_record is_datetime given ≡ ok r
    → given ≡ r
unfolding build_record
build_record-eq-ok is_datetime given r h = ground arith

triage_decision-IsStep :
    (is_datetime : Text → Bool) (options : TriageOptions) (s : TriageState)
    (finding : RawScanFinding) (e : NormalizedEvidence) (decision : RouteDecision)
    (after : TriageState)
    → triage_decision is_datetime options s finding e decision ≡ ok after
    → IsStep finding s after
unfolding triage_decision
triage_decision-IsStep is_datetime options s finding e decision after h =
    let (r, built, settled) =
      bind-eq-ok (build_record is_datetime (record_of finding e decision options.now))
        (λ r. settle is_datetime options (noted_evidence e s) r decision.track) after h in
    let same = build_record-eq-ok is_datetime (record_of finding e decision options.now) r built in
    (
      e,
      r,
      sym (ap (λ x. x.finding_key) same),
      settle-Settled is_datetime options (noted_evidence e s) r decision.track after settled,
    )

triage_evidence-IsStep :
    (is_datetime : Text → Bool) (options : TriageOptions) (s : TriageState)
    (finding : RawScanFinding) (e : NormalizedEvidence) (after : TriageState)
    → triage_evidence is_datetime options s finding e ≡ ok after
    → IsStep finding s after
unfolding triage_evidence
triage_evidence-IsStep is_datetime options s finding e after h =
    let (decision, _, decided) =
      bind-eq-ok (route_evidence e options.config options.force_emergency_for_test)
        (triage_decision is_datetime options s finding e) after h in
    triage_decision-IsStep is_datetime options s finding e decision after decided

triage_finding-IsStep :
    (is_datetime : Text → Bool) (options : TriageOptions) (s : TriageState)
    (finding : RawScanFinding) (after : TriageState)
    → triage_finding is_datetime options s finding ≡ ok after
    → IsStep finding s after
unfolding triage_finding
triage_finding-IsStep is_datetime options s finding after h =
    let (e, _, found) =
      bind-eq-ok (evidence_for options finding) (triage_evidence is_datetime options s finding)
        after h in
    triage_evidence-IsStep is_datetime options s finding e after found

-- What each step carries from a number to the next holds after all findings.
module _ (P : ℕ → TriageState → Type 0) (is_datetime : Text → Bool) (options : TriageOptions) where
  pub triage_all-induction :
      (step : (n : ℕ) (finding : RawScanFinding) (s after : TriageState)
        → P n s
        → IsStep finding s after
        → P (suc n) after)
      (n : ℕ) (s out : TriageState) (findings : List RawScanFinding)
      → P n s
      → triage_all is_datetime options s findings ≡ ok out
      → P (n + length findings) out
  unfolding triage_all
  triage_all-induction step n s out [] p h =
      subst (λ m. P m out) (omega arith) (subst (P n) (ok-injective s out _ refl h) p)
  triage_all-induction step n s out (finding ∷ findings) p h =
      let (after, first, rest) =
        bind-eq-ok (triage_finding is_datetime options s finding)
          (λ after. triage_all is_datetime options after findings) out h in
      subst (λ m. P m out) (omega arith)
        (triage_all-induction step (suc n) after out findings
          (step n finding s after p
            (triage_finding-IsStep is_datetime options s finding after first))
          rest)
