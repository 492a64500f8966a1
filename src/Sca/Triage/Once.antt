-- ===== src/Sca/Triage/Once.antt =====
-- A finding is taken up once (tools/sca/src/cli/triage.ts with tools/sca/src/state/store.ts).
use hulumi.Prelude.{
  ℕ, suc, ◌+◌, Bool, none, some, List, [], ◌∷◌, Text, lookup, text_eq, text_eq_iff, text_eq_refl,
  length, All, All-mono, Bool-cases, ◌≡◌, ◌≢◌, refl, sym, ap, subst, ◌∙◌, inl, inr, arith,
}
use hulumi.Prelude.Result.{ok}
use hulumi.Sca.Evidence.{RawScanFinding}
use hulumi.Sca.Store.{FindingRecord, StateStoreData, with_record}
use hulumi.Sca.Triage.{WorkItem, TriageOptions, TriageState, triage_all, initial, triage}
use hulumi.Sca.Triage.Steps.{IsStep, triage_all-induction}

lookup-cons_ne :
    {A : Type 0} (key k : Text) (a : A) (entries : List (Text × A))
    → k ≢ key
    → lookup key ((k, a) ∷ entries) ≡ lookup key entries
unfolding lookup
lookup-cons_ne key k a entries ne = elim (Bool-cases (text_eq k key)) [
  | inl same ↦ absurd (ne ((text_eq_iff k key).0 same))
  | inr other ↦ rw other refl
]

lookup-cons_self :
    {A : Type 0} (key : Text) (a : A) (entries : List (Text × A))
    → lookup key ((key, a) ∷ entries) ≡ some a
unfolding lookup
lookup-cons_self key a entries = rw (text_eq_refl key) refl

-- The record of the key is still the same, and no work item has the key.
abbrev Untouched : Text → FindingRecord → TriageState → Type 0
Untouched key r s =
    (lookup key s.store.findings ≡ some r) × All (λ w. w.finding_key ≢ key) s.work_items

Untouched-step :
    (key : Text) (kept : FindingRecord) (finding : RawScanFinding) (s after : TriageState)
    → Untouched key kept s
    → IsStep finding s after
    → Untouched key kept after
Untouched-step key kept finding s after (there, items) (e, r, _, inl same) =
    subst (Untouched key kept) (sym same) (there, items)
Untouched-step key kept finding s after (there, items) (e, r, _, inr (fresh, same)) =
    let other : r.finding_key ≢ key =
      λ k. cc (ap (λ x. lookup x s.store.findings) k, fresh, there) in
    subst (Untouched key kept) (sym same)
      (lookup-cons_ne key r.finding_key r s.store.findings other ∙ there, (other, items))

-- The keys of the work items are distinct, and the record has each.
abbrev pub Distinct : List WorkItem → Type 0
Distinct [] = Unit
Distinct (w ∷ ws) = All (λ v. v.finding_key ≢ w.finding_key) ws × Distinct ws

abbrev pub IsRecorded : StateStoreData → WorkItem → Type 0
IsRecorded store w = (r : FindingRecord) × (lookup w.finding_key store.findings ≡ some r)

-- After n findings: how many of them became work items, and each step was a revision.
record Tally (start : StateStoreData) (n : ℕ) (s : TriageState) : Type 0 where
  counted : length s.work_items + s.deduped_count ≡ n
  revised : s.store.revision ≡ start.revision + length s.work_items
  distinct : Distinct s.work_items
  recorded : All (IsRecorded s.store) s.work_items

module _ (store : StateStoreData) (r : FindingRecord) where
  ne_of_recorded :
      (w : WorkItem)
      → lookup r.finding_key store.findings ≡ none
      → IsRecorded store w
      → w.finding_key ≢ r.finding_key
  ne_of_recorded w fresh (old, there) k = cc (ap (λ x. lookup x store.findings) k, fresh, there)

  new_key :
      (ws : List WorkItem)
      → lookup r.finding_key store.findings ≡ none
      → All (IsRecorded store) ws
      → All (λ v. v.finding_key ≢ r.finding_key) ws
  new_key ws fresh =
      All-mono (IsRecorded store) (λ v. v.finding_key ≢ r.finding_key) ws
        (λ v h. ne_of_recorded v fresh h)

  still-IsRecorded :
      (ws : List WorkItem)
      → lookup r.finding_key store.findings ≡ none
      → All (IsRecorded store) ws
      → All (IsRecorded (with_record store r)) ws
  still-IsRecorded ws fresh =
      All-mono (IsRecorded store) (IsRecorded (with_record store r)) ws (λ v (old, there). (
        old,
        lookup-cons_ne v.finding_key r.finding_key r store.findings
              (λ k. ne_of_recorded v fresh (old, there) (sym k))
            ∙ there,
      ))

Tally-step :
    (start : StateStoreData) (n : ℕ) (finding : RawScanFinding) (s after : TriageState)
    → Tally start n s
    → IsStep finding s after
    → Tally start (suc n) after
Tally-step start n finding s after t (e, r, _, inl same) =
    subst (Tally start (suc n)) (sym same) (record {
      counted = omega (arith, t.counted);
      revised = t.revised;
      distinct = t.distinct;
      recorded = t.recorded;
    })
Tally-step start n finding s after t (e, r, _, inr (fresh, same)) =
    subst (Tally start (suc n)) (sym same) (record {
      counted = omega (arith, t.counted);
      revised = omega (arith, t.revised);
      distinct = (new_key s.store r s.work_items fresh t.recorded, t.distinct);
      recorded = (
        (r, lookup-cons_self r.finding_key r s.store.findings),
        still-IsRecorded s.store r s.work_items fresh t.recorded,
      );
    })

-- After all findings: each became one work item or was skipped, the state has one more revision for
-- each work item and the record of each, and no two work items have the same key.
abbrev pub IsTally : StateStoreData → ℕ → TriageState → Type 0
IsTally store n out =
    (length out.work_items + out.deduped_count ≡ n)
    × (out.store.revision ≡ store.revision + length out.work_items)
    × Distinct out.work_items
    × All (IsRecorded out.store) out.work_items

triage-triage_all :
    (is_datetime : Text → Bool) (options : TriageOptions) (store : StateStoreData)
    (findings : List RawScanFinding) (out : TriageState)
    → triage is_datetime options store findings ≡ ok out
    → triage_all is_datetime options (initial store) findings ≡ ok out
unfolding triage
triage-triage_all is_datetime options store findings out h = ground arith

-- A triage that returns makes each finding one work item or skips it; the work items have distinct
-- keys, each is recorded, and each is one revision of the state.
pub triage-IsTally :
    (is_datetime : Text → Bool) (options : TriageOptions) (store : StateStoreData)
    (findings : List RawScanFinding) (out : TriageState)
    → triage is_datetime options store findings ≡ ok out
    → IsTally store (length findings) out
triage-IsTally is_datetime options store findings out h =
    let t =
      triage_all-induction (Tally store) is_datetime options (Tally-step store) 0 (initial store)
        out findings
        (record { counted = refl; revised = omega arith; distinct = tt; recorded = tt })
        (triage-triage_all is_datetime options store findings out h) in
    (omega (arith, t.counted), t.revised, t.distinct, t.recorded)

-- A finding that the state has already keeps its record and gets no work item.
pub triage-keeps :
    (is_datetime : Text → Bool) (options : TriageOptions) (store : StateStoreData)
    (findings : List RawScanFinding) (out : TriageState) (key : Text) (kept : FindingRecord)
    → triage is_datetime options store findings ≡ ok out
    → lookup key store.findings ≡ some kept
    → (lookup key out.store.findings ≡ some kept) × All (λ w. w.finding_key ≢ key) out.work_items
triage-keeps is_datetime options store findings out key kept h there =
    triage_all-induction (λ n. Untouched key kept) is_datetime options
      (λ n. Untouched-step key kept) 0 (initial store) out findings (there, tt)
      (triage-triage_all is_datetime options store findings out h)
