-- ===== src/Sca/Store.antt =====
-- tools/sca/src/state/store.ts: the record of the findings. The findings are the list of their
-- entries, of which the first with a key counts.
use hulumi.Prelude.{
  ℕ, suc, Bool, true, false, not, ◌&&◌, ◌||◌, Option, none, some, is_some, List, [], ◌∷◌, Text,
  lookup, all, ◌==◌, if◌then◌else◌,
}
use hulumi.Prelude.Result.{Result, ok, throw_if, ◌>>◌}
use hulumi.Sca.Evidence.{
  Ecosystem, FindingClass, ScaError, schema_violation, not_claimable, untrusted_writer,
  dropped_without_reason, is_empty,
}
use hulumi.Sca.Route.{Track, emergency, dropped}

pub data FindingState : Type 0 where
  detected in_progress remediated escalated dropped_finding : FindingState

pub record FindingRecord : Type 0 where
  pub finding_key : Text
  pub advisory_id : Text
  pub ecosystem : Ecosystem
  pub package_name : Text
  pub affected_version : Text
  pub class : FindingClass
  pub track : Track
  pub fixed_version : Option Text
  pub state : FindingState
  pub manifest_paths : List Text
  pub first_seen : Text
  pub last_seen : Text
  pub remediation_ref : Option Text
  pub audit_record_path : Option Text
  pub reason : Option Text

pub record StateStoreData : Type 0 where
  pub revision : ℕ
  pub findings : List (Text × FindingRecord)

pub data EventName : Type 0 where
  routed deduped_finding : EventName

pub record ClaimResult : Type 0 where
  pub claimed : Bool
  pub side_effects_allowed : Bool
  pub state : StateStoreData
  pub event : EventName

abbrev pub create_empty_state : StateStoreData
create_empty_state = record { revision = 0; findings = [] }

-- The tests of `findingRecordSchema`. That of a date and time is an argument.
unfoldable pub is_finding_record : (Text → Bool) → FindingRecord → Bool
is_finding_record is_datetime r =
    not (is_empty r.finding_key)
    && not (is_empty r.advisory_id)
    && not (is_empty r.package_name)
    && not (is_empty r.affected_version)
    && all (λ p. not (is_empty p)) r.manifest_paths
    && is_datetime r.first_seen
    && is_datetime r.last_seen

-- The tests of `stateStoreSchema`.
unfoldable pub is_state_store : (Text → Bool) → StateStoreData → Bool
unfolding is_finding_record
is_state_store is_datetime s = all (λ entry. is_finding_record is_datetime entry.1) s.findings

abbrev pub parsed : (Text → Bool) → StateStoreData → FindingRecord → Result ScaError (Unit {0})
parsed is_datetime s r =
    throw_if (not (is_state_store is_datetime s) || not (is_finding_record is_datetime r))
      schema_violation

abbrev pub is_emergency : Track → Bool
is_emergency emergency = true
is_emergency _ = false

abbrev pub is_dropped : Track → Bool
is_dropped dropped = true
is_dropped _ = false

abbrev pub is_in_progress : FindingState → Bool
is_in_progress in_progress = true
is_in_progress _ = false

-- `expectedRevision !== undefined && expectedRevision !== revision`
abbrev pub is_outdated : Option ℕ → ℕ → Bool
is_outdated none revision = false
is_outdated (some expected) revision = not (expected == revision)

abbrev pub deduped : StateStoreData → ClaimResult
deduped s = record {
  claimed = false;
  side_effects_allowed = false;
  state = s;
  event = deduped_finding;
}

-- The state with one more revision and the record under its key.
abbrev pub with_record : StateStoreData → FindingRecord → StateStoreData
with_record s r = record { revision = suc s.revision; findings = (r.finding_key, r) ∷ s.findings }

abbrev claim_new : StateStoreData → FindingRecord → Result ScaError ClaimResult
claim_new s r =
    throw_if (not (is_emergency r.track) || not (is_in_progress r.state)) not_claimable
    >> ok (record {
      claimed = true;
      side_effects_allowed = true;
      state = with_record s r;
      event = routed;
    })

unfoldable pub claim_finding :
    (Text → Bool) → StateStoreData → FindingRecord → Option ℕ → Result ScaError ClaimResult
unfolding is_state_store is_finding_record lookup
claim_finding is_datetime s r expected =
    parsed is_datetime s r
    >> (if is_some (lookup r.finding_key s.findings) || is_outdated expected s.revision
        then ok (deduped s)
        else claim_new s r)

-- A reason that is empty is none.
abbrev has_text : Option Text → Bool
has_text none = false
has_text (some t) = not (is_empty t)

-- `by_triage` says that `options.actor` is the triage.
unfoldable pub write_finding_state :
    (Text → Bool)
    → StateStoreData
    → FindingRecord
    → (by_triage : Bool) → Option Text
    → Result ScaError StateStoreData
unfolding is_state_store is_finding_record
write_finding_state is_datetime s r by_triage reason =
    parsed is_datetime s r
    >> (throw_if (not by_triage) untrusted_writer
        >> (throw_if (is_dropped r.track && not (has_text reason) && not (has_text r.reason))
              dropped_without_reason
            >> ok (with_record s r)))

-- `buildRecord`, with the test of its schema.
unfoldable pub build_record : (Text → Bool) → FindingRecord → Result ScaError FindingRecord
unfolding is_finding_record
build_record is_datetime r =
    throw_if (not (is_finding_record is_datetime r)) schema_violation >> ok r
