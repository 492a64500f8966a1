-- ===== src/Drift/Tests.antt =====
-- Runs of the drift package's model, and its theorems at concrete inputs.
use hulumi.Prelude.{
  text_eq, ℕ, Bool, true, false, Option, none, some, List, [], ◌++◌, take, Text, lit, length, ◌≡◌,
  ◌≢◌, ◌≤◌, ◌<◌, ◌⊎◌, ◌↔◌, refl,
}
use hulumi.Prelude.Result.{ok, err}
use hulumi.Drift.Types.{
  DriftSource, Confidence, DriftVerdict, EvidenceWindow, VerdictSnapshot, VerdictResult,
}
use hulumi.Drift.Verdict.{hardened_verdict}
use hulumi.Drift.Urn.{is_safe_unit, validate_urn, unsafe_characters}
use hulumi.Drift.Cache.{
  CacheEnvelope, envelope, CacheFile, Fs, FsOp, hit, absent, expired, update, read_cache,
  write_cache, run_ops, write_ops,
}
use hulumi.Drift.Cache.Codec.{number_codec}
use hulumi.Drift.Cache.Files.{read_cache-write_cache}
use hulumi.Drift.Cache.Migration.{Holds, backup_path, upgraded, migrate_ops, migrate_ops-keeps_v1}

abbrev snapshot : Bool → Bool → Bool → Bool → VerdictSnapshot
snapshot m t d p = record {
  mutated = m;
  event_in_transit = t;
  event_delivered = d;
  provider_drift = p;
}

matrix :
    ((hardened_verdict (snapshot true true false true)).source ≡ DriftSource.unknown)
    × ((hardened_verdict (snapshot true false true true)).source ≡ DriftSource.mixed)
    × ((hardened_verdict (snapshot true false false true)).confidence ≡ Confidence.medium)
unfolding hardened_verdict
matrix = (refl, refl, refl)

urns :
    (validate_urn (lit "urn:pulumi:dev::app::aws:s3/bucketV2:BucketV2::b")
      ≡ ok (lit "urn:pulumi:dev::app::aws:s3/bucketV2:BucketV2::b"))
    × (validate_urn (lit "urn:$(id)") ≡ err unsafe_characters)
unfolding validate_urn is_safe_unit
urns = (refl, refl)

abbrev row_unknown : VerdictResult
row_unknown = record { source = DriftSource.unknown; confidence = Confidence.low }

-- A text counts as the instant that its length gives.
abbrev clock_text : Text → Option ℕ
clock_text s = some (length s)

abbrev short_window : EvidenceWindow
short_window = record { after = lit "1"; before = lit "22" }

abbrev held : DriftVerdict
held = record {
  resource = lit "urn:a";
  source = DriftSource.mixed;
  confidence = Confidence.high;
  evidence = [];
  recommendation = none;
  tier_degraded = none;
  feature_not_licensed = none;
}

abbrev old_envelope : CacheEnvelope
old_envelope = record {
  schema_version = 1;
  written_at = some 5000;
  verdict = held;
  github_webhook_cache = none;
}

abbrev new_envelope : CacheEnvelope
new_envelope = upgraded old_envelope

abbrev old_text : Text
old_text = number_codec.stringify old_envelope

abbrev old_file : CacheFile
old_file = record { owner = 7; mode = 0o644; readable = true; raw = old_text }

abbrev path : Text
path = lit "c"

abbrev no_files : Fs
no_files q = none

abbrev disk : Fs
disk = update path (some old_file) no_files

-- The file there is public and of the first schema.
abbrev disk_after : Fs
disk_after = write_cache number_codec 7 path new_envelope disk

path-ne : lit "" ≢ path
path-ne e = cc

read_cache-write_cache_example :
    ((read_cache number_codec (some 7) disk_after path 10 6000 ≡ hit new_envelope) ↔ (6000 ≤ 15000))
    × ((read_cache number_codec (some 7) disk_after path 10 6000 ≡ absent expired) ↔ (15000 < 6000))
    × ((f : CacheFile) × (disk_after path ≡ some f)
        × (f.mode ≡ 0o600)
        × (number_codec.parse f.raw ≡ envelope new_envelope))
    × (disk_after (lit "") ≡ disk (lit ""))
unfolding update text_eq
read_cache-write_cache_example =
    read_cache-write_cache number_codec 7 (some 7) path (lit "") new_envelope disk 10 6000 5000 refl
      refl refl refl path-ne

abbrev both_writes : List FsOp
both_writes =
    write_ops (backup_path path) old_text ++ write_ops path (number_codec.stringify new_envelope)

old_file_migrates : migrate_ops number_codec path (some old_file) ≡ ok both_writes
unfolding migrate_ops
old_file_migrates = rw (number_codec.parse-stringify old_envelope) refl

migrate_ops-keeps_v1_example :
    Holds (run_ops 7 (take 4 both_writes) disk path) old_text
    ⊎ Holds (run_ops 7 (take 4 both_writes) disk (backup_path path)) old_text
unfolding update text_eq
migrate_ops-keeps_v1_example =
    migrate_ops-keeps_v1 number_codec 7 4 path disk old_file both_writes refl old_file_migrates
