-- ===== src/Drift/Classifier/Tests.antt =====
-- The classifier's theorems at concrete inputs.
use hulumi.Prelude.{
  ◌≤◌, Bool, true, false, none, some, List, [], ◌∷◌, lit, ◌≡◌, ◌↔◌, inl, refl, arith,
}
use hulumi.Prelude.Result.{ok}
use hulumi.Drift.Types.{
  DriftSource, Confidence, Raw, DriftVerdict, EvidenceWindow, ClassifyOptions, VerdictSnapshot,
}
use hulumi.Drift.Probe.{finished}
use hulumi.Drift.Cache.{CacheEnvelope, CacheFile, Fs, missing, update, read_cache}
use hulumi.Drift.Cache.Codec.{number_codec}
use hulumi.Drift.Classifier.{
  Settled, fulfilled, rejected, Env, collect_signals, classify, explicit_window, window_or_default,
  run_adapters,
}
use hulumi.Drift.Conclusion.{correlate, result}
use hulumi.Drift.Classifier.Judgement.{Judgement, correlate-iff_Judgement}
use hulumi.Drift.Classifier.Ranks.{held_rank, Call, run_calls, IsReader, run_calls-keeps_rank}
use hulumi.Drift.Classifier.Runs.{Misses, classify_fails_closed, classify_high_iff}

abbrev pending : VerdictSnapshot
pending = record {
  mutated = true;
  event_in_transit = true;
  event_delivered = false;
  provider_drift = false;
}

correlate-iff_Judgement_example :
    (correlate pending true false ≡ result DriftSource.console_break_glass Confidence.high)
    ↔ Judgement pending true false (result DriftSource.console_break_glass Confidence.high)
correlate-iff_Judgement_example = correlate-iff_Judgement pending true false _

abbrev signal : Bool → Bool → Settled
signal detected fine = fulfilled (record { detected = detected; payload = Raw.empty; ok = fine })

abbrev lost : Settled
lost = rejected (lit "throttled")

-- A world in which the clock stands still, with what the Automation API and CloudTrail answer.
abbrev world : Settled → Settled → Env
world auto ct = record {
  automation_api = λ stack resource window. auto;
  cloud_trail = λ stack resource window. ct;
  provider_version = λ stack resource window. signal false true;
  git_log = λ stack resource window. signal false true;
  probe = λ timeout. finished true false;
  clock = λ reading. 90000000;
  date_parse = λ t. none;
  to_iso = λ ms. [];
  json = number_codec;
  uid = 7;
  getuid = some 7;
  disk_writable = true;
  cache_path_for = λ dir stack resource. resource;
  classifier_region = none;
  env_aws_region = none;
  env_aws_default_region = none;
}

abbrev defaults : ClassifyOptions
defaults = record {
  window = none;
  min_confidence = none;
  require_adapters = none;
  aws_region = none;
  probe_timeout_ms = some 1;
  cache_ttl_seconds = none;
  cache_dir = none;
}

abbrev last_day : EvidenceWindow
last_day = record { after = []; before = [] }

abbrev held : DriftVerdict
held = record {
  resource = lit "u";
  source = DriftSource.unknown;
  confidence = Confidence.low;
  evidence = [];
  recommendation = none;
  tier_degraded = none;
  feature_not_licensed = none;
}

abbrev envelope : CacheEnvelope
envelope = record {
  schema_version = 2;
  written_at = some 89999000;
  verdict = held;
  github_webhook_cache = none;
}

abbrev held_file : CacheFile
held_file = record {
  owner = 7;
  mode = 0o600;
  readable = true;
  raw = number_codec.stringify envelope;
}

abbrev no_files : Fs
no_files q = none

abbrev disk : Fs
disk = update (lit "u") (some held_file) no_files

abbrev changed : Env
changed = world (signal true true) (signal true true)

abbrev MissesIn : (env : Env) → Type 0
MissesIn env = Misses env (lit "s") (lit "u") defaults no_files none last_day missing

Misses_if_lost : MissesIn (world lost (signal true true))
unfolding explicit_window read_cache window_or_default
Misses_if_lost = record { checked = refl; resolved = refl; missed = refl }

Misses_if_changed : MissesIn changed
unfolding explicit_window read_cache window_or_default
Misses_if_changed = record { checked = refl; resolved = refl; missed = refl }

classify_fails_closed_example :
    (v : DriftVerdict) × (classify
        (world lost (signal true true))
        (lit "s")
        (lit "u")
        defaults
        no_files
      ≡ (ok v, no_files))
    × (v.source ≡ DriftSource.unknown)
    × (v.confidence ≡ Confidence.low)
unfolding collect_signals
classify_fails_closed_example =
    classify_fails_closed (world lost (signal true true)) (lit "s") (lit "u") defaults no_files none
      last_day missing Misses_if_lost (inl refl)

abbrev found : DriftVerdict
found = (run_adapters changed (lit "s") (lit "u") defaults missing last_day).verdict

classify_high_iff_example :
    (found.confidence ≡ Confidence.high)
    ↔ ((true ≡ true) × (true ≡ true) × (true ≡ true) × (true ≡ true))
unfolding classify collect_signals
classify_high_iff_example =
    classify_high_iff changed (lit "s") (lit "u") defaults no_files none last_day missing found
      Misses_if_changed refl

abbrev call : Settled → Call
call auto = record {
  env = world auto (signal false true);
  stack = lit "s";
  resource = lit "u";
  options = defaults;
}

call-IsReader : (auto : Settled) → IsReader changed.json changed.getuid (call auto)
call-IsReader auto = record { same_json = refl; same_user = refl; in_range = omega arith }

abbrev two_calls : List Call
two_calls = call lost ∷ call (signal true true) ∷ []

run_calls-keeps_rank_example :
    held_rank changed.json changed.getuid (disk (lit "u"))
    ≤ held_rank changed.json changed.getuid (run_calls two_calls disk (lit "u"))
run_calls-keeps_rank_example =
    run_calls-keeps_rank changed.json changed.getuid two_calls disk (lit "u")
      (call-IsReader lost, (call-IsReader (signal true true), tt))
