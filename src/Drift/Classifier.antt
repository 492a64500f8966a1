-- ===== src/Drift/Classifier.antt =====
-- packages/drift/src/classifier.ts. What the adapters, the probe, the clock and the disk answer is
-- an argument, `Env`; the cache directory is the state.
pub mod Judgement
pub mod Caching
pub mod Ranks
pub mod Runs
mod Tests
use hulumi.Prelude.{
  ℕ, Bool, true, false, not, ◌&&◌, ◌||◌, Option, none, some, List, [], ◌∷◌, ◌++◌, Text, lit, leb,
  if◌then◌else◌, get_or_else,
}
use hulumi.Prelude.Result.{Result, ok, err}
use hulumi.Drift.Types.{
  DriftSource, Confidence, RemediationHint, Raw, Evidence, DriftVerdict, AdapterSignal,
  EvidenceWindow, ClassifyOptions, VerdictSnapshot, VerdictResult,
}
use hulumi.Drift.Conclusion.{result, correlate, make_verdict}
use hulumi.Drift.Monotonicity.{confidence_rank, check_monotonicity}
use hulumi.Drift.Probe.{ProbeOutcome, ProbeResult, run_probe, resolve_probe_timeout_ms}
use hulumi.Drift.EvidenceWindow.{WindowError, default_evidence_window, validate_evidence_window}
use hulumi.Drift.Cache.{
  JsonCodec, cache_schema_version, Fs, AbsenceReason, missing, expired, ownership_mismatch,
  schema_mismatch, parse_error, CacheRead, hit, absent, threw, read_cache, write_cache,
}

-- `Promise.allSettled`
pub data Settled : Type 0 where
  fulfilled : AdapterSignal → Settled
  rejected : (reason : Text) → Settled

-- The places of `classify` that read the clock.
pub data Reading : Type 0 where
  at_first_read at_start at_window at_auto at_ct at_pv at_gl at_probe at_second_read : Reading

pub record Env : Type 0 where
  pub automation_api : Text → Text → EvidenceWindow → Settled
  pub cloud_trail : Text → Text → EvidenceWindow → Settled
  pub provider_version : Text → Text → EvidenceWindow → Settled
  pub git_log : Text → Text → EvidenceWindow → Settled
  -- The outcome under a timeout in milliseconds.
  pub probe : ℕ → ProbeOutcome
  pub clock : Reading → ℕ
  pub date_parse : Text → Option ℕ
  pub to_iso : ℕ → Text
  pub json : JsonCodec
  pub uid : ℕ
  pub getuid : Option ℕ
  pub disk_writable : Bool
  -- `cachePathFor`: a digest of the stack and the resource, below the directory.
  pub cache_path_for : Text → Text → Text → Text
  pub classifier_region : Option Text
  pub env_aws_region : Option Text
  pub env_aws_default_region : Option Text

pub data ClassifyError : Type 0 where
  invalid_window : WindowError → ClassifyError
  unreadable_cache cache_not_written : ClassifyError

unfoldable pub unwrap_signal : Settled → Text → AdapterSignal
unwrap_signal (fulfilled s) adapter = s
unwrap_signal (rejected reason) adapter = record {
  detected = false;
  payload = Raw.adapter_rejected adapter reason;
  ok = false;
}

unfoldable pub signal_evidence : Text → AdapterSignal → ℕ → Evidence
signal_evidence adapter signal now = record {
  adapter = adapter;
  signal_kind =
      if signal.detected then lit "detected" else if signal.ok then lit "clean" else lit "degraded";
  raw = signal.payload;
  timestamp = now;
}

unfoldable pub meets_min_confidence : Confidence → Option Confidence → Bool
meets_min_confidence actual threshold =
    if leb (confidence_rank actual) (confidence_rank Confidence.none)
    then false
    else elim threshold [ none ↦ true | some t ↦ leb (confidence_rank t) (confidence_rank actual) ]

abbrev pub absence_text : AbsenceReason → Text
absence_text missing = lit "missing"
absence_text expired = lit "expired"
absence_text ownership_mismatch = lit "ownership-mismatch"
absence_text schema_mismatch = lit "schema-mismatch"
absence_text parse_error = lit "parse-error"

abbrev pub absence_evidence : AbsenceReason → ℕ → List Evidence
absence_evidence missing ts = []
absence_evidence reason ts =
    record {
      adapter = lit "Cache";
      signal_kind = absence_text reason;
      raw = Raw.empty;
      timestamp = ts;
    }
    ∷ []

abbrev pub probe_evidence : ProbeResult → ℕ → List Evidence
probe_evidence p ts =
    if p.ok
    then []
    else record {
      adapter = lit "Probe";
      signal_kind = lit "probeFailedAt";
      raw = Raw.probe_failure (get_or_else p.probe_failed_at 0) (get_or_else p.message []);
      timestamp = ts;
    }
      ∷ []

-- The four settled signals of a run.
pub record Signals : Type 0 where
  pub auto : AdapterSignal
  pub ct : AdapterSignal
  pub pv : AdapterSignal
  pub gl : AdapterSignal

unfoldable pub collect_signals : Env → Text → Text → EvidenceWindow → Signals
unfolding unwrap_signal
collect_signals env stack resource window = record {
  auto = unwrap_signal (env.automation_api stack resource window) (lit "AutomationApi");
  ct = unwrap_signal (env.cloud_trail stack resource window) (lit "CloudTrail");
  pv = unwrap_signal (env.provider_version stack resource window) (lit "ProviderVersion");
  gl = unwrap_signal (env.git_log stack resource window) (lit "GitLog");
}

unfoldable pub signals_evidence : Env → Signals → List Evidence
unfolding signal_evidence
signals_evidence env s =
    signal_evidence (lit "AutomationApi") s.auto (env.clock at_auto)
    ∷ signal_evidence (lit "CloudTrail") s.ct (env.clock at_ct)
    ∷ signal_evidence (lit "ProviderVersion") s.pv (env.clock at_pv)
    ∷ signal_evidence (lit "GitLog") s.gl (env.clock at_gl)
    ∷ []

unfoldable pub snapshot_of : Signals → ProbeResult → VerdictSnapshot
snapshot_of s p = record {
  mutated = s.auto.detected;
  event_in_transit = p.ok && p.event_in_transit;
  event_delivered = p.ok && p.event_delivered;
  provider_drift = s.pv.detected;
}

abbrev pub required_adapter_failed : Signals → Bool
required_adapter_failed s = not s.auto.ok || not s.pv.ok

-- The verdict of a run that got its signals and its probe's result, and whether it may be cached
-- at all: not when a required adapter failed.
pub record Judged : Type 0 where
  pub verdict : DriftVerdict
  pub degraded : Bool

unfoldable pub judge : Text → List Evidence → Signals → ProbeResult → Judged
unfolding snapshot_of correlate
judge resource evidence s p =
    if required_adapter_failed s
    then record {
      verdict = make_verdict resource (result DriftSource.unknown Confidence.low) evidence;
      degraded = true;
    }
    else record {
      verdict =
          make_verdict resource (correlate (snapshot_of s p) s.ct.detected s.gl.detected) evidence;
      degraded = false;
    }

abbrev pub max_safe_integer : ℕ
max_safe_integer = 9007199254740991

abbrev pub write_through : Env → Text → DriftVerdict → Fs → Result ClassifyError DriftVerdict × Fs
write_through env path v fs = if not env.disk_writable then (err cache_not_written, fs) else (
  ok v,
  write_cache env.json env.uid path
      (record {
        schema_version = cache_schema_version;
        written_at = some (env.clock at_start);
        verdict = v;
        github_webhook_cache = none;
      })
      fs,
)

-- The monotonicity guard and the write, by what the second read found.
unfoldable pub store_guarded :
    Env → Text → DriftVerdict → Fs → CacheRead → Result ClassifyError DriftVerdict × Fs
unfolding check_monotonicity write_cache
store_guarded env path v fs threw = (err unreadable_cache, fs)
store_guarded env path v fs (hit e) =
    if (check_monotonicity (some e.verdict) v).allow_write
    then write_through env path v fs
    else (ok v, fs)
store_guarded env path v fs (absent r) =
    if (check_monotonicity none v).allow_write then write_through env path v fs else (ok v, fs)

-- The second read takes a verdict of any age.
abbrev pub second_read : Env → Text → Fs → CacheRead
second_read env path fs =
    read_cache env.json env.getuid fs path max_safe_integer (env.clock at_second_read)

-- The end of `classify`: the threshold, the guard and the write.
unfoldable pub remember :
    Env → Text → Option Confidence → Judged → Fs → Result ClassifyError DriftVerdict × Fs
unfolding meets_min_confidence store_guarded read_cache
remember env path threshold j fs =
    if j.degraded
    then (ok j.verdict, fs)
    else if not (meets_min_confidence j.verdict.confidence threshold)
    then (ok j.verdict, fs)
    else store_guarded env path j.verdict fs (second_read env path fs)

-- The window that the caller gave, checked; `none` where the caller gave none.
unfoldable pub explicit_window :
    Env → Option EvidenceWindow → Result ClassifyError (Option EvidenceWindow)
unfolding validate_evidence_window
explicit_window env none = ok none
explicit_window env (some w) = elim (validate_evidence_window env.date_parse w) [
  | ok w' ↦ ok (some w')
  | err e ↦ err (invalid_window e)
]

unfoldable pub window_or_default : Env → Option EvidenceWindow → Result ClassifyError EvidenceWindow
unfolding default_evidence_window
window_or_default env (some w) = ok w
window_or_default env none = elim (default_evidence_window (env.clock at_window)) [
  | ok (after, before) ↦ ok (record { after = env.to_iso after; before = env.to_iso before })
  | err e ↦ err (invalid_window e)
]

abbrev pub probe_timeout : Env → ClassifyOptions → ℕ
probe_timeout env options = resolve_probe_timeout_ms (record {
  probe_timeout_ms = options.probe_timeout_ms;
  option_region = options.aws_region;
  classifier_region = env.classifier_region;
  env_aws_region = env.env_aws_region;
  env_aws_default_region = env.env_aws_default_region;
})

-- One run of the adapters and the probe.
unfoldable pub run_adapters :
    Env → Text → Text → ClassifyOptions → AbsenceReason → EvidenceWindow → Judged
unfolding collect_signals signals_evidence judge run_probe resolve_probe_timeout_ms
run_adapters env stack resource options reason window =
    let signals = collect_signals env stack resource window in
    let probed = run_probe (env.probe (probe_timeout env options)) (env.clock at_probe) in
    let ts = env.clock at_start in
    judge resource
      (absence_evidence reason ts ++ (signals_evidence env signals ++ probe_evidence probed ts))
      signals probed

abbrev pub path_of : Env → Text → Text → ClassifyOptions → Text
path_of env stack resource options =
    env.cache_path_for (get_or_else options.cache_dir (lit ".hulumi/drift-cache")) stack resource

abbrev pub ttl_of : ClassifyOptions → ℕ
ttl_of options = get_or_else options.cache_ttl_seconds 21600

unfoldable pub classify_fresh :
    Env
    → Text
    → Text
    → ClassifyOptions
    → AbsenceReason
    → Option EvidenceWindow
    → Fs
    → Result ClassifyError DriftVerdict × Fs
unfolding window_or_default run_adapters remember
classify_fresh env stack resource options reason explicit fs =
    elim (window_or_default env explicit) [
      | err e ↦ (err e, fs)
      | ok window ↦
          remember env (path_of env stack resource options) options.min_confidence
            (run_adapters env stack resource options reason window) fs
    ]

unfoldable pub classify :
    Env → Text → Text → ClassifyOptions → Fs → Result ClassifyError DriftVerdict × Fs
unfolding explicit_window read_cache classify_fresh
classify env stack resource options fs = elim (explicit_window env options.window) [
  | err e ↦ (err e, fs)
  | ok explicit ↦
      elim (read_cache env.json env.getuid fs (path_of env stack resource options) (ttl_of options)
        (env.clock at_first_read)) [
          | hit e ↦ (ok e.verdict, fs)
          | threw ↦ (err unreadable_cache, fs)
          | absent reason ↦ classify_fresh env stack resource options reason explicit fs
        ]
]
