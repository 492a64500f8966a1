-- ===== src/Drift/Classifier/Runs.antt =====
-- What a call of `classify` answers (packages/drift/src/classifier.ts): from the cache, from the
-- evidence, or degraded.
use hulumi.Prelude.{
  ℕ, Bool, true, false, Option, List, ◌++◌, ◌∙◌, Text, Bool-cases, ◌≡◌, ◌↔◌, ◌⊎◌, inl, inr, refl,
  arith, if◌then◌else◌, leb,
}
use hulumi.Drift.Monotonicity.{confidence_rank}
use hulumi.Prelude.Result.{Result, ok, err}
use hulumi.Drift.Types.{
  DriftSource, Confidence, Evidence, DriftVerdict, EvidenceWindow, ClassifyOptions, VerdictSnapshot,
}
use hulumi.Drift.Probe.{ProbeOutcome, ProbeResult, run_probe}
use hulumi.Drift.Cache.{CacheEnvelope, Fs, AbsenceReason, CacheRead, hit, absent, threw, read_cache}
use hulumi.Drift.Classifier.{
  Env, Settled, at_first_read, at_probe, ClassifyError, at_start, absence_evidence, probe_evidence,
  signals_evidence, Judged, Signals, collect_signals, snapshot_of, judge, required_adapter_failed,
  meets_min_confidence, second_read, write_through, store_guarded, remember, explicit_window,
  window_or_default, probe_timeout, run_adapters, path_of, ttl_of, classify_fresh, classify,
}
use hulumi.Drift.Conclusion.{make_verdict, result, correlate}

abbrev Answer : Type 0
Answer = Result ClassifyError DriftVerdict

ok-injective : {a b : DriftVerdict} → ◌≡◌ {A = Answer} (ok a) (ok b) → b ≡ a
ok-injective e = cc

not_err : {x : ClassifyError} {a : DriftVerdict} → ◌≡◌ {A = Answer} (err x) (ok a) → ⊥
not_err e = cc

-- High confidence needs both an applied change and CloudTrail's own observation of it.
high_iff :
    (s : VerdictSnapshot) (ct gl : Bool)
    → ((correlate s ct gl).confidence ≡ Confidence.high) ↔ ((s.mutated ≡ true) × (ct ≡ true))
unfolding correlate
high_iff s ct gl = ground arith

-- A call whose window is valid and that the cache answers depends on no adapter and not on the
-- probe: with any others in their place the answer and the cache directory are the same.
pub classify_cached_ignores_adapters :
    (env : Env) (auto ct pv gl : Text → Text → EvidenceWindow → Settled) (probe : ℕ → ProbeOutcome)
    (stack resource : Text) (options : ClassifyOptions) (fs : Fs) (explicit : Option EvidenceWindow)
    (e : CacheEnvelope)
    → explicit_window env options.window ≡ ok explicit
    → read_cache env.json env.getuid fs
        (path_of env stack resource options)
        (ttl_of options)
        (env.clock at_first_read)
      ≡ hit e
    → (classify env stack resource options fs ≡ (ok e.verdict, fs))
      × (classify
            (record env {
              automation_api = auto;
              cloud_trail = ct;
              provider_version = pv;
              git_log = gl;
              probe = probe;
            })
            stack
            resource
            options
            fs
          ≡ (ok e.verdict, fs))
unfolding classify explicit_window
classify_cached_ignores_adapters env auto ct pv gl probe stack resource options fs explicit e w h =
    (ground arith, ground arith)

module _ (env : Env) (stack resource : Text) (options : ClassifyOptions) (fs : Fs)
    (explicit : Option EvidenceWindow) (window : EvidenceWindow) (reason : AbsenceReason) where
  -- The call has a valid window and found no cached verdict.
  pub record Misses : Type 0 where
    pub checked : explicit_window env options.window ≡ ok explicit
    pub resolved : window_or_default env explicit ≡ ok window
    pub missed :
        read_cache env.json env.getuid fs
          (path_of env stack resource options)
          (ttl_of options)
          (env.clock at_first_read)
        ≡ absent reason

  classify_miss :
      Misses
      → classify env stack resource options fs
        ≡ remember env
            (path_of env stack resource options)
            options.min_confidence
            (run_adapters env stack resource options reason window)
            fs
  unfolding classify
  classify_miss m = rw (m.checked, classify, m.missed, m.resolved, classify_fresh) refl

remember-degraded :
    (env : Env) (path : Text) (threshold : Option Confidence) (j : Judged) (fs : Fs)
    → j.degraded ≡ true
    → remember env path threshold j fs ≡ (ok j.verdict, fs)
unfolding remember
remember-degraded env path threshold j fs d = rw d refl

judge_failed :
    (resource : Text) (evidence : List Evidence) (s : Signals) (p : ProbeResult)
    → (s.auto.ok ≡ false) ⊎ (s.pv.ok ≡ false)
    → judge resource evidence s p ≡ record {
      verdict = make_verdict resource (result DriftSource.unknown Confidence.low) evidence;
      degraded = true;
    }
unfolding judge
judge_failed resource evidence s p (inl a) = rw a refl
judge_failed resource evidence s p (inr b) = elim (Bool-cases s.auto.ok) [
  | inl a ↦ rw (a, b) refl
  | inr a ↦ rw a refl
]

abbrev run_evidence : Env → AbsenceReason → ClassifyOptions → Signals → List Evidence
run_evidence env reason options signals =
    let probed = run_probe (env.probe (probe_timeout env options)) (env.clock at_probe) in
    absence_evidence reason (env.clock at_start)
    ++ (signals_evidence env signals ++ probe_evidence probed (env.clock at_start))

run_adapters_lem :
    (env : Env) (stack resource : Text) (options : ClassifyOptions) (reason : AbsenceReason)
    (window : EvidenceWindow)
    → run_adapters env stack resource options reason window
      ≡ judge resource
          (run_evidence env reason options (collect_signals env stack resource window))
          (collect_signals env stack resource window)
          (run_probe (env.probe (probe_timeout env options)) (env.clock at_probe))
unfolding run_adapters
run_adapters_lem env stack resource options reason window = refl

-- A call that has a valid window, found no cached verdict, and whose Automation API or provider
-- version adapter failed or was rejected fails closed: it answers Unknown with low confidence, and
-- leaves the cache directory as it was, so that it is not the cached answer of a later call.
pub classify_fails_closed :
    (env : Env) (stack resource : Text) (options : ClassifyOptions) (fs : Fs)
    (explicit : Option EvidenceWindow) (window : EvidenceWindow) (reason : AbsenceReason)
    → Misses env stack resource options fs explicit window reason
    → ((collect_signals env stack resource window).auto.ok ≡ false)
      ⊎ ((collect_signals env stack resource window).pv.ok ≡ false)
    → (v : DriftVerdict) × (classify env stack resource options fs ≡ (ok v, fs))
      × (v.source ≡ DriftSource.unknown)
      × (v.confidence ≡ Confidence.low)
classify_fails_closed env stack resource options fs explicit window reason m failed =
    let signals = collect_signals env stack resource window in
    let evidence = run_evidence env reason options signals in
    let probed = run_probe (env.probe (probe_timeout env options)) (env.clock at_probe) in
    let judged =
      run_adapters_lem env stack resource options reason window
      ∙ judge_failed resource evidence signals probed failed in
    (
      make_verdict resource (result DriftSource.unknown Confidence.low) evidence,
      classify_miss env stack resource options fs explicit window reason m
          ∙ rw judged (remember-degraded env _ options.min_confidence _ fs refl),
      refl,
      refl,
    )

write_through-verdict :
    (env : Env) (path : Text) (w : DriftVerdict) (fs : Fs) (v : DriftVerdict)
    → (write_through env path w fs).0 ≡ ok v
    → v ≡ w
write_through-verdict env path w fs v e = elim (Bool-cases env.disk_writable) [
  | inl d ↦ ok-injective (rw d at e)
  | inr d ↦ absurd (not_err (rw d at e))
]

store_guarded-verdict :
    (env : Env) (path : Text) (w : DriftVerdict) (fs : Fs) (read : CacheRead) (v : DriftVerdict)
    → (store_guarded env path w fs read).0 ≡ ok v
    → v ≡ w
unfolding store_guarded
store_guarded-verdict env path w fs threw v e = absurd (not_err e)
store_guarded-verdict env path w fs (absent r) v e = write_through-verdict env path w fs v e
store_guarded-verdict env path w fs (hit h) v e =
    elim (Bool-cases (leb (confidence_rank h.verdict.confidence) (confidence_rank w.confidence))) [
      | inl le ↦ write_through-verdict env path w fs v (rw le at e)
      | inr gt ↦ ok-injective (rw gt at e)
    ]

remember-verdict :
    (env : Env) (path : Text) (threshold : Option Confidence) (j : Judged) (fs : Fs)
    (v : DriftVerdict)
    → (remember env path threshold j fs).0 ≡ ok v
    → v ≡ j.verdict
unfolding remember
remember-verdict env path threshold j fs v e = elim (Bool-cases j.degraded) [
  | inl d ↦ ok-injective (rw (d, remember) at e)
  | inr d ↦ elim (Bool-cases (meets_min_confidence j.verdict.confidence threshold)) [
    | inl m ↦
        store_guarded-verdict env path j.verdict fs (second_read env path fs) v
          (rw (d, m, remember) at e)
    | inr m ↦ ok-injective (rw (d, m, remember) at e)
  ]
]

judge_confidence :
    (resource : Text) (evidence : List Evidence) (s : Signals) (p : ProbeResult)
    → (judge resource evidence s p).verdict.confidence ≡ (
        if required_adapter_failed s
        then Confidence.low
        else (correlate (snapshot_of s p) s.ct.detected s.gl.detected).confidence)
unfolding judge
judge_confidence resource evidence s p = elim (Bool-cases (required_adapter_failed s)) [
  | inl failed ↦ rw (failed, judge) refl
  | inr fine ↦ rw (fine, judge) refl
]

judge_high_iff :
    (resource : Text) (evidence : List Evidence) (s : Signals) (p : ProbeResult)
    → ((judge resource evidence s p).verdict.confidence ≡ Confidence.high)
      ↔ ((s.auto.ok ≡ true) × (s.pv.ok ≡ true) × (s.auto.detected ≡ true) × (s.ct.detected ≡ true))
unfolding snapshot_of
judge_high_iff resource evidence s p = ground (
  arith,
  judge_confidence resource evidence s p,
  high_iff (snapshot_of s p) s.ct.detected s.gl.detected,
)

-- The verdict of a call that has a valid window and found no cached one has high confidence
-- exactly when both required adapters answered, the Automation API saw a change and CloudTrail
-- itself observed it. A healthy probe is not enough.
pub classify_high_iff :
    (env : Env) (stack resource : Text) (options : ClassifyOptions) (fs : Fs)
    (explicit : Option EvidenceWindow) (window : EvidenceWindow) (reason : AbsenceReason)
    (v : DriftVerdict)
    → Misses env stack resource options fs explicit window reason
    → (classify env stack resource options fs).0 ≡ ok v
    → let s = collect_signals env stack resource window in
      (v.confidence ≡ Confidence.high)
      ↔ ((s.auto.ok ≡ true) × (s.pv.ok ≡ true) × (s.auto.detected ≡ true) × (s.ct.detected ≡ true))
classify_high_iff env stack resource options fs explicit window reason v m answered =
    let signals = collect_signals env stack resource window in
    let evidence = run_evidence env reason options signals in
    let probed = run_probe (env.probe (probe_timeout env options)) (env.clock at_probe) in
    let path = path_of env stack resource options in
    let judged = run_adapters env stack resource options reason window in
    let missed = classify_miss env stack resource options fs explicit window reason m in
    let same =
      remember-verdict env path options.min_confidence judged fs v (rw missed at answered) in
    rw (same, run_adapters_lem env stack resource options reason window)
      (judge_high_iff resource evidence signals probed)
