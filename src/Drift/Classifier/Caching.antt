-- ===== src/Drift/Classifier/Caching.antt =====
-- What a call of `classify` leaves in the cache directory (packages/drift/src/classifier.ts).
use hulumi.Prelude.{
  ◌≤◌, true, Option, none, some, Text, leb, Bool-cases, ◌≡◌, inl, inr, refl, arith,
}
use hulumi.Prelude.Result.{Result, ok, err}
use hulumi.Drift.Types.{Confidence, DriftVerdict, EvidenceWindow, ClassifyOptions}
use hulumi.Drift.Monotonicity.{confidence_rank}
use hulumi.Drift.Cache.{
  CacheEnvelope, cache_schema_version, Fs, AbsenceReason, CacheRead, hit, absent, threw, read_cache,
  write_cache,
}
use hulumi.Drift.Classifier.{
  Env, at_start, ClassifyError, Judged, meets_min_confidence, second_read, write_through,
  store_guarded, remember, explicit_window, window_or_default, ttl_of, at_first_read, run_adapters,
  classify_fresh, path_of, classify,
}

abbrev pub NotDemoted : CacheRead → DriftVerdict → Type 0
NotDemoted (hit e) v = confidence_rank e.verdict.confidence ≤ confidence_rank v.confidence
NotDemoted (absent r) v = Unit
NotDemoted threw v = Unit

abbrev pub envelope_of : Env → DriftVerdict → CacheEnvelope
envelope_of env v = record {
  schema_version = cache_schema_version;
  written_at = some (env.clock at_start);
  verdict = v;
  github_webhook_cache = none;
}

-- The two ways that a call ends, by the state that it leaves; `read` is what the second read found.
pub data Outcome (env : Env) (path : Text) (threshold : Option Confidence) (read : CacheRead)
    (fs : Fs) (out : Result ClassifyError DriftVerdict × Fs) : Type 0 where
  kept : out.1 ≡ fs → Outcome env path threshold read fs out
  stored :
      (v : DriftVerdict)
      → out.0 ≡ ok v
      → out.1 ≡ write_cache env.json env.uid path (envelope_of env v) fs
      → meets_min_confidence v.confidence threshold ≡ true
      → NotDemoted read v
      → Outcome env path threshold read fs out

module _ (env : Env) (path : Text) (threshold : Option Confidence) where
  write_through-Outcome :
      (v : DriftVerdict) (read : CacheRead) (fs : Fs)
      → meets_min_confidence v.confidence threshold ≡ true
      → NotDemoted read v
      → Outcome env path threshold read fs (write_through env path v fs)
  write_through-Outcome v read fs meets safe = elim (Bool-cases env.disk_writable) [
    | inl w ↦ rw w (stored v refl refl meets safe)
    | inr w ↦ rw w (kept refl)
  ]

  store_guarded-Outcome :
      (v : DriftVerdict) (read : CacheRead) (fs : Fs)
      → meets_min_confidence v.confidence threshold ≡ true
      → Outcome env path threshold read fs (store_guarded env path v fs read)
  unfolding store_guarded
  store_guarded-Outcome v threw fs meets = kept refl
  store_guarded-Outcome v (absent r) fs meets = write_through-Outcome v (absent r) fs meets tt
  store_guarded-Outcome v (hit e) fs meets =
      elim (Bool-cases
        (leb (confidence_rank e.verdict.confidence) (confidence_rank v.confidence))) [
          | inl le ↦ rw le (write_through-Outcome v (hit e) fs meets (ground arith))
          | inr gt ↦ rw gt (kept refl)
        ]

  remember-Outcome :
      (j : Judged) (fs : Fs)
      → Outcome env path threshold (second_read env path fs) fs (remember env path threshold j fs)
  unfolding remember
  remember-Outcome j fs = elim (Bool-cases j.degraded) [
    | inl d ↦ rw d (kept refl)
    | inr d ↦ elim (Bool-cases (meets_min_confidence j.verdict.confidence threshold)) [
      | inl m ↦ rw (d, m) (store_guarded-Outcome j.verdict (second_read env path fs) fs m)
      | inr m ↦ rw (d, m) (kept refl)
    ]
  ]

module _ (env : Env) (stack resource : Text) (options : ClassifyOptions) (fs : Fs) where
  abbrev pub Ends : Result ClassifyError DriftVerdict × Fs → Type 0
  Ends =
      Outcome env (path_of env stack resource options) options.min_confidence
        (second_read env (path_of env stack resource options) fs) fs

  classify_fresh-Ends :
      (reason : AbsenceReason) (explicit : Option EvidenceWindow)
      → Ends (classify_fresh env stack resource options reason explicit fs)
  unfolding classify_fresh
  classify_fresh-Ends reason explicit = by_window (window_or_default env explicit) refl
    where
      by_window :
          (w : Result ClassifyError EvidenceWindow)
          → window_or_default env explicit ≡ w
          → Ends (classify_fresh env stack resource options reason explicit fs)
      by_window (err e) p = rw (p, classify_fresh) (kept refl)
      by_window (ok window) p =
          rw (p, classify_fresh)
            (remember-Outcome env (path_of env stack resource options) options.min_confidence
              (run_adapters env stack resource options reason window) fs)

  -- After any call the cache directory is as it was, or one file was written for the verdict that
  -- the call returns: a verdict that meets the threshold and demotes nothing that was held.
  pub classify-Ends : Ends (classify env stack resource options fs)
  unfolding classify
  classify-Ends = by_window (explicit_window env options.window) refl
    where
      by_read :
          (explicit : Option EvidenceWindow) (r : CacheRead)
          → explicit_window env options.window ≡ ok explicit
          → read_cache env.json env.getuid fs
              (path_of env stack resource options)
              (ttl_of options)
              (env.clock at_first_read)
            ≡ r
          → Ends (classify env stack resource options fs)
      by_read explicit (hit e) p q = rw (p, classify, q) (kept refl)
      by_read explicit threw p q = rw (p, classify, q) (kept refl)
      by_read explicit (absent reason) p q =
          rw (p, classify, q) (classify_fresh-Ends reason explicit)

      by_window :
          (w : Result ClassifyError (Option EvidenceWindow))
          → explicit_window env options.window ≡ w
          → Ends (classify env stack resource options fs)
      by_window (err e) p = rw (p, classify) (kept refl)
      by_window (ok explicit) p = by_read explicit _ p refl
