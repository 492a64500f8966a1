-- ===== src/Drift/Classifier/Ranks.antt =====
-- The confidence of a cached verdict never falls (packages/drift/src/classifier.ts with
-- monotonicity.ts and cache.ts beside it).
use hulumi.Prelude.{
  ℕ, ◌*◌, ◌≤◌, ◌==◌, ◌&&◌, Option, none, some, List, [], ◌∷◌, Text, text_eq, text_eq_iff,
  if◌then◌else◌, Bool-cases, All, ◌≡◌, inl, inr, refl, arith,
}
use hulumi.Drift.Types.{DriftVerdict, ClassifyOptions}
use hulumi.Drift.Monotonicity.{confidence_rank}
use hulumi.Drift.Cache.{
  CacheEnvelope, cache_schema_version, Parsed, not_json, null_value, other_value, envelope,
  private_mode, JsonCodec, CacheFile, Fs, is_owner, read_file, read_parsed, read_cache, write_cache,
}
use hulumi.Drift.Cache.Files.{file_after, write_cache_at, write_cache_elsewhere}
use hulumi.Drift.Classifier.{Env, at_second_read, max_safe_integer, second_read, path_of, classify}
use hulumi.Drift.Classifier.Caching.{NotDemoted, envelope_of, Outcome, kept, stored, classify-Ends}

-- The rank of the verdict that a file holds for a reader: 0 where it holds none.
abbrev pub parsed_rank : Parsed → ℕ
parsed_rank (envelope e) =
    if e.schema_version == cache_schema_version then confidence_rank e.verdict.confidence else 0
parsed_rank _ = 0

abbrev pub held_rank : JsonCodec → Option ℕ → Option CacheFile → ℕ
held_rank json uid none = 0
held_rank json uid (some f) =
    if f.readable && is_owner uid f then parsed_rank (json.parse f.raw) else 0

parsed_rank-NotDemoted :
    (p : Parsed) (v : DriftVerdict) (now : ℕ)
    → now ≤ max_safe_integer * 1000
    → NotDemoted (read_parsed p max_safe_integer now) v
    → parsed_rank p ≤ confidence_rank v.confidence
unfolding read_parsed
parsed_rank-NotDemoted (envelope e) v now bound safe = by_age e.written_at refl
  where
    by_age :
        (at : Option ℕ)
        → e.written_at ≡ at
        → parsed_rank (envelope e) ≤ confidence_rank v.confidence
    by_age none p = ground arith
    by_age (some at) p = ground arith
parsed_rank-NotDemoted not_json v now bound safe = omega arith
parsed_rank-NotDemoted null_value v now bound safe = omega arith
parsed_rank-NotDemoted other_value v now bound safe = omega arith

-- A write over a file that it demotes nothing of keeps the file's rank.
module _ (json : JsonCodec) (f : CacheFile) (e : CacheEnvelope) (now : ℕ)
    (bound : now ≤ max_safe_integer * 1000)
    (version : e.schema_version ≡ cache_schema_version) where
  abbrev overwritten : CacheFile
  overwritten = record f { mode = private_mode; raw = json.stringify e }

  overwritten-held_rank :
      (getuid : Option ℕ)
      → NotDemoted (read_file json getuid (some f) max_safe_integer now) e.verdict
      → held_rank json getuid (some f) ≤ held_rank json getuid (some overwritten)
  unfolding read_file
  overwritten-held_rank none safe = ground (
    arith,
    json.parse-stringify e,
    version,
    parsed_rank-NotDemoted (json.parse f.raw) e.verdict now bound,
  )
  overwritten-held_rank (some uid) safe = ground (
    arith,
    json.parse-stringify e,
    version,
    parsed_rank-NotDemoted (json.parse f.raw) e.verdict now bound,
  )

write_cache-held_rank :
    (json : JsonCodec) (uid now : ℕ) (getuid : Option ℕ) (path : Text) (e : CacheEnvelope) (fs : Fs)
    (q : Text)
    → now ≤ max_safe_integer * 1000
    → e.schema_version ≡ cache_schema_version
    → NotDemoted (read_cache json getuid fs path max_safe_integer now) e.verdict
    → held_rank json getuid (fs q) ≤ held_rank json getuid (write_cache json uid path e fs q)
unfolding read_cache
write_cache-held_rank json uid now getuid path e fs q bound version safe =
    elim (Bool-cases (text_eq path q)) [
      | inr ne ↦ rw (write_cache_elsewhere json uid path e fs q ne) (omega arith)
      | inl eq ↦
          rw (← (text_eq_iff path q).0 eq, write_cache_at json uid path e fs)
            (at_path (fs path) refl)
    ]
  where
    at_path :
        (f : Option CacheFile)
        → fs path ≡ f
        → held_rank json getuid (fs path)
          ≤ held_rank json getuid (some (file_after json uid path e fs))
    at_path none p = rw p (omega arith)
    at_path (some f) p =
        rw p (overwritten-held_rank json f e now bound version getuid (rw p at safe))

-- No call lowers the confidence of the verdict that any file of the cache directory holds for its
-- reader: a file that it cannot read, does not own or cannot parse counts as 0. The clock is within
-- the 285 million years after which even the second read takes a file for expired.
pub classify-keeps_rank :
    (env : Env) (stack resource : Text) (options : ClassifyOptions) (fs : Fs) (q : Text)
    → env.clock at_second_read ≤ max_safe_integer * 1000
    → held_rank env.json env.getuid (fs q)
      ≤ held_rank env.json env.getuid ((classify env stack resource options fs).1 q)
classify-keeps_rank env stack resource options fs q bound =
    by_outcome (classify-Ends env stack resource options fs)
  where
    path : Text
    path = path_of env stack resource options

    by_outcome :
        Outcome env path options.min_confidence
          (second_read env path fs)
          fs
          (classify env stack resource options fs)
        → held_rank env.json env.getuid (fs q)
          ≤ held_rank env.json env.getuid ((classify env stack resource options fs).1 q)
    by_outcome (kept same) = rw same (omega arith)
    by_outcome (stored v _ same _ safe) = rw same (
        write_cache-held_rank env.json env.uid (env.clock at_second_read) env.getuid path
          (envelope_of env v) fs q bound refl safe)

-- A call, with what the world answers to it.
pub record Call : Type 0 where
  pub env : Env
  pub stack : Text
  pub resource : Text
  pub options : ClassifyOptions

abbrev pub run_calls : List Call → Fs → Fs
run_calls [] fs = fs
run_calls (c ∷ cs) fs = run_calls cs (classify c.env c.stack c.resource c.options fs).1

-- One reader: one JSON codec and one user, with a clock in range.
pub record IsReader (json : JsonCodec) (getuid : Option ℕ) (c : Call) : Type 0 where
  pub same_json : c.env.json ≡ json
  pub same_user : c.env.getuid ≡ getuid
  pub in_range : c.env.clock at_second_read ≤ max_safe_integer * 1000

-- Over any sequence of calls by one user with one JSON codec and clocks in that range, whatever the
-- adapters answer, no file's confidence falls: the confidence of the verdict that a file holds for
-- that user, 0 where it holds none.
pub run_calls-keeps_rank :
    (json : JsonCodec) (getuid : Option ℕ) (calls : List Call) (fs : Fs) (q : Text)
    → All (IsReader json getuid) calls
    → held_rank json getuid (fs q) ≤ held_rank json getuid (run_calls calls fs q)
run_calls-keeps_rank json getuid [] fs q h = omega arith
run_calls-keeps_rank json getuid (c ∷ cs) fs q (h, hs) =
    let fs' = (classify c.env c.stack c.resource c.options fs).1 in
    let first = classify-keeps_rank c.env c.stack c.resource c.options fs q h.in_range in
    omega (
      arith,
      simp (h.same_json, h.same_user) at first,
      run_calls-keeps_rank json getuid cs fs' q hs,
    )
