-- ===== src/Drift/Cache.antt =====
-- packages/drift/src/cache.ts: the file of a verdict, its reader, its writer and the migration of
-- the first schema. A write is the list of the file system's operations, in their order, so that a
-- crash is a prefix of it. `JSON` is an argument, `JsonCodec`.
pub mod Files
pub mod Codec
pub mod Migration
use hulumi.Prelude.{
  ℕ, ◌-◌, ◌*◌, Bool, true, false, not, Option, none, some, List, [], ◌∷◌, Text, text_eq, ltb, ◌==◌,
  if◌then◌else◌, ◌≡◌,
}
use hulumi.Drift.Types.{DriftVerdict}

abbrev pub cache_schema_version : ℕ
cache_schema_version = 2

abbrev pub cache_schema_v1_legacy : ℕ
cache_schema_v1_legacy = 1

-- The envelope of any schema: one of the first has no `github_webhook_cache`. `written_at` is
-- `none` where the text of the file is no date.
pub record CacheEnvelope : Type 0 where
  pub schema_version : ℕ
  pub written_at : Option ℕ
  pub verdict : DriftVerdict
  pub github_webhook_cache : Option (List (Text × ℕ))

-- What `JSON.parse` makes of a text. An `other_value` has no number as its `schemaVersion`.
pub data Parsed : Type 0 where
  not_json null_value other_value : Parsed
  envelope : CacheEnvelope → Parsed

-- `JSON.parse` and `JSON.stringify`, with what the cache relies on: an envelope is JSON data, which
-- the one reads back from the text of the other.
pub record JsonCodec : Type 0 where
  pub parse : Text → Parsed
  pub stringify : CacheEnvelope → Text
  pub parse-stringify : (e : CacheEnvelope) → parse (stringify e) ≡ envelope e

-- `raw` is the text that `readFile` gives of the file in UTF-8. A file whose bytes are no UTF-8 is
-- not modelled.
pub record CacheFile : Type 0 where
  pub owner : ℕ
  pub mode : ℕ
  pub readable : Bool
  pub raw : Text

abbrev pub Fs : Type 0
Fs = Text → Option CacheFile

pub data FsOp : Type 0 where
  -- `open(path, "w", mode)`: the mode is that of a file which this creates.
  open_truncate : (path : Text) (mode : ℕ) → FsOp
  -- `writeFile` of the handle just opened: it writes from the file's start.
  write : (path : Text) (raw : Text) → FsOp
  chmod : (path : Text) (mode : ℕ) → FsOp
  unlink : (path : Text) → FsOp

unfoldable pub update : Text → Option CacheFile → Fs → Fs
update path f fs q = if text_eq path q then f else fs q

abbrev opened : ℕ → ℕ → Option CacheFile → Option CacheFile
opened uid mode none = some (record { owner = uid; mode = mode; readable = true; raw = [] })
opened uid mode (some f) = some (record f { raw = [] })

-- What a write at the start of a file leaves: the rest of what is there stays.
unfoldable pub overlay : Text → Text → Text
overlay [] old = old
overlay (c ∷ cs) [] = c ∷ cs
overlay (c ∷ cs) (o ∷ os) = c ∷ overlay cs os

abbrev written : Text → Option CacheFile → Option CacheFile
written raw none = none
written raw (some f) = some (record f { raw = overlay raw f.raw })

abbrev with_mode : ℕ → Option CacheFile → Option CacheFile
with_mode mode none = none
with_mode mode (some f) = some (record f { mode = mode })

unfoldable pub apply_op : ℕ → FsOp → Fs → Fs
unfolding update overlay
apply_op uid (open_truncate path mode) fs = update path (opened uid mode (fs path)) fs
apply_op uid (write path raw) fs = update path (written raw (fs path)) fs
apply_op uid (chmod path mode) fs = update path (with_mode mode (fs path)) fs
apply_op uid (unlink path) fs = update path none fs

unfoldable pub run_ops : ℕ → List FsOp → Fs → Fs
unfolding apply_op
run_ops uid [] fs = fs
run_ops uid (op ∷ ops) fs = run_ops uid ops (apply_op uid op fs)

pub data AbsenceReason : Type 0 where
  missing expired ownership_mismatch schema_mismatch parse_error : AbsenceReason

-- `threw` is the TypeError of `parsed.schemaVersion` at `null`.
pub data CacheRead : Type 0 where
  hit : CacheEnvelope → CacheRead
  absent : AbsenceReason → CacheRead
  threw : CacheRead

-- `ageMs > ttlSeconds * 1000`: false where the age is not a number, or negative.
abbrev pub is_expired : Option ℕ → ℕ → ℕ → Bool
is_expired none ttl_seconds now = false
is_expired (some at) ttl_seconds now = ltb (ttl_seconds * 1000) (now - at)

unfoldable pub read_parsed : Parsed → ℕ → ℕ → CacheRead
read_parsed not_json ttl_seconds now = absent parse_error
read_parsed null_value ttl_seconds now = threw
read_parsed other_value ttl_seconds now = absent schema_mismatch
read_parsed (envelope e) ttl_seconds now =
    if not (e.schema_version == cache_schema_version)
    then absent schema_mismatch
    else if is_expired e.written_at ttl_seconds now
    then absent expired
    else hit e

abbrev pub is_owner : Option ℕ → CacheFile → Bool
is_owner none f = true
is_owner (some uid) f = f.owner == uid

-- `uid` is `none` on a platform with no `process.getuid`.
unfoldable pub read_file : JsonCodec → Option ℕ → Option CacheFile → ℕ → ℕ → CacheRead
unfolding read_parsed
read_file json uid none ttl_seconds now = absent missing
read_file json uid (some f) ttl_seconds now =
    if not f.readable
    then absent missing
    else if not (is_owner uid f)
    then absent ownership_mismatch
    else read_parsed (json.parse f.raw) ttl_seconds now

unfoldable pub read_cache : JsonCodec → Option ℕ → Fs → Text → ℕ → ℕ → CacheRead
unfolding read_file
read_cache json uid fs path ttl_seconds now = read_file json uid (fs path) ttl_seconds now

abbrev pub private_mode : ℕ
private_mode = 0o600

unfoldable pub write_ops : Text → Text → List FsOp
write_ops path raw = open_truncate path private_mode ∷ write path raw ∷ chmod path private_mode ∷ []

unfoldable pub write_cache : JsonCodec → ℕ → Text → CacheEnvelope → Fs → Fs
unfolding write_ops run_ops
write_cache json uid path e fs = run_ops uid (write_ops path (json.stringify e)) fs

unfoldable pub invalidate_cache : ℕ → Text → Fs → Fs
unfolding run_ops
invalidate_cache uid path fs = run_ops uid (unlink path ∷ []) fs
