-- ===== src/Drift/Cache/Files.antt =====
-- Reading back what `writeCache` wrote (packages/drift/src/cache.ts).
use hulumi.Prelude.{
  ℕ, ◌+◌, ◌*◌, ◌<◌, ◌≤◌, Bool, true, false, Option, none, some, [], ◌∷◌, Text, text_eq,
  text_eq_refl, text_eq_iff, Bool-cases, ==_iff, ◌≢◌, ◌↔◌, sym, if◌then◌else◌, Option-cases, ◌≡◌,
  inl, inr, refl, arith,
}
use hulumi.Drift.Cache.{
  CacheEnvelope, cache_schema_version, is_owner, read_file, envelope, JsonCodec, CacheFile, Fs,
  overlay, update, is_expired, expired, hit, absent, read_cache, private_mode, write_cache,
}

pub overlay-nil : (raw : Text) → overlay raw [] ≡ raw
unfolding overlay
overlay-nil [] = refl
overlay-nil (c ∷ cs) = refl

abbrev pub owner_after : ℕ → Option CacheFile → ℕ
owner_after uid none = uid
owner_after uid (some f) = f.owner

abbrev pub readable_after : Option CacheFile → Bool
readable_after none = true
readable_after (some f) = f.readable

module _ (json : JsonCodec) (uid : ℕ) (path : Text) (e : CacheEnvelope) (fs : Fs) where
  abbrev pub file_after : CacheFile
  file_after = record {
    owner = owner_after uid (fs path);
    mode = private_mode;
    readable = readable_after (fs path);
    raw = json.stringify e;
  }

  pub write_cache_at : write_cache json uid path e fs path ≡ some file_after
  unfolding write_cache update
  write_cache_at = elim (Option-cases (fs path)) [
    | inl missing ↦ rw (missing, text_eq_refl path, overlay-nil (json.stringify e)) refl
    | inr (f, there) ↦ rw (there, text_eq_refl path, overlay-nil (json.stringify e)) refl
  ]

  pub write_cache_elsewhere :
      (q : Text) → text_eq path q ≡ false → write_cache json uid path e fs q ≡ fs q
  unfolding write_cache update
  write_cache_elsewhere q ne = rw ne refl

pub read_file_hit :
    (json : JsonCodec) (getuid : Option ℕ) (f : CacheFile) (e : CacheEnvelope) (ttl_seconds now : ℕ)
    → f.readable ≡ true
    → is_owner getuid f ≡ true
    → json.parse f.raw ≡ envelope e
    → e.schema_version ≡ cache_schema_version
    → read_file json getuid (some f) ttl_seconds now
      ≡ (if is_expired e.written_at ttl_seconds now then absent expired else hit e)
unfolding read_file
read_file_hit json getuid f e ttl_seconds now readable owned parsed version =
    ground (arith, readable, owned, parsed, version)

-- The reader's user is the file's owner, or the platform has no users.
abbrev pub OwnedBy : Option ℕ → ℕ → Type 0
OwnedBy none owner = Unit
OwnedBy (some uid) owner = owner ≡ uid

is_owner-OwnedBy :
    (getuid : Option ℕ) (f : CacheFile) → OwnedBy getuid f.owner → is_owner getuid f ≡ true
is_owner-OwnedBy none f owned = refl
is_owner-OwnedBy (some uid) f owned = (==_iff f.owner uid).1 owned

module _ (e : CacheEnvelope) (at ttl_seconds now : ℕ) (written : e.written_at ≡ some at) where
  read_young :
      ((if is_expired e.written_at ttl_seconds now then absent expired else hit e) ≡ hit e)
      ↔ (now ≤ at + ttl_seconds * 1000)
  read_young = rw written (ground arith)

  read_old :
      ((if is_expired e.written_at ttl_seconds now then absent expired else hit e) ≡ absent expired)
      ↔ (at + ttl_seconds * 1000 < now)
  read_old = rw written (ground arith)

text_eq_other : (path q : Text) → q ≢ path → text_eq path q ≡ false
text_eq_other path q other = elim (Bool-cases (text_eq path q)) [
  | inl same ↦ absurd (other (sym ((text_eq_iff path q).0 same)))
  | inr differs ↦ differs
]

module _ (json : JsonCodec) (uid : ℕ) (getuid : Option ℕ) (path : Text) (e : CacheEnvelope)
    (fs : Fs) (ttl_seconds now : ℕ) (readable : readable_after (fs path) ≡ true)
    (owned : is_owner getuid (file_after json uid path e fs) ≡ true)
    (version : e.schema_version ≡ cache_schema_version) where
  pub read_after_write :
      read_cache json getuid (write_cache json uid path e fs) path ttl_seconds now
      ≡ (if is_expired e.written_at ttl_seconds now then absent expired else hit e)
  unfolding read_cache
  read_after_write = rw (write_cache_at json uid path e fs) (
      read_file_hit json getuid (file_after json uid path e fs) e ttl_seconds now readable owned
        (json.parse-stringify e) version)

-- A write over `path` makes it the private file of `e`, whatever it held, and leaves any other file
-- `q` alone. While the file is its user's to read, an `e` of the current schema with a valid time is
-- read back up to `ttl_seconds` after that time, the end included, and counts as expired after it.
pub read_cache-write_cache :
    (json : JsonCodec) (uid : ℕ) (getuid : Option ℕ) (path q : Text) (e : CacheEnvelope) (fs : Fs)
    (ttl_seconds now at : ℕ)
    → e.schema_version ≡ cache_schema_version
    → e.written_at ≡ some at
    → readable_after (fs path) ≡ true
    → OwnedBy getuid (owner_after uid (fs path))
    → q ≢ path
    → ((read_cache json getuid (write_cache json uid path e fs) path ttl_seconds now ≡ hit e)
        ↔ (now ≤ at + ttl_seconds * 1000))
      × ((read_cache json getuid (write_cache json uid path e fs) path ttl_seconds now
            ≡ absent expired)
          ↔ (at + ttl_seconds * 1000 < now))
      × ((f : CacheFile) × (write_cache json uid path e fs path ≡ some f)
          × (f.mode ≡ 0o600)
          × (json.parse f.raw ≡ envelope e))
      × (write_cache json uid path e fs q ≡ fs q)
read_cache-write_cache json uid getuid path q e fs ttl_seconds now at version written readable owned
      other =
    let owns = is_owner-OwnedBy getuid (file_after json uid path e fs) owned in
    rw (read_after_write json uid getuid path e fs ttl_seconds now readable owns version) (
      read_young e at ttl_seconds now written,
      read_old e at ttl_seconds now written,
      (
        file_after json uid path e fs,
        write_cache_at json uid path e fs,
        refl,
        json.parse-stringify e,
      ),
      write_cache_elsewhere json uid path e fs q (text_eq_other path q other),
    )
