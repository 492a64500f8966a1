-- ===== src/Drift/Cache/Migration.antt =====
-- `migrateV1ToV2` of packages/drift/src/cache.ts.
use hulumi.Prelude.{
  ℕ, zero, suc, true, false, not, ◌==◌, Option, none, some, List, [], ◌∷◌, ◌++◌, Text, lit, text_eq,
  text_eq_refl, text_eq_iff, take, All, ◌∙◌, if◌then◌else◌, length, length-append, Bool-cases,
  Option-cases, ◌≡◌, ◌≢◌, ◌⊎◌, inl, inr, refl, sym, ap, arith,
}
use hulumi.Prelude.Result.{Result, ok, err}
use hulumi.Drift.Cache.Files.{write_cache_elsewhere, overlay-nil, read_after_write}
use hulumi.Drift.Cache.{
  is_owner, is_expired, expired, hit, absent, read_cache, write_cache, CacheEnvelope,
  cache_schema_version, cache_schema_v1_legacy, Parsed, not_json, null_value, other_value, envelope,
  JsonCodec, CacheFile, Fs, FsOp, open_truncate, write, chmod, unlink, run_ops, apply_op, update,
  write_ops,
}

-- `null_schema` is the TypeError of `parsed.schemaVersion` at `null`.
pub data MigrateError : Type 0 where
  cannot_read cannot_parse null_schema unexpected_schema : MigrateError

abbrev pub backup_path : Text → Text
backup_path path = path ++ lit ".v1.backup"

abbrev pub upgraded : CacheEnvelope → CacheEnvelope
upgraded v1 = record {
  schema_version = cache_schema_version;
  written_at = v1.written_at;
  verdict = v1.verdict;
  github_webhook_cache = some [];
}

-- The writes of the migration, in their order: the backup's, then those of `writeCache`.
unfoldable pub migrate_parsed : JsonCodec → Text → Text → Parsed → Result MigrateError (List FsOp)
unfolding write_ops
migrate_parsed json path raw not_json = err cannot_parse
migrate_parsed json path raw null_value = err null_schema
migrate_parsed json path raw other_value = err unexpected_schema
migrate_parsed json path raw (envelope v1) =
    if not (v1.schema_version == cache_schema_v1_legacy)
    then err unexpected_schema
    else ok (write_ops (backup_path path) raw ++ write_ops path (json.stringify (upgraded v1)))

unfoldable pub migrate_ops : JsonCodec → Text → Option CacheFile → Result MigrateError (List FsOp)
unfolding migrate_parsed
migrate_ops json path none = err cannot_read
migrate_ops json path (some f) = elim f.readable [
  | false ↦ err cannot_read
  | true ↦ migrate_parsed json path f.raw (json.parse f.raw)
]

unfoldable pub migrate_v1_to_v2 : JsonCodec → ℕ → Text → Fs → Result MigrateError (Unit {0}) × Fs
unfolding migrate_ops run_ops
migrate_v1_to_v2 json uid path fs = elim (migrate_ops json path (fs path)) [
  | err e ↦ (err e, fs)
  | ok ops ↦ (ok tt, run_ops uid ops fs)
]

append-ne_self : (xs ys : Text) (y : ℕ) → xs ++ y ∷ ys ≢ xs
append-ne_self xs ys y e = absurd (omega (arith, ap length e, length-append {0} xs (y ∷ ys)))

backup-ne-path : (path : Text) → text_eq (backup_path path) path ≡ false
backup-ne-path path = elim (Bool-cases (text_eq (backup_path path) path)) [
  | inl same ↦ absurd (append-ne_self path _ _ ((text_eq_iff _ _).0 same))
  | inr other ↦ other
]

path-ne-backup : (path : Text) → text_eq path (backup_path path) ≡ false
path-ne-backup path = elim (Bool-cases (text_eq path (backup_path path))) [
  | inl same ↦ absurd (append-ne_self path _ _ (sym ((text_eq_iff _ _).0 same)))
  | inr other ↦ other
]

-- A file that holds the text.
abbrev pub Holds : Option CacheFile → Text → Type 0
Holds none raw = ⊥
Holds (some f) raw = f.raw ≡ raw

abbrev op_path : FsOp → Text
op_path (open_truncate path mode) = path
op_path (write path raw) = path
op_path (chmod path mode) = path
op_path (unlink path) = path

apply_op_elsewhere :
    (uid : ℕ) (op : FsOp) (fs : Fs) (q : Text)
    → text_eq (op_path op) q ≡ false
    → apply_op uid op fs q ≡ fs q
unfolding apply_op
apply_op_elsewhere uid (open_truncate path mode) fs q ne = rw ne refl
apply_op_elsewhere uid (write path raw) fs q ne = rw ne refl
apply_op_elsewhere uid (chmod path mode) fs q ne = rw ne refl
apply_op_elsewhere uid (unlink path) fs q ne = rw ne refl

-- Operations on other files, as many of them as were done, leave a file alone.
run_ops-take_elsewhere :
    (uid k : ℕ) (ops : List FsOp) (fs : Fs) (q : Text)
    → All (λ op. text_eq (op_path op) q ≡ false) ops
    → run_ops uid (take k ops) fs q ≡ fs q
unfolding run_ops
run_ops-take_elsewhere uid zero ops fs q h = refl
run_ops-take_elsewhere uid (suc k) [] fs q h = refl
run_ops-take_elsewhere uid (suc k) (op ∷ ops) fs q (ne, h) =
    run_ops-take_elsewhere uid k ops (apply_op uid op fs) q h ∙ apply_op_elsewhere uid op fs q ne

-- What a file holds after the operations of one write.
write_ops_at :
    (uid : ℕ) (p : Text) (raw : Text) (fs : Fs) → Holds (run_ops uid (write_ops p raw) fs p) raw
unfolding run_ops write_ops update
write_ops_at uid p raw fs = elim (Option-cases (fs p)) [
  | inl missing ↦ rw (missing, text_eq_refl p, overlay-nil raw) refl
  | inr (f, there) ↦ rw (there, text_eq_refl p, overlay-nil raw) refl
]

run_ops-append :
    (uid : ℕ) (xs ys : List FsOp) (fs : Fs)
    → run_ops uid (xs ++ ys) fs ≡ run_ops uid ys (run_ops uid xs fs)
unfolding run_ops
run_ops-append uid [] ys fs = refl
run_ops-append uid (x ∷ xs) ys fs = run_ops-append uid xs ys (apply_op uid x fs)

module _ (uid : ℕ) (p b : Text) (old new : Text) (pb : text_eq p b ≡ false)
    (bp : text_eq b p ≡ false) where
  write_ops_elsewhere : (k : ℕ) (fs : Fs) → run_ops uid (take k (write_ops b old)) fs p ≡ fs p
  unfolding write_ops
  write_ops_elsewhere k fs = run_ops-take_elsewhere uid k _ fs p (bp, (bp, (bp, tt)))

  -- Two writes, one after the other: after any number of their operations, the text that `p` held
  -- stand at `p` or at `b`.
  two_writes_prefix :
      (k : ℕ) (fs : Fs) (f : CacheFile)
      → fs p ≡ some f
      → f.raw ≡ old
      → Holds (run_ops uid (take k (write_ops b old ++ write_ops p new)) fs p) old
        ⊎ Holds (run_ops uid (take k (write_ops b old ++ write_ops p new)) fs b) old
  unfolding run_ops write_ops
  two_writes_prefix zero fs f there same = inl (rw there same)
  two_writes_prefix (suc zero) fs f there same = inl (rw (write_ops_elsewhere 1 fs, there) same)
  two_writes_prefix (suc (suc zero)) fs f there same =
      inl (rw (write_ops_elsewhere 2 fs, there) same)
  two_writes_prefix (suc (suc (suc k))) fs f there same = inr (
      rw
        (run_ops-take_elsewhere uid k (write_ops p new) (run_ops uid (write_ops b old) fs) b
          (pb, (pb, (pb, tt))))
        (write_ops_at uid b old fs))

ok-injective : {a b : List FsOp} → ◌≡◌ {A = Result MigrateError (List FsOp)} (ok a) (ok b) → b ≡ a
ok-injective e = cc

not_err :
    {x : MigrateError} {a : List FsOp}
    → ◌≡◌ {A = Result MigrateError (List FsOp)} (err x) (ok a)
    → ⊥
not_err e = cc

migrate_parsed-eq-ok :
    (json : JsonCodec) (path raw : Text) (parsed : Parsed) {ops : List FsOp}
    → migrate_parsed json path raw parsed ≡ ok ops
    → (v1 : CacheEnvelope) × (parsed ≡ envelope v1)
      × (ops ≡ write_ops (backup_path path) raw ++ write_ops path (json.stringify (upgraded v1)))
unfolding migrate_parsed
migrate_parsed-eq-ok json path raw (envelope v1) {ops} e =
    elim (Bool-cases (v1.schema_version == cache_schema_v1_legacy)) [
      | inl same ↦ (v1, refl, ok-injective (ground arith))
      | inr other ↦ absurd (not_err {x = unexpected_schema} {a = ops} (ground arith))
    ]
migrate_parsed-eq-ok json path raw not_json e = cc
migrate_parsed-eq-ok json path raw null_value e = cc
migrate_parsed-eq-ok json path raw other_value e = cc

migrate_ops-eq-ok :
    (json : JsonCodec) (path : Text) (f : CacheFile) {ops : List FsOp}
    → migrate_ops json path (some f) ≡ ok ops
    → (v1 : CacheEnvelope) × (json.parse f.raw ≡ envelope v1)
      × (ops ≡ write_ops (backup_path path) f.raw ++ write_ops path (json.stringify (upgraded v1)))
unfolding migrate_ops
migrate_ops-eq-ok json path f e = elim (Bool-cases f.readable) [
  | inl readable ↦ migrate_parsed-eq-ok json path f.raw (json.parse f.raw) (ground arith)
  | inr unreadable ↦ absurd (ground arith)
]

-- The migration can be interrupted after any number of its file operations: at each of these points
-- the text of the first schema's file stand unchanged at its path or at the backup's path.
pub migrate_ops-keeps_v1 :
    (json : JsonCodec) (uid k : ℕ) (path : Text) (fs : Fs) (f : CacheFile) (ops : List FsOp)
    → fs path ≡ some f
    → migrate_ops json path (some f) ≡ ok ops
    → Holds (run_ops uid (take k ops) fs path) f.raw
      ⊎ Holds (run_ops uid (take k ops) fs (backup_path path)) f.raw
migrate_ops-keeps_v1 json uid k path fs f ops there started =
    let (v1, _, same) = migrate_ops-eq-ok json path f started in
    rw same (
      two_writes_prefix uid path (backup_path path) f.raw _ (path-ne-backup path)
        (backup-ne-path path) k fs f there refl)

module _ (json : JsonCodec) (uid : ℕ) (path : Text) (fs : Fs) (f : CacheFile) (v1 : CacheEnvelope)
    (there : fs path ≡ some f) where
  abbrev backed_up : Fs
  backed_up = run_ops uid (write_ops (backup_path path) f.raw) fs

  backed_up_at : backed_up path ≡ some f
  unfolding write_ops
  backed_up_at =
      write_ops_elsewhere uid path (backup_path path) f.raw f.raw (path-ne-backup path)
        (backup-ne-path path) 3 fs
      ∙ there

  migrate_ops_lem :
      f.readable ≡ true
      → json.parse f.raw ≡ envelope v1
      → v1.schema_version ≡ cache_schema_v1_legacy
      → migrate_ops json path (fs path)
        ≡ ok (write_ops (backup_path path) f.raw ++ write_ops path (json.stringify (upgraded v1)))
  unfolding migrate_ops
  migrate_ops_lem readable parsed version = rw there (ground arith)

  migrate_v1_to_v2_lem :
      f.readable ≡ true
      → json.parse f.raw ≡ envelope v1
      → v1.schema_version ≡ cache_schema_v1_legacy
      → migrate_v1_to_v2 json uid path fs
        ≡ (ok tt, write_cache json uid path (upgraded v1) backed_up)
  unfolding migrate_v1_to_v2 write_cache
  migrate_v1_to_v2_lem readable parsed version =
      rw (migrate_ops_lem readable parsed version, migrate_v1_to_v2)
        (ap (λ r. (ok tt, r))
          (run_ops-append uid (write_ops (backup_path path) f.raw)
            (write_ops path (json.stringify (upgraded v1))) fs))

owner_kept :
    (getuid : Option ℕ) (f g : CacheFile)
    → g.owner ≡ f.owner
    → is_owner getuid f ≡ true
    → is_owner getuid g ≡ true
owner_kept none f g e h = refl
owner_kept (some uid) f g e h = rw e h

-- A readable file of the first schema is upgraded: the migration succeeds, the file then reads as
-- the same verdict of the same time in the second schema, until it expires, and the backup holds
-- the old text. The reader's user owns the file.
pub migrate_v1_to_v2-upgrades :
    (json : JsonCodec) (uid : ℕ) (getuid : Option ℕ) (path : Text) (fs : Fs) (f : CacheFile)
    (v1 : CacheEnvelope) (ttl_seconds now : ℕ)
    → fs path ≡ some f
    → f.readable ≡ true
    → is_owner getuid f ≡ true
    → json.parse f.raw ≡ envelope v1
    → v1.schema_version ≡ cache_schema_v1_legacy
    → ((migrate_v1_to_v2 json uid path fs).0 ≡ ok tt)
      × (read_cache json getuid (migrate_v1_to_v2 json uid path fs).1 path ttl_seconds now ≡ (
          if is_expired v1.written_at ttl_seconds now then absent expired else hit (upgraded v1)))
      × Holds ((migrate_v1_to_v2 json uid path fs).1 (backup_path path)) f.raw
unfolding migrate_v1_to_v2
migrate_v1_to_v2-upgrades json uid getuid path fs f v1 ttl_seconds now there readable owned parsed
      version =
    let at = backed_up_at json uid path fs f v1 there in
    rw (migrate_v1_to_v2_lem json uid path fs f v1 there readable parsed version) (
      refl,
      read_after_write json uid getuid path (upgraded v1) (backed_up json uid path fs f v1 there)
          ttl_seconds now (rw at readable) (owner_kept getuid f _ (rw at refl) owned) refl,
      rw
          (write_cache_elsewhere json uid path (upgraded v1) (backed_up json uid path fs f v1 there)
            (backup_path path) (path-ne-backup path))
          (write_ops_at uid (backup_path path) f.raw fs),
    )
