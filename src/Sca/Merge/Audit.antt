-- ===== src/Sca/Merge/Audit.antt =====
-- `buildAuditRecord` of tools/sca/src/audit/record.ts. The digest of the record and the test of a
-- date and time are arguments.
use hulumi.Prelude.{
  ℕ, Bool, not, ◌&&◌, ◌||◌, List, ◌++◌, map, Text, lit, take, leb, ◌==◌, if◌then◌else◌,
}
use hulumi.Prelude.Result.{Result, ok, throw_if, ◌>>◌}
use hulumi.Sca.Evidence.{is_empty, ScaError, schema_violation}

pub data CheckStatus : Type 0 where
  success failure skipped : CheckStatus

pub record AuditArgs : Type 0 where
  pub finding_key : Text
  pub advisory_id : Text
  pub package_name : Text
  pub from_version : Text
  pub to_version : Text
  pub reviewer : Text
  pub merger : Text
  pub checks : List (Text × CheckStatus)
  pub created_at : Text

pub record AuditRecord : Type 0 where
  pub args : AuditArgs
  pub path : Text
  pub signature : Text

-- `[A-Za-z0-9_.-]`
unfoldable pub is_safe_path_unit : ℕ → Bool
is_safe_path_unit c =
    leb 65 c && leb c 90
    || leb 97 c && leb c 122
    || leb 48 c && leb c 57
    || c == b'_'
    || c == b'.'
    || c == b'-'

unfoldable pub safe_path_part : Text → Text
unfolding is_safe_path_unit
safe_path_part value = map (λ c. if is_safe_path_unit c then c else b'_') value

unfoldable pub audit_path : AuditArgs → Text
unfolding safe_path_part
audit_path args =
    lit "audit/"
    ++ (take 10 args.created_at ++ (lit "-" ++ (safe_path_part args.advisory_id ++ lit ".json")))

abbrev signed : (AuditArgs → Text → Text) → AuditArgs → AuditRecord
signed sign args = record {
  args = args;
  path = audit_path args;
  signature = sign args (audit_path args);
}

-- The tests of `auditRecordSchema`.
unfoldable pub is_audit_record : (Text → Bool) → AuditRecord → Bool
is_audit_record is_datetime r =
    not (is_empty r.args.finding_key)
    && not (is_empty r.args.advisory_id)
    && not (is_empty r.args.package_name)
    && not (is_empty r.args.from_version)
    && not (is_empty r.args.to_version)
    && not (is_empty r.args.reviewer)
    && not (is_empty r.args.merger)
    && is_datetime r.args.created_at
    && not (is_empty r.path)
    && not (is_empty r.signature)

unfoldable pub build_audit_record :
    (Text → Bool) → (AuditArgs → Text → Text) → AuditArgs → Result ScaError AuditRecord
unfolding audit_path is_audit_record
build_audit_record is_datetime sign args =
    throw_if (not (is_audit_record is_datetime (signed sign args))) schema_violation
    >> ok (signed sign args)
