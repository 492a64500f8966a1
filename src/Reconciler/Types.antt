-- ===== src/Reconciler/Types.antt =====
-- The data of packages/drift/src/reconciler.ts.
use hulumi.Prelude.{ℕ, Bool, Option, List, Text}

pub data ReconcileMode : Type 0 where
  check_only plan state_only adopt_only sweep_only reconcile : ReconcileMode

pub data ReconcileDecision : Type 0 where
  no_op refresh_state import_to_state state_delete delete_cloud_resource retain_external
        codify_production revert_production ignore_with_justification blocked :
      ReconcileDecision

pub data ReconcileActionType : Type 0 where
  drain_s3_bucket_versions abort_s3_multipart_uploads delete_s3_bucket delete_access_analyzer
        delete_cloud_trail_trail delete_cloud_watch_log_group delete_config_delivery_channel
        delete_config_recorder delete_event_bridge_rule delete_guard_duty_detector delete_iam_role
        delete_security_hub_hub delete_sns_topic schedule_kms_key_deletion delete_cloud
        retain_unsupported_resource retain_shared_singleton state_delete_already_absent_resource
        import_resource refresh :
      ReconcileActionType

pub data ReconcileRisk : Type 0 where
  low medium high risk_blocked : ReconcileRisk

pub data OwnershipSignalKind : Type 0 where
  pulumi_state tag name_prefix cloudtrail caller : OwnershipSignalKind

pub data Provider : Type 0 where
  aws github kubernetes pulumi unknown_provider : Provider

pub data ResourceRelationship : Type 0 where
  state_owned state_missing cloud_only_orphan shared_singleton unknown : ResourceRelationship

pub record ResourceIdentity : Type 0 where
  pub provider : Provider
  pub type : Text
  pub urn : Option Text
  pub physical_id : Option Text
  pub region : Option Text
  pub account_id : Option Text
  pub tags : Option (List (Text × Text))
  pub created_at : Option Text
  pub singleton : Bool

pub record ResourceOwnershipEvidence : Type 0 where
  pub signal : OwnershipSignalKind
  pub subject : Text

-- `supported_actions` holds strings, since those of decisions are looked for in it too.
pub record ReconcileTarget : Type 0 where
  pub identity : ResourceIdentity
  pub in_state : Bool
  pub exists_in_cloud : Bool
  pub ownership : List ResourceOwnershipEvidence
  pub relationship : Option ResourceRelationship
  pub supported_actions : List Text

pub record ReconcileScope : Type 0 where
  pub resource_prefix : Option Text
  pub regions : Option (List Text)
  pub account_ids : Option (List Text)
  pub min_age_minutes : ℕ
  pub ownership_min_signals : Option ℕ
  pub allow_singleton_delete : Bool
  pub max_actions : Option ℕ

-- Why a guard blocks an action.
pub data BlockReason : Type 0 where
  prefix_required outside_prefix outside_regions outside_accounts too_new insufficient_ownership
        singleton_deletion_disabled no_executor :
      BlockReason
  over_max_actions : (max_actions : ℕ) → BlockReason

pub record ReconcileBlockedAction : Type 0 where
  pub action : ReconcileDecision
  pub reason : BlockReason

pub record ReconcilePlanAction : Type 0 where
  pub index : ℕ
  pub type : ReconcileActionType
  pub resource : ResourceIdentity
  pub recommended_action : ReconcileDecision
  pub allowed_actions : List ReconcileDecision
  pub blocked_actions : List ReconcileBlockedAction
  pub why : Text
  pub evidence : List ResourceOwnershipEvidence
  pub risk : ReconcileRisk
  pub requires_approval : Bool
  pub state_mutation : Bool
  pub cloud_mutation : Bool
  pub executable : Bool
