-- ===== src/Reconciler/Matching.antt =====
-- What `classifyTarget` of packages/drift/src/reconciler.ts asks of a resource: its type, the scope,
-- the mode and the evidence of ownership. `Date.parse` is an argument.
use hulumi.Prelude.{
  ℕ, suc, ◌-◌, ◌*◌, Bool, true, false, not, ◌&&◌, ◌||◌, Option, none, some, List, [], ◌∷◌, Text,
  lit, text_eq, text_contains, starts_with, to_lower, get_or_else, lookup, leb, ◌==◌, if◌then◌else◌,
}
use hulumi.Reconciler.Types.{
  ReconcileMode, check_only, plan, state_only, adopt_only, sweep_only, reconcile, ReconcileDecision,
  refresh_state, import_to_state, state_delete, delete_cloud_resource, ReconcileActionType,
  delete_access_analyzer, delete_cloud_trail_trail, delete_cloud_watch_log_group,
  delete_config_delivery_channel, delete_config_recorder, delete_event_bridge_rule,
  delete_guard_duty_detector, delete_iam_role, delete_security_hub_hub, delete_sns_topic,
  schedule_kms_key_deletion, OwnershipSignalKind, pulumi_state, tag, name_prefix, cloudtrail,
  caller, ResourceIdentity, ResourceOwnershipEvidence, ReconcileTarget,
}

unfoldable pub contains_infix : Text → Text → Bool
unfolding starts_with
contains_infix [] needle = starts_with [] needle
contains_infix (c ∷ s) needle = starts_with (c ∷ s) needle || contains_infix s needle

-- A regular expression of a literal with the flag i, in lower case here.
abbrev mentions : Text → Text → Bool
mentions type needle = contains_infix (to_lower type) needle

unfoldable pub is_s3_bucket : Text → Bool
unfolding contains_infix to_lower
is_s3_bucket type = mentions type (lit "aws:s3/bucket")

abbrev families : List (Text × ReconcileActionType)
families =
    (lit "aws:accessanalyzer/analyzer:analyzer", delete_access_analyzer)
    ∷ (lit "aws:cloudtrail/trail:trail", delete_cloud_trail_trail)
    ∷ (lit "aws:cloudwatch/loggroup:loggroup", delete_cloud_watch_log_group)
    ∷ (lit "aws:cfg/deliverychannel:deliverychannel", delete_config_delivery_channel)
    ∷ (lit "aws:cfg/recorder:recorder", delete_config_recorder)
    ∷ (lit "aws:cloudwatch/eventrule:eventrule", delete_event_bridge_rule)
    ∷ (lit "aws:guardduty/detector:detector", delete_guard_duty_detector)
    ∷ (lit "aws:iam/role:role", delete_iam_role)
    ∷ (lit "aws:kms/key:key", schedule_kms_key_deletion)
    ∷ (lit "aws:securityhub/account:account", delete_security_hub_hub)
    ∷ (lit "aws:sns/topic:topic", delete_sns_topic)
    ∷ []

abbrev first_mentioned : Text → List (Text × ReconcileActionType) → Option ReconcileActionType
first_mentioned type [] = none
first_mentioned type ((needle, family) ∷ rest) =
    if mentions type needle then some family else first_mentioned type rest

unfoldable pub non_s3_aws_delete_action_family : Text → Option ReconcileActionType
unfolding contains_infix to_lower
non_s3_aws_delete_action_family type = first_mentioned type families

unfoldable pub is_security_singleton_type : Text → Bool
unfolding text_eq
is_security_singleton_type type =
    text_eq type (lit "aws:guardduty/detector:Detector")
    || text_eq type (lit "aws:securityhub/account:Account")

unfoldable pub requires_registered_executor : ReconcileActionType → Bool
requires_registered_executor delete_access_analyzer = true
requires_registered_executor delete_cloud_trail_trail = true
requires_registered_executor delete_cloud_watch_log_group = true
requires_registered_executor delete_config_delivery_channel = true
requires_registered_executor delete_config_recorder = true
requires_registered_executor delete_event_bridge_rule = true
requires_registered_executor delete_guard_duty_detector = true
requires_registered_executor delete_iam_role = true
requires_registered_executor delete_security_hub_hub = true
requires_registered_executor delete_sns_topic = true
requires_registered_executor schedule_kms_key_deletion = true
requires_registered_executor _ = false

unfoldable pub mode_allows : ReconcileMode → ReconcileDecision → Bool
mode_allows check_only d = false
mode_allows plan d = false
mode_allows state_only state_delete = true
mode_allows state_only refresh_state = true
mode_allows state_only _ = false
mode_allows adopt_only import_to_state = true
mode_allows adopt_only _ = false
mode_allows sweep_only delete_cloud_resource = true
mode_allows sweep_only _ = false
mode_allows reconcile d = true

abbrev name_tag : Option (List (Text × Text)) → Option Text
name_tag none = none
name_tag (some tags) = lookup (lit "Name") tags

abbrev option_starts : Option Text → Text → Bool
option_starts s prefix = starts_with (get_or_else s []) prefix

unfoldable pub matches_prefix : ResourceIdentity → Option Text → Bool
unfolding starts_with lookup
matches_prefix identity none = true
matches_prefix identity (some prefix) =
    option_starts identity.physical_id prefix || option_starts (name_tag identity.tags) prefix

unfoldable pub matches_one : Option Text → Option (List Text) → Bool
unfolding text_contains
matches_one value none = true
matches_one value (some []) = true
matches_one none (some (v ∷ allowed)) = false
matches_one (some value) (some (v ∷ allowed)) = text_contains (v ∷ allowed) value

abbrev is_old : Option ℕ → ℕ → ℕ → Bool
is_old none min_age_minutes now = false
is_old (some created) min_age_minutes now = leb (min_age_minutes * 60000) (now - created)

-- An absent minimal age is 0.
unfoldable pub matches_age : (Text → Option ℕ) → Option Text → ℕ → ℕ → Bool
matches_age date_parse none min_age_minutes now = true
matches_age date_parse (some at) min_age_minutes now =
    if min_age_minutes == 0 then true else is_old (date_parse at) min_age_minutes now

abbrev same_signal : OwnershipSignalKind → OwnershipSignalKind → Bool
same_signal pulumi_state pulumi_state = true
same_signal tag tag = true
same_signal name_prefix name_prefix = true
same_signal cloudtrail cloudtrail = true
same_signal caller caller = true
same_signal _ _ = false

unfoldable pub has_signal : OwnershipSignalKind → List ResourceOwnershipEvidence → Bool
has_signal k [] = false
has_signal k (e ∷ es) = same_signal e.signal k || has_signal k es

-- `new Set(ownership.map((evidence) => evidence.signal)).size`
unfoldable pub signal_count : List ResourceOwnershipEvidence → ℕ
unfolding has_signal
signal_count [] = 0
signal_count (e ∷ es) = let n = signal_count es in if has_signal e.signal es then n else suc n

abbrev pub is_singleton : ResourceIdentity → Bool
is_singleton identity = identity.singleton || is_security_singleton_type identity.type

abbrev pub cloud_only : ReconcileTarget → Bool
cloud_only target = not target.in_state && target.exists_in_cloud
