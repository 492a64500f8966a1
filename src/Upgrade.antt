-- ===== src/Upgrade.antt =====
-- packages/k8s-baseline/src/eks-upgrade-planner.ts: the report on one upgrade of a cluster. A version
-- number is a natural number of any size.
pub mod Verdicts
pub mod Refusals
mod Tests
use hulumi.Prelude.{
  ℕ, ◌+◌, ◌-◌, ◌*◌, Bool, true, false, not, ◌&&◌, ◌||◌, Option, none, some, List, [], ◌∷◌, ◌++◌,
  Text, lit, leb, ltb, ◌==◌, any, length, get_or_else, if◌then◌else◌,
}
use hulumi.Prelude.Result.{Result, ok, err}

pub data EksSupportStatus : Type 0 where
  standard extended unsupported unknown : EksSupportStatus

pub record EksAddonInventory : Type 0 where
  pub name : Text
  pub current_version : Text
  pub target_version : Text
  pub target_compatible : Bool

pub record EksUpgradeInventory : Type 0 where
  pub cluster_name : Text
  pub current_k8s_version : Text
  pub target_k8s_version : Text
  pub current_support_status : EksSupportStatus
  pub target_support_status : EksSupportStatus
  pub addons : List EksAddonInventory
  pub backup_recent : Bool
  pub backup_most_recent : Option Text

pub data UpgradeVerdict : Type 0 where
  is_safe is_degraded is_unsafe : UpgradeVerdict

pub data AddonStatus : Type 0 where
  fits incompatible : AddonStatus

pub record AddonNote : Type 0 where
  pub name : Text
  pub status : AddonStatus
  pub note : Text

-- The local variables of `planUpgrade`.
pub record Draft : Type 0 where
  pub verdict : UpgradeVerdict
  pub reasons : List Text
  pub warnings : List Text
  pub addon_notes : List AddonNote

pub record UpgradeReport : Type 0 where
  pub draft : Draft
  pub inventory : EksUpgradeInventory

abbrev pub max_upgrade_planner_addons : ℕ
max_upgrade_planner_addons = 32

abbrev pub is_digit : ℕ → Bool
is_digit c = leb b'0' c && leb c b'9'

-- The digits at the start of a text, as a number, and the rest; `none` where there is no digit.
unfoldable pub take_number : Option ℕ → Text → Option ℕ × Text
take_number n [] = (n, [])
take_number n (c ∷ rest) =
    let value = get_or_else n 0 in
    let longer = take_number (some (value * 10 + (c - b'0'))) rest in
    if is_digit c then longer else (n, c ∷ rest)

-- What `.` does not match.
abbrev is_line_end : ℕ → Bool
is_line_end c = c == 10 || c == 13 || c == 0x2028 || c == 0x2029

-- (?:-.+)?$
abbrev is_suffix : Text → Bool
is_suffix [] = true
is_suffix (c ∷ []) = false
is_suffix (c ∷ d ∷ rest) = c == b'-' && not (any is_line_end (d ∷ rest))

abbrev is_patch : Option ℕ × Text → Bool
is_patch (none, rest) = false
is_patch (some n, rest) = is_suffix rest

-- (?:\.(\d+))?(?:-.+)?$
abbrev is_tail : Text → Bool
is_tail [] = true
is_tail (c ∷ rest) = if c == b'.' then is_patch (take_number none rest) else is_suffix (c ∷ rest)

pub record Version : Type 0 where
  pub major : ℕ
  pub minor : ℕ

abbrev with_minor : ℕ → Option ℕ × Text → Option Version
with_minor major (none, rest) = none
with_minor major (some minor, rest) =
    if is_tail rest then some (record { major = major; minor = minor }) else none

abbrev after_major : Option ℕ × Text → Option Version
after_major (some major, c ∷ rest) =
    if c == b'.' then with_minor major (take_number none rest) else none
after_major _ = none

abbrev drop_v : Text → Text
drop_v [] = []
drop_v (c ∷ rest) = if c == b'v' then rest else c ∷ rest

unfoldable pub parse_minor : Text → Option Version
unfolding take_number
parse_minor version = after_major (take_number none (drop_v version))

-- `reasons.push(reason); verdict = "unsafe";`
abbrev pub refuse : Text → Draft → Draft
refuse reason d = record d { verdict = is_unsafe; reasons = d.reasons ++ reason ∷ [] }

abbrev pub warn : Text → Draft → Draft
warn warning d = record d { warnings = d.warnings ++ warning ∷ [] }

abbrev degraded : UpgradeVerdict → UpgradeVerdict
degraded is_safe = is_degraded
degraded v = v

-- `if (verdict === "safe") verdict = "degraded";`
abbrev pub degrade : Draft → Draft
degrade d = record d { verdict = degraded d.verdict }

unfoldable pub check_target_support : EksUpgradeInventory → Draft → Draft
check_target_support inv d = elim inv.target_support_status [
  | unsupported ↦
      refuse
        (lit "Target Kubernetes version "
          ++ inv.target_k8s_version
          ++ lit " is unsupported by AWS — refuse safe verdict.")
        d
  | unknown ↦ degrade (
      warn
        (lit "Target Kubernetes version "
          ++ inv.target_k8s_version
          ++ lit " support status is unknown — verify before proceeding.")
        d)
  | standard ↦ d
  | extended ↦ d
]

unfoldable pub check_current_support : EksUpgradeInventory → Draft → Draft
check_current_support inv d = elim inv.current_support_status [
  | extended ↦
      warn
        (lit "Current Kubernetes version "
          ++ inv.current_k8s_version
          ++ lit " is in AWS Extended Support — upgrade priority is elevated.")
        d
  | unsupported ↦
      refuse
        (lit "Current Kubernetes version "
          ++ inv.current_k8s_version
          ++ lit
              " is unsupported — upgrade is mandatory but the cluster may already be in a degraded state.")
        d
  | standard ↦ d
  | unknown ↦ d
]

abbrev from_to : EksUpgradeInventory → Text
from_to inv = inv.current_k8s_version ++ lit " → " ++ inv.target_k8s_version

abbrev pub check_skew : EksUpgradeInventory → Option Version → Option Version → Draft → Draft
check_skew inv (some cur) (some tgt) d =
    if not (tgt.major == cur.major) || ltb 1 (tgt.minor - cur.minor)
    then refuse
        (lit "Skipping minor versions is not allowed ("
          ++ from_to inv
          ++ lit "). EKS supports +1 minor per upgrade.")
        d
    else if ltb tgt.minor cur.minor
    then refuse (lit "Downgrades are not supported (" ++ from_to inv ++ lit ").") d
    else d
check_skew inv _ _ d = degrade (
    warn
      (lit "Could not parse current/target K8s versions (\""
        ++ inv.current_k8s_version
        ++ lit "\" → \""
        ++ inv.target_k8s_version
        ++ lit "\").")
      d)

unfoldable pub check_versions : EksUpgradeInventory → Draft → Draft
unfolding parse_minor
check_versions inv d =
    check_skew inv (parse_minor inv.current_k8s_version) (parse_minor inv.target_k8s_version) d

unfoldable pub check_backup : EksUpgradeInventory → Draft → Draft
check_backup inv d =
    if inv.backup_recent
    then d
    else refuse
        (lit
          "Backup preflight failed — no recent (≤ 24h) recovery point. Take a fresh backup before proceeding.")
        d

abbrev add_note : AddonNote → Draft → Draft
add_note n d = record d { addon_notes = d.addon_notes ++ n ∷ [] }

unfoldable pub note_of : EksUpgradeInventory → EksAddonInventory → AddonNote
note_of inv a =
    if a.target_compatible
    then record {
      name = a.name;
      status = fits;
      note = lit "OK — " ++ a.current_version ++ lit " → " ++ a.target_version;
    }
    else record {
      name = a.name;
      status = incompatible;
      note =
          lit "Add-on \""
          ++ a.name
          ++ lit "\" target version "
          ++ a.target_version
          ++ lit " is NOT documented as compatible with K8s "
          ++ inv.target_k8s_version
          ++ lit ".";
    }

-- The body of the loop over the add-ons.
unfoldable pub check_addon : EksUpgradeInventory → EksAddonInventory → Draft → Draft
unfolding note_of
check_addon inv a d =
    if a.target_compatible
    then add_note (note_of inv a) d
    else refuse
        (lit "Add-on \""
          ++ a.name
          ++ lit "\" target "
          ++ a.target_version
          ++ lit " is incompatible with K8s "
          ++ inv.target_k8s_version
          ++ lit ".")
        (add_note (note_of inv a) d)

unfoldable pub check_addons : EksUpgradeInventory → List EksAddonInventory → Draft → Draft
unfolding check_addon
check_addons inv [] d = d
check_addons inv (a ∷ rest) d = check_addons inv rest (check_addon inv a d)

abbrev pub empty_draft : Draft
empty_draft = record { verdict = is_safe; reasons = []; warnings = []; addon_notes = [] }

abbrev pub draft_of : EksUpgradeInventory → Draft
draft_of inv = check_addons inv inv.addons (
    check_backup inv
      (check_versions inv (check_current_support inv (check_target_support inv empty_draft))))

pub data UpgradeError : Type 0 where
  too_many_addons : ℕ → UpgradeError

unfoldable pub plan_upgrade : EksUpgradeInventory → Result UpgradeError UpgradeReport
unfolding check_target_support check_current_support check_versions check_backup check_addons
plan_upgrade inv =
    if ltb max_upgrade_planner_addons (length inv.addons)
    then err (too_many_addons (length inv.addons))
    else ok (record { draft = draft_of inv; inventory = inv })
