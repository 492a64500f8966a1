-- ===== src/Upgrade/Tests.antt =====
-- Reports on three upgrades, and the planner's theorems at one of them.
use hulumi.Prelude.{Bool, true, false, none, some, [], ◌∷◌, Text, lit, map, ◌≡◌, ◌≢◌, ◌↔◌, refl}
use hulumi.Upgrade.{
  standard, extended, EksAddonInventory, EksUpgradeInventory, is_safe, is_degraded, is_unsafe,
  UpgradeReport, parse_minor, note_of, draft_of, plan_upgrade,
}
use hulumi.Upgrade.Verdicts.{IsSafe, plan_upgrade-IsSafe_iff}
use hulumi.Upgrade.Refusals.{plan_upgrade_refusals}

abbrev addon : Bool → EksAddonInventory
addon fits = record {
  name = lit "coredns";
  current_version = lit "v1.10.1";
  target_version = lit "v1.11.1";
  target_compatible = fits;
}

abbrev upgrade : Text → Bool → EksUpgradeInventory
upgrade target fits = record {
  cluster_name = lit "c";
  current_k8s_version = lit "v1.29.3-eks-1";
  target_k8s_version = target;
  current_support_status = extended;
  target_support_status = standard;
  addons = addon fits ∷ [];
  backup_recent = true;
  backup_most_recent = none;
}

versions :
    (parse_minor (lit "v1.29.3-eks-1") ≡ some (record { major = 1; minor = 29 }))
    × (parse_minor (lit "1.29.") ≡ none)
    × (parse_minor (lit "1") ≡ none)
unfolding parse_minor
versions = (refl, refl, refl)

verdicts :
    ((draft_of (upgrade (lit "1.30") true)).verdict ≡ is_safe)
    × ((draft_of (upgrade (lit "1.31") true)).verdict ≡ is_unsafe)
    × ((draft_of (upgrade (lit "next") true)).verdict ≡ is_degraded)
    × ((draft_of (upgrade (lit "1.30") false)).verdict ≡ is_unsafe)
unfolding plan_upgrade
verdicts = (refl, refl, refl, refl)

abbrev refused : EksUpgradeInventory
refused = upgrade (lit "1.30") false

abbrev report : UpgradeReport
report = record { draft = draft_of refused; inventory = refused }

abbrev accepted : EksUpgradeInventory
accepted = upgrade (lit "1.30") true

abbrev safe_report : UpgradeReport
safe_report = record { draft = draft_of accepted; inventory = accepted }

plan_upgrade-IsSafe_iff_example : (safe_report.draft.verdict ≡ is_safe) ↔ IsSafe accepted
unfolding plan_upgrade
plan_upgrade-IsSafe_iff_example = plan_upgrade-IsSafe_iff accepted safe_report refl

plan_upgrade_refusals_example :
    ((report.draft.verdict ≡ is_unsafe) ↔ (report.draft.reasons ≢ []))
    × (report.draft.addon_notes ≡ map (note_of refused) refused.addons)
unfolding plan_upgrade
plan_upgrade_refusals_example = plan_upgrade_refusals refused report refl
