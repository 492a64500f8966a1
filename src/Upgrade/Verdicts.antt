-- ===== src/Upgrade/Verdicts.antt =====
-- When an upgrade is safe, refused and degraded
-- (packages/k8s-baseline/src/eks-upgrade-planner.ts).
use hulumi.Prelude.{
  ◌+◌, ◌≤◌, true, Option, none, some, List, [], ◌∷◌, ltb, length, All, Bool-cases, ◌≡◌, ◌≢◌, ◌↔◌,
  inl, inr, refl, arith,
}
use hulumi.Prelude.Result.{ok}
use hulumi.Upgrade.{
  unsupported, unknown, EksAddonInventory, EksUpgradeInventory, is_safe, Draft, UpgradeReport,
  max_upgrade_planner_addons, Version, parse_minor, check_target_support, check_current_support,
  check_skew, check_versions, check_backup, check_addon, check_addons, empty_draft, draft_of,
  plan_upgrade,
}

-- One step up or none: the same major version and a minor version that is the same or the next.
abbrev pub IsOneStep : Option Version → Option Version → Type 0
IsOneStep (some cur) (some tgt) =
    (tgt.major ≡ cur.major) × (cur.minor ≤ tgt.minor) × (tgt.minor ≤ cur.minor + 1)
IsOneStep _ _ = ⊥

-- AWS supports the target and has not ended the support of the current version, the step is one
-- minor version at most, a recent backup exists, and every add-on fits the target.
pub record IsSafe (inv : EksUpgradeInventory) : Type 0 where
  pub target_supported :
      (inv.target_support_status ≢ unsupported) × (inv.target_support_status ≢ unknown)
  pub current_supported : inv.current_support_status ≢ unsupported
  pub one_step :
      IsOneStep (parse_minor inv.current_k8s_version) (parse_minor inv.target_k8s_version)
  pub backed_up : inv.backup_recent ≡ true
  pub addons_fit : All (λ a. a.target_compatible ≡ true) inv.addons

module _ (inv : EksUpgradeInventory) where
  target_support_safe_iff :
      (d : Draft)
      → ((check_target_support inv d).verdict ≡ is_safe) ↔ (
          (d.verdict ≡ is_safe)
          × (inv.target_support_status ≢ unsupported)
          × (inv.target_support_status ≢ unknown))
  unfolding check_target_support
  target_support_safe_iff d = ground arith

  current_support_safe_iff :
      (d : Draft)
      → ((check_current_support inv d).verdict ≡ is_safe)
        ↔ ((d.verdict ≡ is_safe) × (inv.current_support_status ≢ unsupported))
  unfolding check_current_support
  current_support_safe_iff d = ground arith

  skew_safe_iff :
      (cur tgt : Option Version) (d : Draft)
      → ((check_skew inv cur tgt d).verdict ≡ is_safe) ↔ ((d.verdict ≡ is_safe) × IsOneStep cur tgt)
  skew_safe_iff none tgt d = ground arith
  skew_safe_iff (some cur) none d = ground arith
  skew_safe_iff (some cur) (some tgt) d = ground arith

  versions_safe_iff :
      (d : Draft)
      → ((check_versions inv d).verdict ≡ is_safe) ↔ (
          (d.verdict ≡ is_safe)
          × IsOneStep (parse_minor inv.current_k8s_version) (parse_minor inv.target_k8s_version))
  unfolding check_versions
  versions_safe_iff d =
      skew_safe_iff (parse_minor inv.current_k8s_version) (parse_minor inv.target_k8s_version) d

  backup_safe_iff :
      (d : Draft)
      → ((check_backup inv d).verdict ≡ is_safe)
        ↔ ((d.verdict ≡ is_safe) × (inv.backup_recent ≡ true))
  unfolding check_backup
  backup_safe_iff d = ground arith

  addon_safe_iff :
      (a : EksAddonInventory) (d : Draft)
      → ((check_addon inv a d).verdict ≡ is_safe)
        ↔ ((d.verdict ≡ is_safe) × (a.target_compatible ≡ true))
  unfolding check_addon
  addon_safe_iff a d = ground arith

  addons_safe_iff :
      (addons : List EksAddonInventory) (d : Draft)
      → ((check_addons inv addons d).verdict ≡ is_safe)
        ↔ ((d.verdict ≡ is_safe) × All (λ a. a.target_compatible ≡ true) addons)
  unfolding check_addons
  addons_safe_iff [] d = ground arith
  addons_safe_iff (a ∷ addons) d =
      ground (arith, addon_safe_iff a d, addons_safe_iff addons (check_addon inv a d))

pub plan_upgrade-eq-ok :
    (inv : EksUpgradeInventory) (r : UpgradeReport)
    → plan_upgrade inv ≡ ok r
    → r ≡ record { draft = draft_of inv; inventory = inv }
unfolding plan_upgrade
plan_upgrade-eq-ok inv r h =
    elim (Bool-cases (ltb max_upgrade_planner_addons (length inv.addons))) [
      | inl many ↦ absurd (ground arith)
      | inr few ↦ ground arith
    ]

-- The report says safe exactly when AWS supports the target and has not ended the support of the
-- current version, both versions parse and the target is the same minor version or the next one, a
-- recent backup exists, and every add-on fits the target.
pub plan_upgrade-IsSafe_iff :
    (inv : EksUpgradeInventory) (r : UpgradeReport)
    → plan_upgrade inv ≡ ok r
    → (r.draft.verdict ≡ is_safe) ↔ IsSafe inv
plan_upgrade-IsSafe_iff inv r h =
    let d1 = check_target_support inv empty_draft in
    let d2 = check_current_support inv d1 in
    let d3 = check_versions inv d2 in
    let a1 = target_support_safe_iff inv empty_draft in
    let a2 = current_support_safe_iff inv d1 in
    let a3 = versions_safe_iff inv d2 in
    let a4 = backup_safe_iff inv d3 in
    let a5 = addons_safe_iff inv inv.addons (check_backup inv d3) in
    rw (plan_upgrade-eq-ok inv r h) (
      λ e.
          let (e4, fit) = a5.0 e in
          let (e3, backed) = a4.0 e4 in
          let (e2, step) = a3.0 e3 in
          let (e1, current) = a2.0 e2 in
          let (_, ends, known) = a1.0 e1 in
          record {
            target_supported = (ends, known);
            current_supported = current;
            one_step = step;
            backed_up = backed;
            addons_fit = fit;
          },
      λ s. a5.1 (
        a4.1 (
          a3.1 (
            a2.1 (a1.1 (refl, s.target_supported.0, s.target_supported.1), s.current_supported),
            s.one_step,
          ),
          s.backed_up,
        ),
        s.addons_fit,
      ),
    )
