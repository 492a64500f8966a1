-- ===== src/Upgrade/Refusals.antt =====
-- A report refuses an upgrade with reasons, and notes every add-on
-- (packages/k8s-baseline/src/eks-upgrade-planner.ts).
use hulumi.Prelude.{
  Option, none, some, List, [], ◌∷◌, ◌++◌, Text, map, Bool-cases, ◌≡◌, ◌≢◌, ◌↔◌, ◌∙◌, inl, inr,
  refl, arith,
}
use hulumi.Prelude.Result.{ok}
use mathlib.Core.List.{append_assoc, append-nil}
use hulumi.Upgrade.{
  EksAddonInventory, EksUpgradeInventory, is_unsafe, Draft, UpgradeReport, Version, parse_minor,
  check_target_support, check_current_support, check_skew, check_versions, check_backup, note_of,
  check_addon, check_addons, empty_draft, draft_of, plan_upgrade,
}
use hulumi.Upgrade.Verdicts.{plan_upgrade-eq-ok}

append-ne-nil : (xs : List Text) (y : Text) → xs ++ y ∷ [] ≢ []
append-ne-nil [] y e = cc
append-ne-nil (x ∷ xs) y e = cc

-- A refusal has a reason, and a reason is a refusal.
abbrev pub IsExplained : Draft → Type 0
IsExplained d = (d.verdict ≡ is_unsafe) ↔ (d.reasons ≢ [])

module _ (inv : EksUpgradeInventory) where
  target_support-IsExplained :
      (d : Draft) → IsExplained d → IsExplained (check_target_support inv d)
  unfolding check_target_support
  target_support-IsExplained d h = grind (arith, append-ne-nil)

  current_support-IsExplained :
      (d : Draft) → IsExplained d → IsExplained (check_current_support inv d)
  unfolding check_current_support
  current_support-IsExplained d h = grind (arith, append-ne-nil)

  skew-IsExplained :
      (cur tgt : Option Version) (d : Draft)
      → IsExplained d
      → IsExplained (check_skew inv cur tgt d)
  skew-IsExplained none tgt d h = grind (arith, append-ne-nil)
  skew-IsExplained (some cur) none d h = grind (arith, append-ne-nil)
  skew-IsExplained (some cur) (some tgt) d h = grind (arith, append-ne-nil)

  versions-IsExplained : (d : Draft) → IsExplained d → IsExplained (check_versions inv d)
  unfolding check_versions
  versions-IsExplained d h =
      skew-IsExplained (parse_minor inv.current_k8s_version) (parse_minor inv.target_k8s_version) d
        h

  backup-IsExplained : (d : Draft) → IsExplained d → IsExplained (check_backup inv d)
  unfolding check_backup
  backup-IsExplained d h = grind (arith, append-ne-nil)

  addon-IsExplained :
      (a : EksAddonInventory) (d : Draft) → IsExplained d → IsExplained (check_addon inv a d)
  unfolding check_addon
  addon-IsExplained a d h = grind (arith, append-ne-nil)

  addons-IsExplained :
      (addons : List EksAddonInventory) (d : Draft)
      → IsExplained d
      → IsExplained (check_addons inv addons d)
  unfolding check_addons
  addons-IsExplained [] d h = h
  addons-IsExplained (a ∷ addons) d h =
      addons-IsExplained addons (check_addon inv a d) (addon-IsExplained a d h)

  check_addon-notes :
      (a : EksAddonInventory) (d : Draft)
      → (check_addon inv a d).addon_notes ≡ d.addon_notes ++ note_of inv a ∷ []
  unfolding check_addon
  check_addon-notes a d = elim (Bool-cases a.target_compatible) [
    | inl fits ↦ rw (fits, check_addon) refl
    | inr misfit ↦ rw (misfit, check_addon) refl
  ]

  check_addons-notes :
      (addons : List EksAddonInventory) (d : Draft)
      → (check_addons inv addons d).addon_notes ≡ d.addon_notes ++ map (note_of inv) addons
  unfolding check_addons
  check_addons-notes [] d = grind (arith, append-nil)
  check_addons-notes (a ∷ addons) d =
      check_addons-notes addons (check_addon inv a d)
      ∙ rw (check_addon-notes a d, append_assoc) refl

  target_support-notes : (d : Draft) → (check_target_support inv d).addon_notes ≡ d.addon_notes
  unfolding check_target_support
  target_support-notes d = ground arith

  current_support-notes : (d : Draft) → (check_current_support inv d).addon_notes ≡ d.addon_notes
  unfolding check_current_support
  current_support-notes d = ground arith

  skew-notes :
      (cur tgt : Option Version) (d : Draft)
      → (check_skew inv cur tgt d).addon_notes ≡ d.addon_notes
  skew-notes none tgt d = refl
  skew-notes (some cur) none d = refl
  skew-notes (some cur) (some tgt) d = ground arith

  versions-notes : (d : Draft) → (check_versions inv d).addon_notes ≡ d.addon_notes
  unfolding check_versions
  versions-notes d =
      skew-notes (parse_minor inv.current_k8s_version) (parse_minor inv.target_k8s_version) d

  backup-notes : (d : Draft) → (check_backup inv d).addon_notes ≡ d.addon_notes
  unfolding check_backup
  backup-notes d = ground arith

  draft_of-notes : (draft_of inv).addon_notes ≡ map (note_of inv) inv.addons
  draft_of-notes =
      let d1 = check_target_support inv empty_draft in
      let d2 = check_current_support inv d1 in
      let d3 = check_versions inv d2 in
      check_addons-notes inv.addons (check_backup inv d3)
      ∙ rw
          (
            backup-notes d3,
            versions-notes d2,
            current_support-notes d1,
            target_support-notes empty_draft,
          )
          refl

-- A report refuses the upgrade exactly when it gives a reason, so that no refusal is silent and no
-- reason is overruled, and it has one note for each add-on, in their order.
pub plan_upgrade_refusals :
    (inv : EksUpgradeInventory) (r : UpgradeReport)
    → plan_upgrade inv ≡ ok r
    → ((r.draft.verdict ≡ is_unsafe) ↔ (r.draft.reasons ≢ []))
      × (r.draft.addon_notes ≡ map (note_of inv) inv.addons)
plan_upgrade_refusals inv r h = rw (plan_upgrade-eq-ok inv r h) (
  addons-IsExplained inv inv.addons _ (
      backup-IsExplained inv _ (
        versions-IsExplained inv _ (
          current_support-IsExplained inv _
            (target_support-IsExplained inv empty_draft (λ e. cc, λ e. absurd (e refl)))))),
  draft_of-notes inv,
)
