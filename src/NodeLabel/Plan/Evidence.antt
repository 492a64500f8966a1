-- ===== src/NodeLabel/Plan/Evidence.antt =====
-- What the checks of packages/k8s-baseline/src/trusted-node-label-reconciler-core.ts on times,
-- groups and zones say of the evidence.
use hulumi.Prelude.{
  ℕ, ◌+◌, true, false, not, ◌&&◌, ◌||◌, none, List, [], ◌∷◌, ◌++◌, Text, text_eq, text_eq_iff,
  text_contains, text_contains_iff, starts_with, starts_with-split, length, length-append, any, map,
  All, AllDistinct, Member, or-eq-false, and-eq-true, Bool-cases, ◌≡◌, ◌≢◌, inl, inr, refl, sym, ap,
  ◌∙◌, arith, ◌==◌, ==_iff,
}
use hulumi.Prelude.Int.{ℤ, ◌≤ℤ◌, ◌-ℤ◌, ltb_ℤ}
use hulumi.NodeLabel.Types.{JsNumber, value_of, ReconciliationInput}
use hulumi.NodeLabel.Attest.{
  has_no_duplicates, max_ℤ, min_ℤ, latest, earliest, skew_of, last_is_lower, zone_in_region,
  distinct_count, attest_membership, memberships, membership_failure,
}
use hulumi.NodeLabel.Patterns.{is_lower}

max-le : (a b : ℤ) → (a ≤ℤ max_ℤ a b) × (b ≤ℤ max_ℤ a b)
max-le a b = ground arith

min-le : (a b : ℤ) → (min_ℤ a b ≤ℤ a) × (min_ℤ a b ≤ℤ b)
min-le a b = ground arith

le_trans : (a b c : ℤ) → a ≤ℤ b → b ≤ℤ c → a ≤ℤ c
le_trans a b c h k = omega (arith, h, k)

-- No time is after the latest, and none before the earliest.
latest-le :
    (m : ℤ) (ts : List JsNumber) → (m ≤ℤ latest m ts) × All (λ t. value_of t ≤ℤ latest m ts) ts
unfolding latest
latest-le m [] = (omega arith, tt)
latest-le m (t ∷ ts) =
    let (above, all_above) = latest-le (max_ℤ m (value_of t)) ts in
    let (left, right) = max-le m (value_of t) in
    (le_trans m _ _ left above, (le_trans (value_of t) _ _ right above, all_above))

earliest-le :
    (m : ℤ) (ts : List JsNumber) → (earliest m ts ≤ℤ m) × All (λ t. earliest m ts ≤ℤ value_of t) ts
unfolding earliest
earliest-le m [] = (omega arith, tt)
earliest-le m (t ∷ ts) =
    let (below, all_below) = earliest-le (min_ℤ m (value_of t)) ts in
    let (left, right) = min-le m (value_of t) in
    (le_trans _ _ m below left, (le_trans _ _ (value_of t) below right, all_below))

sub_le : (a b l e s : ℤ) → a ≤ℤ l → e ≤ℤ b → l -ℤ e ≤ℤ s → a -ℤ b ≤ℤ s
sub_le a b l e s h k d = ground arith

-- Any two of the times are at most so far apart.
abbrev pub WithinSkew : ℤ → List JsNumber → Type 0
WithinSkew skew ts = All (λ a. All (λ b. value_of a -ℤ value_of b ≤ℤ skew) ts) ts

module _ (l e s : ℤ) (apart : l -ℤ e ≤ℤ s) where
  each_within :
      (a : ℤ) (ts : List JsNumber)
      → a ≤ℤ l
      → All (λ t. e ≤ℤ value_of t) ts
      → All (λ b. a -ℤ value_of b ≤ℤ s) ts
  each_within a [] h k = tt
  each_within a (t ∷ ts) h (k, ks) = (sub_le a (value_of t) l e s h k apart, each_within a ts h ks)

  all_within :
      (firsts ts : List JsNumber)
      → All (λ t. value_of t ≤ℤ l) firsts
      → All (λ t. e ≤ℤ value_of t) ts
      → All (λ a. All (λ b. value_of a -ℤ value_of b ≤ℤ s) ts) firsts
  all_within [] ts h ks = tt
  all_within (a ∷ firsts) ts (h, hs) ks =
      (each_within (value_of a) ts h ks, all_within firsts ts hs ks)

pub skew_sound :
    (skew : ℤ) (ts : List JsNumber) → ltb_ℤ skew (skew_of ts) ≡ false → WithinSkew skew ts
skew_sound skew [] h = tt
skew_sound skew (t ∷ ts) h =
    let (above, all_above) = latest-le (value_of t) ts in
    let (below, all_below) = earliest-le (value_of t) ts in
    all_within (latest (value_of t) ts) (earliest (value_of t) ts) skew (ground arith) (t ∷ ts)
      (t ∷ ts) (above, all_above) (below, all_below)

-- A zone is its region and one letter.
abbrev pub IsZoneOf : Text → Text → Type 0
IsZoneOf zone region = (c : ℕ) × (zone ≡ region ++ (c ∷ [])) × (is_lower c ≡ true)

last-append : (s : Text) (c : ℕ) → last_is_lower (s ++ (c ∷ [])) ≡ is_lower c
last-append [] c = refl
last-append (x ∷ []) c = refl
last-append (x ∷ y ∷ s) c = last-append (y ∷ s) c

pub zone_sound : (zone region : Text) → zone_in_region zone region ≡ true → IsZoneOf zone region
zone_sound zone region h =
    let (sized, lower) =
      and-eq-true (length zone == length region + 1 && starts_with zone region) (last_is_lower zone)
        h in
    let (size, starts) =
      and-eq-true (length zone == length region + 1) (starts_with zone region) sized in
    let (rest, split) = starts_with-split zone region starts in
    one_letter zone region rest split lower ((==_iff _ _).0 size)
  where
    one_letter :
        (zone region rest : Text)
        → zone ≡ region ++ rest
        → last_is_lower zone ≡ true
        → length zone ≡ length region + 1
        → IsZoneOf zone region
    one_letter zone region [] split lower size =
        absurd (omega (arith, size, ap length split, length-append region []))
    one_letter zone region (c ∷ []) split lower size =
        (c, split, sym (last-append region c) ∙ ap last_is_lower (sym split) ∙ lower)
    one_letter zone region (c ∷ d ∷ rest) split lower size =
        absurd (omega (arith, size, ap length split, length-append region (c ∷ d ∷ rest)))

pub not_any_sound :
    (allowed values : List Text)
    → any (λ v. not (text_contains allowed v)) values ≡ false
    → All (λ v. Member v allowed) values
not_any_sound allowed [] h = tt
not_any_sound allowed (v ∷ values) h =
    let (there, more) =
      or-eq-false (not (text_contains allowed v)) (any (λ v. not (text_contains allowed v)) values)
        h in
    ((text_contains_iff allowed v).0 (ground arith), not_any_sound allowed values more)

not_contained :
    (values : List Text) (v : Text) → text_contains values v ≡ false → All (λ x. x ≢ v) values
unfolding text_contains
not_contained [] v h = tt
not_contained (x ∷ values) v h =
    let (other, more) = or-eq-false (text_eq x v) (text_contains values v) h in
    ((λ same. cc (other, (text_eq_iff x v).1 same)), not_contained values v more)

distinct_sound : (values : List Text) → has_no_duplicates values ≡ true → AllDistinct values
unfolding has_no_duplicates
distinct_sound [] h = tt
distinct_sound (v ∷ values) h =
    let (fresh, more) = and-eq-true (not (text_contains values v)) (has_no_duplicates values) h in
    (not_contained values v (ground arith), distinct_sound values more)

-- The groups that were observed are those that the node group names, each of them once.
pub record AreItsGroups (allowed names : List Text) : Type 0 where
  pub named : All (λ n. Member n allowed) names
  pub observed : All (λ n. Member n names) allowed
  pub once : AllDistinct names

pub membership-AreItsGroups :
    (input : ReconciliationInput) (id : Text)
    → attest_membership input id ≡ none
    → AreItsGroups input.node_group.auto_scaling_group_names
        (map (λ g. g.name) input.auto_scaling_groups)
      × (membership_failure (memberships id input.auto_scaling_groups) ≡ none)
unfolding attest_membership
membership-AreItsGroups input id h =
    let allowed = input.node_group.auto_scaling_group_names in
    let names = map (λ g. g.name) input.auto_scaling_groups in
    elim (Bool-cases (any (λ n. not (text_contains allowed n)) names)) [
      | inl unknown ↦ absurd (ground arith)
      | inr known ↦
          elim (Bool-cases (
            not (has_no_duplicates names)
            || not (length names == distinct_count allowed)
            || any (λ n. not (text_contains names n)) allowed)) [
              | inl incomplete ↦ absurd (ground arith)
              | inr complete ↦
                  let (first, missing) =
                    or-eq-false
                      (not (has_no_duplicates names)
                        || not (length names == distinct_count allowed))
                      (any (λ n. not (text_contains names n)) allowed) complete in
                  let (doubled, _) = or-eq-false (not (has_no_duplicates names)) _ first in
                  (
                    record {
                      named = not_any_sound allowed names known;
                      observed = not_any_sound names allowed missing;
                      once = distinct_sound names (ground arith);
                    },
                    rw (known, complete) at h,
                  )
            ]
    ]
