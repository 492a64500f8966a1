-- ===== src/Policies/Suppressions/Active.antt =====
-- What suppresses a rule in packages/policies/src/aws/suppressions.ts.
use hulumi.Prelude.{
  ℕ, if◌then◌else◌, suc, Bool, true, false, ◌&&◌, Option, none, some, List, [], ◌∷◌, ◌++◌, Text,
  lit, text_eq, text_eq_iff, starts_with-split, trim, take, length, ltb, ltb→lt, ◌==◌, ==_iff, ◌+◌,
  ◌<◌, and-eq-true, Bool-cases, Member, ◌≡◌, ◌≢◌, ◌⊎◌, inl, inr, refl, subst, ap, ap₂, arith,
}
use hulumi.Prelude.Int.{ℤ, ltb_ℤ}
use hulumi.Policies.Suppressions.{
  Suppression, suppressed, Dates, next_index, match_of, index_of, at_wildcard, urn_matches,
  canonical_expiry_millis, is_rule, has_reason, in_scope, is_later, is_unexpired, is_active,
  first_match, match_suppression,
}
use hulumi.Policies.Suppressions.Expiry.{IsCanonical, canonical_expiry_millis-IsCanonical}

-- What a scope covers: the stack, one URN, or the URNs with a prefix that is longer than `urn:`.
abbrev pub Covers : Text → Text → Type 0
Covers scope urn =
    ((scope ≡ lit "stack") × (urn ≡ lit "stack"))
    ⊎ (scope ≡ urn)
    ⊎ ((prefix rest : Text) × (scope ≡ prefix ++ (b'*' ∷ []))
        × (urn ≡ prefix ++ rest)
        × (length (lit "urn:*") < length scope))

some_eq : (i j : ℕ) → some i ≡ some j → i ≡ j
some_eq i j e = cc

empty : (s : Text) → length s ≡ 0 → s ≡ []
empty [] h = refl
empty (c ∷ s) h = absurd (omega (arith, h))

next_index-some :
    (found : Option ℕ) (i : ℕ)
    → next_index found ≡ some i
    → (j : ℕ) × (found ≡ some j) × (suc j ≡ i)
next_index-some none i h = cc
next_index-some (some j) i h = (j, refl, cc)

index_of-last :
    (c : ℕ) (s : Text) (i : ℕ) → index_of c s ≡ some i → i + 1 ≡ length s → s ≡ take i s ++ (c ∷ [])
unfolding index_of
index_of-last c [] i h e = cc
index_of-last c (x ∷ s) i h e = elim (Bool-cases (x == c)) [
  | inl same ↦
      let first = some_eq 0 i (rw same at h) in
      subst (λ i. x ∷ s ≡ take i (x ∷ s) ++ (c ∷ [])) first
        (ap₂ ◌∷◌ ((==_iff x c).0 same) (empty s (omega (arith, e, first))))
  | inr other ↦
      let (j, found, next) = next_index-some (index_of c s) i (rw other at h) in
      subst (λ i. x ∷ s ≡ take i (x ∷ s) ++ (c ∷ [])) next
        (ap (λ t. x ∷ t) (index_of-last c s j found (omega (arith, e, next))))
]

at_wildcard-Covers :
    (scope urn : Text) (found : Option ℕ)
    → index_of b'*' scope ≡ found
    → at_wildcard scope urn found ≡ true
    → Covers scope urn
at_wildcard-Covers scope urn none e h = inr (inl ((text_eq_iff scope urn).0 (and-eq-true _ _ h).1))
at_wildcard-Covers scope urn (some i) e h =
    let (ends, prefixed) = and-eq-true (i + 1 == length scope && ltb (length (lit "urn:")) i) _ h in
    let (last, long) = and-eq-true (i + 1 == length scope) (ltb (length (lit "urn:")) i) ends in
    let size = (==_iff (i + 1) (length scope)).0 last in
    let (rest, split) = starts_with-split urn (take i scope) prefixed in
    inr (
      inr (
        take i scope,
        rest,
        index_of-last b'*' scope i e size,
        split,
        omega (arith, size, ltb→lt 4 i long),
      ))

if_false-eq-true : (bad test : Bool) → (if bad then false else test) ≡ true → test ≡ true
if_false-eq-true true test h = cc
if_false-eq-true false test h = h

urn_matches-Covers : (scope urn : Text) → urn_matches scope urn ≡ true → Covers scope urn
unfolding urn_matches
urn_matches-Covers scope urn h = elim (Bool-cases (text_eq scope (lit "stack"))) [
  | inl stack ↦
      inl (
        (text_eq_iff scope (lit "stack")).0 stack,
        (text_eq_iff urn (lit "stack")).0 (rw stack at h),
      )
  | inr other ↦
      at_wildcard-Covers scope urn (index_of b'*' scope) refl (if_false-eq-true _ _ (rw other at h))
]

-- The rule, a reason, a scope that covers the resource and an expiry that is still to come.
pub record IsActive (dates : Dates) (rule_id urn : Text) (now : ℤ) (reason : Text) (s : Suppression)
    : Type 0 where
  pub same_rule : s.rule_id ≡ some rule_id
  pub has_reason : (s.reason ≡ some reason) × (length (trim reason) ≢ 0)
  pub covers : (scope : Text) × (s.urn_scope ≡ some scope) × Covers scope urn
  pub unexpired :
      (value : Text) × (time : ℤ) × (s.expires_at ≡ some value)
      × (canonical_expiry_millis dates value ≡ some time)
      × IsCanonical dates value time
      × (ltb_ℤ now time ≡ true)

is_rule_sound : (rule_id : Text) (id : Option Text) → is_rule rule_id id ≡ true → id ≡ some rule_id
is_rule_sound rule_id none h = cc
is_rule_sound rule_id (some id) h = ap some ((text_eq_iff id rule_id).0 (and-eq-true _ _ h).1)

has_reason_sound :
    (r : Option Text)
    → has_reason r ≡ true
    → (reason : Text) × (r ≡ some reason) × (length (trim reason) ≢ 0)
has_reason_sound none h = cc
has_reason_sound (some reason) h =
    (reason, refl, λ blank. let e = rw ((==_iff (length (trim reason)) 0).1 blank) at h in cc)

in_scope_sound :
    (urn : Text) (s : Option Text)
    → in_scope urn s ≡ true
    → (scope : Text) × (s ≡ some scope) × Covers scope urn
in_scope_sound urn none h = cc
in_scope_sound urn (some scope) h = (scope, refl, urn_matches-Covers scope urn h)

is_later_sound :
    (now : ℤ) (expiry : Option ℤ)
    → is_later now expiry ≡ true
    → (time : ℤ) × (expiry ≡ some time) × (ltb_ℤ now time ≡ true)
is_later_sound now none h = cc
is_later_sound now (some time) h = (time, refl, h)

is_unexpired_sound :
    (dates : Dates) (now : ℤ) (v : Option Text)
    → is_unexpired dates now v ≡ true
    → (value : Text) × (time : ℤ) × (v ≡ some value)
      × (canonical_expiry_millis dates value ≡ some time)
      × IsCanonical dates value time
      × (ltb_ℤ now time ≡ true)
is_unexpired_sound dates now none h = cc
is_unexpired_sound dates now (some value) h =
    let (time, parsed, later) = is_later_sound now (canonical_expiry_millis dates value) h in
    (value, time, refl, parsed, canonical_expiry_millis-IsCanonical dates value time parsed, later)

match_of-suppressed :
    (r : Option Text) (given reason : Text)
    → r ≡ some given
    → match_of r ≡ suppressed reason
    → given ≡ reason
match_of-suppressed none given reason e h = cc
match_of-suppressed (some r) given reason e h = cc

is_active-IsActive :
    (dates : Dates) (rule_id urn : Text) (now : ℤ) (reason : Text) (s : Suppression)
    → is_active dates rule_id urn now s ≡ true
    → match_of s.reason ≡ suppressed reason
    → IsActive dates rule_id urn now reason s
unfolding is_active
is_active-IsActive dates rule_id urn now reason s h m =
    let (h1, unexpired) = and-eq-true _ _ h in
    let (h2, scoped) = and-eq-true _ _ h1 in
    let (rule, reasoned) = and-eq-true _ _ h2 in
    let (given, is_given, nonblank) = has_reason_sound s.reason reasoned in
    let same = match_of-suppressed s.reason given reason is_given m in
    record {
      same_rule = is_rule_sound rule_id s.rule_id rule;
      has_reason =
          subst (λ r. (s.reason ≡ some r) × (length (trim r) ≢ 0)) same (is_given, nonblank);
      covers = in_scope_sound urn s.urn_scope scoped;
      unexpired = is_unexpired_sound dates now s.expires_at unexpired;
    }

first_match-IsActive :
    (dates : Dates) (rule_id urn : Text) (now : ℤ) (suppressions : List (Option Suppression))
    (reason : Text)
    → first_match dates rule_id urn now suppressions ≡ suppressed reason
    → (s : Suppression) × Member (some s) suppressions × IsActive dates rule_id urn now reason s
unfolding first_match
first_match-IsActive dates rule_id urn now [] reason h = cc
first_match-IsActive dates rule_id urn now (none ∷ suppressions) reason h =
    let (s, there, active) = first_match-IsActive dates rule_id urn now suppressions reason h in
    (s, inr there, active)
first_match-IsActive dates rule_id urn now (some s ∷ suppressions) reason h =
    elim (Bool-cases (is_active dates rule_id urn now s)) [
      | inl active ↦
          (s, inl refl, is_active-IsActive dates rule_id urn now reason s active (rw active at h))
      | inr inactive ↦
          let (t, there, active) =
            first_match-IsActive dates rule_id urn now suppressions reason (rw inactive at h) in
          (t, inr there, active)
    ]

-- A rule is suppressed only by one of the suppressions, with the reason that is given: it names
-- the rule, its reason is not blank, its scope covers the resource and its expiry is a canonical
-- instant after now.
pub match_suppression-IsActive :
    (dates : Dates) (rule_id urn : Text) (suppressions : List (Option Suppression)) (now : ℤ)
    (reason : Text)
    → match_suppression dates rule_id urn (some suppressions) (some now) ≡ suppressed reason
    → (s : Suppression) × Member (some s) suppressions × IsActive dates rule_id urn now reason s
unfolding match_suppression
match_suppression-IsActive dates rule_id urn suppressions now reason h =
    first_match-IsActive dates rule_id urn now suppressions reason h
