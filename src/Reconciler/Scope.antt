-- ===== src/Reconciler/Scope.antt =====
-- `normalizeScope` of packages/drift/src/reconciler.ts. Its maximal batch size, which nothing
-- reads, is left out.
use hulumi.Prelude.{
  ℕ, ◌≤◌, Bool, false, ◌||◌, Option, none, some, List, [], ◌∷◌, Text, lit, text_contains, trim,
  to_lower, get_or_else, ltb, ◌==◌, any, length, All, or-eq-false, if◌then◌else◌, Bool-cases, ◌≡◌,
  ◌≢◌, inl, inr, refl, ap, ◌∙◌, arith,
}
use hulumi.Reconciler.Types.{ReconcileScope}

abbrev pub broad_prefixes : List Text
broad_prefixes =
    [] ∷ lit "*" ∷ lit "." ∷ lit "/" ∷ lit "aws" ∷ lit "hulumi" ∷ lit "prod" ∷ lit "production" ∷ []

abbrev is_wildcard : ℕ → Bool
is_wildcard c = c == b'*' || c == b'?'

abbrev is_broad : Text → Bool
is_broad prefix =
    text_contains broad_prefixes (to_lower prefix)
    || (ltb (length prefix) 6 || any is_wildcard prefix)

-- The prefix without the white space around it; `none` where the code throws.
unfoldable pub normalize_prefix : Text → Option Text
unfolding trim to_lower text_contains
normalize_prefix raw = if is_broad (trim raw) then none else some (trim raw)

abbrev with_signals : ReconcileScope → ReconcileScope
with_signals scope = record scope {
  ownership_min_signals = some (get_or_else scope.ownership_min_signals 2);
}

abbrev with_prefix : ReconcileScope → Option Text → Option ReconcileScope
with_prefix scope none = none
with_prefix scope (some p) = some (record (with_signals scope) { resource_prefix = some p })

abbrev by_prefix : ReconcileScope → Option Text → Option ReconcileScope
by_prefix scope none = some (with_signals scope)
by_prefix scope (some raw) = with_prefix scope (normalize_prefix raw)

unfoldable pub normalize_scope : ReconcileScope → Option ReconcileScope
unfolding normalize_prefix
normalize_scope scope = by_prefix scope scope.resource_prefix

no_wildcard : (s : Text) → any is_wildcard s ≡ false → All (λ c. (c ≢ b'*') × (c ≢ b'?')) s
no_wildcard [] h = tt
no_wildcard (c ∷ s) h =
    let (first, rest) = or-eq-false (is_wildcard c) (any is_wildcard s) h in
    ((ground arith, ground arith), no_wildcard s rest)

some_ne : {p : Text} → ◌≢◌ {A = Option Text} none (some p)
some_ne e = cc

some-eq : {p q : Text} → ◌≡◌ {A = Option Text} (some q) (some p) → p ≡ q
some-eq e = cc

-- A prefix that names one set of resources.
abbrev pub IsSpecific : Text → Type 0
IsSpecific p =
    (text_contains broad_prefixes (to_lower p) ≡ false)
    × (6 ≤ length p)
    × All (λ c. (c ≢ b'*') × (c ≢ b'?')) p

is_broad-IsSpecific : (s : Text) → is_broad s ≡ false → IsSpecific s
is_broad-IsSpecific s h =
    let (known, rest) =
      or-eq-false (text_contains broad_prefixes (to_lower s))
        (ltb (length s) 6 || any is_wildcard s) h in
    let (short, wild) = or-eq-false (ltb (length s) 6) (any is_wildcard s) rest in
    (known, ground arith, no_wildcard s wild)

normalize_prefix-IsSpecific :
    (raw p : Text) → normalize_prefix raw ≡ some p → (p ≡ trim raw) × IsSpecific p
unfolding normalize_prefix
normalize_prefix-IsSpecific raw p h = elim (Bool-cases (is_broad (trim raw))) [
  | inl broad ↦ absurd (some_ne (rw broad at h))
  | inr fine ↦
      let same : p ≡ trim raw = some-eq (rw fine at h) in
      (same, rw same (is_broad-IsSpecific (trim raw) fine))
]

with_prefix-eq-some :
    (scope scope' : ReconcileScope) (found : Option Text)
    → with_prefix scope found ≡ some scope'
    → (p : Text) × (found ≡ some p)
      × (scope' ≡ record (with_signals scope) { resource_prefix = some p })
with_prefix-eq-some scope scope' none h = cc
with_prefix-eq-some scope scope' (some p) h = (p, refl, cc)

by_none-eq-some :
    (scope scope' : ReconcileScope)
    → by_prefix scope none ≡ some scope'
    → scope' ≡ with_signals scope
by_none-eq-some scope scope' h = cc

-- The prefix of an accepted scope, by the one that was given.
abbrev pub PrefixKept : Option Text → Option Text → Type 0
PrefixKept none kept = kept ≡ none
PrefixKept (some raw) kept = (kept ≡ some (trim raw)) × IsSpecific (trim raw)

by_prefix-PrefixKept :
    (scope scope' : ReconcileScope) (given : Option Text)
    → scope.resource_prefix ≡ given
    → by_prefix scope given ≡ some scope'
    → (scope'.ownership_min_signals ≡ some (get_or_else scope.ownership_min_signals 2))
      × PrefixKept given scope'.resource_prefix
by_prefix-PrefixKept scope scope' none p h =
    let same = by_none-eq-some scope scope' h in
    (
      ap (λ (s : ReconcileScope). s.ownership_min_signals) same,
      ap (λ (s : ReconcileScope). s.resource_prefix) same ∙ p,
    )
by_prefix-PrefixKept scope scope' (some raw) p h =
    let (q, found, same) = with_prefix-eq-some scope scope' (normalize_prefix raw) h in
    let (trimmed, specific) = normalize_prefix-IsSpecific raw q found in
    (
      ap (λ (s : ReconcileScope). s.ownership_min_signals) same,
      (
        ap (λ (s : ReconcileScope). s.resource_prefix) same ∙ ap (λ (t : Text). some t) trimmed,
        rw (← trimmed) specific,
      ),
    )

-- A scope that is accepted keeps the given prefix without the white space around it, which is then
-- none of the broad names, has six units or more and holds no wildcard, or has none where none was
-- given; the number of ownership signals that it asks for is the given one, or two.
pub normalize_scope-PrefixKept :
    (scope scope' : ReconcileScope)
    → normalize_scope scope ≡ some scope'
    → (scope'.ownership_min_signals ≡ some (get_or_else scope.ownership_min_signals 2))
      × PrefixKept scope.resource_prefix scope'.resource_prefix
normalize_scope-PrefixKept scope scope' h =
    by_prefix-PrefixKept scope scope' scope.resource_prefix refl (unfold normalize_scope in h)
