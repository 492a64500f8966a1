-- ===== src/Policies/Suppressions/Tests.antt =====
-- Suppressions for a bucket, and the theorem at one.
use hulumi.Prelude.{
  ℕ, true, none, some, [], ◌∷◌, Text, lit, text_eq, Member, ◌≡◌, refl, if◌then◌else◌,
}
use hulumi.Prelude.Int.{pos}
use hulumi.Policies.Suppressions.{
  Suppression, SuppressionMatch, unsuppressed, suppressed, Dates, urn_matches, match_suppression,
}
use hulumi.Policies.Suppressions.Active.{IsActive, match_suppression-IsActive}

-- One instant only.
abbrev dates : Dates
dates = record {
  get_time = λ s. if text_eq s (lit "2027-01-01T00:00:00Z") then some (pos 100) else none;
  to_iso_string = λ t. lit "2027-01-01T00:00:00.000Z";
}

abbrev suppression : Text → Suppression
suppression scope = record {
  rule_id = some (lit "G_OIDC_1");
  reason = some (lit "migration");
  urn_scope = some scope;
  expires_at = some (lit "2027-01-01T00:00:00Z");
}

abbrev urn : Text
urn = lit "urn:pulumi:dev::app::t::n"

abbrev found : Text → ℕ → SuppressionMatch
unfolding match_suppression text_eq
found scope now =
    match_suppression dates (lit "G_OIDC_1") urn (some (none ∷ some (suppression scope) ∷ []))
      (some (pos now))

matches :
    (found (lit "urn:pulumi:dev::*") 99 ≡ suppressed (lit "migration"))
    × (found (lit "urn:pulumi:dev::*") 100 ≡ unsuppressed)
    × (found (lit "urn:*") 99 ≡ unsuppressed)
    × (found (lit "urn:*:dev::*") 99 ≡ unsuppressed)
    × (found (lit "stack") 99 ≡ unsuppressed)
    × (urn_matches urn urn ≡ true)
unfolding match_suppression text_eq urn_matches
matches = (refl, refl, refl, refl, refl, refl)

match_suppression-IsActive_example :
    (s : Suppression) × Member (some s) (none ∷ some (suppression (lit "urn:pulumi:dev::*")) ∷ [])
    × IsActive dates (lit "G_OIDC_1") urn (pos 99) (lit "migration") s
unfolding match_suppression text_eq
match_suppression-IsActive_example =
    match_suppression-IsActive dates (lit "G_OIDC_1") urn
      (none ∷ some (suppression (lit "urn:pulumi:dev::*")) ∷ []) (pos 99) (lit "migration") refl
