-- ===== src/Policies/Suppressions.antt =====
-- packages/policies/src/aws/suppressions.ts: whether a rule is suppressed for a resource. A field
-- that is not a string is `none`. What `Date` answers is the record `Dates`; an instant is a
-- number of milliseconds from the start of 1970.
pub mod Active
mod Expiry
mod Tests
use hulumi.Prelude.{
  ℕ, suc, Bool, true, false, not, ◌&&◌, ◌||◌, Option, none, some, List, [], ◌∷◌, ◌++◌, Text, lit,
  text_eq, starts_with, any, trim, take, length, ltb, leb, ◌==◌, ◌+◌, if◌then◌else◌,
}
use hulumi.Prelude.Int.{ℤ, ltb_ℤ}

pub record Suppression : Type 0 where
  pub rule_id : Option Text
  pub reason : Option Text
  pub urn_scope : Option Text
  pub expires_at : Option Text

pub data SuppressionMatch : Type 0 where
  unsuppressed : SuppressionMatch
  suppressed : (reason : Text) → SuppressionMatch

-- `new Date(value).getTime()` where it is finite, and `new Date(time).toISOString()`.
pub record Dates : Type 0 where
  pub get_time : Text → Option ℤ
  pub to_iso_string : ℤ → Text

abbrev pub next_index : Option ℕ → Option ℕ
next_index none = none
next_index (some i) = some (suc i)

-- `scope.indexOf(c)`
unfoldable pub index_of : ℕ → Text → Option ℕ
index_of c [] = none
index_of c (x ∷ s) = let later = next_index (index_of c s) in if x == c then some 0 else later

-- By the first `*`. If it is the last unit, there is no second.
abbrev pub at_wildcard : Text → Text → Option ℕ → Bool
at_wildcard scope urn none = ltb (length (lit "urn:")) (length scope) && text_eq scope urn
at_wildcard scope urn (some i) =
    i + 1 == length scope && ltb (length (lit "urn:")) i && starts_with urn (take i scope)

unfoldable pub urn_matches : Text → Text → Bool
unfolding text_eq starts_with trim index_of
urn_matches scope urn =
    if text_eq scope (lit "stack")
    then text_eq urn (lit "stack")
    else if not (starts_with scope (lit "urn:"))
        || any (λ c. c == b'?') scope
        || not (text_eq (trim scope) scope)
    then false
    else at_wildcard scope urn (index_of b'*' scope)

abbrev pub is_digit : ℕ → Bool
is_digit c = leb b'0' c && leb c b'9'

-- A text of a shape, in which d stands for a digit and any other unit for itself.
unfoldable pub has_shape : Text → Text → Bool
has_shape [] [] = true
has_shape (p ∷ shape) (c ∷ s) = (if p == b'd' then is_digit c else c == p) && has_shape shape s
has_shape _ _ = false

-- ISO_DATE
unfoldable pub is_iso_date : Text → Bool
unfolding has_shape
is_iso_date value = has_shape (lit "dddd-dd-dd") value

-- ISO_UTC_TIMESTAMP
unfoldable pub is_iso_utc_timestamp : Text → Bool
unfolding has_shape
is_iso_utc_timestamp value =
    has_shape (lit "dddd-dd-ddTdd:dd:ddZ") value || has_shape (lit "dddd-dd-ddTdd:dd:dd.dddZ") value

-- `value.replace("Z", ".000Z")`
unfoldable pub with_millis : Text → Text
with_millis [] = []
with_millis (c ∷ s) = let rest = with_millis s in if c == b'Z' then lit ".000Z" ++ s else c ∷ rest

abbrev pub canonical : Text → Text
unfolding with_millis
canonical value = if any (λ c. c == b'.') value then value else with_millis value

abbrev pub checked : (ℤ → Bool) → Option ℤ → Option ℤ
checked test none = none
checked test (some time) = if test time then some time else none

unfoldable pub canonical_expiry_millis : Dates → Text → Option ℤ
unfolding is_iso_date is_iso_utc_timestamp with_millis text_eq
canonical_expiry_millis dates value =
    if is_iso_date value
    then checked (λ time. text_eq (take 10 (dates.to_iso_string time)) value)
        (dates.get_time (value ++ lit "T00:00:00.000Z"))
    else if not (is_iso_utc_timestamp value)
    then none
    else checked (λ time. text_eq (dates.to_iso_string time) (canonical value))
        (dates.get_time value)

abbrev pub is_rule : Text → Option Text → Bool
is_rule rule_id none = false
is_rule rule_id (some id) = not (length (trim id) == 0) && text_eq id rule_id

abbrev pub has_reason : Option Text → Bool
has_reason none = false
has_reason (some reason) = not (length (trim reason) == 0)

abbrev pub in_scope : Text → Option Text → Bool
in_scope urn none = false
in_scope urn (some scope) = urn_matches scope urn

abbrev pub is_later : ℤ → Option ℤ → Bool
is_later now none = false
is_later now (some expiry) = ltb_ℤ now expiry

abbrev pub is_unexpired : Dates → ℤ → Option Text → Bool
is_unexpired dates now none = false
is_unexpired dates now (some value) = is_later now (canonical_expiry_millis dates value)

-- The tests of the loop.
unfoldable pub is_active : Dates → Text → Text → ℤ → Suppression → Bool
unfolding text_eq trim urn_matches canonical_expiry_millis
is_active dates rule_id urn now s =
    is_rule rule_id s.rule_id
    && has_reason s.reason
    && in_scope urn s.urn_scope
    && is_unexpired dates now s.expires_at

abbrev pub match_of : Option Text → SuppressionMatch
match_of none = unsuppressed
match_of (some reason) = suppressed reason

-- The loop. An element that is not an object is `none`.
unfoldable pub first_match : Dates → Text → Text → ℤ → List (Option Suppression) → SuppressionMatch
unfolding is_active
first_match dates rule_id urn now [] = unsuppressed
first_match dates rule_id urn now (none ∷ suppressions) =
    first_match dates rule_id urn now suppressions
first_match dates rule_id urn now (some s ∷ suppressions) =
    let rest = first_match dates rule_id urn now suppressions in
    if is_active dates rule_id urn now s then match_of s.reason else rest

-- `now` is none where the date is not valid.
unfoldable pub match_suppression :
    Dates → Text → Text → Option (List (Option Suppression)) → Option ℤ → SuppressionMatch
unfolding first_match
match_suppression dates rule_id urn none now = unsuppressed
match_suppression dates rule_id urn (some suppressions) none = unsuppressed
match_suppression dates rule_id urn (some suppressions) (some now) =
    first_match dates rule_id urn now suppressions
