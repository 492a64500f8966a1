-- ===== src/Policies/Suppressions/Expiry.antt =====
-- The expiry of a suppression in packages/policies/src/aws/suppressions.ts: the values that
-- `canonicalExpiryMillis` takes, and the instants that they stand for.
use hulumi.Prelude.{
  ℕ, if◌then◌else◌, Bool, true, false, Option, none, some, [], ◌∷◌, ◌++◌, Text, lit, any, text_eq,
  text_eq_iff, take, ◌==◌, ==_iff, ◌≤◌, All, and-eq-true, or-eq-true, or-eq-false, ◌||◌, ◌∙◌,
  Bool-cases, ◌≡◌, ◌≢◌, ◌⊎◌, inl, inr, refl, subst, ap, arith,
}
use hulumi.Prelude.Int.{ℤ}
use hulumi.Policies.Suppressions.{
  Dates, has_shape, is_digit, with_millis, checked, canonical, is_iso_date, is_iso_utc_timestamp,
  canonical_expiry_millis,
}

-- A text of a shape, in which d stands for a digit and any other unit for itself.
abbrev pub Spelled : Text → Text → Type 0
Spelled [] [] = Unit
Spelled (p ∷ shape) (c ∷ s) =
    (((p ≡ b'd') × (b'0' ≤ c) × (c ≤ b'9')) ⊎ ((p ≢ b'd') × (c ≡ p))) × Spelled shape s
Spelled _ _ = ⊥

has_shape-Spelled : (shape s : Text) → has_shape shape s ≡ true → Spelled shape s
unfolding has_shape
has_shape-Spelled [] [] h = tt
has_shape-Spelled [] (c ∷ s) h = cc
has_shape-Spelled (p ∷ shape) [] h = cc
has_shape-Spelled (p ∷ shape) (c ∷ s) h =
    let (here, later) = and-eq-true _ (has_shape shape s) h in
    (unit_spelled p c here, has_shape-Spelled shape s later)
  where
    unit_spelled :
        (p c : ℕ)
        → (if p == b'd' then is_digit c else c == p) ≡ true
        → ((p ≡ b'd') × (b'0' ≤ c) × (c ≤ b'9')) ⊎ ((p ≢ b'd') × (c ≡ p))
    unit_spelled p c h = elim (Bool-cases (p == b'd')) [
      | inl d ↦ inl ((==_iff p b'd').0 d, ground arith, ground arith)
      | inr other ↦ inr ((λ e. ground arith), ground arith)
    ]

-- The instants that a value may stand for: a day's start, a second or a millisecond, in each case
-- one whose own ISO text is the value's.
pub data IsCanonical (dates : Dates) (value : Text) (time : ℤ) : Type 0 where
  day :
      Spelled (lit "dddd-dd-dd") value
      → dates.get_time (value ++ lit "T00:00:00.000Z") ≡ some time
      → take 10 (dates.to_iso_string time) ≡ value
      → IsCanonical dates value time
  second :
      (start : Text)
      → Spelled (lit "dddd-dd-ddTdd:dd:ddZ") value
      → dates.get_time value ≡ some time
      → value ≡ start ++ lit "Z"
      → dates.to_iso_string time ≡ start ++ lit ".000Z"
      → IsCanonical dates value time
  millisecond :
      Spelled (lit "dddd-dd-ddTdd:dd:dd.dddZ") value
      → dates.get_time value ≡ some time
      → dates.to_iso_string time ≡ value
      → IsCanonical dates value time

abbrev Plain : ℕ → Type 0
Plain p = (p ≢ b'Z') × (p ≢ b'.')

spelled-Plain :
    (p c : ℕ)
    → Plain p
    → ((p ≡ b'd') × (b'0' ≤ c) × (c ≤ b'9')) ⊎ ((p ≢ b'd') × (c ≡ p))
    → ((c == b'Z') ≡ false) × ((c == b'.') ≡ false)
spelled-Plain p c (z, dot) (inl (d, low, high)) = (ground arith, ground arith)
spelled-Plain p c (z, dot) (inr (other, same)) = (ground arith, ground arith)

-- A value that is plain up to its end, Z.
with_millis-Spelled :
    (shape value : Text)
    → All Plain shape
    → Spelled (shape ++ lit "Z") value
    → (start : Text) × (value ≡ start ++ lit "Z")
      × (with_millis value ≡ start ++ lit ".000Z")
      × (any (λ c. c == b'.') value ≡ false)
unfolding with_millis
with_millis-Spelled [] [] h s = absurd s
with_millis-Spelled [] (c ∷ []) h (inl (d, _, _), _) = absurd (omega (arith, d))
with_millis-Spelled [] (c ∷ []) h (inr (_, same), _) =
    ([], ap (λ c. c ∷ []) same, rw same refl, rw same refl)
with_millis-Spelled [] (c ∷ d ∷ value) h s = absurd s.1
with_millis-Spelled (p ∷ shape) [] h s = absurd s
with_millis-Spelled (p ∷ shape) (c ∷ value) (plain, h) (here, s) =
    let (start, is_value, millis, no_dot) = with_millis-Spelled shape value h s in
    let (no_z, not_dot) = spelled-Plain p c plain here in
    (c ∷ start, ap (λ t. c ∷ t) is_value, rw no_z (ap (λ t. c ∷ t) millis), rw not_dot no_dot)

dot-Spelled :
    (shape rest value : Text)
    → Spelled (shape ++ b'.' ∷ rest) value
    → any (λ c. c == b'.') value ≡ true
dot-Spelled [] rest [] s = absurd s
dot-Spelled [] rest (c ∷ value) (inl (d, _, _), _) = absurd (omega (arith, d))
dot-Spelled [] rest (c ∷ value) (inr (_, same), _) = rw same refl
dot-Spelled (p ∷ shape) rest [] s = absurd s
dot-Spelled (p ∷ shape) rest (c ∷ value) (_, s) =
    let later = dot-Spelled shape rest value s in ground arith

canonical_plain :
    (value : Text) → any (λ c. c == b'.') value ≡ false → canonical value ≡ with_millis value
unfolding canonical
canonical_plain value h = rw h refl

canonical_dotted : (value : Text) → any (λ c. c == b'.') value ≡ true → canonical value ≡ value
unfolding canonical
canonical_dotted value h = rw h refl

some_time : (t u : ℤ) → some t ≡ some u → t ≡ u
some_time t u e = cc

none-ne : (t : ℤ) → ◌≡◌ {A = Option ℤ} none (some t) → ⊥
none-ne t e = cc

any-Plain : (s : Text) → any (λ c. c == b'Z' || c == b'.') s ≡ false → All Plain s
any-Plain [] h = tt
any-Plain (c ∷ s) h =
    let (here, later) = or-eq-false (c == b'Z' || c == b'.') _ h in
    let (no_z, no_dot) = or-eq-false (c == b'Z') (c == b'.') here in
    (((λ e. ground arith), (λ e. ground arith)), any-Plain s later)

checked_sound :
    (test : ℤ → Bool) (parsed : Option ℤ) (time : ℤ)
    → checked test parsed ≡ some time
    → (parsed ≡ some time) × (test time ≡ true)
checked_sound test none time h = cc
checked_sound test (some t) time h = elim (Bool-cases (test t)) [
  | inl passed ↦
      let same : t ≡ time = some_time t time (rw passed at h) in
      (ap some same, subst (λ x. test x ≡ true) same passed)
  | inr failed ↦ absurd (none-ne time (rw failed at h))
]

module _ (dates : Dates) (value : Text) (time : ℤ) where
  timestamp-IsCanonical :
      is_iso_utc_timestamp value ≡ true
      → checked
          (λ time. text_eq (dates.to_iso_string time) (canonical value))
          (dates.get_time value)
        ≡ some time
      → IsCanonical dates value time
  unfolding is_iso_utc_timestamp
  timestamp-IsCanonical shaped h =
      let (got, same) = checked_sound _ _ time h in
      let iso = (text_eq_iff (dates.to_iso_string time) (canonical value)).0 same in
      let start_of_shape = lit "dddd-dd-ddTdd:dd:dd" in
      elim (or-eq-true _ _ shaped) [
        | inl seconds ↦
            let spelled = has_shape-Spelled (lit "dddd-dd-ddTdd:dd:ddZ") value seconds in
            let (start, is_value, millis, no_dot) =
              with_millis-Spelled start_of_shape value (any-Plain start_of_shape refl) spelled in
            second start spelled got is_value (iso ∙ (canonical_plain value no_dot ∙ millis))
        | inr millis ↦
            let spelled = has_shape-Spelled (lit "dddd-dd-ddTdd:dd:dd.dddZ") value millis in
            let dot = dot-Spelled start_of_shape (lit "dddZ") value spelled in
            millisecond spelled got (iso ∙ canonical_dotted value dot)
      ]

  pub canonical_expiry_millis-IsCanonical :
      canonical_expiry_millis dates value ≡ some time → IsCanonical dates value time
  unfolding canonical_expiry_millis is_iso_date
  canonical_expiry_millis-IsCanonical h = elim (Bool-cases (is_iso_date value)) [
    | inl dated ↦
        let (got, same) = checked_sound _ _ time (rw dated at h) in
        day (has_shape-Spelled (lit "dddd-dd-dd") value dated) got ((text_eq_iff _ value).0 same)
    | inr other ↦ elim (Bool-cases (is_iso_utc_timestamp value)) [
      | inl shaped ↦ timestamp-IsCanonical shaped (rw (other, shaped) at h)
      | inr misshapen ↦ absurd (none-ne time (rw (other, misshapen) at h))
    ]
  ]
