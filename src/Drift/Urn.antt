-- ===== src/Drift/Urn.antt =====
-- packages/drift/src/urn-sanitize.ts.
use hulumi.Prelude.{
  ℕ, Bool, true, false, ◌&&◌, ◌||◌, [], ◌∷◌, Text, leb, ◌==◌, all, All, Bool-cases, and-eq-true,
  inl, inr, ◌≢◌, lit, if◌then◌else◌, ◌≡◌, arith,
}
use hulumi.Prelude.Result.{Result, ok, err}

pub data UnsafeUrn : Type 0 where
  is_empty unsafe_characters : UnsafeUrn

-- [A-Za-z0-9:/$._\-+]
unfoldable pub is_safe_unit : ℕ → Bool
is_safe_unit c =
    leb b'A' c && leb c b'Z'
    || leb b'a' c && leb c b'z'
    || leb b'0' c && leb c b'9'
    || c == b':'
    || c == b'/'
    || c == b'$'
    || c == b'.'
    || c == b'_'
    || c == b'-'
    || c == b'+'

unfoldable pub validate_urn : Text → Result UnsafeUrn Text
validate_urn [] = err is_empty
validate_urn (c ∷ urn) = if all is_safe_unit (c ∷ urn) then ok (c ∷ urn) else err unsafe_characters

abbrev succeeded : Result UnsafeUrn Text → Bool
succeeded (ok _) = true
succeeded (err _) = false

unfoldable pub is_safe_urn : Text → Bool
unfolding validate_urn
is_safe_urn urn = succeeded (validate_urn urn)

-- The units by which a shell takes a text apart or expands it: white space, quotes, the backslash,
-- the backquote, brackets, redirections, separators, globs, comments, history and home expansion.
abbrev pub shell_units : Text
shell_units = 9 ∷ 10 ∷ 13 ∷ lit " \"'\\`()[]{}<>|&;*?#!~"

IsOrdinary : ℕ → Type 0
IsOrdinary c = All (λ m. c ≢ m) shell_units

-- A safe unit is none of those.
is_safe_unit-IsOrdinary : (c : ℕ) → is_safe_unit c ≡ true → IsOrdinary c
unfolding is_safe_unit IsOrdinary
is_safe_unit-IsOrdinary c h = ground arith

all-IsOrdinary : (urn : Text) → all is_safe_unit urn ≡ true → All IsOrdinary urn
all-IsOrdinary [] h = tt
all-IsOrdinary (c ∷ urn) h =
    let (first, rest) = and-eq-true (is_safe_unit c) (all is_safe_unit urn) h in
    (is_safe_unit-IsOrdinary c first, all-IsOrdinary urn rest)

-- A URN that is let through is the one that was given, is not empty, and holds none of the units by
-- which a shell takes a text apart or expands it. (The dollar sign is let through, but no bracket
-- and no backquote that would make a substitution of it.)
pub validate_urn-ordinary :
    (urn : Text) {v : Text}
    → validate_urn urn ≡ ok v
    → (v ≡ urn) × (urn ≢ []) × All (λ c. All (λ m. c ≢ m) shell_units) urn
unfolding validate_urn IsOrdinary
validate_urn-ordinary [] h = cc
validate_urn-ordinary (c ∷ urn) h = elim (Bool-cases (all is_safe_unit (c ∷ urn))) [
  | inl safe ↦ (ground arith, (λ e. cc), all-IsOrdinary (c ∷ urn) safe)
  | inr unsafe ↦ absurd (ground arith)
]
