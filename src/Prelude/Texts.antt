-- ===== src/Prelude/Texts.antt =====
-- A JavaScript string is the list of its UTF-16 code units. The string methods that the source
-- uses, over such lists.
use Prim.Native.Nat.{ℕ, ◌+◌}
use Prim.Native.Char.{code}
use Prim.Native.String.{String}
use mathlib.Core.Path.{◌≡◌, refl, ap₂}
use mathlib.Core.Logic.{◌↔◌}
use mathlib.Core.Bool.{Bool, true, false, ◌&&◌, ◌||◌}
use mathlib.Core.Option.{Option, none, some}
use mathlib.Core.List.{List, [], ◌∷◌, ◌++◌, reverse}
use native.Mathlib.Omega.{arith}
use hulumi.Prelude.Lists.{Member}
use hulumi.Prelude.Tests.{leb, ◌==◌, ==_iff, and-eq-true, if◌then◌else◌}

abbrev pub Text : Type 0
Text = List ℕ

-- The units of a literal of the source, all of which are ASCII.
abbrev pub lit : String → Text
lit String.[] = []
lit (String.◌∷◌ c s) = code c ∷ lit s

unfoldable pub text_eq : Text → Text → Bool
text_eq [] [] = true
text_eq (x ∷ xs) (y ∷ ys) = x == y && text_eq xs ys
text_eq _ _ = false

pub text_eq_refl : (s : Text) → text_eq s s ≡ true
unfolding text_eq
text_eq_refl [] = refl
text_eq_refl (x ∷ xs) = ground (arith, text_eq_refl xs)

text_eq_sound : (s t : Text) → text_eq s t ≡ true → s ≡ t
unfolding text_eq
text_eq_sound [] [] h = refl
text_eq_sound [] (y ∷ ys) h = cc
text_eq_sound (x ∷ xs) [] h = cc
text_eq_sound (x ∷ xs) (y ∷ ys) h =
    let (a, b) = and-eq-true (x == y) (text_eq xs ys) h in
    ap₂ ◌∷◌ ((==_iff x y).0 a) (text_eq_sound xs ys b)

pub text_eq_iff : (s t : Text) → (text_eq s t ≡ true) ↔ (s ≡ t)
text_eq_iff s t = (text_eq_sound s t, λ e. rw e (text_eq_refl t))

-- `entries[key]`, of a map given as its list of entries.
unfoldable pub lookup : {A : Type 0} → Text → List (Text × A) → Option A
unfolding text_eq
lookup key [] = none
lookup key ((k, v) ∷ entries) = if text_eq k key then some v else lookup key entries

-- `values.includes(value)`
unfoldable pub text_contains : List Text → Text → Bool
unfolding text_eq
text_contains [] v = false
text_contains (x ∷ xs) v = text_eq x v || text_contains xs v

-- The values that a list of texts includes are its elements.
pub text_contains_iff :
    (values : List Text) (v : Text) → (text_contains values v ≡ true) ↔ Member v values
unfolding text_contains
text_contains_iff [] v = (λ e. cc, λ m. absurd m)
text_contains_iff (x ∷ values) v = ground (arith, text_eq_iff x v, text_contains_iff values v)

unfoldable pub starts_with : Text → Text → Bool
starts_with s [] = true
starts_with [] (p ∷ ps) = false
starts_with (x ∷ xs) (p ∷ ps) = x == p && starts_with xs ps

pub starts_with-split :
    (s prefix : Text) → starts_with s prefix ≡ true → (rest : Text) × (s ≡ prefix ++ rest)
unfolding starts_with
starts_with-split s [] h = (s, refl)
starts_with-split [] (p ∷ prefix) h = cc
starts_with-split (c ∷ s) (p ∷ prefix) h =
    let (same, more) = and-eq-true (c == p) (starts_with s prefix) h in
    let (rest, e) = starts_with-split s prefix more in (rest, ap₂ ◌∷◌ ((==_iff c p).0 same) e)

unfoldable pub ends_with : Text → Text → Bool
unfolding starts_with
ends_with s p = starts_with (reverse s) (reverse p)

-- `s.split(sep)` for a separator of one unit; `part` is the current part, reversed.
unfoldable pub split_from : ℕ → Text → Text → List Text
split_from sep part [] = reverse part ∷ []
split_from sep part (x ∷ xs) =
    let closed = reverse part ∷ split_from sep [] xs in
    let longer = split_from sep (x ∷ part) xs in if x == sep then closed else longer

unfoldable pub split_on : ℕ → Text → List Text
unfolding split_from
split_on sep s = split_from sep [] s

-- White space and line terminators of ECMAScript.
unfoldable pub is_space : ℕ → Bool
is_space c =
    leb 9 c && leb c 13
    || c == 32
    || c == 160
    || c == 0x1680
    || leb 0x2000 c && leb c 0x200a
    || c == 0x2028
    || c == 0x2029
    || c == 0x202f
    || c == 0x205f
    || c == 0x3000
    || c == 0xfeff

unfoldable pub trim_start : Text → Text
unfolding is_space
trim_start [] = []
trim_start (x ∷ xs) = if is_space x then trim_start xs else x ∷ xs

unfoldable pub trim : Text → Text
unfolding trim_start
trim s = reverse (trim_start (reverse (trim_start s)))

-- ASCII case folding.
unfoldable pub lower_unit : ℕ → ℕ
lower_unit c = if leb 65 c && leb c 90 then c + 32 else c

unfoldable pub to_lower : Text → Text
unfolding lower_unit
to_lower [] = []
to_lower (x ∷ xs) = lower_unit x ∷ to_lower xs
