-- ===== src/NodeLabel/Plan/Patches.antt =====
-- The JSON pointers of the patches (packages/k8s-baseline/src/trusted-node-label-reconciler-core.ts).
use hulumi.Prelude.{
  ℕ, false, [], ◌∷◌, ◌++◌, Text, lit, ◌==◌, if◌then◌else◌, Bool-cases, All, All-append, ◌&&◌, ◌≡◌,
  ◌≢◌, ◌∙◌, inl, inr, refl, ap, arith,
}
use mathlib.Core.List.{append_assoc}
use hulumi.NodeLabel.Plan.{replace_all, json_pointer_escape}

-- The decoding of a reference token of a JSON pointer (RFC 6901): ~1 is a slash and ~0 a tilde.
unfoldable pub json_pointer_unescape : Text → Text
json_pointer_unescape [] = []
json_pointer_unescape (c ∷ []) = c ∷ []
json_pointer_unescape (c ∷ d ∷ rest) =
    let decoded = json_pointer_unescape rest in
    let moved = json_pointer_unescape (d ∷ rest) in
    if c == b'~' && d == b'1'
    then b'/' ∷ decoded
    else if c == b'~' && d == b'0'
    then b'~' ∷ decoded
    else c ∷ moved

replace_all-append :
    (u : ℕ) (by xs ys : Text)
    → replace_all u by (xs ++ ys) ≡ replace_all u by xs ++ replace_all u by ys
unfolding replace_all
replace_all-append u by [] ys = refl
replace_all-append u by (x ∷ xs) ys = elim (Bool-cases (x == u)) [
  | inl same ↦ rw (same, replace_all-append u by xs ys, append_assoc) refl
  | inr other ↦ rw (other, replace_all-append u by xs ys) refl
]

escape_unit : ℕ → Text
escape_unit c = if c == b'~' then lit "~0" else if c == b'/' then lit "~1" else c ∷ []

escape-cons :
    (c : ℕ) (s : Text) → json_pointer_escape (c ∷ s) ≡ escape_unit c ++ json_pointer_escape s
unfolding json_pointer_escape escape_unit
escape-cons c s = elim (Bool-cases (c == b'~')) [
  | inl tilde ↦ rw tilde refl
  | inr other ↦ elim (Bool-cases (c == b'/')) [
    | inl slash ↦ rw (other, slash) refl
    | inr plain ↦ rw (other, plain) refl
  ]
]

escape_unit-no_slash : (c : ℕ) → All (λ x. x ≢ b'/') (escape_unit c)
unfolding escape_unit
escape_unit-no_slash c = elim (Bool-cases (c == b'~')) [
  | inl tilde ↦ rw tilde (omega arith)
  | inr other ↦ elim (Bool-cases (c == b'/')) [
    | inl slash ↦ rw (other, slash) (omega arith)
    | inr plain ↦ rw (other, plain) (ground arith, tt)
  ]
]

json_pointer_escape-no_slash : (s : Text) → All (λ c. c ≢ b'/') (json_pointer_escape s)
json_pointer_escape-no_slash [] = unfold json_pointer_escape in tt
json_pointer_escape-no_slash (c ∷ s) = rw (escape-cons c s) (
    All-append (λ x. x ≢ b'/') (escape_unit c) (json_pointer_escape s) (escape_unit-no_slash c)
      (json_pointer_escape-no_slash s))

unescape_plain :
    (c : ℕ) (t : Text)
    → (c == b'~') ≡ false
    → json_pointer_unescape (c ∷ t) ≡ c ∷ json_pointer_unescape t
unfolding json_pointer_unescape
unescape_plain c [] other = refl
unescape_plain c (d ∷ t) other = rw other refl

unescape-unit :
    (c : ℕ) (t : Text) → json_pointer_unescape (escape_unit c ++ t) ≡ c ∷ json_pointer_unescape t
unfolding json_pointer_unescape escape_unit
unescape-unit c t = elim (Bool-cases (c == b'~')) [
  | inl tilde ↦ rw tilde (ap (λ (x : ℕ). x ∷ json_pointer_unescape t) (ground arith))
  | inr other ↦ elim (Bool-cases (c == b'/')) [
    | inl slash ↦ rw (other, slash) (ap (λ (x : ℕ). x ∷ json_pointer_unescape t) (ground arith))
    | inr plain ↦ rw (other, plain) (unescape_plain c t other)
  ]
]

json_pointer_unescape-escape : (s : Text) → json_pointer_unescape (json_pointer_escape s) ≡ s
json_pointer_unescape-escape [] = unfold json_pointer_escape json_pointer_unescape in refl
json_pointer_unescape-escape (c ∷ s) =
    rw (escape-cons c s)
      (unescape-unit c (json_pointer_escape s) ∙ ap (λ t. c ∷ t) (json_pointer_unescape-escape s))

-- A label key in a patch's path is one step of the JSON pointer, since its escaped form has no
-- slash, and it decodes to the key.
pub json_pointer_escape-step :
    (s : Text)
    → All (λ c. c ≢ b'/') (json_pointer_escape s)
      × (json_pointer_unescape (json_pointer_escape s) ≡ s)
json_pointer_escape-step s = (json_pointer_escape-no_slash s, json_pointer_unescape-escape s)
