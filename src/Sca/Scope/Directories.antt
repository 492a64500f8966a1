-- ===== src/Sca/Scope/Directories.antt =====
-- What a glob of the form `**/name/**` of tools/sca/src/scope/policy.ts matches.
use hulumi.Prelude.{
  ℕ, Bool, true, false, ◌&&◌, List, [], ◌∷◌, ◌++◌, map, Text, lit, All, Bool-cases, and-eq-true,
  ◌==◌, ==_iff, ◌≡◌, ◌↔◌, ◌⊎◌, inl, inr, refl, sym, ap, ap₂, ◌∙◌, arith,
}
use hulumi.Sca.Scope.Glob.{
  Piece, literal, anything, leading_segments, star, slash, glob_to_reg_exp, is_dot,
  matches_after_slash, matches_pieces, matches_glob,
}

abbrev pub IsDots : Text → Type 0
IsDots s = All (λ c. is_dot c ≡ true) s

-- A text without stars becomes the literal pieces of its characters.
glob_to_reg_exp-literal :
    (c : ℕ) (rest : Text)
    → (c == star) ≡ false
    → glob_to_reg_exp (c ∷ rest) ≡ literal c ∷ glob_to_reg_exp rest
unfolding glob_to_reg_exp
glob_to_reg_exp-literal c [] h = rw h refl
glob_to_reg_exp-literal c (d ∷ []) h = rw h refl
glob_to_reg_exp-literal c (d ∷ e ∷ rest) h = rw h refl

abbrev pub NoStars : Text → Type 0
NoStars s = All (λ c. (c == star) ≡ false) s

glob_to_reg_exp-append :
    (word rest : Text)
    → NoStars word
    → glob_to_reg_exp (word ++ rest) ≡ map literal word ++ glob_to_reg_exp rest
glob_to_reg_exp-append [] rest h = refl
glob_to_reg_exp-append (c ∷ word) rest (h, hs) =
    glob_to_reg_exp-literal c (word ++ rest) h
    ∙ ap (λ ps. literal c ∷ ps) (glob_to_reg_exp-append word rest hs)

leading_pieces :
    (rest : Text) → glob_to_reg_exp (lit "**/" ++ rest) ≡ leading_segments ∷ glob_to_reg_exp rest
unfolding glob_to_reg_exp
leading_pieces rest = refl

last_pieces : glob_to_reg_exp (lit "/**") ≡ literal slash ∷ anything ∷ []
unfolding glob_to_reg_exp
last_pieces = refl

-- The pieces of `**/name/**`.
directory_pieces :
    (name : Text)
    → NoStars name
    → glob_to_reg_exp (lit "**/" ++ (name ++ lit "/**"))
      ≡ leading_segments ∷ (map literal name ++ (literal slash ∷ anything ∷ []))
directory_pieces name h =
    leading_pieces (name ++ lit "/**")
    ∙ ap (λ ps. leading_segments ∷ ps)
        (glob_to_reg_exp-append name (lit "/**") h ∙ ap (λ ps. map literal name ++ ps) last_pieces)

-- Literal pieces match their text and nothing else.
literals_iff :
    (word : Text) (ps : List Piece) (s : Text)
    → (matches_pieces (map literal word ++ ps) s ≡ true)
      ↔ ((v : Text) × (s ≡ word ++ v) × (matches_pieces ps v ≡ true))
unfolding matches_pieces
literals_iff [] ps s = (λ h. (s, refl, h), λ (v, e, h). ap (matches_pieces ps) e ∙ h)
literals_iff (c ∷ word) ps [] = (λ h. cc, λ (v, e, h). cc)
literals_iff (c ∷ word) ps (x ∷ s) = (
  (λ h.
      let (same, later) = and-eq-true _ _ h in
      let (v, e, m) = (literals_iff word ps s).0 later in (v, ap₂ ◌∷◌ ((==_iff x c).0 same) e, m)),
  (λ (v, e, m). ap₂ ◌&&◌ ((==_iff x c).1 (cc e)) ((literals_iff word ps s).1 (v, (cc e), m))),
)

anything_iff : (s : Text) → (matches_pieces (anything ∷ []) s ≡ true) ↔ IsDots s
unfolding matches_pieces
anything_iff [] = (λ h. tt, λ h. refl)
anything_iff (x ∷ s) = ground (arith, anything_iff s)

after_slash_sound :
    (rest : Text → Bool) (s : Text)
    → matches_after_slash rest s ≡ true
    → (u : Text) × (v : Text) × (s ≡ u ++ (slash ∷ v)) × IsDots u × (rest v ≡ true)
after_slash_sound rest [] h = cc
after_slash_sound rest (x ∷ s) h = elim (Bool-cases (x == slash && rest s)) [
  | inl here ↦
      let (same, r) = and-eq-true (x == slash) (rest s) here in
      ([], s, ap (λ y. y ∷ s) ((==_iff x slash).0 same), tt, r)
  | inr later ↦
      let (dot, more) =
        and-eq-true (is_dot x) (matches_after_slash rest s) (ground (arith, h, later)) in
      let (u, v, e, dots, r) = after_slash_sound rest s more in
      (x ∷ u, v, ap (λ t. x ∷ t) e, (dot, dots), r)
]

after_slash_complete :
    (rest : Text → Bool) (u v : Text)
    → IsDots u
    → rest v ≡ true
    → matches_after_slash rest (u ++ (slash ∷ v)) ≡ true
after_slash_complete rest [] v dots r = ground arith
after_slash_complete rest (x ∷ u) v (dot, dots) r =
    ground (arith, after_slash_complete rest u v dots r)

append-slash : (u v : Text) → (u ++ (slash ∷ [])) ++ v ≡ u ++ (slash ∷ v)
append-slash [] v = refl
append-slash (x ∷ u) v = ap (λ t. x ∷ t) (append-slash u v)

-- The text is nothing, or it ends with a slash and has no line terminator before that.
abbrev pub IsLeading : Text → Type 0
IsLeading before = (before ≡ []) ⊎ ((u : Text) × (before ≡ u ++ (slash ∷ [])) × IsDots u)

IsLeading-sound :
    (ps : List Piece) (path : Text)
    → matches_pieces (leading_segments ∷ ps) path ≡ true
    → (before : Text) × (rest : Text) × (path ≡ before ++ rest)
      × IsLeading before
      × (matches_pieces ps rest ≡ true)
unfolding matches_pieces
IsLeading-sound ps path h = elim (Bool-cases (matches_pieces ps path)) [
  | inl whole ↦ ([], path, refl, inl refl, whole)
  | inr none ↦
      let (u, v, e, dots, r) =
        after_slash_sound (matches_pieces ps) path (ground (arith, h, none)) in
      (u ++ (slash ∷ []), v, e ∙ sym (append-slash u v), inr (u, refl, dots), r)
]

IsLeading-complete :
    (ps : List Piece) (before rest : Text)
    → IsLeading before
    → matches_pieces ps rest ≡ true
    → matches_pieces (leading_segments ∷ ps) (before ++ rest) ≡ true
unfolding matches_pieces
IsLeading-complete ps before rest (inl e) r = rw (ap (λ b. b ++ rest) e) (ground (arith, r))
IsLeading-complete ps before rest (inr (u, e, dots)) r =
    rw (ap (λ b. b ++ rest) e ∙ append-slash u rest)
      (ground (arith, after_slash_complete (matches_pieces ps) u rest dots r))

inner_sound :
    (name s : Text)
    → matches_pieces (map literal name ++ (literal slash ∷ anything ∷ [])) s ≡ true
    → (after : Text) × (s ≡ name ++ (slash ∷ after)) × IsDots after
inner_sound name s h =
    let (v, e, m) = (literals_iff name (literal slash ∷ anything ∷ []) s).0 h in
    let (after, e2, m2) = (literals_iff (slash ∷ []) (anything ∷ []) v).0 m in
    (after, e ∙ ap (λ t. name ++ t) e2, (anything_iff after).0 m2)

inner_complete :
    (name after : Text)
    → IsDots after
    → matches_pieces (map literal name ++ (literal slash ∷ anything ∷ [])) (name ++ (slash ∷ after))
      ≡ true
inner_complete name after dots =
    (literals_iff name (literal slash ∷ anything ∷ []) (name ++ (slash ∷ after))).1 (
      slash ∷ after,
      refl,
      (literals_iff (slash ∷ []) (anything ∷ []) (slash ∷ after)).1
          (after, refl, (anything_iff after).1 dots),
    )

-- A directory of the path has the name, and the rest of the path has no line terminator.
abbrev pub HasDirectory : Text → Text → Type 0
HasDirectory name path =
    (before : Text) × (after : Text) × (path ≡ before ++ (name ++ (slash ∷ after)))
    × IsLeading before
    × IsDots after

directory_glob :
    (name path : Text)
    → NoStars name
    → matches_glob path (lit "**/" ++ (name ++ lit "/**"))
      ≡ matches_pieces
          (leading_segments ∷ (map literal name ++ (literal slash ∷ anything ∷ [])))
          path
unfolding matches_glob
directory_glob name path h = ap (λ ps. matches_pieces ps path) (directory_pieces name h)

-- A glob `**/name/**`, for a name without stars, matches exactly the paths that have a directory of
-- that name at any depth, with no line terminator before or after it.
pub matches_glob-directory_iff :
    (name path : Text)
    → NoStars name
    → (matches_glob path (lit "**/" ++ (name ++ lit "/**")) ≡ true) ↔ HasDirectory name path
matches_glob-directory_iff name path h =
    let inner = map literal name ++ (literal slash ∷ anything ∷ []) in
    let same = directory_glob name path h in
    (
      (λ m.
          let (before, rest, e, leading, r) = IsLeading-sound inner path (sym same ∙ m) in
          let (after, e2, dots) = inner_sound name rest r in
          (before, after, e ∙ ap (λ t. before ++ t) e2, leading, dots)),
      (λ (before, after, e, leading, dots).
          same
          ∙ ap (matches_pieces (leading_segments ∷ inner)) e
          ∙ IsLeading-complete inner before (name ++ (slash ∷ after)) leading
              (inner_complete name after dots)),
    )
