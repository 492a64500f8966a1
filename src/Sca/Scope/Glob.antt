-- ===== src/Sca/Scope/Glob.antt =====
-- `globToRegExp` of tools/sca/src/scope/policy.ts, and the texts that the regular expressions which
-- it builds match.
use hulumi.Prelude.{ℕ, Bool, false, not, ◌&&◌, ◌||◌, List, [], ◌∷◌, Text, any, ◌==◌, if◌then◌else◌}
use hulumi.Sca.Evidence.{is_empty}

-- The parts of an expression: an escaped character, `[^/]*`, `.*` and `(?:.*/)?`.
pub data Piece : Type 0 where
  literal : (c : ℕ) → Piece
  within_segment anything leading_segments : Piece

abbrev pub star : ℕ
star = b'*'

abbrev pub slash : ℕ
slash = b'/'

-- The loop of `globToRegExp`; the expression is anchored at both ends.
unfoldable pub glob_to_reg_exp : Text → List Piece
glob_to_reg_exp [] = []
glob_to_reg_exp (c ∷ []) = (if c == star then within_segment else literal c) ∷ []
glob_to_reg_exp (c ∷ d ∷ []) =
    let last = glob_to_reg_exp (d ∷ []) in
    if c == star
    then if d == star then anything ∷ [] else within_segment ∷ last
    else literal c ∷ last
glob_to_reg_exp (c ∷ d ∷ e ∷ rest) =
    let from_second = glob_to_reg_exp (d ∷ e ∷ rest) in
    let from_third = glob_to_reg_exp (e ∷ rest) in
    let from_fourth = glob_to_reg_exp rest in
    if c == star
    then if d == star
      then if e == slash then leading_segments ∷ from_fourth else anything ∷ from_third
      else within_segment ∷ from_second
    else literal c ∷ from_second

-- What `.` matches: all but the line terminators.
unfoldable pub is_dot : ℕ → Bool
is_dot c = not (c == 10 || c == 13 || c == 0x2028 || c == 0x2029)

abbrev matches_end : Text → Bool
matches_end s = is_empty s

abbrev matches_literal : ℕ → (Text → Bool) → Text → Bool
matches_literal c rest [] = false
matches_literal c rest (x ∷ s) = x == c && rest s

-- Any number of characters that `allowed` allows, and the rest.
abbrev pub matches_many : (ℕ → Bool) → (Text → Bool) → Text → Bool
matches_many allowed rest [] = rest []
matches_many allowed rest (x ∷ s) = rest (x ∷ s) || allowed x && matches_many allowed rest s

abbrev pub matches_after_slash : (Text → Bool) → Text → Bool
matches_after_slash rest [] = false
matches_after_slash rest (x ∷ s) = x == slash && rest s || is_dot x && matches_after_slash rest s

abbrev matches_piece : Piece → (Text → Bool) → Text → Bool
matches_piece (literal c) rest s = matches_literal c rest s
matches_piece within_segment rest s = matches_many (λ x. not (x == slash)) rest s
matches_piece anything rest s = matches_many is_dot rest s
matches_piece leading_segments rest s = rest s || matches_after_slash rest s

-- Whether the whole text matches the pieces.
unfoldable pub matches_pieces : List Piece → Text → Bool
unfolding is_dot
matches_pieces [] s = matches_end s
matches_pieces (p ∷ ps) s = matches_piece p (matches_pieces ps) s

unfoldable pub matches_glob : Text → Text → Bool
unfolding glob_to_reg_exp matches_pieces
matches_glob path glob = matches_pieces (glob_to_reg_exp glob) path

unfoldable pub matches_any : Text → List Text → Bool
unfolding matches_glob
matches_any path globs = any (matches_glob path) globs
