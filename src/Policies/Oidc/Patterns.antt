-- ===== src/Policies/Oidc/Patterns.antt =====
-- The regular expressions of packages/policies/src/github/g-oidc-1.ts, as tests over the units of a
-- text.
use hulumi.Prelude.{
  ℕ, Bool, false, not, ◌&&◌, ◌||◌, List, [], ◌∷◌, Text, lit, leb, ◌==◌, all, is_space, split_on,
  if◌then◌else◌,
}
use hulumi.Policies.Urn.{is_empty}
use mathlib.Core.List.{reverse}

-- A non-empty text of allowed units.
abbrev is_run : (ℕ → Bool) → Text → Bool
is_run allowed s = not (is_empty s) && all allowed s

abbrev is_key_unit : ℕ → Bool
is_key_unit c =
    leb b'A' c && leb c b'Z' || leb b'a' c && leb c b'z' || leb b'0' c && leb c b'9' || c == b'_'

-- SUBJECT_KEY_PATTERN
unfoldable pub is_subject_key : Text → Bool
is_subject_key s = is_run is_key_unit s

-- `[^/:\s]+`, for a text without a slash; and `[^@:\s]+`, for one without an at sign.
unfoldable is_name : Text → Bool
unfolding is_space
is_name s = is_run (λ c. not (c == b':' || is_space c)) s

abbrev are_two_names : List Text → Bool
unfolding is_name
are_two_names (owner ∷ repository ∷ []) = is_name owner && is_name repository
are_two_names _ = false

-- One exact OWNER/REPOSITORY value.
unfoldable pub is_owner_repository : Text → Bool
unfolding split_on is_name
is_owner_repository s = are_two_names (split_on b'/' s)

-- The tests of the units before the first separator and of those after it; `part` is what came
-- before, reversed.
abbrev cut_from : ℕ → (Text → Text → Bool) → Text → Text → Bool
cut_from sep test part [] = false
cut_from sep test part (c ∷ s) =
    let later = cut_from sep test (c ∷ part) s in if c == sep then test (reverse part) s else later

-- The test of what follows a prefix.
abbrev after : Text → (Text → Bool) → Text → Bool
after [] test s = test s
after (p ∷ prefix) test [] = false
after (p ∷ prefix) test (c ∷ s) = c == p && after prefix test s

unfoldable is_ref_name : Text → Bool
unfolding is_space
is_ref_name s = is_run (λ c. not (c == b'@' || c == b':' || c == b'*' || c == b'?' || is_space c)) s

abbrev is_branch_or_tag : Text → Bool
unfolding is_ref_name
is_branch_or_tag s =
    after (lit "refs/")
      (λ rest. after (lit "heads/") is_ref_name rest || after (lit "tags/") is_ref_name rest) s

abbrev is_workflow_file : Text → Bool
unfolding is_name is_ref_name
is_workflow_file s = cut_from b'@' (λ path ref. is_name path && is_branch_or_tag ref) [] s

-- One workflow file of a repository at an exact branch or tag.
unfoldable pub is_workflow_ref : Text → Bool
unfolding is_name is_ref_name
is_workflow_ref s =
    cut_from b'/'
      (λ owner rest.
        is_name owner
        && cut_from b'/'
            (λ repository path.
              is_name repository && after (lit ".github/workflows/") is_workflow_file path)
            [] rest)
      [] s
