-- ===== src/Policies/Urn.antt =====
-- packages/policies/src/urn.ts: the parts of a Pulumi URN, and whether a resource is the child of a
-- component.
pub mod Children
mod Tests
use hulumi.Prelude.{
  ℕ, zero, suc, Bool, true, false, not, ◌&&◌, ◌||◌, Option, none, some, List, [], ◌∷◌, ◌++◌, Text,
  lit, text_eq, text_contains, starts_with, split_on, length, ◌==◌, if◌then◌else◌,
}

pub record ParsedUrn : Type 0 where
  pub stack : Text
  pub project : Text
  pub type_chain : List Text
  pub logical_name : Text

abbrev pub urn_prefix : Text
urn_prefix = lit "urn:pulumi:"

abbrev prepend : ℕ → List Text → List Text
prepend c [] = (c ∷ []) ∷ []
prepend c (part ∷ parts) = (c ∷ part) ∷ parts

-- `urn.split("::")`
unfoldable pub split_colons : Text → List Text
split_colons [] = [] ∷ []
split_colons (c ∷ []) = (c ∷ []) ∷ []
split_colons (c ∷ d ∷ rest) =
    let closed = [] ∷ split_colons rest in
    let longer = prepend c (split_colons (d ∷ rest)) in
    if c == b':' && d == b':' then closed else longer

-- `s.slice(k)`
unfoldable pub slice : ℕ → Text → Text
slice zero s = s
slice (suc k) [] = []
slice (suc k) (c ∷ s) = slice k s

-- `parts[parts.length - 2]` and `parts[parts.length - 1]`
unfoldable pub last_two : Text → Text → List Text → Text × Text
last_two a b [] = (a, b)
last_two a b (c ∷ rest) = last_two b c rest

abbrev pub is_empty : Text → Bool
is_empty [] = true
is_empty (c ∷ s) = false

-- `values.filter((t) => t !== "")`
unfoldable pub non_empty : List Text → List Text
non_empty [] = []
non_empty (v ∷ values) = let rest = non_empty values in if is_empty v then rest else v ∷ rest

-- `values.slice(0, -1)`
unfoldable pub all_but_last : List Text → List Text
all_but_last [] = []
all_but_last (v ∷ []) = []
all_but_last (v ∷ w ∷ values) = v ∷ all_but_last (w ∷ values)

unfoldable pub types_of : Text → List Text
unfolding split_on non_empty
types_of raw = non_empty (split_on b'$' raw)

abbrev with_chain : Text → Text → Text → List Text → Option ParsedUrn
with_chain stack project name [] = none
with_chain stack project name (t ∷ chain) =
    some (record { stack = stack; project = project; type_chain = t ∷ chain; logical_name = name })

abbrev pub from_parts : List Text → Option ParsedUrn
from_parts (first ∷ project ∷ third ∷ fourth ∷ rest) =
    let stack = slice (length urn_prefix) first in
    let (raw, name) = last_two third fourth rest in
    if is_empty stack || (is_empty project || is_empty raw || is_empty name)
    then none
    else with_chain stack project name (types_of raw)
from_parts _ = none

unfoldable pub parse_urn : Text → Option ParsedUrn
unfolding starts_with split_colons slice last_two types_of
parse_urn urn = if starts_with urn urn_prefix then from_parts (split_colons urn) else none

abbrev pub is_ancestor : Text → Option ParsedUrn → Bool
is_ancestor component none = false
is_ancestor component (some p) = text_contains (all_but_last p.type_chain) component

unfoldable pub is_urn_child_of_component : Text → Text → Bool
unfolding parse_urn text_contains all_but_last
is_urn_child_of_component urn component =
    if is_empty component then false else is_ancestor component (parse_urn urn)

abbrev pub same_texts : List Text → List Text → Bool
same_texts [] [] = true
same_texts (a ∷ as_) (b ∷ bs) = text_eq a b && same_texts as_ bs
same_texts _ _ = false

abbrev share_ancestors : List Text → List Text → Bool
share_ancestors a b = not (length a == 0) && length a == length b && same_texts a b

abbrev pub share_parent : Option ParsedUrn → Option ParsedUrn → Bool
share_parent (some a) (some b) =
    text_eq a.stack b.stack
    && text_eq a.project b.project
    && share_ancestors (all_but_last a.type_chain) (all_but_last b.type_chain)
share_parent _ _ = false

unfoldable pub urns_share_parent_component : Text → Text → Bool
unfolding parse_urn text_eq all_but_last
urns_share_parent_component a b = share_parent (parse_urn a) (parse_urn b)
