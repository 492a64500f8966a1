-- ===== src/Policies/Urn/Children.antt =====
-- Which resources count as children of a component (packages/policies/src/urn.ts).
use hulumi.Prelude.{
  Bool, true, false, not, ◌&&◌, List, [], ◌∷◌, ◌++◌, Text, text_contains, starts_with, length, ◌==◌,
  Bool-cases, and-eq-true, ◌≡◌, ◌∙◌, inl, inr, refl, ap, arith,
}
use hulumi.Policies.Urn.{
  urn_prefix, split_colons, slice, last_two, is_empty, all_but_last, types_of, with_chain,
  from_parts, parse_urn, is_ancestor, is_urn_child_of_component,
}

-- No double colon starts in the text, not even one that a colon after it would complete.
unfoldable pub is_part : Text → Bool
is_part [] = true
is_part (c ∷ []) = not (c == b':')
is_part (c ∷ d ∷ rest) = let later = is_part (d ∷ rest) in not (c == b':' && d == b':') && later

-- The two texts with a double colon between them.
abbrev pub joined : Text → Text → Text
joined a b = a ++ b':' ∷ b':' ∷ b

split_colons-part : (s : Text) → is_part s ≡ true → split_colons s ≡ s ∷ []
unfolding is_part split_colons
split_colons-part [] h = refl
split_colons-part (c ∷ []) h = refl
split_colons-part (c ∷ d ∷ rest) h =
    let (single, later) = and-eq-true (not (c == b':' && d == b':')) (is_part (d ∷ rest)) h in
    elim (Bool-cases (c == b':' && d == b':')) [
      | inl double ↦ absurd (ground arith)
      | inr other ↦ rw (other, split_colons-part (d ∷ rest) later) refl
    ]

split_colons-append :
    (s rest : Text) → is_part s ≡ true → split_colons (joined s rest) ≡ s ∷ split_colons rest
unfolding is_part split_colons
split_colons-append [] rest h = refl
split_colons-append (c ∷ []) rest h = elim (Bool-cases (c == b':')) [
  | inl colon ↦ absurd (ground arith)
  | inr other ↦ rw other refl
]
split_colons-append (c ∷ d ∷ s) rest h =
    let (single, later) = and-eq-true (not (c == b':' && d == b':')) (is_part (d ∷ s)) h in
    elim (Bool-cases (c == b':' && d == b':')) [
      | inl double ↦ absurd (ground arith)
      | inr other ↦ rw (other, split_colons-append (d ∷ s) rest later) refl
    ]

abbrev pub urn_of : Text → Text → Text → Text → Text
urn_of stack project chain name = joined (urn_prefix ++ stack) (joined project (joined chain name))

-- A text that is not empty and in which no double colon starts.
abbrev pub IsSegment : Text → Type 0
IsSegment s = (is_part s ≡ true) × (is_empty s ≡ false)

starts_with-prefix : (s rest : Text) → starts_with (joined (urn_prefix ++ s) rest) urn_prefix ≡ true
unfolding starts_with
starts_with-prefix s rest = refl

slice-prefix : (s : Text) → slice (length urn_prefix) (urn_prefix ++ s) ≡ s
unfolding slice
slice-prefix s = refl

split_colons-urn_of :
    (stack project chain name : Text)
    → is_part (urn_prefix ++ stack) ≡ true
    → is_part project ≡ true
    → is_part chain ≡ true
    → split_colons (urn_of stack project chain name)
      ≡ (urn_prefix ++ stack) ∷ project ∷ chain ∷ split_colons name
split_colons-urn_of stack project chain name f p c =
    rw
      (
        split_colons-append (urn_prefix ++ stack) (joined project (joined chain name)) f,
        split_colons-append project (joined chain name) p,
        split_colons-append chain name c,
      )
      refl

parse_urn_lem :
    (urn : Text) {parts : List Text}
    → starts_with urn urn_prefix ≡ true
    → split_colons urn ≡ parts
    → parse_urn urn ≡ from_parts parts
unfolding parse_urn
parse_urn_lem urn h e = rw (h, e) refl

is_ancestor-with_chain :
    (component stack project name : Text) (types : List Text)
    → is_ancestor component (with_chain stack project name types)
      ≡ text_contains (all_but_last types) component
unfolding text_contains all_but_last
is_ancestor-with_chain component stack project name [] = refl
is_ancestor-with_chain component stack project name (t ∷ types) = refl

module _ (component stack project : Text) (named : is_empty component ≡ false) (s : IsSegment stack)
    (p : IsSegment project) (first : is_part (urn_prefix ++ stack) ≡ true) where
  -- The chain that is read is the segment before the last one, whatever stands before it.
  parts_ancestor :
      (third fourth chain name : Text) (rest : List Text)
      → last_two third fourth rest ≡ (chain, name)
      → is_empty chain ≡ false
      → is_empty name ≡ false
      → is_ancestor component (from_parts ((urn_prefix ++ stack) ∷ project ∷ third ∷ fourth ∷ rest))
        ≡ text_contains (all_but_last (types_of chain)) component
  parts_ancestor third fourth chain name rest e c n =
      rw (e, slice-prefix stack, s.1, p.1, c, n)
        (is_ancestor-with_chain component stack project name (types_of chain))

  child_by_parts :
      (third name : Text) (parts : List Text)
      → is_part third ≡ true
      → split_colons name ≡ parts
      → is_urn_child_of_component (urn_of stack project third name) component
        ≡ is_ancestor component (from_parts ((urn_prefix ++ stack) ∷ project ∷ third ∷ parts))
  unfolding is_urn_child_of_component
  child_by_parts third name parts t e =
      rw
        (
          named,
          parse_urn_lem (urn_of stack project third name)
              (starts_with-prefix stack (joined project (joined third name)))
              (split_colons-urn_of stack project third name first p.0 t),
          e,
        )
        refl

-- A resource whose URN has no double colon in its stack, project, type chain and logical name is a
-- child of a component exactly when the component's type is one of the chain but its last, so that
-- the logical name plays no part.
pub is_urn_child_lem :
    (component stack project chain name : Text)
    → is_empty component ≡ false
    → IsSegment stack
    → IsSegment project
    → is_part (urn_prefix ++ stack) ≡ true
    → IsSegment chain
    → IsSegment name
    → is_urn_child_of_component (urn_of stack project chain name) component
      ≡ text_contains (all_but_last (types_of chain)) component
unfolding last_two
is_urn_child_lem component stack project chain name named s p first c n =
    child_by_parts component stack project named s p first chain name (name ∷ []) c.0
      (split_colons-part name n.0)
    ∙ parts_ancestor component stack project named s p first chain name chain name [] refl c.1 n.1

-- The logical name can forge the type chain: if it holds a double colon, the segment that stands
-- before its last one is read as the chain, and the resource's own chain plays no part.
pub is_urn_child_forged :
    (component stack project chain forged name : Text)
    → is_empty component ≡ false
    → IsSegment stack
    → IsSegment project
    → is_part (urn_prefix ++ stack) ≡ true
    → IsSegment chain
    → IsSegment forged
    → IsSegment name
    → is_urn_child_of_component (urn_of stack project chain (joined forged name)) component
      ≡ text_contains (all_but_last (types_of forged)) component
unfolding last_two
is_urn_child_forged component stack project chain forged name named s p first c f n =
    child_by_parts component stack project named s p first chain (joined forged name)
      (forged ∷ name ∷ []) c.0
      (split_colons-append forged name f.0 ∙ ap (λ ps. forged ∷ ps) (split_colons-part name n.0))
    ∙ parts_ancestor component stack project named s p first chain forged forged name (name ∷ [])
        refl f.1 n.1
