-- ===== src/Policies/Oidc/Gcp/Sound.antt =====
-- The parser of the conditions of packages/policies/src/github/g-oidc-1.ts reads conjunctions only.
use hulumi.Prelude.{
  ℕ, zero, suc, true, Option, none, some, List, [], ◌∷◌, ◌++◌, Text, Bool-cases, ◌≡◌, ◌⊎◌, inl, inr,
  refl, ap, ap₂, sym, ◌∙◌, subst, length,
}
use mathlib.Core.List.{append_assoc}
use hulumi.Policies.Oidc.Gcp.{
  GcpToken, identifier, string_token, and_token, equals_token, left_paren, right_paren, Bindings,
  is_binding, Parsed, name_of, string_of, is_equals, bind_operands, bind, parse_equality,
  close_paren, parse_term, add_bindings, while_and, parse_terms, parse_expression,
}
use hulumi.Policies.Oidc.Gcp.Grammar.{
  Conjunction, last, both, Term, equality, flipped, group, printed, printed_term, bindings_in,
  bindings_of, Fits, FitsTerm,
}

abbrev pub IsConjunction : ℕ → List GcpToken → Bindings → List GcpToken → Type 0
IsConjunction levels tokens bindings rest =
    (c : Conjunction) × (tokens ≡ printed c ++ rest) × (bindings ≡ bindings_in c) × Fits levels c

abbrev IsTerm : ℕ → List GcpToken → Bindings → List GcpToken → Type 0
IsTerm levels tokens bindings rest =
    (t : Term) × (tokens ≡ printed_term t ++ rest) × (bindings ≡ bindings_of t) × FitsTerm levels t

bind-some :
    (n v : Text) (left rest : List GcpToken) (bindings : Bindings)
    → bind n v left ≡ some (bindings, rest)
    → (is_binding n v ≡ true) × (bindings ≡ (n, v) ∷ []) × (left ≡ rest)
bind-some n v left rest bindings h = elim (Bool-cases (is_binding n v)) [
  | inl good ↦ let e = rw good at h in (good, cc, cc)
  | inr bad ↦ let e = rw bad at h in cc
]

name_of-some : (t : GcpToken) (n : Text) → name_of t ≡ some n → t ≡ identifier n
name_of-some (identifier m) n h = ap identifier (cc)
name_of-some (string_token v) n h = cc
name_of-some and_token n h = cc
name_of-some equals_token n h = cc
name_of-some left_paren n h = cc
name_of-some right_paren n h = cc

string_of-some : (t : GcpToken) (v : Text) → string_of t ≡ some v → t ≡ string_token v
string_of-some (identifier m) n h = cc
string_of-some (string_token v) n h = ap string_token (cc)
string_of-some and_token n h = cc
string_of-some equals_token n h = cc
string_of-some left_paren n h = cc
string_of-some right_paren n h = cc

is_equals-true : (t : GcpToken) → is_equals t ≡ true → t ≡ equals_token
is_equals-true (identifier m) h = cc
is_equals-true (string_token v) h = cc
is_equals-true and_token h = cc
is_equals-true equals_token h = refl
is_equals-true left_paren h = cc
is_equals-true right_paren h = cc

operands-IsTerm :
    (levels : ℕ) (first second : GcpToken) (name value flipped_name flipped_value : Option Text)
    (left rest : List GcpToken) (bindings : Bindings)
    → name_of first ≡ name
    → string_of second ≡ value
    → name_of second ≡ flipped_name
    → string_of first ≡ flipped_value
    → bind_operands name value flipped_name flipped_value left ≡ some (bindings, rest)
    → IsTerm levels (first ∷ equals_token ∷ second ∷ left) bindings rest
operands-IsTerm levels first second (some n) (some v) _ _ left rest bindings a b c d h =
    let (good, same, end) = bind-some n v left rest bindings h in
    (equality n v, cc (name_of-some first n a, string_of-some second v b, end), same, good)
operands-IsTerm levels first second none _ (some n) (some v) left rest bindings a b c d h =
    let (good, same, end) = bind-some n v left rest bindings h in
    (flipped n v, cc (name_of-some second n c, string_of-some first v d, end), same, good)
operands-IsTerm levels first second (some m) none (some n) (some v) left rest bindings a b c d h =
    let (good, same, end) = bind-some n v left rest bindings h in
    (flipped n v, cc (name_of-some second n c, string_of-some first v d, end), same, good)
operands-IsTerm levels first second none v none w left rest bindings a b c d h = cc
operands-IsTerm levels first second (some m) none none w left rest bindings a b c d h = cc
operands-IsTerm levels first second none v (some n) none left rest bindings a b c d h = cc
operands-IsTerm levels first second (some m) none (some n) none left rest bindings a b c d h = cc

parse_equality-IsTerm :
    (levels : ℕ) (tokens rest : List GcpToken) (bindings : Bindings)
    → parse_equality tokens ≡ some (bindings, rest)
    → IsTerm levels tokens bindings rest
parse_equality-IsTerm levels [] rest bindings h = cc
parse_equality-IsTerm levels (a ∷ []) rest bindings h = cc
parse_equality-IsTerm levels (a ∷ b ∷ []) rest bindings h = cc
parse_equality-IsTerm levels (a ∷ e ∷ b ∷ left) rest bindings h = elim (Bool-cases (is_equals e)) [
  | inr other ↦ let k = rw other at h in cc
  | inl equal ↦
      subst (λ e. IsTerm levels (a ∷ e ∷ b ∷ left) bindings rest) (sym (is_equals-true e equal))
        (operands-IsTerm levels a b _ _ _ _ left rest bindings refl refl refl refl (rw equal at h))
]

close_paren-some :
    (p : Parsed) (rest : List GcpToken) (bindings : Bindings)
    → close_paren p ≡ some (bindings, rest)
    → p ≡ some (bindings, right_paren ∷ rest)
close_paren-some none rest bindings h = cc
close_paren-some (some (b, [])) rest bindings h = cc
close_paren-some (some (b, identifier n ∷ left)) rest bindings h = cc
close_paren-some (some (b, string_token v ∷ left)) rest bindings h = cc
close_paren-some (some (b, and_token ∷ left)) rest bindings h = cc
close_paren-some (some (b, equals_token ∷ left)) rest bindings h = cc
close_paren-some (some (b, left_paren ∷ left)) rest bindings h = cc
close_paren-some (some (b, right_paren ∷ left)) rest bindings h = cc

add_bindings-some :
    (first : Bindings) (p : Parsed) (rest : List GcpToken) (bindings : Bindings)
    → add_bindings first p ≡ some (bindings, rest)
    → (more : Bindings) × (p ≡ some (more, rest)) × (bindings ≡ first ++ more)
add_bindings-some first none rest bindings h = cc
add_bindings-some first (some (more, left)) rest bindings h = (more, cc, cc)

while_and-some :
    (p : Parsed) (terms : List GcpToken → Parsed) (rest : List GcpToken) (bindings : Bindings)
    → while_and p terms ≡ some (bindings, rest)
    → (p ≡ some (bindings, rest))
      ⊎ ((first more : Bindings) × (left : List GcpToken) × (p ≡ some (first, and_token ∷ left))
          × (terms left ≡ some (more, rest))
          × (bindings ≡ first ++ more))
while_and-some none terms rest bindings h = cc
while_and-some (some (b, [])) terms rest bindings h = inl h
while_and-some (some (b, identifier n ∷ left)) terms rest bindings h = inl h
while_and-some (some (b, string_token v ∷ left)) terms rest bindings h = inl h
while_and-some (some (b, equals_token ∷ left)) terms rest bindings h = inl h
while_and-some (some (b, left_paren ∷ left)) terms rest bindings h = inl h
while_and-some (some (b, right_paren ∷ left)) terms rest bindings h = inl h
while_and-some (some (b, and_token ∷ left)) terms rest bindings h =
    let (more, parsed, same) = add_bindings-some b (terms left) rest bindings h in
    inr (b, more, left, refl, parsed, same)

module _ (levels : ℕ) (expression : List GcpToken → Parsed)
    (sound : (tokens rest : List GcpToken) (bindings : Bindings)
      → expression tokens ≡ some (bindings, rest)
      → IsConjunction levels tokens bindings rest) where
  parse_term-IsTerm :
      (tokens rest : List GcpToken) (bindings : Bindings)
      → parse_term expression tokens ≡ some (bindings, rest)
      → IsTerm levels tokens bindings rest
  parse_term-IsTerm [] rest bindings h = cc
  parse_term-IsTerm (left_paren ∷ left) rest bindings h =
      let (c, spelled, same, good) =
        sound left (right_paren ∷ rest) bindings (close_paren-some _ rest bindings h) in
      (
        group c,
        ap (λ ts. left_paren ∷ ts)
            (spelled ∙ sym (append_assoc (printed c) (right_paren ∷ []) rest)),
        same,
        good,
      )
  parse_term-IsTerm (identifier n ∷ left) rest bindings h =
      parse_equality-IsTerm levels _ rest bindings h
  parse_term-IsTerm (string_token v ∷ left) rest bindings h =
      parse_equality-IsTerm levels _ rest bindings h
  parse_term-IsTerm (and_token ∷ left) rest bindings h =
      parse_equality-IsTerm levels _ rest bindings h
  parse_term-IsTerm (equals_token ∷ left) rest bindings h =
      parse_equality-IsTerm levels _ rest bindings h
  parse_term-IsTerm (right_paren ∷ left) rest bindings h =
      parse_equality-IsTerm levels _ rest bindings h

  parse_terms-IsConjunction :
      (fuel : ℕ) (tokens rest : List GcpToken) (bindings : Bindings)
      → parse_terms (parse_term expression) fuel tokens ≡ some (bindings, rest)
      → IsConjunction (suc levels) tokens bindings rest
  parse_terms-IsConjunction zero tokens rest bindings h = cc
  parse_terms-IsConjunction (suc fuel) tokens rest bindings h =
      elim (while_and-some _ _ rest bindings h) [
        | inl only ↦
            let (t, spelled, same, good) = parse_term-IsTerm tokens rest bindings only in
            (last t, spelled, same, good)
        | inr (first, more, left, is_first, parsed, same) ↦
            let (t, spelled, same_first, good) =
              parse_term-IsTerm tokens (and_token ∷ left) first is_first in
            let (c, later, same_more, more_good) =
              parse_terms-IsConjunction fuel left rest more parsed in
            (
              both t c,
              spelled
                  ∙ ap (λ ts. printed_term t ++ (and_token ∷ ts)) later
                  ∙ sym (append_assoc (printed_term t) (and_token ∷ printed c) rest),
              same ∙ ap₂ ◌++◌ same_first same_more,
              (good, more_good),
            )
      ]

pub parse_expression-IsConjunction :
    (levels : ℕ) (tokens rest : List GcpToken) (bindings : Bindings)
    → parse_expression levels tokens ≡ some (bindings, rest)
    → IsConjunction levels tokens bindings rest
unfolding parse_expression
parse_expression-IsConjunction zero tokens rest bindings h = cc
parse_expression-IsConjunction (suc levels) tokens rest bindings h =
    parse_terms-IsConjunction levels (parse_expression levels)
      (parse_expression-IsConjunction levels) (length tokens) tokens rest bindings h
