-- ===== src/Policies/Oidc/Gcp/Complete.antt =====
-- The parser of the conditions of packages/policies/src/github/g-oidc-1.ts reads every conjunction.
use hulumi.Prelude.{
  ℕ, zero, suc, some, List, [], ◌∷◌, ◌++◌, ◌≡◌, ◌≢◌, refl, ap, ◌∙◌, arith, length, length-append,
  ◌≤◌,
}
use mathlib.Core.List.{append_assoc}
use hulumi.Policies.Oidc.Gcp.{
  GcpToken, identifier, string_token, and_token, equals_token, left_paren, right_paren, Bindings,
  Parsed, close_paren, parse_term, add_bindings, while_and, parse_terms, parse_expression,
}
use hulumi.Policies.Oidc.Gcp.Grammar.{
  Conjunction, last, both, Term, equality, flipped, group, printed, printed_term, bindings_in,
  bindings_of, Fits, FitsTerm,
}

-- The conjunction ends here.
abbrev pub IsEnd : List GcpToken → Type 0
IsEnd [] = Unit
IsEnd (t ∷ rest) = t ≢ and_token

while_and_stops :
    (bindings : Bindings) (rest : List GcpToken) (terms : List GcpToken → Parsed)
    → IsEnd rest
    → while_and (some (bindings, rest)) terms ≡ some (bindings, rest)
while_and_stops b [] terms h = refl
while_and_stops b (identifier n ∷ left) terms h = refl
while_and_stops b (string_token v ∷ left) terms h = refl
while_and_stops b (equals_token ∷ left) terms h = refl
while_and_stops b (left_paren ∷ left) terms h = refl
while_and_stops b (right_paren ∷ left) terms h = refl
while_and_stops b (and_token ∷ left) terms h = absurd (h refl)

abbrev terms_in : Conjunction → ℕ
terms_in (last t) = 1
terms_in (both t c) = suc (terms_in c)

terms_in-le : (c : Conjunction) (rest : List GcpToken) → terms_in c ≤ length (printed c ++ rest)
terms_in-le (last (equality n v)) rest = omega arith
terms_in-le (last (flipped n v)) rest = omega arith
terms_in-le (last (group c)) rest = omega arith
terms_in-le (both (equality n v) c) rest = omega (arith, terms_in-le c rest)
terms_in-le (both (flipped n v) c) rest = omega (arith, terms_in-le c rest)
terms_in-le (both (group d) c) rest =
    let grown = length-append ((printed d ++ (right_paren ∷ [])) ++ (and_token ∷ printed c)) rest in
    let inner = length-append (printed d ++ (right_paren ∷ [])) (and_token ∷ printed c) in
    let own = length-append (printed c) rest in omega (arith, terms_in-le c rest, grown, inner, own)

module _ (levels : ℕ)
    (complete : (c : Conjunction) (rest : List GcpToken)
      → IsEnd rest
      → Fits levels c
      → parse_expression levels (printed c ++ rest) ≡ some (bindings_in c, rest)) where
  parse_term_complete :
      (t : Term) (rest : List GcpToken)
      → FitsTerm levels t
      → parse_term (parse_expression levels) (printed_term t ++ rest) ≡ some (bindings_of t, rest)
  parse_term_complete (equality n v) rest h = rw h refl
  parse_term_complete (flipped n v) rest h = rw h refl
  parse_term_complete (group c) rest h =
      ap (λ ts. close_paren (parse_expression levels ts))
        (append_assoc (printed c) (right_paren ∷ []) rest)
      ∙ ap close_paren (complete c (right_paren ∷ rest) (λ e. cc) h)

  parse_terms_complete :
      (fuel : ℕ) (c : Conjunction) (rest : List GcpToken)
      → IsEnd rest
      → Fits (suc levels) c
      → terms_in c ≤ fuel
      → parse_terms (parse_term (parse_expression levels)) fuel (printed c ++ rest)
        ≡ some (bindings_in c, rest)
  parse_terms_complete zero (last t) rest end h enough = absurd (omega (arith, enough))
  parse_terms_complete zero (both t c) rest end h enough = absurd (omega (arith, enough))
  parse_terms_complete (suc fuel) (last t) rest end h enough =
      ap (λ p. while_and p (parse_terms (parse_term (parse_expression levels)) fuel))
        (parse_term_complete t rest h)
      ∙ while_and_stops (bindings_of t) rest _ end
  parse_terms_complete (suc fuel) (both t c) rest end (h, more) enough =
      ap (parse_terms (parse_term (parse_expression levels)) (suc fuel))
        (append_assoc (printed_term t) (and_token ∷ printed c) rest)
      ∙ ap (λ p. while_and p (parse_terms (parse_term (parse_expression levels)) fuel))
          (parse_term_complete t (and_token ∷ (printed c ++ rest)) h)
      ∙ ap (add_bindings (bindings_of t))
          (parse_terms_complete fuel c rest end more (omega (arith, enough)))

pub parse_expression_complete :
    (levels : ℕ) (c : Conjunction) (rest : List GcpToken)
    → IsEnd rest
    → Fits levels c
    → parse_expression levels (printed c ++ rest) ≡ some (bindings_in c, rest)
unfolding parse_expression
parse_expression_complete zero c rest end h = absurd h
parse_expression_complete (suc levels) c rest end h =
    parse_terms_complete levels (parse_expression_complete levels) (length (printed c ++ rest)) c
      rest end h (terms_in-le c rest)
