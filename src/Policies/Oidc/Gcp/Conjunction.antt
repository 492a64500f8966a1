-- ===== src/Policies/Oidc/Gcp/Conjunction.antt =====
-- Which conditions of GCP packages/policies/src/github/g-oidc-1.ts accepts.
use hulumi.Prelude.{
  suc, false, Option, none, some, List, [], ◌∷◌, map, Text, text_contains, text_contains_iff,
  text_eq, text_eq_iff, Member, All, All-mono, All-both, AllDistinct, Bool-cases, or-eq-false, ◌≡◌,
  ◌≢◌, ◌⊎◌, ◌↔◌, inl, inr, refl, ap, sym, ◌∙◌, subst,
}
use mathlib.Core.List.{append-nil}
use hulumi.Policies.Oidc.Gcp.{
  GcpToken, tokenize_gcp_condition, Bindings, Parsed, parse_expression, bindings_violation,
  parsed_violation, tokens_violation, gcp_condition_violation, required_gcp_assertions, absent,
  required_violation, max_gcp_paren_depth,
}
use hulumi.Policies.Oidc.Gcp.Sound.{parse_expression-IsConjunction}
use hulumi.Policies.Oidc.Gcp.Complete.{parse_expression_complete}
use hulumi.Policies.Oidc.Gcp.Grammar.{
  Conjunction, last, both, equality, flipped, group, printed, bindings_in, Fits,
}

abbrev pub names : Bindings → List Text
names bindings = map (λ b. b.0) bindings

required_seen :
    (required seen : List Text)
    → required_violation (absent required seen) ≡ none
    → All (λ k. Member k seen) required
unfolding text_contains
required_seen [] seen h = tt
required_seen (k ∷ required) seen h = elim (Bool-cases (text_contains seen k)) [
  | inl there ↦ ((text_contains_iff seen k).0 there, required_seen required seen (rw there at h))
  | inr missing ↦ let e = rw missing at h in cc
]

moved :
    (name : Text) (seen bound : List Text) (k : Text)
    → Member k bound ⊎ Member k (name ∷ seen)
    → Member k (name ∷ bound) ⊎ Member k seen
moved name seen bound k (inl m) = inl (inr m)
moved name seen bound k (inr (inl e)) = inl (inl e)
moved name seen bound k (inr (inr m)) = inr m

unseen :
    (name : Text) (seen : List Text) (k : Text)
    → text_contains (name ∷ seen) k ≡ false
    → (text_contains seen k ≡ false) × (k ≢ name)
unfolding text_contains
unseen name seen k h =
    let (other, new) = or-eq-false (text_eq name k) (text_contains seen k) h in
    (new, λ same. cc (other, (text_eq_iff name k).1 (sym same)))

-- What holds of the names of bindings that pass, after those that were seen.
pub record IsComplete (seen : List Text) (bindings : Bindings) : Type 0 where
  pub distinct : AllDistinct (names bindings)
  pub fresh : All (λ k. text_contains seen k ≡ false) (names bindings)
  pub required : All (λ k. Member k (names bindings) ⊎ Member k seen) required_gcp_assertions

bindings-IsComplete :
    (seen : List Text) (bindings : Bindings)
    → bindings_violation seen bindings ≡ none
    → IsComplete seen bindings
unfolding bindings_violation
bindings-IsComplete seen [] h = record {
  distinct = tt;
  fresh = tt;
  required =
      All-mono _ (λ k. Member k [] ⊎ Member k seen) required_gcp_assertions (λ k m. inr m)
        (required_seen required_gcp_assertions seen h);
}
bindings-IsComplete seen ((name, value) ∷ bindings) h =
    elim (Bool-cases (text_contains seen name)) [
      | inl there ↦ let k = rw there at h in cc
      | inr new ↦
          let later = bindings-IsComplete (name ∷ seen) bindings (rw new at h) in
          let apart =
            All-mono _ (λ k. (text_contains seen k ≡ false) × (k ≢ name)) (names bindings)
              (λ k. unseen name seen k) later.fresh in
          record {
            distinct =
                (All-mono _ (λ k. k ≢ name) (names bindings) (λ k p. p.1) apart, later.distinct);
            fresh = (
              new,
              All-mono _ (λ k. text_contains seen k ≡ false) (names bindings) (λ k p. p.0) apart,
            );
            required =
                All-mono _ (λ k. Member k (name ∷ names bindings) ⊎ Member k seen)
                  required_gcp_assertions (λ k. moved name seen (names bindings) k) later.required;
          }
    ]

parsed_none :
    (p : Parsed)
    → parsed_violation p ≡ none
    → (bindings : Bindings) × (p ≡ some (bindings, [])) × (bindings_violation [] bindings ≡ none)
parsed_none none h = cc
parsed_none (some (bindings, [])) h = (bindings, refl, h)
parsed_none (some (bindings, t ∷ rest)) h = cc

-- A condition without a violation is a conjunction.
pub record IsConjunctionOf (condition : Text) (c : Conjunction) : Type 0 where
  pub spelled : tokenize_gcp_condition condition ≡ some (printed c)
  pub fits : Fits (suc max_gcp_paren_depth) c
  pub complete : IsComplete [] (bindings_in c)

tokens-IsConjunctionOf :
    (condition : Text) (tokens : Option (List GcpToken))
    → tokenize_gcp_condition condition ≡ tokens
    → tokens_violation tokens ≡ none
    → (c : Conjunction) × IsConjunctionOf condition c
tokens-IsConjunctionOf condition none e h = cc
tokens-IsConjunctionOf condition (some []) e h = cc
tokens-IsConjunctionOf condition (some (t ∷ tokens)) e h =
    let (bindings, parsed, safe) = parsed_none _ h in
    let (c, spelled, same, good) =
      parse_expression-IsConjunction _ (t ∷ tokens) [] bindings parsed in
    (
      c,
      record {
        spelled = e ∙ ap some (spelled ∙ append-nil (printed c));
        fits = good;
        complete = subst (IsComplete []) same (bindings-IsComplete [] bindings safe);
      },
    )

required_contained :
    (required seen : List Text)
    → All (λ k. Member k [] ⊎ Member k seen) required
    → absent required seen ≡ []
required_contained [] seen h = refl
required_contained (k ∷ required) seen (inl m, h) = absurd m
required_contained (k ∷ required) seen (inr m, h) =
    rw ((text_contains_iff seen k).1 m) (required_contained required seen h)

still_unseen :
    (name : Text) (seen : List Text) (k : Text)
    → text_contains seen k ≡ false
    → k ≢ name
    → text_contains (name ∷ seen) k ≡ false
unfolding text_contains
still_unseen name seen k h apart = elim (Bool-cases (text_eq name k)) [
  | inl same ↦ absurd (apart (sym ((text_eq_iff name k).0 same)))
  | inr other ↦ rw other h
]

moved_back :
    (name : Text) (seen bound : List Text) (k : Text)
    → Member k (name ∷ bound) ⊎ Member k seen
    → Member k bound ⊎ Member k (name ∷ seen)
moved_back name seen bound k (inl (inl e)) = inr (inl e)
moved_back name seen bound k (inl (inr m)) = inl m
moved_back name seen bound k (inr m) = inr (inr m)

bindings_pass :
    (seen : List Text) (bindings : Bindings)
    → IsComplete seen bindings
    → bindings_violation seen bindings ≡ none
unfolding bindings_violation
bindings_pass seen [] h =
    ap required_violation (required_contained required_gcp_assertions seen h.required)
bindings_pass seen ((name, value) ∷ bindings) h = rw h.fresh.0 (
    bindings_pass (name ∷ seen) bindings (record {
      distinct = h.distinct.1;
      fresh =
          All-mono (λ k. (text_contains seen k ≡ false) × (k ≢ name))
            (λ k. text_contains (name ∷ seen) k ≡ false) (names bindings)
            (λ k p. still_unseen name seen k p.0 p.1)
            (All-both _ _ (names bindings) h.fresh.1 h.distinct.0);
      required =
          All-mono _ (λ k. Member k (names bindings) ⊎ Member k (name ∷ seen))
            required_gcp_assertions (λ k. moved_back name seen (names bindings) k) h.required;
    }))

tokens_of_printed :
    (c : Conjunction)
    → tokens_violation (some (printed c))
      ≡ parsed_violation (parse_expression (suc max_gcp_paren_depth) (printed c))
tokens_of_printed (last (equality n v)) = refl
tokens_of_printed (last (flipped n v)) = refl
tokens_of_printed (last (group c)) = refl
tokens_of_printed (both (equality n v) c) = refl
tokens_of_printed (both (flipped n v) c) = refl
tokens_of_printed (both (group d) c) = refl

parsed_whole :
    (c : Conjunction)
    → Fits (suc max_gcp_paren_depth) c
    → parse_expression (suc max_gcp_paren_depth) (printed c) ≡ some (bindings_in c, [])
parsed_whole c fits =
    ap (parse_expression _) (sym (append-nil (printed c)))
    ∙ parse_expression_complete _ c [] tt fits

conjunction_passes :
    (condition : Text) (c : Conjunction)
    → IsConjunctionOf condition c
    → tokens_violation (tokenize_gcp_condition condition) ≡ none
conjunction_passes condition c h =
    ap tokens_violation h.spelled
    ∙ tokens_of_printed c
    ∙ ap parsed_violation (parsed_whole c h.fits)
    ∙ bindings_pass [] (bindings_in c) h.complete

-- A condition has no violation exactly when its tokens are those of a conjunction of equalities,
-- with at most sixteen levels of parentheses, each of an assertion and a literal value, in which
-- no assertion is bound twice and the required ones are bound.
pub gcp_condition_iff :
    (condition : Text)
    → (gcp_condition_violation (some condition) ≡ none)
      ↔ ((c : Conjunction) × IsConjunctionOf condition c)
unfolding gcp_condition_violation
gcp_condition_iff condition =
    (tokens-IsConjunctionOf condition _ refl, λ (c, h). conjunction_passes condition c h)
