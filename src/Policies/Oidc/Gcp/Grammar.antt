-- ===== src/Policies/Oidc/Gcp/Grammar.antt =====
-- The conjunctions of the conditions of GCP of packages/policies/src/github/g-oidc-1.ts, and their
-- tokens.
use hulumi.Prelude.{ℕ, zero, suc, true, List, [], ◌∷◌, ◌++◌, Text, ◌≡◌}
use hulumi.Policies.Oidc.Gcp.{
  GcpToken, identifier, string_token, and_token, equals_token, left_paren, right_paren, Bindings,
  is_binding,
}

mutual
  -- A conjunction of terms.
  pub data Conjunction : Type 0 where
    last : Term → Conjunction
    both : Term → Conjunction → Conjunction

  -- An equality, either way round, or a conjunction between parentheses.
  pub data Term : Type 0 where
    equality flipped : (name value : Text) → Term
    group : Conjunction → Term

abbrev mutual
  pub printed : Conjunction → List GcpToken
  printed (last t) = printed_term t
  printed (both t c) = printed_term t ++ (and_token ∷ printed c)

  pub printed_term : Term → List GcpToken
  printed_term (equality n v) = identifier n ∷ equals_token ∷ string_token v ∷ []
  printed_term (flipped n v) = string_token v ∷ equals_token ∷ identifier n ∷ []
  printed_term (group c) = left_paren ∷ (printed c ++ (right_paren ∷ []))

abbrev mutual
  pub bindings_in : Conjunction → Bindings
  bindings_in (last t) = bindings_of t
  bindings_in (both t c) = bindings_of t ++ bindings_in c

  pub bindings_of : Term → Bindings
  bindings_of (equality n v) = (n, v) ∷ []
  bindings_of (flipped n v) = (n, v) ∷ []
  bindings_of (group c) = bindings_in c

abbrev mutual
  -- A conjunction of so many levels, whose equalities are bindings.
  pub Fits : ℕ → Conjunction → Type 0
  Fits zero c = ⊥
  Fits (suc levels) (last t) = FitsTerm levels t
  Fits (suc levels) (both t c) = FitsTerm levels t × Fits (suc levels) c

  pub FitsTerm : ℕ → Term → Type 0
  FitsTerm levels (equality n v) = is_binding n v ≡ true
  FitsTerm levels (flipped n v) = is_binding n v ≡ true
  FitsTerm levels (group c) = Fits levels c
