-- ===== src/Policies/Oidc/Bound.antt =====
-- What a subject that packages/policies/src/github/g-oidc-1.ts accepts says.
use hulumi.Prelude.{
  ℕ, Bool, true, false, not, Option, none, some, List, [], ◌∷◌, ◌++◌, map, Text, lit, text_eq,
  text_eq_iff, lookup, starts_with, any, split_on, split_from, All, All-mono, AllDistinct,
  Bool-cases, Option-cases, or-eq-false, is_some, ◌==◌, ==_iff, ◌≡◌, ◌≢◌, ◌⊎◌, inl, inr, refl, sym,
  ap, subst, ◌∙◌, arith, get_or_else, if◌then◌else◌,
}
use hulumi.Prelude.Result.{Result, ok, err, bind-eq-ok, if_err-eq-ok, ok-injective}
use mathlib.Core.List.{reverse, reverse-cons, append-nil, append_assoc}
use hulumi.Policies.Urn.{is_empty}
use hulumi.Policies.Oidc.{
  Claims, SubjectViolation, is_subject_key, is_owner_repository, is_workflow_ref, is_unsafe_value,
  add_claim, parse_pairs, parse_subject, sub_claim_is_unsafe, aws_claims_violation,
  aws_subject_violation, missing, required_aws_subject_keys, after_missing, violation_of, is_one,
  is_malformed_ref,
}

abbrev pub joined : ℕ → List Text → Text
joined sep [] = []
joined sep (part ∷ []) = part
joined sep (part ∷ next ∷ parts) = part ++ (sep ∷ joined sep (next ∷ parts))

abbrev pub flat : Claims → List Text
flat [] = []
flat ((key, value) ∷ claims) = key ∷ value ∷ flat claims

abbrev pub keys : Claims → List Text
keys claims = map (λ claim. claim.0) claims

joined-cons :
    (sep : ℕ) (part : Text) (s left : Text)
    → joined sep (part ∷ split_from sep left s) ≡ part ++ (sep ∷ joined sep (split_from sep left s))
unfolding split_from
joined-cons sep part [] left = refl
joined-cons sep part (c ∷ s) left = elim (Bool-cases (c == sep)) [
  | inl e ↦ rw e refl
  | inr e ↦ rw e (joined-cons sep part s (c ∷ left))
]

reverse-unit : (c : ℕ) (part s : Text) → reverse (c ∷ part) ++ s ≡ reverse part ++ (c ∷ s)
reverse-unit c part s =
    ap (λ t. t ++ s) (reverse-cons c part) ∙ append_assoc (reverse part) (c ∷ []) s

joined-split_from :
    (sep : ℕ) (part s : Text) → joined sep (split_from sep part s) ≡ reverse part ++ s
unfolding split_from
joined-split_from sep part [] = sym (append-nil (reverse part))
joined-split_from sep part (c ∷ s) = elim (Bool-cases (c == sep)) [
  | inl e ↦ rw e (
      joined-cons sep (reverse part) s []
      ∙ ap (λ t. reverse part ++ (sep ∷ t)) (joined-split_from sep [] s)
      ∙ ap (λ x. reverse part ++ (x ∷ s)) (sym ((==_iff c sep).0 e)))
  | inr e ↦ rw e (joined-split_from sep (c ∷ part) s ∙ reverse-unit c part s)
]

-- One claim is added when each test lets it through.
add_claim_ok :
    (seen : Claims) (key value : Text) (rest : Result SubjectViolation Claims) (claims : Claims)
    → add_claim seen key value rest ≡ ok claims
    → (is_subject_key key ≡ true)
      × (is_some (lookup key seen) ≡ false)
      × (is_unsafe_value value ≡ false)
      × (more : Claims) × (rest ≡ ok more)
      × ((key, value) ∷ more ≡ claims)
add_claim_ok seen key value rest claims h =
    let (good, h1) = if_err-eq-ok (not (is_subject_key key)) _ _ claims h in
    let (fresh, h2) = if_err-eq-ok (is_some (lookup key seen)) _ _ claims h1 in
    let (literal, h3) = if_err-eq-ok (is_unsafe_value value) _ _ claims h2 in
    let (more, is_more, same) = bind-eq-ok rest _ claims h3 in
    (ground arith, fresh, literal, more, is_more, cc)

-- What holds of the claims of the parts.
record IsParsed (seen : Claims) (parts : List Text) (claims : Claims) : Type 0 where
  spelled : flat claims ≡ parts
  fresh : All (λ c. is_some (lookup c.0 seen) ≡ false) claims
  literal : All (λ c. (is_subject_key c.0 ≡ true) × (is_unsafe_value c.1 ≡ false)) claims
  distinct : AllDistinct (keys claims)

All-keys :
    (claims : Claims) (key : Text) → All (λ c. c.0 ≢ key) claims → All (λ k. k ≢ key) (keys claims)
All-keys [] key h = tt
All-keys (c ∷ claims) key (p, h) = (p, All-keys claims key h)

unseen :
    (seen : Claims) (key value : Text) (c : Text)
    → is_some (lookup c ((key, value) ∷ seen)) ≡ false
    → (is_some (lookup c seen) ≡ false) × (c ≢ key)
unfolding lookup
unseen seen key value c h = elim (Bool-cases (text_eq key c)) [
  | inl e ↦ let k = rw e at h in cc
  | inr e ↦ (rw e at h, λ same. cc (e, (text_eq_iff key c).1 (sym same)))
]

parse_pairs-IsParsed :
    (seen : Claims) (parts : List Text) (claims : Claims)
    → parse_pairs seen parts ≡ ok claims
    → IsParsed seen parts claims
unfolding parse_pairs
parse_pairs-IsParsed seen [] claims h =
    subst (IsParsed seen []) (ok-injective [] claims (ok []) refl h)
      (record { spelled = refl; fresh = tt; literal = tt; distinct = tt })
parse_pairs-IsParsed seen (key ∷ []) claims h = cc
parse_pairs-IsParsed seen (key ∷ value ∷ parts) claims h =
    let (good, fresh, literal, more, is_more, same) = add_claim_ok seen key value _ claims h in
    let later = parse_pairs-IsParsed ((key, value) ∷ seen) parts more is_more in
    let apart =
      All-mono _ (λ c. (is_some (lookup c.0 seen) ≡ false) × (c.0 ≢ key)) more
        (λ c. unseen seen key value c.0) later.fresh in
    subst (IsParsed seen (key ∷ value ∷ parts)) same (record {
      spelled = ap (λ ps. key ∷ value ∷ ps) later.spelled;
      fresh = (fresh, All-mono _ (λ c. is_some (lookup c.0 seen) ≡ false) more (λ c p. p.0) apart);
      literal = ((good, literal), later.literal);
      distinct =
          (All-keys more key (All-mono _ (λ c. c.0 ≢ key) more (λ c p. p.1) apart), later.distinct);
    })

-- An accepted subject is what its claims spell; it has no wildcard, and no key comes twice.
pub record IsExact (subject : Text) (claims : Claims) : Type 0 where
  pub spelled : joined b':' (flat claims) ≡ subject
  pub no_wildcard : any (λ c. c == b'*') subject ≡ false
  pub literal : All (λ c. (is_subject_key c.0 ≡ true) × (is_unsafe_value c.1 ≡ false)) claims
  pub distinct : AllDistinct (keys claims)

parse_subject-IsExact :
    (subject : Text) (claims : Claims)
    → parse_subject (some subject) ≡ ok claims
    → IsExact subject claims
unfolding parse_subject split_on sub_claim_is_unsafe
parse_subject-IsExact subject claims h =
    let (_, h1) = if_err-eq-ok (is_empty subject) _ _ claims h in
    let (_, h2) = if_err-eq-ok _ _ _ claims h1 in
    let (safe, h3) = if_err-eq-ok (sub_claim_is_unsafe subject) _ _ claims h2 in
    let (_, h4) = if_err-eq-ok _ _ _ claims h3 in
    let parsed = parse_pairs-IsParsed [] (split_on b':' subject) claims h4 in
    record {
      spelled = ap (joined b':') parsed.spelled ∙ joined-split_from b':' [] subject;
      no_wildcard = (or-eq-false _ _ safe).1;
      literal = parsed.literal;
      distinct = parsed.distinct;
    }

-- The claims of AWS: a repository, a workflow and one context.
pub record IsBound (claims : Claims) : Type 0 where
  pub repository :
      (v : Text) × (lookup (lit "repo") claims ≡ some v) × (is_owner_repository v ≡ true)
  pub workflow :
      (v : Text) × (lookup (lit "job_workflow_ref") claims ≡ some v) × (is_workflow_ref v ≡ true)
  pub context :
      ((v : Text) × (lookup (lit "environment") claims ≡ some v)
        × (lookup (lit "ref") claims ≡ none))
      ⊎ ((v : Text) × (lookup (lit "ref") claims ≡ some v)
          × (starts_with v (lit "refs/") ≡ true)
          × (lookup (lit "environment") claims ≡ none))

after_missing_none :
    (keys : List Text) (next : Option SubjectViolation)
    → after_missing keys next ≡ none
    → (keys ≡ []) × (next ≡ none)
after_missing_none [] next h = (refl, h)
after_missing_none (k ∷ keys) next h = cc

missing-found :
    (required : List Text) (claims : Claims)
    → missing required claims ≡ []
    → All (λ k. (v : Text) × (lookup k claims ≡ some v)) required
unfolding missing
missing-found [] claims h = tt
missing-found (k ∷ required) claims h = elim (Option-cases (lookup k claims)) [
  | inl e ↦ let absent = rw e at h in cc
  | inr (v, e) ↦ ((v, e), missing-found required claims (rw e at h))
]

if_some-eq-none :
    {E : Type 0} (bad : Bool) (e : E) (m : Option E)
    → (if bad then some e else m) ≡ none
    → (bad ≡ false) × (m ≡ none)
if_some-eq-none true e m h = cc
if_some-eq-none false e m h = (refl, h)

some-eq : (w v : Text) → some w ≡ some v → w ≡ v
some-eq w v e = cc

value-eq-true :
    (test : Text → Bool) (found : Option Text) (v : Text)
    → found ≡ some v
    → not (test (get_or_else found [])) ≡ false
    → test v ≡ true
value-eq-true test none v e h = cc
value-eq-true test (some w) v e h = elim (Bool-cases (test w)) [
  | inl good ↦ ap test (sym (some-eq w v e)) ∙ good
  | inr bad ↦ let k = rw bad at h in cc
]

one_context :
    (environment ref : Option Text)
    → not (is_one (is_some environment) (is_some ref)) ≡ false
    → is_malformed_ref ref ≡ false
    → ((v : Text) × (environment ≡ some v) × (ref ≡ none))
      ⊎ ((v : Text) × (ref ≡ some v) × (starts_with v (lit "refs/") ≡ true) × (environment ≡ none))
one_context none none h k = cc
one_context none (some ref) h k = inr (ref, refl, ground arith, refl)
one_context (some e) none h k = inl (e, refl, refl)
one_context (some e) (some ref) h k = cc

aws_claims-IsBound : (claims : Claims) → aws_claims_violation claims ≡ none → IsBound claims
unfolding aws_claims_violation
aws_claims-IsBound claims h =
    let (complete, h0) = after_missing_none (missing required_aws_subject_keys claims) _ h in
    let found = missing-found required_aws_subject_keys claims complete in
    let (repo, is_repo) = found.0 in
    let (workflow, is_workflow) = found.1.0 in
    let (one, h1) = if_some-eq-none _ _ _ h0 in
    let (good_repo, h2) = if_some-eq-none _ _ _ h1 in
    let (good_workflow, h3) = if_some-eq-none _ _ _ h2 in
    let (good_ref, _) = if_some-eq-none _ _ _ h3 in
    record {
      repository = (repo, is_repo, value-eq-true is_owner_repository _ repo is_repo good_repo);
      workflow = (
        workflow,
        is_workflow,
        value-eq-true is_workflow_ref _ workflow is_workflow good_workflow,
      );
      context =
          one_context (lookup (lit "environment") claims) (lookup (lit "ref") claims) one good_ref;
    }

aws_subject_none :
    (parsed : Result SubjectViolation Claims)
    → violation_of aws_claims_violation parsed ≡ none
    → (claims : Claims) × (parsed ≡ ok claims) × (aws_claims_violation claims ≡ none)
aws_subject_none (ok claims) h = (claims, refl, h)
aws_subject_none (err e) h = cc

-- A subject without a violation for AWS is spelled by claims with distinct keys and literal values,
-- among which are an exact repository, a workflow at an exact branch or tag, and exactly one of an
-- environment and a ref.
pub aws_subject-IsBound :
    (subject : Text)
    → aws_subject_violation (some subject) ≡ none
    → (claims : Claims) × IsExact subject claims × IsBound claims
unfolding aws_subject_violation
aws_subject-IsBound subject h =
    let (claims, parsed, bound) = aws_subject_none (parse_subject (some subject)) h in
    (claims, parse_subject-IsExact subject claims parsed, aws_claims-IsBound claims bound)
