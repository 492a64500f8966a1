-- ===== src/Cidr/Coverage.antt =====
-- The merge of the sorted blocks decides coverage (packages/k8s-baseline/src/cidr-coverage.ts).
use hulumi.Prelude.{
  ℕ, ◌+◌, ◌≤◌, ◌<◌, true, false, none, some, List, [], ◌∷◌, Text, leb, ltb, if◌then◌else◌,
  Bool-cases, Option-cases, ltb→lt, Any, ◌≡◌, ◌↔◌, ◌⊎◌, inl, inr, refl, arith,
}
use hulumi.Cidr.{
  IpFamily, ipv4, ipv6, ParsedCidr, max_of, merge_blocks, sort_blocks, family_covered, by_family,
  merge_sorted, reaches, parse_cidr, ParsedAll, blocks, malformed_at, add_block, parse_all,
  coverage_of, analyze_cidr_coverage,
}
use hulumi.Cidr.Sorting.{InSome, StartsFrom, IsSorted, sort_blocks-IsSorted, InSome-sort_blocks}

-- What the merge counts as covered is covered by the blocks, or was before.
merge_blocks_sound :
    (covered : ℕ) (bs : List ParsedCidr) (a : ℕ)
    → a ≤ merge_blocks covered bs
    → (a ≤ covered) ⊎ InSome a bs
unfolding merge_blocks
merge_blocks_sound covered [] a h = inl h
merge_blocks_sound covered (next ∷ rest) a h =
    ground (arith, merge_blocks_sound (if ltb covered next.end then next.end else covered) rest a)

InSome-StartsFrom : (a n : ℕ) (bs : List ParsedCidr) → StartsFrom n bs → InSome a bs → n ≤ a
InSome-StartsFrom a n [] h k = elim k [ ]
InSome-StartsFrom a n (b ∷ bs) (h, hs) (inl (k, _)) = omega arith
InSome-StartsFrom a n (b ∷ bs) (h, hs) (inr k) = InSome-StartsFrom a n bs hs k

above_next :
    (last covered : ℕ) (next : ParsedCidr) (rest : List ParsedCidr)
    → ((a : ℕ) → covered < a → a ≤ last → InSome a (next ∷ rest))
    → (a : ℕ) → (if ltb covered next.end then next.end else covered) < a
    → a ≤ last
    → InSome a rest
above_next last covered next rest all a above le = elim (all a (ground arith) le) [
  | inl k ↦ absurd (ground (arith, k))
  | inr r ↦ r
]

-- If the sorted blocks cover all that lies above `covered`, up to the last address, then the merge
-- reaches the last address.
merge_blocks_complete :
    (last covered : ℕ) (bs : List ParsedCidr)
    → IsSorted bs
    → ((a : ℕ) → covered < a → a ≤ last → InSome a bs)
    → last ≤ merge_blocks covered bs
unfolding merge_blocks
merge_blocks_complete last covered [] sorted all = elim (Bool-cases (leb last covered)) [
  | inl le ↦ ground arith
  | inr gt ↦ absurd (all last (ground arith) (omega arith))
]
merge_blocks_complete last covered (next ∷ rest) (starts, sorted) all =
    elim (Bool-cases (ltb (covered + 1) next.start)) [
      | inl gap ↦ rw gap (elim (Bool-cases (leb last covered)) [
        | inl le ↦ ground arith
        | inr gt ↦ absurd (
            omega (
              arith,
              InSome-StartsFrom (covered + 1) next.start (next ∷ rest) (omega arith, starts)
                  (all (covered + 1) (omega arith) (ground arith)),
              ltb→lt _ _ gap,
            ))
      ])
      | inr joined ↦ rw joined (
          merge_blocks_complete last (if ltb covered next.end then next.end else covered) rest
            sorted (above_next last covered next rest all))
    ]

above_first :
    (last : ℕ) (first : ParsedCidr) (rest : List ParsedCidr)
    → ((a : ℕ) → a ≤ last → InSome a (first ∷ rest))
    → (a : ℕ) → first.end < a
    → a ≤ last
    → InSome a rest
above_first last first rest all a above le = elim (all a le) [
  | inl k ↦ absurd (omega (arith, k))
  | inr r ↦ r
]

-- Every address of the family lies in one of the blocks.
abbrev pub CoversSpace : IpFamily → List ParsedCidr → Type 0
CoversSpace family bs = (a : ℕ) → a ≤ max_of family → InSome a bs

module _ (last : ℕ) where
  merge_sorted_sound :
      (bs : List ParsedCidr) (a : ℕ)
      → reaches last (merge_sorted bs) ≡ true
      → a ≤ last
      → InSome a bs
  merge_sorted_sound [] a h le = cc
  merge_sorted_sound (first ∷ rest) a h le =
      elim (merge_blocks_sound first.end rest a (ground arith)) [
        | inl k ↦ inl (ground arith, k)
        | inr k ↦ inr k
      ]

  merge_sorted_complete :
      (bs : List ParsedCidr)
      → IsSorted bs
      → ((a : ℕ) → a ≤ last → InSome a bs)
      → reaches last (merge_sorted bs) ≡ true
  merge_sorted_complete [] sorted all = absurd (all 0 (omega arith))
  merge_sorted_complete (first ∷ rest) (starts, sorted) all =
      let zero_start =
        InSome-StartsFrom 0 first.start (first ∷ rest) (omega arith, starts)
          (all 0 (omega arith)) in
      ground
        (arith, merge_blocks_complete last first.end rest sorted (above_first last first rest all))

family_covered_iff :
    (family : IpFamily) (bs : List ParsedCidr)
    → (family_covered family bs ≡ true) ↔ CoversSpace family bs
unfolding family_covered
family_covered_iff family bs = (
  λ h a le.
      (InSome-sort_blocks a bs).0 (merge_sorted_sound (max_of family) (sort_blocks bs) a h le),
  λ all.
      merge_sorted_complete (max_of family) (sort_blocks bs) (sort_blocks-IsSorted bs)
        (λ a le. (InSome-sort_blocks a bs).1 (all a le)),
)

-- For a list of well-formed blocks, coverage of the internet is reported exactly when the blocks of
-- one family together contain every address of that family, however the space is split.
pub covers_internet_iff :
    (values : List Text) (bs : List ParsedCidr)
    → parse_all values ≡ blocks bs
    → ((analyze_cidr_coverage values).covers_internet ≡ true)
      ↔ (CoversSpace ipv4 (by_family ipv4 bs) ⊎ CoversSpace ipv6 (by_family ipv6 bs))
unfolding analyze_cidr_coverage coverage_of
covers_internet_iff values bs parsed = rw parsed (
    ground (
      arith,
      family_covered_iff ipv4 (by_family ipv4 bs),
      family_covered_iff ipv6 (by_family ipv6 bs),
    ))

parse_all-malformed :
    (values : List Text) (raw : Text)
    → parse_all values ≡ malformed_at raw
    → Any (λ v. (v ≡ raw) × (parse_cidr v ≡ none)) values
unfolding parse_all
parse_all-malformed [] raw h = cc
parse_all-malformed (v ∷ values) raw h = elim (Option-cases (parse_cidr v)) [
  | inl bad ↦ inl (ground arith, bad)
  | inr (b, good) ↦
      inr (parse_all-malformed values raw (rest b (parse_all values) (rw (good, parse_all) at h)))
]
  where
    rest :
        (b : ParsedCidr) (r : ParsedAll) → add_block b r ≡ malformed_at raw → r ≡ malformed_at raw
    rest b (blocks bs) e = cc
    rest b (malformed_at x) e = e

coverage_of-malformed :
    (p : ParsedAll) (raw : Text) → (coverage_of p).malformed ≡ some raw → p ≡ malformed_at raw
unfolding coverage_of
coverage_of-malformed (malformed_at x) raw h = ground arith
coverage_of-malformed (blocks bs) raw h = ground arith

-- A text is reported as malformed only if it is one of those given and does not parse, and then no
-- coverage is claimed.
pub malformed_sound :
    (values : List Text) (raw : Text)
    → (analyze_cidr_coverage values).malformed ≡ some raw
    → Any (λ v. (v ≡ raw) × (parse_cidr v ≡ none)) values
      × ((analyze_cidr_coverage values).covers_internet ≡ false)
unfolding analyze_cidr_coverage coverage_of
malformed_sound values raw h =
    let e = coverage_of-malformed (parse_all values) raw h in
    (parse_all-malformed values raw e, rw e refl)
