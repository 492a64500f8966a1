-- ===== src/Cidr/Sorting.antt =====
-- Sorting the blocks by their first address keeps them (packages/k8s-baseline/src/cidr-coverage.ts).
use hulumi.Prelude.{
  ℕ, ◌≤◌, List, [], ◌∷◌, leb, leb→le, Bool-cases, All, Any, ◌↔◌, ◌⊎◌, inl, inr, arith,
}
use hulumi.Cidr.{ParsedCidr, insert_block, sort_blocks}

-- An address lies in one of the blocks.
abbrev pub Contains : ℕ → ParsedCidr → Type 0
Contains a b = (b.start ≤ a) × (a ≤ b.end)

abbrev pub InSome : ℕ → List ParsedCidr → Type 0
InSome a bs = Any (Contains a) bs

abbrev pub StartsFrom : ℕ → List ParsedCidr → Type 0
StartsFrom n bs = All (λ b. n ≤ b.start) bs

abbrev pub IsSorted : List ParsedCidr → Type 0
IsSorted [] = Unit
IsSorted (b ∷ bs) = StartsFrom b.start bs × IsSorted bs

pub StartsFrom-le : (n m : ℕ) (bs : List ParsedCidr) → n ≤ m → StartsFrom m bs → StartsFrom n bs
StartsFrom-le n m [] le h = tt
StartsFrom-le n m (b ∷ bs) le (h, hs) = (omega arith, StartsFrom-le n m bs le hs)

insert_block-StartsFrom :
    (n : ℕ) (b : ParsedCidr) (bs : List ParsedCidr)
    → n ≤ b.start
    → StartsFrom n bs
    → StartsFrom n (insert_block b bs)
unfolding insert_block
insert_block-StartsFrom n b [] le h = (le, tt)
insert_block-StartsFrom n b (x ∷ xs) le (h, hs) =
    ground (arith, insert_block-StartsFrom n b xs le hs)

insert_block-IsSorted :
    (b : ParsedCidr) (bs : List ParsedCidr) → IsSorted bs → IsSorted (insert_block b bs)
unfolding insert_block
insert_block-IsSorted b [] h = (tt, tt)
insert_block-IsSorted b (x ∷ xs) (h, hs) = elim (Bool-cases (leb b.start x.start)) [
  | inl le ↦ rw le ((leb→le _ _ le, StartsFrom-le b.start x.start xs (leb→le _ _ le) h), (h, hs))
  | inr gt ↦
      rw gt (insert_block-StartsFrom x.start b xs (ground arith) h, insert_block-IsSorted b xs hs)
]

pub sort_blocks-IsSorted : (bs : List ParsedCidr) → IsSorted (sort_blocks bs)
unfolding sort_blocks
sort_blocks-IsSorted [] = tt
sort_blocks-IsSorted (b ∷ bs) = insert_block-IsSorted b (sort_blocks bs) (sort_blocks-IsSorted bs)

InSome-insert_block :
    (a : ℕ) (b : ParsedCidr) (bs : List ParsedCidr)
    → InSome a (insert_block b bs) ↔ (Contains a b ⊎ InSome a bs)
unfolding insert_block
InSome-insert_block a b [] = (λ h. h, λ h. h)
InSome-insert_block a b (x ∷ xs) = ground (arith, InSome-insert_block a b xs)

-- An address lies in one of the sorted blocks exactly when it lies in one of the blocks.
pub InSome-sort_blocks : (a : ℕ) (bs : List ParsedCidr) → InSome a (sort_blocks bs) ↔ InSome a bs
unfolding sort_blocks
InSome-sort_blocks a [] = (λ h. h, λ h. h)
InSome-sort_blocks a (b ∷ bs) =
    ground (arith, InSome-insert_block a b (sort_blocks bs), InSome-sort_blocks a bs)
