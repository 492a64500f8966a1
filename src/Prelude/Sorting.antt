-- ===== src/Prelude/Sorting.antt =====
-- `values.sort(compare)`, which is stable: `le x y` says that `compare(x, y)` is not positive.
use mathlib.Core.Bool.{Bool}
use mathlib.Core.Logic.{◌⊎◌}
use mathlib.Core.List.{List, [], ◌∷◌}
use native.Mathlib.Omega.{arith}
use hulumi.Prelude.Tests.{if◌then◌else◌}
use hulumi.Prelude.Lists.{All, Any}

module _ {A : Type 0} (le : A → A → Bool) where
  unfoldable pub insert_by : A → List A → List A
  insert_by x [] = x ∷ []
  insert_by x (y ∷ ys) = let later = y ∷ insert_by x ys in if le x y then x ∷ y ∷ ys else later

  unfoldable pub sort_by : List A → List A
  unfolding insert_by
  sort_by [] = []
  sort_by (x ∷ xs) = insert_by x (sort_by xs)

  module _ (P : A → Type 0) where
    All-insert_by : (x : A) (ys : List A) → P x → All P ys → All P (insert_by x ys)
    unfolding insert_by
    All-insert_by x [] p h = (p, tt)
    All-insert_by x (y ∷ ys) p (q, h) = ground (arith, All-insert_by x ys p h)

    pub All-sort_by : (xs : List A) → All P xs → All P (sort_by xs)
    unfolding sort_by
    All-sort_by [] h = tt
    All-sort_by (x ∷ xs) (p, h) = All-insert_by x (sort_by xs) p (All-sort_by xs h)

    Any-insert_by : (x : A) (ys : List A) → P x ⊎ Any P ys → Any P (insert_by x ys)
    unfolding insert_by
    Any-insert_by x [] h = h
    Any-insert_by x (y ∷ ys) h = ground (arith, Any-insert_by x ys)

    pub Any-sort_by : (xs : List A) → Any P xs → Any P (sort_by xs)
    unfolding sort_by
    Any-sort_by [] h = h
    Any-sort_by (x ∷ xs) h = ground (arith, Any-insert_by x (sort_by xs), Any-sort_by xs)
