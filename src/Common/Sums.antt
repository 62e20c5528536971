-- ===== src/Common/Sums.antt =====
-- Sums of amounts over lists: the recursion that proofs use, and the loop from 0 that the code
-- makes of `reduce`.
use mathlib.Core.List.{foldl}
use vz.Common.{ℕ, zero, suc, ◌≡◌, ap, ◌∙◌, List, [], ◌∷◌, ◌++◌, arith, replicate}
use vz.Common.Int.{ℤ, pos, ◌+ℤ◌, ◌*ℤ◌, int_laws}

one_more : (n : ℕ) (a : ℤ) → a +ℤ pos n *ℤ a ≡ pos (suc n) *ℤ a
unfolding ◌*ℤ◌ ◌+ℤ◌
one_more n a = ground arith

module _ {ℓ} {A : Type ℓ} (f : A → ℤ) where
  abbrev pub sum_of : List A → ℤ
  sum_of [] = pos 0
  sum_of (x ∷ xs) = f x +ℤ sum_of xs

  foldl-sum_of_from : (a : ℤ) (xs : List A) → foldl (λ total x. total +ℤ f x) a xs ≡ a +ℤ sum_of xs
  foldl-sum_of_from a [] = grind int_laws
  foldl-sum_of_from a (x ∷ xs) = grind (int_laws, foldl-sum_of_from (a +ℤ f x) xs)

  pub foldl-sum_of : (xs : List A) → foldl (λ total x. total +ℤ f x) (pos 0) xs ≡ sum_of xs
  foldl-sum_of xs = grind (int_laws, foldl-sum_of_from (pos 0) xs)

  pub sum_of-append : (xs ys : List A) → sum_of (xs ++ ys) ≡ sum_of xs +ℤ sum_of ys
  sum_of-append [] ys = grind int_laws
  sum_of-append (x ∷ xs) ys = grind (int_laws, sum_of-append xs ys)

  pub sum_of-replicate : (n : ℕ) (x : A) → sum_of (replicate n x) ≡ pos n *ℤ f x
  sum_of-replicate zero x = unfold ◌*ℤ◌ in ground arith
  sum_of-replicate (suc n) x = ap (λ s. f x +ℤ s) (sum_of-replicate n x) ∙ one_more n (f x)
