-- ===== src/Common/Sorted.antt =====
-- The stable sort by a number: its result is in order, and a list in order is left as it is.
use vz.Common.{
  ℕ, ◌≤◌, ◌≡◌, refl, sym, ap, ◌∙◌, List, [], ◌∷◌, ◌++◌, arith, All, All-append, insert_by,
  sort_into, sort_by, ltb, inl, inr, Bool-cases,
}
use mathlib.Core.List.{append_assoc, append-nil}

module _ {ℓ} {A : Type ℓ} (key : A → ℕ) where
  -- No member is greater than one behind it.
  abbrev pub IsOrdered : List A → Type 0
  IsOrdered [] = Unit {0}
  IsOrdered (x ∷ xs) = All (λ y. key x ≤ key y) xs × IsOrdered xs

  All-weaken : (k m : ℕ) (xs : List A) → k ≤ m → All (λ y. m ≤ key y) xs → All (λ y. k ≤ key y) xs
  All-weaken k m [] le h = tt
  All-weaken k m (x ∷ xs) le h = (omega arith, All-weaken k m xs le h.1)

  All-insert_by :
      (k : ℕ) (a : A) (xs : List A)
      → k ≤ key a
      → All (λ y. k ≤ key y) xs
      → All (λ y. k ≤ key y) (insert_by key a xs)
  unfolding insert_by
  All-insert_by k a [] le h = (le, tt)
  All-insert_by k a (x ∷ xs) le h = elim (Bool-cases (ltb (key a) (key x))) [
    | inl less ↦ rw less (le, h)
    | inr more ↦ rw more (h.0, All-insert_by k a xs le h.1)
  ]

  insert_by-IsOrdered : (a : A) (xs : List A) → IsOrdered xs → IsOrdered (insert_by key a xs)
  unfolding insert_by
  insert_by-IsOrdered a [] h = (tt, tt)
  insert_by-IsOrdered a (x ∷ xs) h = elim (Bool-cases (ltb (key a) (key x))) [
    | inl less ↦
        let le : key a ≤ key x = ground arith in
        rw less ((le, All-weaken (key a) (key x) xs le h.0), h)
    | inr more ↦
        rw more (All-insert_by (key x) a xs (ground arith) h.0, insert_by-IsOrdered a xs h.1)
  ]

  sort_into-IsOrdered :
      (sorted rest : List A) → IsOrdered sorted → IsOrdered (sort_into key sorted rest)
  unfolding sort_into
  sort_into-IsOrdered sorted [] h = h
  sort_into-IsOrdered sorted (x ∷ rest) h =
      sort_into-IsOrdered (insert_by key x sorted) rest (insert_by-IsOrdered x sorted h)

  insert_by-last :
      (a : A) (xs : List A) → All (λ y. key y ≤ key a) xs → insert_by key a xs ≡ xs ++ (a ∷ [])
  unfolding insert_by
  insert_by-last a [] h = refl
  insert_by-last a (x ∷ xs) h = elim (Bool-cases (ltb (key a) (key x))) [
    | inl less ↦ absurd (ground arith)
    | inr more ↦ rw more (ap (x ∷◌) (insert_by-last a xs h.1))
  ]

  -- Every member of the second is at least as great as every member of the first.
  abbrev Follows : List A → List A → Type 0
  Follows xs ys = All (λ y. All (λ x. key x ≤ key y) xs) ys

  Follows-snoc :
      (xs : List A) (a : A) (ys : List A)
      → Follows xs ys
      → All (λ y. key a ≤ key y) ys
      → Follows (xs ++ (a ∷ [])) ys
  Follows-snoc xs a [] h k = tt
  Follows-snoc xs a (y ∷ ys) h k =
      (All-append (λ x. key x ≤ key y) xs (a ∷ []) h.0 (k.0, tt), Follows-snoc xs a ys h.1 k.1)

  sort_into-IsOrdered-eq :
      (sorted rest : List A)
      → Follows sorted rest
      → IsOrdered rest
      → sort_into key sorted rest ≡ sorted ++ rest
  unfolding sort_into
  sort_into-IsOrdered-eq sorted [] f h = sym (append-nil sorted)
  sort_into-IsOrdered-eq sorted (x ∷ rest) f h = rw (insert_by-last x sorted f.0) (
      sort_into-IsOrdered-eq (sorted ++ (x ∷ [])) rest (Follows-snoc sorted x rest f.1 h.0) h.1
      ∙ append_assoc sorted (x ∷ []) rest)

  Follows-nil : (ys : List A) → Follows [] ys
  Follows-nil [] = tt
  Follows-nil (y ∷ ys) = (tt, Follows-nil ys)

  pub sort_by-sort_by : (xs : List A) → sort_by key (sort_by key xs) ≡ sort_by key xs
  unfolding sort_by
  sort_by-sort_by xs =
      sort_into-IsOrdered-eq [] (sort_into key [] xs) (Follows-nil (sort_into key [] xs))
        (sort_into-IsOrdered [] xs tt)
