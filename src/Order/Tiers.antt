-- ===== src/Order/Tiers.antt =====
-- Which price tier the loops of requested-service-package.entity.ts find.
use mathlib.Core.List.{Memᴰ}
use mathlib.Core.Path.{subst}
use mathlib.Core.Option.{some-injective}
use native.Mathlib.Nat.{le_refl}
use vz.Common.{
  ℕ, zero, suc, ◌≤◌, ◌<◌, ◌≡◌, refl, sym, ◌∙◌, ◌⊎◌, inl, inr, Option, none, some, List, [], ◌∷◌,
  arith, All, length, get_elem?, leb, if◌then◌else◌, sort_by, Option-cases,
}
use vz.Common.Sort.{
  IsSorted, IsSorted-head, IsSorted-tail, sort_by-IsSorted, All-sort_by, sort_by-All,
}
use vz.Order.Quotation.{
  ConsumerQuotation, scan_tiers, lowest_tier, lowest_consumer_quotation_tier_based_on_quantity,
}

module _ {A : Type 0} (min_quantity : A → ℕ) where
  -- The loop as a recursion on the list.
  last_reached : ℕ → List A → Option A
  last_reached q [] = none
  last_reached q (x ∷ xs) = elim (last_reached q xs) [
    | some t ↦ some t
    | none ↦ if leb (min_quantity x) q then some x else none
  ]

  scan_tiers-cons :
      (q : ℕ) (x : A) (xs : List A) (n : ℕ)
      → scan_tiers min_quantity q (x ∷ xs) (suc n) ≡ elim (scan_tiers min_quantity q xs n) [
        | some t ↦ some t
        | none ↦ if leb (min_quantity x) q then some x else none
      ]
  unfolding scan_tiers
  scan_tiers-cons q x xs zero = refl
  scan_tiers-cons q x xs (suc n) = ground (arith, scan_tiers-cons q x xs n)

  scan_tiers-eq :
      (q : ℕ) (xs : List A) → scan_tiers min_quantity q xs (length xs) ≡ last_reached q xs
  unfolding last_reached
  scan_tiers-eq q [] = unfold scan_tiers in refl
  scan_tiers-eq q (x ∷ xs) = rw (scan_tiers-cons q x xs (length xs), scan_tiers-eq q xs)

  -- The members that `q` reaches, and the tier among them.
  abbrev pub IsLowest : ℕ → List A → A → Type 0
  IsLowest q xs t =
      Memᴰ t xs
      × (min_quantity t ≤ q)
      × All (λ x. min_quantity x ≤ q → min_quantity x ≤ min_quantity t) xs

  abbrev pub IsUnreached : ℕ → List A → Type 0
  IsUnreached q xs = All (λ x. q < min_quantity x) xs

  last_reached-none : (q : ℕ) (xs : List A) → last_reached q xs ≡ none → IsUnreached q xs
  unfolding last_reached
  last_reached-none q [] h = tt
  last_reached-none q (x ∷ xs) h = ground (arith, last_reached-none q xs)

  unreached :
      (q m : ℕ) (xs : List A)
      → IsUnreached q xs
      → All (λ x. min_quantity x ≤ q → min_quantity x ≤ m) xs
  unreached q m [] h = tt
  unreached q m (x ∷ xs) h = (omega arith, unreached q m xs h.1)

  Memᴰ-All {κ} : (P : A → Type κ) (xs : List A) {t : A} → Memᴰ t xs → All P xs → P t
  Memᴰ-All P [] m h = elim m [ ]
  Memᴰ-All P (x ∷ xs) (Memᴰ.head e) h = rw e h.0
  Memᴰ-All P (x ∷ xs) (Memᴰ.tail m) h = Memᴰ-All P xs m h.1

  only :
      {q : ℕ} (x : A) (xs : List A) (t : A)
      → last_reached q xs ≡ none
      → last_reached q (x ∷ xs) ≡ some t
      → (x ≡ t) × (min_quantity x ≤ q)
  unfolding last_reached
  only x xs t n h = ground arith

  All-self : (xs : List A) → All (λ y. Memᴰ y xs) xs
  All-self [] = tt
  All-self (x ∷ xs) = (Memᴰ.head refl, weaken xs (All-self xs))
    where
      weaken : (ys : List A) → All (λ y. Memᴰ y xs) ys → All (λ y. Memᴰ y (x ∷ xs)) ys
      weaken [] h = tt
      weaken (y ∷ ys) h = (Memᴰ.tail h.0, weaken ys h.1)

  last_reached-some :
      (q : ℕ) (xs : List A) (t : A)
      → IsSorted min_quantity xs
      → last_reached q xs ≡ some t
      → IsLowest q xs t
  unfolding last_reached
  last_reached-some q [] t s h = cc
  last_reached-some q (x ∷ xs) t s h = elim (Option-cases (last_reached q xs)) [
    | inl unseen ↦
        let one = only x xs t unseen h in
        (
          Memᴰ.head (sym one.0),
          rw (← one.0) one.1,
          (
            λ _. rw one.0 (le_refl _),
            unreached q (min_quantity t) xs (last_reached-none q xs unseen),
          ),
        )
    | inr (u, found) ↦
        let tail = last_reached-some q xs u (IsSorted-tail min_quantity x xs s) found in
        let e : u ≡ t = ground arith in
        subst (IsLowest q (x ∷ xs)) e (
          Memᴰ.tail tail.0,
          tail.1,
          (
            λ _.
                Memᴰ-All (λ y. min_quantity x ≤ min_quantity y) xs tail.0
                  (IsSorted-head min_quantity x xs s),
            tail.2,
          ),
        )
  ]

  first :
      (xs : List A) (t : A)
      → IsSorted min_quantity xs
      → get_elem? xs 0 ≡ some t
      → Memᴰ t xs × All (λ x. min_quantity t ≤ min_quantity x) xs
  first [] t s h = cc
  first (x ∷ xs) t s h =
      subst (λ u. Memᴰ u (x ∷ xs) × All (λ y. min_quantity u ≤ min_quantity y) (x ∷ xs))
        (some-injective _ _ h) (Memᴰ.head refl, (le_refl _, IsSorted-head min_quantity x xs s))

  lowest_tier-eq :
      (q : ℕ) (xs : List A)
      → lowest_tier min_quantity q xs xs
        ≡ elim (last_reached q xs) [ some t ↦ some t | none ↦ get_elem? xs 0 ]
  unfolding lowest_tier
  lowest_tier-eq q xs = rw (scan_tiers-eq q xs, lowest_tier)

  -- A tier of the sorted list, carried back to the list.
  module _ (q : ℕ) (xs : List A) where
    abbrev sorted : List A
    sorted = sort_by min_quantity xs

    member : {t : A} → Memᴰ t sorted → Memᴰ t xs
    member m = Memᴰ-All (λ y. Memᴰ y xs) sorted m (All-sort_by min_quantity _ xs (All-self xs))

    -- The search in the sorted list finds a member that is reached, with no reached tier above
    -- it; or no tier is reached, and it finds a member with the smallest minimum.
    abbrev pub IsTier : A → Type 0
    IsTier t =
        IsLowest q xs t
        ⊎ (Memᴰ t xs × IsUnreached q xs × All (λ x. min_quantity t ≤ min_quantity x) xs)

    pub lowest_tier-IsTier : (t : A) → lowest_tier min_quantity q sorted sorted ≡ some t → IsTier t
    lowest_tier-IsTier t h =
        let h' = sym (lowest_tier-eq q sorted) ∙ h in
        elim (Option-cases (last_reached q sorted)) [
          | inl unseen ↦
              let e : get_elem? sorted 0 ≡ some t = rw unseen at h' in
              let (m, low) = first sorted t (sort_by-IsSorted min_quantity xs) e in
              inr (
                member m,
                sort_by-All min_quantity _ xs (last_reached-none q sorted unseen),
                sort_by-All min_quantity _ xs low,
              )
          | inr (u, found) ↦
              let e : some u ≡ some t = rw found at h' in
              let (m, reached, top) =
                last_reached-some q sorted u (sort_by-IsSorted min_quantity xs) found in
              subst IsTier (some-injective _ _ e)
                (inl (member m, reached, sort_by-All min_quantity _ xs top))
        ]

-- The tier of the consumer's quotations for a quantity, found by a sort and a loop from the end, is
-- one of them. Its minimum is reached and no quotation that is reached has a greater minimum; or
-- none is reached, and no quotation has a smaller minimum.
pub lowest_consumer_quotation_tier_based_on_quantity_lem :
    (quantity : ℕ) (quotations : List ConsumerQuotation) (t : ConsumerQuotation)
    → lowest_consumer_quotation_tier_based_on_quantity quantity quotations ≡ some t
    → IsTier (λ q. q.min_quantity) quantity quotations t
unfolding lowest_consumer_quotation_tier_based_on_quantity
lowest_consumer_quotation_tier_based_on_quantity_lem quantity quotations t h =
    lowest_tier-IsTier (λ q. q.min_quantity) quantity quotations t h
