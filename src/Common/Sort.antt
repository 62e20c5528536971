-- ===== src/Common/Sort.antt =====
-- The last member of a sorted list is the latest: the greatest key, and of several such members
-- the one that came last.
use vz.Common.{
  ℕ, ◌≤◌, ◌<◌, ◌≡◌, refl, some, List, [], ◌∷◌, ◌++◌, arith, All, last?, insert_by, sort_into,
  sort_by, ltb, if◌then◌else◌, inl, inr, Bool-cases,
}
use mathlib.Core.List.{append_assoc, append-nil}

module _ {ℓ} {A : Type ℓ} where
  pub All-append {κ} : (P : A → Type κ) (xs ys : List A) → All P xs → All P ys → All P (xs ++ ys)
  All-append P [] ys hx hy = hy
  All-append P (x ∷ xs) ys hx hy = (hx.0, All-append P xs ys hx.1 hy)

  module _ (key : A → ℕ) where
    -- `e` is a member of `xs`, no member has a greater key, and those behind it have a smaller one.
    abbrev pub Latest : List A → A → Type ℓ
    Latest xs e =
        (before : List A) × (after : List A) × (xs ≡ before ++ (e ∷ after))
        × All (λ x. key x ≤ key e) before
        × All (λ x. key x < key e) after

    abbrev pub IsSorted : List A → Type 0
    IsSorted [] = Unit
    IsSorted (x ∷ []) = Unit
    IsSorted (x ∷ y ∷ ys) = (key x ≤ key y) × IsSorted (y ∷ ys)

    le-last :
        (x : A) (xs : List A) {l : A} → IsSorted (x ∷ xs) → last? (x ∷ xs) ≡ some l → key x ≤ key l
    le-last x [] s e = ground arith
    le-last x (y ∷ ys) s e = omega (arith, le-last y ys s.1 e)

    insert_by-IsSorted : (a : A) (xs : List A) → IsSorted xs → IsSorted (insert_by key a xs)
    unfolding insert_by
    insert_by-IsSorted a [] s = tt
    insert_by-IsSorted a (x ∷ []) s = ground arith
    insert_by-IsSorted a (x ∷ y ∷ ys) s = ground (arith, insert_by-IsSorted a (y ∷ ys) s.1)

    last?-insert_by :
        (a : A) (xs : List A) (l : A)
        → IsSorted xs
        → last? xs ≡ some l
        → last? (insert_by key a xs) ≡ some (if ltb (key a) (key l) then l else a)
    unfolding insert_by
    last?-insert_by a [] l s e = ground arith
    last?-insert_by a (x ∷ []) l s e = ground arith
    last?-insert_by a (x ∷ y ∷ ys) l s e =
        ground (arith, last?-insert_by a (y ∷ ys) l s.1 e, le-last x (y ∷ ys) {l = l} s e)

    Latest-le : {xs : List A} {l : A} → Latest xs l → All (λ x. key x ≤ key l) xs
    Latest-le {l = l} (before, after, e, hb, ha) =
        rw e (All-append (λ x. key x ≤ key l) before (l ∷ after) hb (omega arith, weaken after ha))
      where
        weaken : (ys : List A) → All (λ x. key x < key l) ys → All (λ x. key x ≤ key l) ys
        weaken [] h = tt
        weaken (a ∷ ys) h = (omega arith, weaken ys h.1)

    All-le : (k m : ℕ) (xs : List A) → k ≤ m → All (λ x. key x ≤ k) xs → All (λ x. key x ≤ m) xs
    All-le k m [] le h = tt
    All-le k m (x ∷ xs) le h = (omega arith, All-le k m xs le h.1)

    Latest-snoc :
        (xs : List A) (l x : A)
        → Latest xs l
        → Latest (xs ++ (x ∷ [])) (if ltb (key x) (key l) then l else x)
    Latest-snoc xs l x h = elim (Bool-cases (ltb (key x) (key l))) [
      | inl older ↦ rw older (
        h.0,
        h.1 ++ (x ∷ []),
        rw h.2 (append_assoc h.0 (l ∷ h.1) (x ∷ [])),
        h.3,
        All-append (λ y. key y < key l) h.1 (x ∷ []) h.4 (ground arith, tt),
      )
      | inr newer ↦
          rw newer (xs, [], refl, All-le (key l) (key x) xs (ground arith) (Latest-le h), tt)
    ]

    sort_into-Latest :
        (sorted done rest : List A) (l : A)
        → IsSorted sorted
        → last? sorted ≡ some l
        → Latest done l
        → (e : A) × (last? (sort_into key sorted rest) ≡ some e) × Latest (done ++ rest) e
    unfolding sort_into
    sort_into-Latest sorted done [] l s e h = (l, e, rw append-nil h)
    sort_into-Latest sorted done (x ∷ xs) l s e h = rw (← append_assoc done (x ∷ []) xs) (
        sort_into-Latest (insert_by key x sorted) (done ++ (x ∷ [])) xs
          (if ltb (key x) (key l) then l else x) (insert_by-IsSorted x sorted s)
          (last?-insert_by x sorted l s e) (Latest-snoc done l x h))

    -- A list that is not empty has a last member after the sort, and that is the latest.
    pub last?-sort_by :
        (x : A) (xs : List A)
        → (e : A) × (last? (sort_by key (x ∷ xs)) ≡ some e) × Latest (x ∷ xs) e
    unfolding sort_by
    last?-sort_by x xs = sort_into-Latest (x ∷ []) (x ∷ []) xs x tt refl ([], [], refl, tt, tt)

    sort_into-IsSorted :
        (sorted rest : List A) → IsSorted sorted → IsSorted (sort_into key sorted rest)
    unfolding sort_into
    sort_into-IsSorted sorted [] s = s
    sort_into-IsSorted sorted (x ∷ xs) s =
        sort_into-IsSorted (insert_by key x sorted) xs (insert_by-IsSorted x sorted s)

    pub sort_by-IsSorted : (xs : List A) → IsSorted (sort_by key xs)
    unfolding sort_by
    sort_by-IsSorted xs = sort_into-IsSorted [] xs tt

    pub IsSorted-tail : (x : A) (xs : List A) → IsSorted (x ∷ xs) → IsSorted xs
    IsSorted-tail x [] s = tt
    IsSorted-tail x (y ∷ ys) s = s.1

    -- The head of a sorted list has the smallest key.
    pub IsSorted-head : (x : A) (xs : List A) → IsSorted (x ∷ xs) → All (λ y. key x ≤ key y) xs
    IsSorted-head x [] s = tt
    IsSorted-head x (y ∷ ys) s = (s.0, lower (key y) (key x) ys s.0 (IsSorted-head y ys s.1))
      where
        lower : (k m : ℕ) (zs : List A) → m ≤ k → All (λ z. k ≤ key z) zs → All (λ z. m ≤ key z) zs
        lower k m [] le h = tt
        lower k m (z ∷ zs) le h = (omega arith, lower k m zs le h.1)

    module _ {κ} (P : A → Type κ) where
      All-insert_by : (a : A) (xs : List A) → P a → All P xs → All P (insert_by key a xs)
      unfolding insert_by
      All-insert_by a [] p h = (p, h)
      All-insert_by a (x ∷ xs) p h = elim (Bool-cases (ltb (key a) (key x))) [
        | inl less ↦ rw less (p, h)
        | inr more ↦ rw more (h.0, All-insert_by a xs p h.1)
      ]

      insert_by-All : (a : A) (xs : List A) → All P (insert_by key a xs) → P a × All P xs
      unfolding insert_by
      insert_by-All a [] h = h
      insert_by-All a (x ∷ xs) h = elim (Bool-cases (ltb (key a) (key x))) [
        | inl less ↦ rw less at h
        | inr more ↦
            let h' : P x × All P (insert_by key a xs) = rw more at h in
            let (p, ps) = insert_by-All a xs h'.1 in (p, (h'.0, ps))
      ]

      All-sort_into :
          (sorted rest : List A) → All P sorted → All P rest → All P (sort_into key sorted rest)
      unfolding sort_into
      All-sort_into sorted [] hs hr = hs
      All-sort_into sorted (x ∷ xs) hs hr =
          All-sort_into (insert_by key x sorted) xs (All-insert_by x sorted hr.0 hs) hr.1

      sort_into-All :
          (sorted rest : List A) → All P (sort_into key sorted rest) → All P sorted × All P rest
      unfolding sort_into
      sort_into-All sorted [] h = (h, tt)
      sort_into-All sorted (x ∷ xs) h =
          let (here, there) = sort_into-All (insert_by key x sorted) xs h in
          let (p, ps) = insert_by-All x sorted here in (ps, (p, there))

      -- A sorted list has the members of the list.
      pub All-sort_by : (xs : List A) → All P xs → All P (sort_by key xs)
      unfolding sort_by
      All-sort_by xs h = All-sort_into [] xs tt h

      pub sort_by-All : (xs : List A) → All P (sort_by key xs) → All P xs
      unfolding sort_by
      sort_by-All xs h = (sort_into-All [] xs h).1
