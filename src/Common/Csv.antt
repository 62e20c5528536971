-- ===== src/Common/Csv.antt =====
-- Texts as lists of code units, and lines of cells: how often a unit occurs, and how a line that
-- is joined of cells splits again.
use Prim.Native.String.{String}
use Prim.Native.Char.{code}
use mathlib.Core.List.{append-nil, append_assoc}
use vz.Common.{
  ℕ, zero, suc, ◌+◌, ◌-◌, ◌≤◌, ◌≡◌, refl, sym, true, false, ap, ◌∙◌, arith, List, [], ◌∷◌, ◌++◌,
  length, All, ◌==◌, if◌then◌else◌, Bool-cases, inl, inr,
}

abbrev pub Text : Type 0
Text = List ℕ

abbrev pub codes : String → Text
codes String.[] = []
codes (String.◌∷◌ c s) = code c ∷ codes s

abbrev pub take : ℕ → Text → Text
take zero xs = []
take (suc n) [] = []
take (suc n) (x ∷ xs) = x ∷ take n xs

abbrev pub drop : ℕ → Text → Text
drop zero xs = xs
drop (suc n) [] = []
drop (suc n) (x ∷ xs) = drop n xs

-- `t.replace(a, b)` with a text for `a` replaces its first occurrence.
unfoldable pub replace_first : ℕ → ℕ → Text → Text
replace_first a b [] = []
replace_first a b (c ∷ t) = if c == a then b ∷ t else c ∷ replace_first a b t

-- `cells.join(separator)`
unfoldable pub join : ℕ → List Text → Text
join a [] = []
join a (t ∷ []) = t
join a (t ∷ u ∷ ts) = t ++ (a ∷ join a (u ∷ ts))

unfoldable pub occurrences : ℕ → Text → ℕ
occurrences a [] = 0
occurrences a (c ∷ t) = (if c == a then 1 else 0) + occurrences a t

-- The cells that a reader of a line finds: it is cut at each separator.
unfoldable pub cut_from : ℕ → Text → Text → List Text
cut_from a cell [] = cell ∷ []
cut_from a cell (c ∷ t) = if c == a then cell ∷ cut_from a [] t else cut_from a (cell ++ (c ∷ [])) t

unfoldable pub split : ℕ → Text → List Text
unfolding cut_from
split a t = cut_from a [] t

abbrev pub occurrences_in : ℕ → List Text → ℕ
occurrences_in a [] = 0
occurrences_in a (t ∷ ts) = occurrences a t + occurrences_in a ts

==-self : (a : ℕ) → (a == a) ≡ true
==-self a = ground arith

module _ (a : ℕ) where
  occurrences-append : (t u : Text) → occurrences a (t ++ u) ≡ occurrences a t + occurrences a u
  unfolding occurrences
  occurrences-append [] u = omega arith
  occurrences-append (c ∷ t) u = omega (arith, occurrences-append t u)

  length-cut_from : (cell t : Text) → length (cut_from a cell t) ≡ 1 + occurrences a t
  unfolding cut_from occurrences
  length-cut_from cell [] = refl
  length-cut_from cell (c ∷ t) =
      ground (arith, length-cut_from [] t, length-cut_from (cell ++ (c ∷ [])) t)

  occurrences-join :
      (t : Text) (ts : List Text)
      → occurrences a (join a (t ∷ ts)) ≡ occurrences_in a (t ∷ ts) + length ts
  unfolding join occurrences
  occurrences-join t [] = omega arith
  occurrences-join t (u ∷ ts) =
      ground (arith, occurrences-append t (a ∷ join a (u ∷ ts)), occurrences-join u ts)

  -- A line has a cell for each that was joined, and one more for each separator inside these.
  pub length-split-join :
      (t : Text) (ts : List Text)
      → length (split a (join a (t ∷ ts))) ≡ length (t ∷ ts) + occurrences_in a (t ∷ ts)
  unfolding split
  length-split-join t ts =
      omega (arith, length-cut_from [] (join a (t ∷ ts)), occurrences-join t ts)

  cut_from-append :
      (cell t u : Text) → occurrences a t ≡ 0 → cut_from a cell (t ++ u) ≡ cut_from a (cell ++ t) u
  unfolding cut_from occurrences
  cut_from-append cell [] u h = rw append-nil
  cut_from-append cell (c ∷ t) u h = elim (Bool-cases (c == a)) [
    | inl same ↦ absurd (ground arith)
    | inr other ↦ rw other (
        cut_from-append (cell ++ (c ∷ [])) t u (ground arith)
        ∙ ap (λ x. cut_from a x u) (append_assoc cell (c ∷ []) t))
  ]

  cut_from-join :
      (cell t : Text) (ts : List Text)
      → All (λ t. occurrences a t ≡ 0) (t ∷ ts)
      → cut_from a cell (join a (t ∷ ts)) ≡ (cell ++ t) ∷ ts
  unfolding join cut_from
  cut_from-join cell t [] (h, rest) =
      ap (cut_from a cell) (sym (append-nil t)) ∙ cut_from-append cell t [] h
  cut_from-join cell t (u ∷ ts) (h, rest) =
      cut_from-append cell t (a ∷ join a (u ∷ ts)) h
      ∙ rw (==-self a) (ap (λ cells. (cell ++ t) ∷ cells) (cut_from-join [] u ts rest))

  -- Cells without separators come back.
  pub split-join :
      (t : Text) (ts : List Text)
      → All (λ t. occurrences a t ≡ 0) (t ∷ ts)
      → split a (join a (t ∷ ts)) ≡ t ∷ ts
  unfolding split
  split-join t ts h = cut_from-join [] t ts h

  -- The first one is replaced, if there is one.
  pub occurrences-replace_first :
      (b : ℕ) (t : Text)
      → (b == a) ≡ false
      → occurrences a (replace_first a b t) ≡ occurrences a t - 1
  unfolding occurrences replace_first
  occurrences-replace_first b [] other = omega arith
  occurrences-replace_first b (c ∷ t) other = ground (arith, occurrences-replace_first b t)

  pub length-replace_first : (b : ℕ) (t : Text) → length (replace_first a b t) ≡ length t
  unfolding replace_first
  length-replace_first b [] = refl
  length-replace_first b (c ∷ t) = ground (arith, length-replace_first b t)

  occurrences-take : (n : ℕ) (t : Text) → length t ≤ n → occurrences a (take n t) ≡ occurrences a t
  unfolding occurrences
  occurrences-take zero [] h = refl
  occurrences-take zero (c ∷ t) h = absurd (omega arith)
  occurrences-take (suc n) [] h = refl
  occurrences-take (suc n) (c ∷ t) h = omega (arith, occurrences-take n t (omega arith))

  -- A text that is cut in two pieces loses nothing.
  pub occurrences-pieces :
      (n k : ℕ) (t : Text)
      → length t ≤ n + k
      → occurrences a (take n t) + occurrences a (take k (drop n t)) ≡ occurrences a t
  unfolding occurrences
  occurrences-pieces zero k t h = omega (arith, occurrences-take k t (omega arith))
  occurrences-pieces (suc n) zero [] h = refl
  occurrences-pieces (suc n) (suc k) [] h = refl
  occurrences-pieces (suc n) k (c ∷ t) h = omega (arith, occurrences-pieces n k t (omega arith))
