-- ===== src/Promotion/Discounts.antt =====
-- What a promotion takes off a total.
use vz.Common.{◌≡◌, ◌⊎◌, Option, none, some}
use vz.Common.Int.{ℤ, pos, ◌≤ℤ◌}
use vz.Promotion.{Promotion, Discount, DiscountType}

-- A limit that counts: one that is there and not 0.
abbrev pub IsWithinLimit : ℤ → Option ℤ → Type 0
IsWithinLimit a none = Unit
IsWithinLimit a (some limit) = (limit ≡ pos 0) ⊎ (a ≤ℤ limit)

abbrev pub IsLimit : ℤ → Option ℤ → Type 0
IsLimit a none = ⊥
IsLimit a (some limit) = a ≡ limit

abbrev pub IsNotNegative : Option ℤ → Type 0
IsNotNegative none = Unit
IsNotNegative (some limit) = pos 0 ≤ℤ limit

module _ (percentage_of : ℤ → ℤ → ℤ) where
  -- The discount before the limit and the total bound it.
  abbrev pub nominal : Discount → ℤ → ℤ
  nominal d total = elim d.discount_type [
    | DiscountType.numeric ↦ d.discount_value
    | DiscountType.percentage ↦ percentage_of total d.discount_value
  ]
