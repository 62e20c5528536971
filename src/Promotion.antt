-- ===== src/Promotion.antt =====
-- src/promotion: promotion.entity.ts, promotion.enum.ts and promotion.dto.ts. The texts of a
-- promotion that are only shown are left out. Values and limits of discounts are amounts; the
-- value of a percentage is handed to the arithmetic of the runtime.
use vz.Common.{ℕ, String, Bool, true, false, Option, none, some, ltb, leb, if◌then◌else◌}
use vz.Common.Int.{ℤ, pos, ◌-ℤ◌, ltb_ℤ}
use vz.Shared.Errors.{
  Error, promotion_code_invalid, promotion_code_expired, promotion_code_usage_limit,
}
pub mod Codes
pub mod Discounts
pub mod Redemptions
mod Tests

pub data DiscountType : Type 0 where
  numeric percentage : DiscountType

pub record Discount : Type 0 where
  pub discount_type : DiscountType
  pub discount_value : ℤ
  pub amount_limit : Option ℤ

pub data GeneralStatus : Type 0 where
  active disabled : GeneralStatus

pub record Promotion : Type 0 where
  pub id : ℕ
  pub name : String
  pub code : String
  pub description : Option String
  pub starts_at : Option ℕ
  pub ends_at : Option ℕ
  pub usage_limit : ℕ
  pub usage_count : ℕ
  pub discount : Discount
  pub status : GeneralStatus

pub record ValidatePromotionResult : Type 0 where
  pub code : String
  pub is_valid : Bool
  pub error : Option Error

pub record ApplyPromoCodeResult : Type 0 where
  pub code : String
  pub discounted_amount : ℤ
  pub original_total : ℤ
  pub discounted_total : ℤ

-- `this.endsAt && this.endsAt < new Date()`, and the same of the start.
abbrev pub is_over : ℕ → Option ℕ → Bool
is_over now none = false
is_over now (some ends_at) = ltb ends_at now

abbrev pub is_ahead : ℕ → Option ℕ → Bool
is_ahead now none = false
is_ahead now (some starts_at) = ltb now starts_at

abbrev refused : Error → Promotion → ValidatePromotionResult
refused e p = record { code = p.code; is_valid = false; error = some e }

unfoldable pub is_valid : ℕ → Promotion → ValidatePromotionResult
is_valid now p =
    if is_over now p.ends_at
    then refused promotion_code_expired p
    else if is_ahead now p.starts_at
    then refused promotion_code_invalid p
    else if leb p.usage_limit p.usage_count
    then refused promotion_code_usage_limit p
    else record { code = p.code; is_valid = true; error = none }

-- `Math.min`
unfoldable pub min_ℤ : ℤ → ℤ → ℤ
min_ℤ a b = if ltb_ℤ b a then b else a

-- `this.discount.amountLimit || totalAmount`: a limit of 0 is none.
abbrev pub limit_or : ℤ → Option ℤ → ℤ
limit_or total none = total
limit_or total (some limit) =
    if ltb_ℤ (pos 0) limit then limit else if ltb_ℤ limit (pos 0) then limit else total

-- What the runtime computes for `(totalAmount * discountValue) / 100`.
module _ (percentage_of : ℤ → ℤ → ℤ) where
  unfoldable pub discounted_amount_of : Discount → ℤ → ℤ
  unfolding min_ℤ
  discounted_amount_of d total = elim d.discount_type [
    | numeric ↦ min_ℤ (min_ℤ d.discount_value (limit_or total d.amount_limit)) total
    | percentage ↦
        min_ℤ (min_ℤ (percentage_of total d.discount_value) (limit_or total d.amount_limit)) total
  ]

  unfoldable pub apply : ℤ → Promotion → ApplyPromoCodeResult
  unfolding discounted_amount_of
  apply total p =
      let amount = discounted_amount_of p.discount total in
      record {
        code = p.code;
        discounted_amount = amount;
        original_total = total;
        discounted_total = total -ℤ amount;
      }
