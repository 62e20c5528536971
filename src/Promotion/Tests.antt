-- ===== src/Promotion/Tests.antt =====
-- A code for half of a total, at most 50, which two calls want to use and one may.
use vz.Common.{◌*◌, ◌/◌, ◌≡◌, refl, true, none, some, arith}
use vz.Common.Int.{ℤ, pos, ◌-ℤ◌, pos_part}
use vz.Common.Results.{ok}
use vz.Shared.Errors.{promotion_code_usage_limit}
use vz.Promotion.{Promotion, DiscountType, GeneralStatus, ApplyPromoCodeResult, is_valid, apply}
use vz.Promotion.Codes.{Applied, execute}
use vz.Promotion.Redemptions.{Calls, start, next, redeemed, failed, Grew, Calls-Grew}

-- A percentage without its rest.
abbrev percentage_of : ℤ → ℤ → ℤ
percentage_of total value = pos (pos_part total * pos_part value / 100)

abbrev half : Promotion
half = record {
  id = 1;
  name = "Half";
  code = "HALF";
  description = none;
  starts_at = some 100;
  ends_at = some 200;
  usage_limit = 1;
  usage_count = 0;
  discount = record {
    discount_type = DiscountType.percentage;
    discount_value = pos 50;
    amount_limit = some (pos 50);
  };
  status = GeneralStatus.active;
}

abbrev half_of_80 : ApplyPromoCodeResult
half_of_80 = record {
  code = "HALF";
  discounted_amount = pos 40;
  original_total = pos 80;
  discounted_total = pos 40;
}

abbrev used : Promotion
used = record half { usage_count = 1 }

abbrev first : Applied
first = record { result = half_of_80; row = some used }

executed : execute percentage_of 150 (some half) (pos 80) true (some half) ≡ ok first
unfolding execute is_valid apply ◌-ℤ◌
executed = refl

-- The second call has read the row before the first one wrote it.
raced : Calls percentage_of half 1 used
unfolding execute is_valid apply ◌-ℤ◌
raced =
    next {n = 1} {k = 0}
      (next {n = 0} {k = 1} start (redeemed 150 (some half) (pos 80) first used executed refl)
        (omega arith))
      (failed 150 (some half) (pos 80) true promotion_code_usage_limit refl) (omega arith)

Calls-Grew_example : Grew half 1 used
Calls-Grew_example = Calls-Grew percentage_of half (omega arith) raced
