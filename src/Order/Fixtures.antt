-- ===== src/Order/Fixtures.antt =====
-- Data for the tests of orders: a cleaning with price tiers, and an order of it with a code.
use vz.Common.{◌*◌, ◌/◌, true, ◌≡◌, refl, some, none, [], ◌∷◌, List}
use vz.Common.Int.{ℤ, pos, pos_part, ◌-ℤ◌, ◌+ℤ◌, ◌*ℤ◌}
use vz.Common.Results.{ok}
use vz.Order.Quotation.{
  StringMethods, ConsumerQuotation, lowest_consumer_quotation_tier_based_on_quantity,
}
use vz.Order.Pricing.{ServicePackage, RequestedServicePackage}
use vz.Order.Package.{
  new_requested_service_package, revise_from_new_quotations, snapshot, apply_group_quantity,
}
use vz.Order.Customer.{CustomerOrder, new_customer_order, apply_promotion}
use vz.Promotion.{Promotion, DiscountType, GeneralStatus, ApplyPromoCodeResult, is_valid, apply}
use vz.Promotion.Codes.{execute}
use vz.Order.Factory.{CustomerOrderInput, Ordered, applied_promotion, create_order}

abbrev pub texts : StringMethods
texts = record { trim = λ s. s; to_upper_case = λ s. s }

abbrev pub tiers : List ConsumerQuotation
tiers =
    record { min_quantity = 3; unit_price = pos 80 }
    ∷ record { min_quantity = 1; unit_price = pos 100 }
    ∷ []

abbrev pub cleaning : ServicePackage
cleaning = record {
  id = 2;
  group_code = some 9;
  unit_service_minutes = 45;
  name = "Cleaning";
  service_types_entitlement = 1;
  consumer_quotations = tiers;
  service_provider_quotations =
      record { min_quantity = 1; unit_price = pos 60; state = some "Selangor" } ∷ [];
}

abbrev pub line : RequestedServicePackage
line = revise_from_new_quotations texts cleaning 2 (snapshot (some "Selangor") cleaning)

-- A code for a tenth of a total, which has one use left, on an order of two packages and one that
-- is not asked for.
abbrev pub percentage_of : ℤ → ℤ → ℤ
percentage_of total value = pos (pos_part total * pos_part value / 100)

abbrev pub tenth : Promotion
tenth = record {
  id = 1;
  name = "Tenth";
  code = "TENTH";
  description = none;
  starts_at = none;
  ends_at = some 200;
  usage_limit = 5;
  usage_count = 4;
  discount = record {
    discount_type = DiscountType.percentage;
    discount_value = pos 10;
    amount_limit = none;
  };
  status = GeneralStatus.active;
}

abbrev pub input : CustomerOrderInput
input = record {
  remarks = some (some "Ring twice");
  promo_code = some "TENTH";
  service_packages = record { id = 2; quantity = 2 } ∷ record { id = 3; quantity = 0 } ∷ [];
}

abbrev pub packages : List RequestedServicePackage
packages = line ∷ []

abbrev pub a_tenth : ApplyPromoCodeResult
a_tenth = record {
  code = "TENTH";
  discounted_amount = pos 20;
  original_total = pos 200;
  discounted_total = pos 180;
}

abbrev pub reduced : CustomerOrder
reduced =
    apply_promotion texts (applied_promotion a_tenth)
      (new_customer_order texts (some "Ring twice") packages none)

abbrev pub ordered : Ordered
ordered = record { order = some reduced; row = some (record tenth { usage_count = 5 }) }

pub ordered-made :
    create_order texts percentage_of
      (λ id. some cleaning)
      100
      (some tenth)
      true
      (some tenth)
      "Selangor"
      input
    ≡ ok ordered
unfolding create_order execute is_valid apply new_requested_service_package ◌-ℤ◌ ◌+ℤ◌ ◌*ℤ◌
    revise_from_new_quotations apply_group_quantity lowest_consumer_quotation_tier_based_on_quantity
ordered-made = refl
