-- ===== src/Order/Tests.antt =====
-- An order of two packages of one group, with price tiers and a promotion.
use vz.Common.{◌≡◌, refl, some, none, [], ◌∷◌, All}
use vz.Common.Int.{pos, ◌-ℤ◌, ◌+ℤ◌, ◌*ℤ◌}
use vz.Common.Results.{ok}
use vz.Order.Quotation.{lowest_consumer_quotation_tier_based_on_quantity}
use vz.Order.Tiers.{IsTier, lowest_consumer_quotation_tier_based_on_quantity_lem}
use vz.Order.Package.{
  new_requested_service_package, revise_from_new_quotations, change_quantity, apply_group_quantity,
}
use vz.Order.Prices.{IsSettled, here, next, requantified, new_requested_service_package-IsSettled}
use vz.Order.Customer.{AppliedPromotion, new_customer_order, apply_promotion, reset}
use vz.Order.Totals.{IsBalanced, made, promoted_by, Made-IsBalanced}
use vz.Order.Resets.{reset-Made}
use vz.Order.Fixtures.{texts, tiers, cleaning, line}

lowest_consumer_quotation_tier_based_on_quantity_lem_example :
    IsTier (λ q. q.min_quantity) 5 tiers (record { min_quantity = 3; unit_price = pos 80 })
unfolding lowest_consumer_quotation_tier_based_on_quantity
lowest_consumer_quotation_tier_based_on_quantity_lem_example =
    lowest_consumer_quotation_tier_based_on_quantity_lem 5 tiers
      (record { min_quantity = 3; unit_price = pos 80 }) refl

line-made : new_requested_service_package texts 2 "Selangor" cleaning ≡ ok line
unfolding new_requested_service_package
line-made = refl

new_requested_service_package-IsSettled_example : IsSettled (change_quantity texts 4 line)
new_requested_service_package-IsSettled_example =
    new_requested_service_package-IsSettled texts 2 "Selangor" cleaning line-made
      (next here (requantified 4))

lines-IsSettled : All IsSettled (line ∷ line ∷ [])
lines-IsSettled =
    let settled =
      new_requested_service_package-IsSettled texts 2 "Selangor" cleaning line-made here in
    (settled, (settled, tt))

abbrev promotion : AppliedPromotion
promotion = record { code = some "TEN"; discounted_amount = pos 10 }

Made-IsBalanced_example :
    IsBalanced
      (apply_promotion texts promotion (new_customer_order texts none (line ∷ line ∷ []) none))
Made-IsBalanced_example =
    Made-IsBalanced texts
      (promoted_by promotion (made none (line ∷ line ∷ []) none lines-IsSettled))

-- Both packages are in one group of 4, so they get the price of 3 and more: 4 * 80 - 10.
made_total :
    (apply_promotion texts promotion
      (new_customer_order texts none (line ∷ line ∷ []) none)).consumer_total
    ≡ pos 310
unfolding apply_promotion ◌-ℤ◌ ◌+ℤ◌ ◌*ℤ◌ revise_from_new_quotations apply_group_quantity
    lowest_consumer_quotation_tier_based_on_quantity
made_total = refl

reset-Made_example :
    reset texts
      (apply_promotion texts promotion (new_customer_order texts none (line ∷ line ∷ []) none))
    ≡ apply_promotion texts promotion (new_customer_order texts none (line ∷ line ∷ []) none)
reset-Made_example =
    reset-Made texts (promoted_by promotion (made none (line ∷ line ∷ []) none lines-IsSettled))
