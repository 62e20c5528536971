-- ===== src/Order/Pricing.antt =====
-- The data of service-request/entities/requested-service-package.entity.ts, and how its prices
-- follow from its quotations. Ids and group codes are only compared and
-- tested for presence, so they are natural numbers.
use vz.Common.{ℕ, String, Option, none, some, List}
use vz.Common.Int.{ℤ, pos, ◌-ℤ◌, ◌*ℤ◌}
use vz.Order.Report.{TechnicalReport}
use vz.Order.Quotation.{
  ConsumerQuotation, ServiceProviderQuotation, StringMethods, sort_consumer_quotations,
  sort_service_provider_quotations, lowest_consumer_quotation_tier_based_on_quantity,
  lowest_service_provider_quotation_tier_based_on_quantity,
}

-- What the getters of `IServicePackage` return. Its quotations are there.
pub record ServicePackage : Type 0 where
  pub id : ℕ
  pub group_code : Option ℕ
  pub unit_service_minutes : ℕ
  pub name : String
  pub service_types_entitlement : ℕ
  pub consumer_quotations : List ConsumerQuotation
  pub service_provider_quotations : List ServiceProviderQuotation

-- The six columns `consumerQuotation...`, and the same six `serviceProviderQuotation...`.
pub record Price : Type 0 where
  pub discounted_unit_price : ℤ
  pub min_quantity : ℕ
  pub sub_total : ℤ
  pub total : ℤ
  pub unit_price : ℤ
  pub discount_amount : ℤ

pub record RequestedServicePackage : Type 0 where
  pub name : String
  pub consumer_quotations : Option (List ConsumerQuotation)
  pub service_provider_quotations : Option (List ServiceProviderQuotation)
  pub consumer : Price
  pub service_provider : Price
  pub quantity : ℕ
  pub service_types_entitlement : ℕ
  pub service_provider_quotation_state : Option String
  pub service_package_id : ℕ
  pub service_package_group_code : Option ℕ
  pub service_package_group_quantity : ℕ
  pub technical_report : Option TechnicalReport
  pub total_service_minutes : ℕ
  pub unit_service_minutes : ℕ

abbrev pub tier_unit_price : Option ConsumerQuotation → ℤ
tier_unit_price none = pos 0
tier_unit_price (some q) = q.unit_price

abbrev pub tier_min_quantity : Option ConsumerQuotation → ℕ
tier_min_quantity none = 0
tier_min_quantity (some q) = q.min_quantity

abbrev pub provider_unit_price : Option ServiceProviderQuotation → ℤ
provider_unit_price none = pos 0
provider_unit_price (some q) = q.unit_price

abbrev pub provider_min_quantity : Option ServiceProviderQuotation → ℕ
provider_min_quantity none = 0
provider_min_quantity (some q) = q.min_quantity

-- `quotation?.state || ''`
abbrev provider_state : Option ServiceProviderQuotation → Option String
provider_state none = some ""
provider_state (some q) = elim q.state [ none ↦ some "" | some s ↦ some s ]

-- Legacy rows have no quotations, and are left as they are. The sort is in place.
unfoldable pub reflect_consumer_discounted_quotations :
    ℕ → RequestedServicePackage → RequestedServicePackage
reflect_consumer_discounted_quotations quantity r = elim r.consumer_quotations [
  | none ↦ r
  | some qs ↦
      let tier = lowest_consumer_quotation_tier_based_on_quantity quantity qs in
      record r {
        consumer_quotations = some (sort_consumer_quotations qs);
        consumer = record (r.consumer) {
          min_quantity = tier_min_quantity tier;
          discounted_unit_price = tier_unit_price tier;
        };
      }
]

unfoldable pub reflect_consumer_original_quotations :
    ℕ → RequestedServicePackage → RequestedServicePackage
reflect_consumer_original_quotations quantity r = elim r.consumer_quotations [
  | none ↦ r
  | some qs ↦
      let tier = lowest_consumer_quotation_tier_based_on_quantity quantity qs in
      record r {
        consumer_quotations = some (sort_consumer_quotations qs);
        consumer = record (r.consumer) { unit_price = tier_unit_price tier };
      }
]

-- `subTotal`, `total` and `discountAmount` of `calculateConsumerTotals` and of
-- `calculateServiceProviderTotals`.
abbrev pub calculate_price : ℕ → Price → Price
calculate_price quantity p =
    let sub = pos quantity *ℤ p.unit_price in
    let all = pos quantity *ℤ p.discounted_unit_price in
    record p { sub_total = sub; total = all; discount_amount = sub -ℤ all }

unfoldable pub calculate_consumer_totals : ℕ → RequestedServicePackage → RequestedServicePackage
calculate_consumer_totals quantity r = record r { consumer = calculate_price quantity r.consumer }

unfoldable pub calculate_service_provider_totals :
    ℕ → RequestedServicePackage → RequestedServicePackage
calculate_service_provider_totals quantity r = record r {
  service_provider = calculate_price quantity r.service_provider;
}

module _ (texts : StringMethods) where
  unfoldable pub reflect_service_provider_discounted_quotations :
      ℕ → Option String → RequestedServicePackage → RequestedServicePackage
  reflect_service_provider_discounted_quotations quantity state r =
      elim r.service_provider_quotations [
        | none ↦ r
        | some qs ↦
            let tier =
              lowest_service_provider_quotation_tier_based_on_quantity texts quantity state qs in
            record r {
              service_provider_quotations = some (sort_service_provider_quotations qs);
              service_provider = record (r.service_provider) {
                min_quantity = provider_min_quantity tier;
                discounted_unit_price = provider_unit_price tier;
              };
            }
      ]

  unfoldable pub reflect_service_provider_original_quotations :
      ℕ → Option String → RequestedServicePackage → RequestedServicePackage
  reflect_service_provider_original_quotations quantity state r =
      elim r.service_provider_quotations [
        | none ↦ r
        | some qs ↦
            let tier =
              lowest_service_provider_quotation_tier_based_on_quantity texts quantity state qs in
            record r {
              service_provider_quotations = some (sort_service_provider_quotations qs);
              service_provider = record (r.service_provider) {
                unit_price = provider_unit_price tier;
              };
              service_provider_quotation_state = provider_state tier;
            }
      ]
