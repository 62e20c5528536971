-- ===== src/Order/Bundles.antt =====
-- Bundling the packages of an order once more changes nothing.
use vz.Common.{
  ℕ, ◌≡◌, refl, sym, ap, ◌∙◌, Option, some, none, List, ◌==◌, String, Bool-cases, Option-cases, inl,
  inr,
}
use vz.Common.Sorted.{sort_by-sort_by}
use vz.Order.Quotation.{
  StringMethods, ConsumerQuotation, ServiceProviderQuotation, sort_consumer_quotations,
  sort_service_provider_quotations, lowest_consumer_quotation_tier_based_on_quantity,
  lowest_service_provider_quotation_tier_based_on_quantity,
}
use vz.Order.Pricing.{
  Price, calculate_price, tier_min_quantity, tier_unit_price, provider_min_quantity,
  provider_unit_price, RequestedServicePackage, reflect_consumer_discounted_quotations,
  reflect_service_provider_discounted_quotations, calculate_consumer_totals,
  calculate_service_provider_totals,
}
use vz.Order.Package.{apply_group_quantity, regroup}

sort_consumer_quotations-twice :
    (qs : List ConsumerQuotation)
    → sort_consumer_quotations (sort_consumer_quotations qs) ≡ sort_consumer_quotations qs
unfolding sort_consumer_quotations
sort_consumer_quotations-twice qs = sort_by-sort_by (λ q. q.min_quantity) qs

sort_service_provider_quotations-twice :
    (qs : List ServiceProviderQuotation)
    → sort_service_provider_quotations (sort_service_provider_quotations qs)
      ≡ sort_service_provider_quotations qs
unfolding sort_service_provider_quotations
sort_service_provider_quotations-twice qs = sort_by-sort_by (λ q. q.min_quantity) qs

consumer_tier-sorted :
    (n : ℕ) (qs : List ConsumerQuotation)
    → lowest_consumer_quotation_tier_based_on_quantity n (sort_consumer_quotations qs)
      ≡ lowest_consumer_quotation_tier_based_on_quantity n qs
unfolding lowest_consumer_quotation_tier_based_on_quantity
consumer_tier-sorted n qs = rw (sort_consumer_quotations-twice qs) refl

module _ (texts : StringMethods) where
  service_provider_tier-sorted :
      (n : ℕ) (state : Option String) (qs : List ServiceProviderQuotation)
      → lowest_service_provider_quotation_tier_based_on_quantity texts n state
          (sort_service_provider_quotations qs)
        ≡ lowest_service_provider_quotation_tier_based_on_quantity texts n state qs
  unfolding lowest_service_provider_quotation_tier_based_on_quantity
  service_provider_tier-sorted n state qs = rw (sort_service_provider_quotations-twice qs) refl

  -- What becomes of the quotations and the prices, of which each kind depends on its own.
  abbrev sorted_consumer : Option (List ConsumerQuotation) → Option (List ConsumerQuotation)
  sorted_consumer none = none
  sorted_consumer (some qs) = some (sort_consumer_quotations qs)

  abbrev sorted_service_provider :
      Option (List ServiceProviderQuotation) → Option (List ServiceProviderQuotation)
  sorted_service_provider none = none
  sorted_service_provider (some qs) = some (sort_service_provider_quotations qs)

  consumer_price : ℕ → ℕ → Option (List ConsumerQuotation) → Price → Price
  consumer_price n quantity none p = calculate_price quantity p
  consumer_price n quantity (some qs) p =
      let tier = lowest_consumer_quotation_tier_based_on_quantity n qs in
      calculate_price quantity (record p {
        min_quantity = tier_min_quantity tier;
        discounted_unit_price = tier_unit_price tier;
      })

  service_provider_price :
      ℕ → ℕ → Option String → Option (List ServiceProviderQuotation) → Price → Price
  service_provider_price n quantity state none p = calculate_price quantity p
  service_provider_price n quantity state (some qs) p =
      let tier = lowest_service_provider_quotation_tier_based_on_quantity texts n state qs in
      calculate_price quantity (record p {
        min_quantity = provider_min_quantity tier;
        discounted_unit_price = provider_unit_price tier;
      })

  abbrev grouped : ℕ → RequestedServicePackage → RequestedServicePackage
  grouped n r = record r {
    service_package_group_quantity = n;
    consumer_quotations = sorted_consumer r.consumer_quotations;
    service_provider_quotations = sorted_service_provider r.service_provider_quotations;
    consumer = consumer_price n r.quantity r.consumer_quotations r.consumer;
    service_provider =
        service_provider_price n r.quantity r.service_provider_quotation_state
          r.service_provider_quotations r.service_provider;
  }

  consumer-grouped :
      (n : ℕ) (r : RequestedServicePackage)
      → calculate_consumer_totals r.quantity (reflect_consumer_discounted_quotations n r)
        ≡ record r {
          consumer_quotations = sorted_consumer r.consumer_quotations;
          consumer = consumer_price n r.quantity r.consumer_quotations r.consumer;
        }
  unfolding consumer_price reflect_consumer_discounted_quotations calculate_consumer_totals
  consumer-grouped n r = elim (Option-cases r.consumer_quotations) [
    | inl bare ↦ rw bare refl
    | inr (qs, there) ↦ rw there refl
  ]

  service_provider-grouped :
      (n : ℕ) (r : RequestedServicePackage)
      → calculate_service_provider_totals r.quantity (
          reflect_service_provider_discounted_quotations texts n r.service_provider_quotation_state
            r)
        ≡ record r {
          service_provider_quotations = sorted_service_provider r.service_provider_quotations;
          service_provider =
              service_provider_price n r.quantity r.service_provider_quotation_state
                r.service_provider_quotations r.service_provider;
        }
  unfolding service_provider_price reflect_service_provider_discounted_quotations
      calculate_service_provider_totals
  service_provider-grouped n r = elim (Option-cases r.service_provider_quotations) [
    | inl bare ↦ rw bare refl
    | inr (qs, there) ↦ rw there refl
  ]

  apply_group_quantity-grouped :
      (n : ℕ) (r : RequestedServicePackage) → apply_group_quantity texts n r ≡ grouped n r
  unfolding apply_group_quantity
  apply_group_quantity-grouped n r =
      let own = record r { service_package_group_quantity = n } in
      ap
        (λ c. calculate_service_provider_totals r.quantity (
          reflect_service_provider_discounted_quotations texts n c.service_provider_quotation_state
            c))
        (consumer-grouped n own)
      ∙ service_provider-grouped n (record own {
        consumer_quotations = sorted_consumer r.consumer_quotations;
        consumer = consumer_price n r.quantity r.consumer_quotations r.consumer;
      })

  consumer_price-twice :
      (n quantity : ℕ) (qs : Option (List ConsumerQuotation)) (p : Price)
      → consumer_price n quantity (sorted_consumer qs) (consumer_price n quantity qs p)
        ≡ consumer_price n quantity qs p
  unfolding consumer_price
  consumer_price-twice n quantity none p = refl
  consumer_price-twice n quantity (some qs) p = rw (consumer_tier-sorted n qs) refl

  service_provider_price-twice :
      (n quantity : ℕ) (state : Option String) (qs : Option (List ServiceProviderQuotation))
      (p : Price)
      → service_provider_price n quantity state
          (sorted_service_provider qs)
          (service_provider_price n quantity state qs p)
        ≡ service_provider_price n quantity state qs p
  unfolding service_provider_price
  service_provider_price-twice n quantity state none p = refl
  service_provider_price-twice n quantity state (some qs) p =
      rw (service_provider_tier-sorted n state qs) refl

  sorted_consumer-twice :
      (qs : Option (List ConsumerQuotation))
      → sorted_consumer (sorted_consumer qs) ≡ sorted_consumer qs
  sorted_consumer-twice none = refl
  sorted_consumer-twice (some qs) = ap some (sort_consumer_quotations-twice qs)

  sorted_service_provider-twice :
      (qs : Option (List ServiceProviderQuotation))
      → sorted_service_provider (sorted_service_provider qs) ≡ sorted_service_provider qs
  sorted_service_provider-twice none = refl
  sorted_service_provider-twice (some qs) = ap some (sort_service_provider_quotations-twice qs)

  grouped-twice : (n : ℕ) (r : RequestedServicePackage) → grouped n (grouped n r) ≡ grouped n r
  grouped-twice n r = λ i. record (grouped n r) {
    consumer_quotations = sorted_consumer-twice r.consumer_quotations i;
    service_provider_quotations = sorted_service_provider-twice r.service_provider_quotations i;
    consumer = consumer_price-twice n r.quantity r.consumer_quotations r.consumer i;
    service_provider =
        service_provider_price-twice n r.quantity r.service_provider_quotation_state
          r.service_provider_quotations r.service_provider i;
  }

  apply_group_quantity-twice :
      (n : ℕ) (r : RequestedServicePackage)
      → apply_group_quantity texts n (apply_group_quantity texts n r)
        ≡ apply_group_quantity texts n r
  apply_group_quantity-twice n r =
      ap (apply_group_quantity texts n) (apply_group_quantity-grouped n r)
      ∙ apply_group_quantity-grouped n (grouped n r)
      ∙ grouped-twice n r
      ∙ sym (apply_group_quantity-grouped n r)

  pub regroup-twice :
      (n : Option ℕ) (r : RequestedServicePackage)
      → regroup texts n (regroup texts n r) ≡ regroup texts n r
  unfolding regroup
  regroup-twice none r = refl
  regroup-twice (some n) r = elim (Bool-cases (n == 0)) [
    | inl zero_quantity ↦ rw zero_quantity refl
    | inr positive ↦ rw positive (apply_group_quantity-twice n r)
  ]

  -- What the groups are made of stays.
  pub regroup-kept :
      (n : Option ℕ) (r : RequestedServicePackage)
      → ((regroup texts n r).quantity ≡ r.quantity)
        × ((regroup texts n r).service_package_group_code ≡ r.service_package_group_code)
  unfolding regroup
  regroup-kept none r = (refl, refl)
  regroup-kept (some n) r = elim (Bool-cases (n == 0)) [
    | inl zero_quantity ↦ rw zero_quantity (refl, refl)
    | inr positive ↦ rw positive (
      ap (λ x. x.quantity) (apply_group_quantity-grouped n r),
      ap (λ x. x.service_package_group_code) (apply_group_quantity-grouped n r),
    )
  ]
