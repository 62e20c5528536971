-- ===== src/Order/Quotation.antt =====
-- service-package/entities/consumer-quotation.entity.ts, service-provider-quotation.entity.ts,
-- and the search for a price tier in service-request/entities/requested-service-package.entity.ts
-- (service-package/entities/service-package.entity.ts has the same).
use text.Mathlib.Text.{◌==◌ as str_eq}
use vz.Common.{
  ℕ, zero, suc, String, Bool, true, false, Option, none, some, List, [], ◌∷◌, length, get_elem?,
  leb, if◌then◌else◌, sort_by,
}
use vz.Common.Int.{ℤ}

pub record ConsumerQuotation : Type 0 where
  pub min_quantity : ℕ
  pub unit_price : ℤ

pub record ServiceProviderQuotation : Type 0 where
  pub min_quantity : ℕ
  pub unit_price : ℤ
  pub state : Option String

-- The methods of JavaScript texts that the code calls, over all of Unicode: they are parameters.
pub record StringMethods : Type 0 where
  pub trim : String → String
  pub to_upper_case : String → String

module _ {A : Type 0} (min_quantity : A → ℕ) where
  -- `for (let i = n - 1; i >= 0; i--)`: the last tier below `n` whose minimum is reached.
  unfoldable pub scan_tiers : ℕ → List A → ℕ → Option A
  scan_tiers quantity tiers zero = none
  scan_tiers quantity tiers (suc i) =
      let rest = scan_tiers quantity tiers i in
      elim (get_elem? tiers i) [
        | none ↦ rest
        | some t ↦ if leb (min_quantity t) quantity then some t else rest
      ]

  -- The loop over `tiers`, and the first of `all` where it finds none.
  unfoldable pub lowest_tier : ℕ → List A → List A → Option A
  unfolding scan_tiers
  lowest_tier quantity tiers all = elim (scan_tiers quantity tiers (length tiers)) [
    | some t ↦ some t
    | none ↦ get_elem? all 0
  ]

unfoldable pub sort_consumer_quotations : List ConsumerQuotation → List ConsumerQuotation
unfolding sort_by
sort_consumer_quotations = sort_by (λ q. q.min_quantity)

unfoldable pub sort_service_provider_quotations :
    List ServiceProviderQuotation → List ServiceProviderQuotation
unfolding sort_by
sort_service_provider_quotations = sort_by (λ q. q.min_quantity)

-- On the sorted quotations, which `this.consumerQuotations` is after the first line.
unfoldable pub lowest_consumer_quotation_tier_based_on_quantity :
    ℕ → List ConsumerQuotation → Option ConsumerQuotation
unfolding lowest_tier sort_consumer_quotations
lowest_consumer_quotation_tier_based_on_quantity quantity quotations =
    let sorted = sort_consumer_quotations quotations in
    lowest_tier (λ q. q.min_quantity) quantity sorted sorted

module _ (texts : StringMethods) where
  -- `s?.trim().toUpperCase()`
  abbrev pub canonical : Option String → Option String
  canonical none = none
  canonical (some s) = some (texts.to_upper_case (texts.trim s))

  abbrev pub same_text : Option String → Option String → Bool
  same_text none none = true
  same_text (some s) (some t) = str_eq s t
  same_text _ _ = false

  unfoldable pub filter_by_state :
      Option String → List ServiceProviderQuotation → List ServiceProviderQuotation
  filter_by_state state [] = []
  filter_by_state state (q ∷ qs) =
      let rest = filter_by_state state qs in
      if same_text (canonical q.state) (canonical state) then q ∷ rest else rest

  unfoldable pub lowest_service_provider_quotation_tier_based_on_quantity :
      ℕ → Option String → List ServiceProviderQuotation → Option ServiceProviderQuotation
  unfolding lowest_tier sort_service_provider_quotations filter_by_state
  lowest_service_provider_quotation_tier_based_on_quantity quantity state quotations =
      let sorted = sort_service_provider_quotations quotations in
      lowest_tier (λ q. q.min_quantity) quantity (filter_by_state state sorted) sorted
