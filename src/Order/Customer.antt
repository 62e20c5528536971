-- ===== src/Order/Customer.antt =====
-- service-request/entities/customer-order.entity.ts: the order of a customer, summed up from its
-- requested service packages, with the promotion that has been applied.
use Prim.Native.Nat.{bit_or}
use mathlib.Core.List.{foldl}
use vz.Common.{
  ℕ, ◌+◌, String, Bool, false, Option, none, some, List, map, ◌==◌, every, if◌then◌else◌,
}
use vz.Common.Int.{ℤ, pos, ◌+ℤ◌, ◌-ℤ◌, ltb_ℤ}
use vz.Order.Quotation.{StringMethods}
use vz.Order.Pricing.{RequestedServicePackage}
use vz.Order.Package.{change_service_package_group_quantity}

-- An amount that is undefined in a new object is 0 here, as it is in the row.
pub record CustomerOrder : Type 0 where
  pub consumer_discount_amount : ℤ
  pub consumer_promotion_amount : ℤ
  pub consumer_promotion_code : Option String
  pub consumer_sub_total : ℤ
  pub consumer_total : ℤ
  pub remarks : Option String
  pub service_types_entitlement : ℕ
  pub service_packages : List RequestedServicePackage
  pub service_provider_discount_amount : ℤ
  pub service_provider_sub_total : ℤ
  pub service_provider_total : ℤ
  pub have_completed_all_technical_reports : Bool

-- The two fields of `ApplyPromoCodeResult` that an order reads.
pub record AppliedPromotion : Type 0 where
  pub code : Option String
  pub discounted_amount : ℤ

-- `groups[code] += quantity`, from 0 where the entry is missing.
abbrev pub add_to_group : (ℕ → Option ℕ) → RequestedServicePackage → ℕ → Option ℕ
add_to_group groups r code = elim r.service_package_group_code [
  | none ↦ groups code
  | some own ↦
      if own == code
      then some (elim (groups code) [ none ↦ r.quantity | some n ↦ n + r.quantity ])
      else groups code
]

unfoldable pub group_quantities : List RequestedServicePackage → ℕ → Option ℕ
group_quantities = foldl add_to_group (λ code. none)

-- `servicePackages.reduce((total, sp) => total + amount(sp), 0)`
unfoldable pub sum_of : (RequestedServicePackage → ℤ) → List RequestedServicePackage → ℤ
sum_of amount = foldl (λ total r. total +ℤ amount r) (pos 0)

unfoldable pub calculate_service_types_entitlement : List RequestedServicePackage → ℕ
calculate_service_types_entitlement =
    foldl (λ entitlement r. bit_or entitlement r.service_types_entitlement) 0

-- A package that the constructor has made has a report.
abbrev has_technical_report_completed : RequestedServicePackage → Bool
has_technical_report_completed r = elim r.technical_report [ none ↦ false | some t ↦ t.completed ]

unfoldable pub total_service_minutes : CustomerOrder → ℕ
total_service_minutes o = foldl (λ total r. total + r.total_service_minutes) 0 o.service_packages

-- The totals of the constructor, over packages that are bundled by now.
unfoldable pub summed_up : Option String → List RequestedServicePackage → CustomerOrder
unfolding sum_of calculate_service_types_entitlement
summed_up remarks packages = record {
  consumer_discount_amount = sum_of (λ r. r.consumer.discount_amount) packages;
  consumer_promotion_amount = pos 0;
  consumer_promotion_code = none;
  consumer_sub_total = sum_of (λ r. r.consumer.sub_total) packages;
  consumer_total = sum_of (λ r. r.consumer.total) packages;
  remarks = remarks;
  service_types_entitlement = calculate_service_types_entitlement packages;
  service_packages = packages;
  service_provider_discount_amount = sum_of (λ r. r.service_provider.discount_amount) packages;
  service_provider_sub_total = sum_of (λ r. r.service_provider.sub_total) packages;
  service_provider_total = sum_of (λ r. r.service_provider.total) packages;
  have_completed_all_technical_reports = every has_technical_report_completed packages;
}

-- `if (appliedPromotion && appliedPromotion.discountedAmount > 0)`
unfoldable pub promoted : Option AppliedPromotion → CustomerOrder → CustomerOrder
promoted none o = o
promoted (some p) o =
    if ltb_ℤ (pos 0) p.discounted_amount
    then record o {
      consumer_promotion_code = p.code;
      consumer_promotion_amount = p.discounted_amount;
      consumer_total = o.consumer_total -ℤ p.discounted_amount;
    }
    else o

module _ (texts : StringMethods) where
  unfoldable pub bundle_by_service_package_group_codes :
      List RequestedServicePackage → List RequestedServicePackage
  unfolding group_quantities change_service_package_group_quantity
  bundle_by_service_package_group_codes packages =
      map (change_service_package_group_quantity texts (group_quantities packages)) packages

  -- The constructor, its arguments not undefined.
  unfoldable pub new_customer_order :
      Option String → List RequestedServicePackage → Option AppliedPromotion → CustomerOrder
  unfolding bundle_by_service_package_group_codes summed_up promoted
  new_customer_order remarks packages applied =
      promoted applied (summed_up remarks (bundle_by_service_package_group_codes packages))

  unfoldable pub revise_requested_service_packages :
      List RequestedServicePackage → CustomerOrder → CustomerOrder
  unfolding new_customer_order
  revise_requested_service_packages packages o = new_customer_order o.remarks packages (
      some (record {
        code = o.consumer_promotion_code;
        discounted_amount = o.consumer_promotion_amount;
      }))

  unfoldable pub apply_promotion : AppliedPromotion → CustomerOrder → CustomerOrder
  unfolding new_customer_order
  apply_promotion applied o = new_customer_order o.remarks o.service_packages (some applied)

  unfoldable pub reset : CustomerOrder → CustomerOrder
  unfolding revise_requested_service_packages
  reset o = revise_requested_service_packages o.service_packages o
