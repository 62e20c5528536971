-- ===== src/Order/Earnings.antt =====
-- What a service provider earns with an order, as a sum over its packages.
use vz.Common.{◌≡◌, refl, Option, some, none, List, String, Bool-cases, inl, inr}
use vz.Common.Int.{pos, ltb_ℤ}
use vz.Order.Quotation.{StringMethods}
use vz.Order.Pricing.{RequestedServicePackage}
use vz.Order.Customer.{
  CustomerOrder, AppliedPromotion, sum_of, summed_up, promoted, new_customer_order, apply_promotion,
  revise_requested_service_packages, reset,
}
use vz.Order.Totals.{Made, made, promoted_by, revised, cleared}

abbrev pub IsSummed : CustomerOrder → Type 0
IsSummed o = o.service_provider_total ≡ sum_of (λ r. r.service_provider.total) o.service_packages

promoted-IsSummed :
    (applied : Option AppliedPromotion) (o : CustomerOrder)
    → IsSummed o
    → IsSummed (promoted applied o)
unfolding promoted
promoted-IsSummed none o h = h
promoted-IsSummed (some p) o h = elim (Bool-cases (ltb_ℤ (pos 0) p.discounted_amount)) [
  | inl above ↦ rw above h
  | inr below ↦ rw below h
]

module _ (texts : StringMethods) where
  new_customer_order-IsSummed :
      (remarks : Option String) (rs : List RequestedServicePackage)
      (applied : Option AppliedPromotion)
      → IsSummed (new_customer_order texts remarks rs applied)
  unfolding new_customer_order summed_up
  new_customer_order-IsSummed remarks rs applied = promoted-IsSummed applied _ refl

  pub Made-IsSummed : {o : CustomerOrder} → Made texts o → IsSummed o
  unfolding apply_promotion revise_requested_service_packages reset
  Made-IsSummed (made remarks rs applied settled) = new_customer_order-IsSummed remarks rs applied
  Made-IsSummed (promoted_by {o = o} p m) =
      new_customer_order-IsSummed o.remarks o.service_packages (some p)
  Made-IsSummed (revised {o = o} rs settled m) = new_customer_order-IsSummed o.remarks rs (some _)
  Made-IsSummed (cleared {o = o} m) =
      new_customer_order-IsSummed o.remarks o.service_packages (some _)
