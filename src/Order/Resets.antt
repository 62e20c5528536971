-- ===== src/Order/Resets.antt =====
-- Orders that are made again from their own packages.
use mathlib.Core.List.{foldl}
use vz.Common.{
  ℕ, String, ◌+◌, ◌≡◌, refl, ap, ◌∙◌, Option, some, none, List, [], ◌∷◌, map, ◌==◌, chain,
  Bool-cases, inl, inr, if◌then◌else◌,
}
use vz.Common.Int.{pos, ltb_ℤ}
use vz.Order.Quotation.{StringMethods}
use vz.Order.Pricing.{RequestedServicePackage}
use vz.Order.Package.{regroup, change_service_package_group_quantity}
use vz.Order.Bundles.{regroup-twice, regroup-kept}
use vz.Order.Customer.{
  CustomerOrder, AppliedPromotion, add_to_group, group_quantities,
  bundle_by_service_package_group_codes, summed_up, promoted, new_customer_order,
  revise_requested_service_packages, apply_promotion, reset,
}
use vz.Order.Totals.{Made, made, promoted_by, revised, cleared}

add_to_group-same :
    (groups : ℕ → Option ℕ) (r s : RequestedServicePackage)
    → s.quantity ≡ r.quantity
    → s.service_package_group_code ≡ r.service_package_group_code
    → add_to_group groups s ≡ add_to_group groups r
add_to_group-same groups r s q c = λ i code. elim (c i) [
  | none ↦ groups code
  | some own ↦
      if own == code
      then some (elim (groups code) [ none ↦ q i | some n ↦ n + q i ])
      else groups code
]

module _ (texts : StringMethods) where
  regrouped : (ℕ → Option ℕ) → RequestedServicePackage → RequestedServicePackage
  regrouped groups r = regroup texts (chain r.service_package_group_code groups) r

  group_quantities-regrouped :
      (groups acc : ℕ → Option ℕ) (rs : List RequestedServicePackage)
      → foldl add_to_group acc (map (regrouped groups) rs) ≡ foldl add_to_group acc rs
  unfolding regrouped
  group_quantities-regrouped groups acc [] = refl
  group_quantities-regrouped groups acc (r ∷ rs) =
      let (quantity, code) = regroup-kept texts (chain r.service_package_group_code groups) r in
      group_quantities-regrouped groups
        (add_to_group acc (regroup texts (chain r.service_package_group_code groups) r)) rs
      ∙ ap (λ acc'. foldl add_to_group acc' rs)
          (add_to_group-same acc r (regroup texts (chain r.service_package_group_code groups) r)
            quantity code)

  regrouped-twice :
      (groups : ℕ → Option ℕ) (rs : List RequestedServicePackage)
      → map (regrouped groups) (map (regrouped groups) rs) ≡ map (regrouped groups) rs
  unfolding regrouped
  regrouped-twice groups [] = refl
  regrouped-twice groups (r ∷ rs) =
      let code = (regroup-kept texts (chain r.service_package_group_code groups) r).1 in
      let one : regroup texts
            (chain
              (regroup texts (chain r.service_package_group_code groups)
                r).service_package_group_code
              groups)
            (regroup texts (chain r.service_package_group_code groups) r)
          ≡ regroup texts (chain r.service_package_group_code groups) r =
        ap
          (λ c.
            regroup texts (chain c groups)
              (regroup texts (chain r.service_package_group_code groups) r))
          code
        ∙ regroup-twice texts (chain r.service_package_group_code groups) r in
      λ i. one i ∷ regrouped-twice groups rs i

  pub bundle-twice :
      (rs : List RequestedServicePackage)
      → bundle_by_service_package_group_codes texts (bundle_by_service_package_group_codes texts rs)
        ≡ bundle_by_service_package_group_codes texts rs
  unfolding bundle_by_service_package_group_codes group_quantities
      change_service_package_group_quantity regrouped
  bundle-twice rs =
      ap (λ groups. map (regrouped groups) (map (regrouped (group_quantities rs)) rs))
        (group_quantities-regrouped (group_quantities rs) (λ code. none) rs)
      ∙ regrouped-twice (group_quantities rs) rs

  promoted-kept :
      (a : Option AppliedPromotion) (o : CustomerOrder)
      → ((promoted a o).remarks ≡ o.remarks)
        × ((promoted a o).service_packages ≡ o.service_packages)
  unfolding promoted
  promoted-kept none o = (refl, refl)
  promoted-kept (some p) o = elim (Bool-cases (ltb_ℤ (pos 0) p.discounted_amount)) [
    | inl above ↦ rw above (refl, refl)
    | inr below ↦ rw below (refl, refl)
  ]

  again :
      (remarks : Option String) (rs : List RequestedServicePackage) (a b : Option AppliedPromotion)
      → new_customer_order texts
          (new_customer_order texts remarks rs a).remarks
          (new_customer_order texts remarks rs a).service_packages
          b
        ≡ new_customer_order texts remarks rs b
  unfolding new_customer_order summed_up
  again remarks rs a b =
      let (same_remarks, same_packages) =
        promoted-kept a (summed_up remarks (bundle_by_service_package_group_codes texts rs)) in
      (λ i. promoted b (
        summed_up (same_remarks i) (bundle_by_service_package_group_codes texts (same_packages i))))
      ∙ ap (λ ps. promoted b (summed_up remarks ps)) (bundle-twice rs)

  recorded :
      (a : Option AppliedPromotion) (o : CustomerOrder)
      → o.consumer_promotion_code ≡ none
      → o.consumer_promotion_amount ≡ pos 0
      → promoted
          (some (record {
            code = (promoted a o).consumer_promotion_code;
            discounted_amount = (promoted a o).consumer_promotion_amount;
          }))
          o
        ≡ promoted a o
  unfolding promoted
  recorded none o code amount = rw amount refl
  recorded (some p) o code amount = elim (Bool-cases (ltb_ℤ (pos 0) p.discounted_amount)) [
    | inl above ↦ rw above (rw above refl)
    | inr below ↦ rw below (rw amount refl)
  ]

  -- A promotion is taken off the order without the one before.
  pub apply_promotion-new_customer_order :
      (remarks : Option String) (rs : List RequestedServicePackage) (a : Option AppliedPromotion)
      (p : AppliedPromotion)
      → apply_promotion texts p (new_customer_order texts remarks rs a)
        ≡ new_customer_order texts remarks rs (some p)
  unfolding apply_promotion
  apply_promotion-new_customer_order remarks rs a p = again remarks rs a (some p)

  reset-new_customer_order :
      (remarks : Option String) (rs : List RequestedServicePackage) (a : Option AppliedPromotion)
      → reset texts (new_customer_order texts remarks rs a) ≡ new_customer_order texts remarks rs a
  unfolding reset revise_requested_service_packages new_customer_order summed_up
  reset-new_customer_order remarks rs a =
      again remarks rs a (
        some (record {
          code = (new_customer_order texts remarks rs a).consumer_promotion_code;
          discounted_amount = (new_customer_order texts remarks rs a).consumer_promotion_amount;
        }))
      ∙ recorded a (summed_up remarks (bundle_by_service_package_group_codes texts rs)) refl refl

  -- An order, whatever promotions, revisions and resets it went through, is not changed by a reset:
  -- its packages, totals and promotion come out as they were.
  pub reset-Made : {o : CustomerOrder} → Made texts o → reset texts o ≡ o
  unfolding apply_promotion revise_requested_service_packages
  reset-Made (made remarks rs a settled) = reset-new_customer_order remarks rs a
  reset-Made (promoted_by {o = o} p m) =
      reset-new_customer_order o.remarks o.service_packages (some p)
  reset-Made (revised {o = o} rs settled m) = reset-new_customer_order o.remarks rs (
      some (record {
        code = o.consumer_promotion_code;
        discounted_amount = o.consumer_promotion_amount;
      }))
  reset-Made (cleared m) = ap (reset texts) (reset-Made m)
