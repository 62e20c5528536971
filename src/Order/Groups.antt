-- ===== src/Order/Groups.antt =====
-- The quantities of the groups of the packages of an order.
use mathlib.Core.List.{foldl}
use vz.Common.{
  ℕ, ◌+◌, ◌≡◌, refl, ◌∙◌, Option, some, none, List, [], ◌∷◌, map, arith, ◌==◌, if◌then◌else◌,
  Bool-cases, inl, inr, Option-cases, chain,
}
use vz.Order.Quotation.{StringMethods}
use vz.Order.Pricing.{
  RequestedServicePackage, reflect_consumer_discounted_quotations, calculate_consumer_totals,
  calculate_service_provider_totals, reflect_service_provider_discounted_quotations,
}
use vz.Order.Package.{regroup, apply_group_quantity, change_service_package_group_quantity}
use vz.Order.Customer.{add_to_group, group_quantities, bundle_by_service_package_group_codes}

-- What a group has in all, by its code.
abbrev pub quantity_of_group : ℕ → List RequestedServicePackage → ℕ
quantity_of_group code [] = 0
quantity_of_group code (r ∷ rs) = elim r.service_package_group_code [
  | none ↦ quantity_of_group code rs
  | some own ↦ (if own == code then r.quantity else 0) + quantity_of_group code rs
]

abbrev or_zero : Option ℕ → ℕ
or_zero none = 0
or_zero (some n) = n

add_to_group_lem :
    (groups : ℕ → Option ℕ) (r : RequestedServicePackage) (code : ℕ)
    → or_zero (add_to_group groups r code) ≡ or_zero (groups code) + quantity_of_group code (r ∷ [])
add_to_group_lem groups r code = ground arith

group_quantities-cons :
    (groups : ℕ → Option ℕ) (rs : List RequestedServicePackage) (code : ℕ)
    → or_zero (foldl add_to_group groups rs code)
      ≡ or_zero (groups code) + quantity_of_group code rs
group_quantities-cons groups [] code = ground arith
group_quantities-cons groups (r ∷ rs) code =
    let rest = group_quantities-cons (add_to_group groups r) rs code in
    let one = add_to_group_lem groups r code in ground (arith, rest, one)

abbrev pub quantity_of_group_of : RequestedServicePackage → List RequestedServicePackage → ℕ
quantity_of_group_of r rs = elim r.service_package_group_code [
  | none ↦ 0
  | some code ↦ quantity_of_group code rs
]

expected :
    (all rs : List RequestedServicePackage)
    → map (λ r. or_zero (chain r.service_package_group_code (group_quantities all))) rs
      ≡ map (λ r. quantity_of_group_of r all) rs
unfolding group_quantities
expected all [] = refl
expected all (r ∷ rs) = elim (Option-cases r.service_package_group_code) [
  | inl missing ↦ ground (arith, expected all rs)
  | inr (code, known) ↦ ground (arith, expected all rs, group_quantities-cons (λ _. none) all code)
]

module _ (texts : StringMethods) where
  regrouped :
      (n : ℕ) (r : RequestedServicePackage)
      → (apply_group_quantity texts n r).service_package_group_quantity ≡ n
  unfolding apply_group_quantity reflect_consumer_discounted_quotations
      reflect_service_provider_discounted_quotations calculate_consumer_totals
      calculate_service_provider_totals
  regrouped n r = ground arith

  counted :
      (n : ℕ) (r : RequestedServicePackage) → (apply_group_quantity texts n r).quantity ≡ r.quantity
  unfolding apply_group_quantity reflect_consumer_discounted_quotations
      reflect_service_provider_discounted_quotations calculate_consumer_totals
      calculate_service_provider_totals
  counted n r = ground arith

  regroup_quantity :
      (n : Option ℕ) (r : RequestedServicePackage)
      → ((regroup texts n r).service_package_group_quantity ≡ or_zero n)
        × ((regroup texts n r).quantity ≡ r.quantity)
  unfolding regroup apply_group_quantity
  regroup_quantity none r = (refl, refl)
  regroup_quantity (some n) r = elim (Bool-cases (n == 0)) [
    | inl empty ↦ ground arith
    | inr present ↦ rw present (regrouped n r, counted n r)
  ]

  regrouped_map :
      (groups : ℕ → Option ℕ) (rs : List RequestedServicePackage)
      → map
          (λ r. r.service_package_group_quantity)
          (map (change_service_package_group_quantity texts groups) rs)
        ≡ map (λ r. or_zero (chain r.service_package_group_code groups)) rs
  unfolding change_service_package_group_quantity
  regrouped_map groups [] = refl
  regrouped_map groups (r ∷ rs) = ground (
    arith,
    regrouped_map groups rs,
    regroup_quantity (chain r.service_package_group_code groups) r,
  )

  counted_map :
      (groups : ℕ → Option ℕ) (rs : List RequestedServicePackage)
      → map (λ r. r.quantity) (map (change_service_package_group_quantity texts groups) rs)
        ≡ map (λ r. r.quantity) rs
  unfolding change_service_package_group_quantity
  counted_map groups [] = refl
  counted_map groups (r ∷ rs) =
      ground (
        arith,
        counted_map groups rs,
        regroup_quantity (chain r.service_package_group_code groups) r,
      )

  -- The bundling of the packages of an order keeps their quantities, and gives each package the
  -- quantity that the packages of its group have in all, which is 0 for one without a group.
  pub bundle_by_service_package_group_codes_lem :
      (rs : List RequestedServicePackage)
      → (map
            (λ r. r.service_package_group_quantity)
            (bundle_by_service_package_group_codes texts rs)
          ≡ map (λ r. quantity_of_group_of r rs) rs)
        × (map (λ r. r.quantity) (bundle_by_service_package_group_codes texts rs)
            ≡ map (λ r. r.quantity) rs)
  unfolding bundle_by_service_package_group_codes
  bundle_by_service_package_group_codes_lem rs = (
    regrouped_map (group_quantities rs) rs ∙ expected rs rs,
    counted_map (group_quantities rs) rs,
  )
