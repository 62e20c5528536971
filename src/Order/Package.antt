-- ===== src/Order/Package.antt =====
-- service-request/entities/requested-service-package.entity.ts: one line of an order, with the
-- quotations that were in force when it was made.
use vz.Common.{ℕ, ◌*◌, String, Option, none, some, List, ◌==◌, chain, if◌then◌else◌}
use vz.Common.Int.{pos}
use vz.Common.Results.{Result, ok, ◌>>=◌, ◌>>◌, throw_if, required}
use vz.Shared.Errors.{user_input}
use vz.Order.Report.{
  TechnicalReport, TechnicalNote, generate, num_of_notes, is_blank, replace_notes,
}
use vz.Order.Quotation.{StringMethods}
use vz.Order.Pricing.{
  ServicePackage, Price, RequestedServicePackage, reflect_consumer_discounted_quotations,
  reflect_consumer_original_quotations, calculate_consumer_totals,
  calculate_service_provider_totals, reflect_service_provider_discounted_quotations,
  reflect_service_provider_original_quotations,
}

-- `this.technicalReport?.numOfNotes() !== this.quantity`
abbrev pub report_for : ℕ → Option TechnicalReport → TechnicalReport
report_for quantity none = generate quantity
report_for quantity (some t) = if num_of_notes t == quantity then t else generate quantity

unfoldable pub replace_notes_in_technical_report :
    List TechnicalNote → RequestedServicePackage → Result RequestedServicePackage
replace_notes_in_technical_report notes r = do
  t ← required r.technical_report
  t' ← replace_notes notes t
  ok (record r { technical_report = some t' })

abbrev no_price : Price
no_price = record {
  discounted_unit_price = pos 0;
  min_quantity = 0;
  sub_total = pos 0;
  total = pos 0;
  unit_price = pos 0;
  discount_amount = pos 0;
}

-- The fields of the new object that are undefined before `reviseFromNewQuotations` sets them.
abbrev pub snapshot : Option String → ServicePackage → RequestedServicePackage
snapshot state svp = record {
  name = svp.name;
  consumer_quotations = some svp.consumer_quotations;
  service_provider_quotations = some svp.service_provider_quotations;
  consumer = no_price;
  service_provider = no_price;
  quantity = 0;
  service_types_entitlement = 0;
  service_provider_quotation_state = state;
  service_package_id = svp.id;
  service_package_group_code = none;
  service_package_group_quantity = 0;
  technical_report = none;
  total_service_minutes = 0;
  unit_service_minutes = 0;
}

module _ (texts : StringMethods) where
  unfoldable pub change_service_package :
      ServicePackage → RequestedServicePackage → RequestedServicePackage
  unfolding reflect_consumer_original_quotations reflect_service_provider_original_quotations
  change_service_package svp r =
      let described = record r {
        service_package_id = svp.id;
        service_package_group_code = svp.group_code;
        unit_service_minutes = svp.unit_service_minutes;
        name = svp.name;
        service_types_entitlement = svp.service_types_entitlement;
      } in
      let priced = reflect_consumer_original_quotations 1 described in
      reflect_service_provider_original_quotations texts 1 priced.service_provider_quotation_state
        priced

  unfoldable pub change_quantity : ℕ → RequestedServicePackage → RequestedServicePackage
  unfolding reflect_consumer_discounted_quotations reflect_service_provider_discounted_quotations
      calculate_consumer_totals calculate_service_provider_totals
  change_quantity quantity r =
      let counted = record r {
        quantity = quantity;
        technical_report = some (report_for quantity r.technical_report);
        total_service_minutes = quantity * r.unit_service_minutes;
      } in
      let consumer =
        calculate_consumer_totals quantity
          (reflect_consumer_discounted_quotations quantity counted) in
      calculate_service_provider_totals quantity (
        reflect_service_provider_discounted_quotations texts quantity
          consumer.service_provider_quotation_state consumer)

  unfoldable pub revise_from_new_quotations :
      ServicePackage → ℕ → RequestedServicePackage → RequestedServicePackage
  unfolding change_service_package change_quantity
  revise_from_new_quotations svp quantity r =
      change_quantity quantity (change_service_package svp r)

  -- The tiers of the group's quantity, and the totals of the package's own. The group's quantity
  -- is a sum of quantities, so the test that it is below 0 does not stand here.
  unfoldable pub apply_group_quantity : ℕ → RequestedServicePackage → RequestedServicePackage
  unfolding reflect_consumer_discounted_quotations reflect_service_provider_discounted_quotations
      calculate_consumer_totals calculate_service_provider_totals
  apply_group_quantity group_quantity r =
      let grouped = record r { service_package_group_quantity = group_quantity } in
      let consumer =
        calculate_consumer_totals r.quantity
          (reflect_consumer_discounted_quotations group_quantity grouped) in
      calculate_service_provider_totals r.quantity (
        reflect_service_provider_discounted_quotations texts group_quantity
          consumer.service_provider_quotation_state consumer)

  -- The early return of `changeServicePackageGroupQuantity`, for a quantity that is undefined or
  -- 0, and the rest of it.
  unfoldable pub regroup : Option ℕ → RequestedServicePackage → RequestedServicePackage
  regroup none r = record r { service_package_group_quantity = 0 }
  regroup (some n) r =
      if n == 0 then record r { service_package_group_quantity = 0 } else apply_group_quantity n r

  -- `groups[this.servicePackageGroupCode]`, where there is a code.
  unfoldable pub change_service_package_group_quantity :
      (ℕ → Option ℕ) → RequestedServicePackage → RequestedServicePackage
  unfolding regroup
  change_service_package_group_quantity groups r =
      regroup (chain r.service_package_group_code groups) r

  -- The constructor, neither its quantity nor its package undefined. The package is an object, so
  -- the test that it is not null does not stand here.
  unfoldable pub new_requested_service_package :
      ℕ → String → ServicePackage → Result RequestedServicePackage
  unfolding revise_from_new_quotations
  new_requested_service_package quantity state svp = do
    throw_if (is_blank (some (texts.trim state)))
        (user_input "customer address state can't be null")
    ok (revise_from_new_quotations svp quantity (snapshot (some state) svp))
