-- ===== src/Order/Prices.antt =====
-- The prices of a requested service package agree with its quantity, whatever is called on it.
use vz.Common.{
  ℕ, ◌*◌, ◌≡◌, refl, sym, ap, ◌∙◌, chain, String, Option, none, some, arith, List, Bool-cases, inl,
  inr, ◌==◌,
}
use vz.Common.Int.{pos, ◌-ℤ◌, ◌*ℤ◌}
use vz.Common.Results.{ok, required, >>=-eq-ok, >>-eq-ok, ok-injective, throw_if}
use vz.Order.Report.{TechnicalReport, TechnicalNote, num_of_notes, replace_notes, is_blank}
use vz.Order.Reports.{num_of_notes-generate, replace_notes_lem}
use vz.Order.Quotation.{StringMethods}
use vz.Order.Pricing.{ServicePackage, Price, RequestedServicePackage}
use vz.Order.Package.{
  snapshot, report_for, regroup, change_service_package, change_quantity,
  revise_from_new_quotations, change_service_package_group_quantity, apply_group_quantity,
  new_requested_service_package, replace_notes_in_technical_report,
}

pub record IsPriced (quantity : ℕ) (p : Price) : Type 0 where
  pub sub_total : p.sub_total ≡ pos quantity *ℤ p.unit_price
  pub total : p.total ≡ pos quantity *ℤ p.discounted_unit_price
  pub discount : p.discount_amount ≡ p.sub_total -ℤ p.total

pub record IsSettled (r : RequestedServicePackage) : Type 0 where
  pub consumer : IsPriced r.quantity r.consumer
  pub service_provider : IsPriced r.quantity r.service_provider
  pub minutes : r.total_service_minutes ≡ r.quantity * r.unit_service_minutes
  pub reported :
      (t : TechnicalReport) × (r.technical_report ≡ some t) × (num_of_notes t ≡ r.quantity)

-- `technicalReport?.numOfNotes() !== quantity`: the report of the package has a note for each unit.
num_of_notes-report_for :
    (quantity : ℕ) (old : Option TechnicalReport)
    → num_of_notes (report_for quantity old) ≡ quantity
num_of_notes-report_for quantity none = num_of_notes-generate quantity
num_of_notes-report_for quantity (some t) = ground (arith, num_of_notes-generate quantity)

module _ (texts : StringMethods) where
  change_quantity-IsSettled :
      (quantity : ℕ) (r : RequestedServicePackage) → IsSettled (change_quantity texts quantity r)
  unfolding change_quantity
  change_quantity-IsSettled quantity r = record {
    consumer = ground arith;
    service_provider = ground arith;
    minutes = ground arith;
    reported = (
      report_for quantity r.technical_report,
      ground arith,
      ground (arith, num_of_notes-report_for quantity r.technical_report),
    );
  }

  apply_group_quantity-IsSettled :
      (n : ℕ) (r : RequestedServicePackage)
      → IsSettled r
      → IsSettled (apply_group_quantity texts n r)
  unfolding apply_group_quantity
  apply_group_quantity-IsSettled n r h = record {
    consumer = ground arith;
    service_provider = ground arith;
    minutes = ground arith;
    reported = (h.reported.0, ground arith, ground arith);
  }

  ungrouped-IsSettled :
      (r : RequestedServicePackage)
      → IsSettled r
      → IsSettled (record r { service_package_group_quantity = 0 })
  ungrouped-IsSettled r h = ground arith

  regroup-IsSettled :
      (n : Option ℕ) (r : RequestedServicePackage) → IsSettled r → IsSettled (regroup texts n r)
  unfolding regroup
  regroup-IsSettled none r h = ungrouped-IsSettled r h
  regroup-IsSettled (some n) r h = elim (Bool-cases (n == 0)) [
    | inl empty ↦ rw empty (ungrouped-IsSettled r h)
    | inr present ↦ rw present (apply_group_quantity-IsSettled n r h)
  ]

  pub change_service_package_group_quantity-IsSettled :
      (groups : ℕ → Option ℕ) (r : RequestedServicePackage)
      → IsSettled r
      → IsSettled (change_service_package_group_quantity texts groups r)
  unfolding change_service_package_group_quantity
  change_service_package_group_quantity-IsSettled groups r h =
      regroup-IsSettled (chain r.service_package_group_code groups) r h

  -- What is called on a package after its construction.
  pub data Change (r : RequestedServicePackage) : RequestedServicePackage → Type 0 where
    revised :
        (svp : ServicePackage) (quantity : ℕ)
        → Change r (revise_from_new_quotations texts svp quantity r)
    requantified : (quantity : ℕ) → Change r (change_quantity texts quantity r)
    grouped :
        (groups : ℕ → Option ℕ) → Change r (change_service_package_group_quantity texts groups r)
    noted :
        (notes : List TechnicalNote) {r' : RequestedServicePackage}
        → replace_notes_in_technical_report notes r ≡ ok r'
        → Change r r'

  pub data Changes (r : RequestedServicePackage) : RequestedServicePackage → Type 0 where
    here : Changes r r
    next : {s t : RequestedServicePackage} → Changes r s → Change s t → Changes r t

  replace_notes_in_technical_report-IsSettled :
      (notes : List TechnicalNote) (r r' : RequestedServicePackage)
      → replace_notes_in_technical_report notes r ≡ ok r'
      → IsSettled r
      → IsSettled r'
  unfolding replace_notes_in_technical_report
  replace_notes_in_technical_report-IsSettled notes r r' e h =
      let (t, there, e') = >>=-eq-ok (required r.technical_report) _ e in
      let (t', replaced, e'') = >>=-eq-ok (replace_notes notes t) _ e' in
      let same = (replace_notes_lem notes t t' replaced).1 in
      let (old, known, counted) = h.reported in
      let t-old : t ≡ old = ok-injective (sym there ∙ ap (required) known) in
      rw (← ok-injective e'') (record {
        consumer = h.consumer;
        service_provider = h.service_provider;
        minutes = h.minutes;
        reported = (t', refl, same ∙ ap num_of_notes t-old ∙ counted);
      })

  Change-IsSettled : {r s : RequestedServicePackage} → Change r s → IsSettled r → IsSettled s
  unfolding revise_from_new_quotations
  Change-IsSettled {r = r} (revised svp quantity) h =
      change_quantity-IsSettled quantity (change_service_package texts svp r)
  Change-IsSettled {r = r} (requantified quantity) h = change_quantity-IsSettled quantity r
  Change-IsSettled {r = r} (grouped groups) h =
      change_service_package_group_quantity-IsSettled groups r h
  Change-IsSettled {r = r} {s = s} (noted notes e) h =
      replace_notes_in_technical_report-IsSettled notes r s e h

  Changes-IsSettled : {r s : RequestedServicePackage} → Changes r s → IsSettled r → IsSettled s
  Changes-IsSettled here h = h
  Changes-IsSettled (next c d) h = Change-IsSettled d (Changes-IsSettled c h)

  -- A package that the constructor has made, and whatever revisions, changes of its quantity or of
  -- its group's and technical notes followed: its subtotals and totals, the consumer's and the
  -- service provider's, are its quantity times the original and the discounted unit price, its
  -- discounts are their differences, its minutes are those of its units, and its report has one
  -- note for each unit.
  pub new_requested_service_package-IsSettled :
      (quantity : ℕ) (state : String) (svp : ServicePackage) {r s : RequestedServicePackage}
      → new_requested_service_package texts quantity state svp ≡ ok r
      → Changes r s
      → IsSettled s
  unfolding new_requested_service_package revise_from_new_quotations
  new_requested_service_package-IsSettled quantity state svp made changes =
      let e = >>-eq-ok (throw_if (is_blank (some (texts.trim state))) _) _ made in
      Changes-IsSettled changes (
        rw (← ok-injective e) (
          change_quantity-IsSettled quantity
            (change_service_package texts svp (snapshot (some state) svp))))
