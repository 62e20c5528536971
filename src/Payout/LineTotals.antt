-- ===== src/Payout/LineTotals.antt =====
-- The lines of a payout add up to what it is for.
use vz.Common.{
  ◌≡◌, sym, ap, ◌∙◌, true, some, List, [], ◌∷◌, All, replicate, chain, if◌then◌else◌, Bool-cases,
  inl, inr,
}
use vz.Common.Int.{◌+ℤ◌, int_laws}
use vz.Common.Sums.{sum_of, sum_of-append, sum_of-replicate}
use vz.Common.Results.{ok, >>=-eq-ok, ok-injective, required}
use vz.Wallet.{WalletTransaction, is_compensation}
use vz.Order.Quotation.{StringMethods}
use vz.Order.Pricing.{RequestedServicePackage}
use vz.Order.Prices.{IsSettled}
use vz.Order.Totals.{Made, Made-IsBalanced}
use vz.Order.Earnings.{Made-IsSummed}
use vz.Payout.Lines.{PayoutLine}
use vz.Payout.Factory.{PayableProvider, find_service_provider}
use vz.Payout.LineFactory.{
  PayableRequest, find_wallet_transaction, find_service_request, is_income, service_package_line,
  lines_of_packages, lines_of_income, generate_income_payout_lines, line_of_compensation,
  generate_reschedule_surcharge_payout_lines, create_lines,
}
use vz.Payout.Due.{amount_of, due, income_due, compensation_due, both_due, sum_of-Customer}

module _ (transactions : List WalletTransaction) (providers : List PayableProvider)
    (requests : List PayableRequest) where
  lines_of_packages-sum :
      (sr : PayableRequest) (sps : List RequestedServicePackage) (ls : List PayoutLine)
      → All IsSettled sps
      → lines_of_packages transactions providers requests sr sps ≡ ok ls
      → sum_of amount_of ls ≡ sum_of (λ r. r.service_provider.total) sps
  unfolding lines_of_packages
  lines_of_packages-sum sr [] ls h e = ap (sum_of amount_of) (sym (ok-injective e))
  lines_of_packages-sum sr (sp ∷ sps) ls h e =
      let (owner, found, e1) =
        >>=-eq-ok (required (chain sr.dispatcher_id (find_service_provider providers))) _ e in
      let (lookup, known, e2) =
        >>=-eq-ok (required (find_wallet_transaction transactions sr.id)) _ e1 in
      let (rest, others, e3) =
        >>=-eq-ok (lines_of_packages transactions providers requests sr sps) _ e2 in
      let own = replicate sp.quantity (service_package_line sr owner lookup sp) in
      let units =
        sum_of-replicate amount_of sp.quantity (service_package_line sr owner lookup sp) in
      let both = sum_of-append amount_of own rest in
      let priced = h.0.service_provider.total in
      rw (← ok-injective e3) (
        both
        ∙ ap (λ s. s +ℤ sum_of amount_of rest) (units ∙ sym priced)
        ∙ ap (λ s. sp.service_provider.total +ℤ s) (lines_of_packages-sum sr sps rest h.1 others))

  -- An income that the wallet got for the request that the lookup has: its amount is the service
  -- provider's total of the order.
  pub record IsEarned (texts : StringMethods) (t : WalletTransaction) : Type 0 where
    pub request : PayableRequest
    pub found : chain t.service_request_id (find_service_request requests) ≡ some request
    pub ordered : Made texts request.customer_order
    pub earned : t.amount ≡ request.customer_order.service_provider_total

  abbrev pub IsEarnedIncome : StringMethods → WalletTransaction → Type 0
  IsEarnedIncome texts t = is_income t.type ≡ true → IsEarned texts t

  module _ (texts : StringMethods) where
    lines_of_income-sum :
        (t : WalletTransaction) (ls : List PayoutLine)
        → IsEarned texts t
        → lines_of_income transactions providers requests t ≡ ok ls
        → sum_of amount_of ls ≡ t.amount
    unfolding lines_of_income
    lines_of_income-sum t ls h e =
        let (sr, known, e') =
          >>=-eq-ok (required (chain t.service_request_id (find_service_request requests))) _ e in
        let same : sr ≡ h.request = ok-injective (sym known ∙ ap required h.found) in
        let packages = (Made-IsBalanced texts h.ordered).packages in
        lines_of_packages-sum sr sr.customer_order.service_packages ls (rw same packages) e'
        ∙ ap (λ x. sum_of (λ r. r.service_provider.total) x.customer_order.service_packages) same
        ∙ sym (
            h.earned
            ∙ Made-IsSummed texts h.ordered
            ∙ sum_of-Customer (λ r. r.service_provider.total)
                h.request.customer_order.service_packages)

    income_part :
        (t : WalletTransaction) (ls : List PayoutLine)
        → IsEarnedIncome texts t
        → (if is_income t.type then lines_of_income transactions providers requests t else ok [])
          ≡ ok ls
        → sum_of amount_of ls ≡ income_due t
    income_part t ls h e = elim (Bool-cases (is_income t.type)) [
      | inl yes_income ↦
          rw yes_income (lines_of_income-sum t ls (h yes_income) (rw yes_income at e))
      | inr other ↦ rw other (ap (sum_of amount_of) (sym (ok-injective (rw other at e))))
    ]

    generate_income-sum :
        (ts : List WalletTransaction) (ls : List PayoutLine)
        → All (IsEarnedIncome texts) ts
        → generate_income_payout_lines transactions providers requests ts ≡ ok ls
        → sum_of amount_of ls ≡ sum_of income_due ts
    unfolding generate_income_payout_lines
    generate_income-sum [] ls h e = ap (sum_of amount_of) (sym (ok-injective e))
    generate_income-sum (t ∷ ts) ls h e =
        let (own, made, e1) =
          >>=-eq-ok
            (if is_income t.type then lines_of_income transactions providers requests t else ok [])
            _ e in
        let (rest, others, e2) =
          >>=-eq-ok (generate_income_payout_lines transactions providers requests ts) _ e1 in
        let one = income_part t own h.0 made in
        let more = generate_income-sum ts rest h.1 others in
        rw (← ok-injective e2) (
          sum_of-append amount_of own rest
          ∙ ap (λ s. s +ℤ sum_of amount_of rest) one
          ∙ ap (λ s. income_due t +ℤ s) more)

    line_of_compensation-sum :
        (t : WalletTransaction) (ls : List PayoutLine)
        → line_of_compensation transactions providers requests t ≡ ok ls
        → sum_of amount_of ls ≡ t.amount
    unfolding line_of_compensation
    line_of_compensation-sum t ls e =
        let (sr, known, e1) =
          >>=-eq-ok (required (chain t.service_request_id (find_service_request requests))) _ e in
        let (owner, there, e2) =
          >>=-eq-ok (required (find_service_provider providers t.owner_id)) _ e1 in
        let (lookup, last, e3) =
          >>=-eq-ok (required (find_wallet_transaction transactions sr.id)) _ e2 in
        rw (← ok-injective e3) (grind int_laws)

    compensation_part :
        (t : WalletTransaction) (ls : List PayoutLine)
        → (if is_compensation t.type
            then line_of_compensation transactions providers requests t
            else ok [])
          ≡ ok ls
        → sum_of amount_of ls ≡ compensation_due t
    compensation_part t ls e = elim (Bool-cases (is_compensation t.type)) [
      | inl same ↦ rw same (line_of_compensation-sum t ls (rw same at e))
      | inr other ↦ rw other (ap (sum_of amount_of) (sym (ok-injective (rw other at e))))
    ]

    generate_compensation-sum :
        (ts : List WalletTransaction) (ls : List PayoutLine)
        → generate_reschedule_surcharge_payout_lines transactions providers requests ts ≡ ok ls
        → sum_of amount_of ls ≡ sum_of compensation_due ts
    unfolding generate_reschedule_surcharge_payout_lines
    generate_compensation-sum [] ls e = ap (sum_of amount_of) (sym (ok-injective e))
    generate_compensation-sum (t ∷ ts) ls e =
        let (own, made, e1) =
          >>=-eq-ok
            (if is_compensation t.type
              then line_of_compensation transactions providers requests t
              else ok [])
            _ e in
        let (rest, others, e2) =
          >>=-eq-ok (generate_reschedule_surcharge_payout_lines transactions providers requests ts)
            _ e1 in
        let one = compensation_part t own made in
        let more = generate_compensation-sum ts rest others in
        rw (← ok-injective e2) (
          sum_of-append amount_of own rest
          ∙ ap (λ s. s +ℤ sum_of amount_of rest) one
          ∙ ap (λ s. compensation_due t +ℤ s) more)

    -- The lines that the factory makes, where each income among the transactions is what the
    -- service provider earns with the order of its request, an order made of settled packages:
    -- their amounts add up to those of the incomes and the compensations.
    pub create_lines-sum :
        (ls : List PayoutLine)
        → All (IsEarnedIncome texts) transactions
        → create_lines transactions providers requests ≡ ok ls
        → sum_of amount_of ls ≡ sum_of due transactions
    unfolding create_lines
    create_lines-sum ls h e =
        let (income, made, e1) =
          >>=-eq-ok (generate_income_payout_lines transactions providers requests transactions) _
            e in
        let (surcharges, made', e2) =
          >>=-eq-ok
            (generate_reschedule_surcharge_payout_lines transactions providers requests
              transactions)
            _ e1 in
        let one = generate_income-sum transactions income h made in
        let other = generate_compensation-sum transactions surcharges made' in
        rw (← ok-injective e2) (
          sum_of-append amount_of income surcharges
          ∙ ap (λ s. s +ℤ sum_of amount_of surcharges) one
          ∙ ap (λ s. sum_of income_due transactions +ℤ s) other
          ∙ both_due transactions)
