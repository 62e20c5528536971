-- ===== src/Payout/LineTests.antt =====
-- The lines of an order of two units, of a request that was rescheduled at the cost of another
-- provider, and of a provider that cannot be paid.
use vz.Common.{arith, ◌≡◌, refl, none, some, List, [], ◌∷◌, All}
use vz.Common.Int.{pos, ◌+ℤ◌, ◌*ℤ◌, ◌-ℤ◌}
use vz.Common.Sums.{sum_of}
use vz.Common.Results.{IsErr}
use vz.Shared.Tenant.{Tenant}
use vz.Wallet.{WalletTransaction, WalletTransactionType, WalletTransactionStatus, from_owner}
use vz.Order.Report.{generate}
use vz.Order.Quotation.{StringMethods}
use vz.Order.Pricing.{RequestedServicePackage, Price}
use vz.Order.Prices.{IsSettled}
use vz.Order.Customer.{CustomerOrder, new_customer_order}
use vz.Order.Totals.{made}
use vz.Payout.Lines.{PayoutLine}
use vz.Payout.Factory.{PayableProvider, find_service_provider, create}
use vz.Payout.LineFactory.{
  PayableRequest, find_service_request, create_lines, service_package_line, surcharge_line,
}
use vz.Payout.Due.{amount_of, due}
use vz.Payout.LineTotals.{IsEarnedIncome, create_lines-sum}
use vz.Payout.Scheduling.{schedule_payouts_from_wallet_transactions, unpayable_provider_stops_all}
use vz.Payout.Filing.{last_transaction_takes_lines}

abbrev texts : StringMethods
texts = record { trim = λ s. s; to_upper_case = λ s. s }

abbrev sixty : Price
sixty = record {
  discounted_unit_price = pos 60;
  min_quantity = 1;
  sub_total = pos 120;
  total = pos 120;
  unit_price = pos 60;
  discount_amount = pos 0;
}

abbrev two_units : RequestedServicePackage
two_units = record {
  name = "Cleaning";
  consumer_quotations = none;
  service_provider_quotations = none;
  consumer = sixty;
  service_provider = sixty;
  quantity = 2;
  service_types_entitlement = 1;
  service_provider_quotation_state = none;
  service_package_id = 2;
  service_package_group_code = none;
  service_package_group_quantity = 0;
  technical_report = some (generate 2);
  total_service_minutes = 90;
  unit_service_minutes = 45;
}

two_units-IsSettled : IsSettled two_units
unfolding ◌*ℤ◌ ◌-ℤ◌ generate
two_units-IsSettled = record {
  consumer = record { sub_total = refl; total = refl; discount = refl };
  service_provider = record { sub_total = refl; total = refl; discount = refl };
  minutes = refl;
  reported = (generate 2, refl, refl);
}

abbrev order : CustomerOrder
order = new_customer_order texts none (two_units ∷ []) none

abbrev request : PayableRequest
request = record {
  id = 5;
  dispatcher_id = some 7;
  customer_name = "Customer";
  principal_group = Tenant.daikin;
  customer_order = order;
  consumer_surcharge_amount = pos 50;
}

abbrev income : WalletTransaction
income = record {
  id = some 11;
  amount = pos 120;
  owner_id = 7;
  principal_group = Tenant.daikin;
  type = WalletTransactionType.income;
  wallet = from_owner 7;
  status = WalletTransactionStatus.success;
  source = none;
  payout_id = some 1;
  service_request_id = some 5;
}

abbrev compensation : WalletTransaction
compensation = record income {
  id = some 12;
  amount = pos 30;
  owner_id = 8;
  type = WalletTransactionType.reschedule_surcharge_compensation;
  payout_id = some 2;
}

abbrev provider : PayableProvider
provider = record {
  id = 7;
  vendor_id = some "V7";
  bank_info = record {
    bank_name = some "Bank";
    account_holder_name = some "Seven";
    account_number = some "777";
    swift_code = some "SCB";
  };
}

abbrev other : PayableProvider
other = record provider { id = 8; vendor_id = some "V8" }

abbrev unit_line : PayoutLine
unit_line = service_package_line request provider income two_units

abbrev income_lines : List PayoutLine
income_lines = unit_line ∷ unit_line ∷ []

earned : All (IsEarnedIncome (income ∷ []) (provider ∷ []) (request ∷ []) texts) (income ∷ [])
unfolding new_customer_order find_service_request ◌+ℤ◌
earned = (
  λ _. record {
    request = request;
    found = refl;
    ordered = made none (two_units ∷ []) none (two_units-IsSettled, tt);
    earned = refl;
  },
  tt,
)

create_lines-sum_example : sum_of amount_of income_lines ≡ sum_of due (income ∷ [])
unfolding create_lines new_customer_order
create_lines-sum_example =
    create_lines-sum (income ∷ []) (provider ∷ []) (request ∷ []) texts income_lines earned refl

-- The line of the income is filed under the payout of the other provider.
abbrev misfiled : List PayoutLine
misfiled =
    service_package_line request provider compensation two_units
    ∷ service_package_line request provider compensation two_units
    ∷ surcharge_line request other compensation compensation
    ∷ []

-- A transaction of another request, of which no line comes.
abbrev of_another : WalletTransaction
of_another = record compensation {
  id = some 13;
  service_request_id = some 6;
  type = WalletTransactionType.top_up;
  payout_id = some 3;
}

last_transaction_takes_lines_example :
    All
      (λ l. l.service_request_id ≡ 5 → (l.payout_id ≡ some 2) × (l.wallet_transaction_id ≡ some 12))
      misfiled
unfolding create_lines new_customer_order
last_transaction_takes_lines_example =
    last_transaction_takes_lines (income ∷ []) (of_another ∷ []) compensation
      (provider ∷ other ∷ []) (request ∷ []) 5 misfiled refl ((λ h. ground arith), tt) refl

unpayable_provider_stops_all_example :
    ((schedule_payouts_from_wallet_transactions
        (compensation ∷ income ∷ [])
        (other ∷ [])
        (compensation ∷ income ∷ [])
        (request ∷ [])).payouts
      ≡ create (compensation ∷ income ∷ []) (other ∷ []))
    × IsErr
        (schedule_payouts_from_wallet_transactions
          (compensation ∷ income ∷ [])
          (other ∷ [])
          (compensation ∷ income ∷ [])
          (request ∷ [])).lines
    × ((schedule_payouts_from_wallet_transactions
          (compensation ∷ income ∷ [])
          (other ∷ [])
          (compensation ∷ income ∷ [])
          (request ∷ [])).published
        ≡ [])
unfolding new_customer_order find_service_request find_service_provider
unpayable_provider_stops_all_example =
    unpayable_provider_stops_all (compensation ∷ income ∷ []) (other ∷ []) (compensation ∷ []) []
      income (request ∷ []) request _ [] refl refl refl refl
