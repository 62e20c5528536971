-- ===== src/Payout/Tests.antt =====
-- Two payouts for three transactions, and a payout whose only line is reported as paid.
use vz.Common.{false, ◌⊎◌, ◌≡◌, ◌↔◌, refl, true, some, none, List, [], ◌∷◌, map, All}
use vz.Common.Int.{pos, ◌+ℤ◌}
use vz.Common.Results.{err}
use vz.Shared.Errors.{Error}
use vz.Shared.Tenant.{Tenant}
use vz.Wallet.{WalletTransaction, WalletTransactionType, WalletTransactionStatus, from_owner}
use vz.Payout.{Bank, Payout, PayoutStatus}
use vz.Payout.Factory.{PayableProvider, create}
use vz.Common.Sums.{sum_of}
use vz.Payout.Groups.{payable_amount, IsCovered, create_lem}
use vz.Payout.Lines.{
  ItemRef, PayoutLineType, PayoutLine, Payment, Processed, paid_line, total_of,
  mark_payout_lines_as_paid,
}
use vz.Payout.Processing.{mark_payout_lines_as_paid_lem, reported}

abbrev bank : Bank
bank = record {
  bank_name = some "Bank";
  account_holder_name = some "Owner";
  account_number = some "123";
  swift_code = some "SCB";
}

abbrev earning : WalletTransaction
earning = record {
  id = some 11;
  amount = pos 120;
  owner_id = 7;
  principal_group = Tenant.daikin;
  type = WalletTransactionType.income;
  wallet = from_owner 7;
  status = WalletTransactionStatus.success;
  source = none;
  payout_id = none;
  service_request_id = some 1;
}

abbrev earnings : List WalletTransaction
earnings =
    earning
    ∷ record earning { owner_id = 8; amount = pos 30 }
    ∷ record earning { principal_group = Tenant.acson; amount = pos 50 }
    ∷ record earning { amount = pos 80 }
    ∷ []

abbrev providers : List PayableProvider
providers = record { id = 7; vendor_id = none; bank_info = bank } ∷ []

create_lem_example :
    (sum_of (λ p. p.amount) (create earnings providers)
      ≡ sum_of (payable_amount providers) earnings)
    × All (IsCovered providers) (create earnings providers)
create_lem_example = create_lem providers earnings

-- The two transactions for one company make one payout.
created_amounts : map (λ p. p.amount) (create earnings providers) ≡ pos 200 ∷ pos 50 ∷ []
unfolding create ◌+ℤ◌
created_amounts = refl

abbrev payout : Payout
payout = record {
  amount = pos 60;
  bank = bank;
  owner_id = 7;
  principal_group = Tenant.daikin;
  status = PayoutStatus.in_transit;
  wallet_transactions = [];
  processed_amount = pos 0;
}

abbrev line : PayoutLine
line = record {
  amount = pos 60;
  wallet_transaction_id = some 11;
  service_request_id = 1;
  payout_id = some 3;
  payout_batch_id = some 4;
  owner_vendor_id = some "15453";
  status = PayoutStatus.in_transit;
  sap_document_payment_no = none;
  payment_date = none;
  principal_group = Tenant.daikin;
  customer_name = "Customer";
  bank = bank;
  owner_id = 7;
  item_ref_id = ItemRef.request 1;
  item_description = "Cleaning";
  item_sales_amount = pos 80;
  item_type = PayoutLineType.service_package;
  consumer_promotion_code = none;
  consumer_promotion_amount = pos 0;
  consumer_quotation_unit_price = pos 80;
  service_provider_quotation_unit_price = pos 60;
}

abbrev payment : Payment
payment = record { sap_document_payment_no = "2000001234"; payment_date = "27/7/2020" }

abbrev settled : Processed
settled = record {
  lines = paid_line payment line ∷ [];
  payout = record payout { status = PayoutStatus.paid; processed_amount = pos 60 };
  published = true;
}

mark_payout_lines_as_paid_lem_example :
    All (λ l. l.status ≡ PayoutStatus.in_transit) (line ∷ [])
    × (settled.lines ≡ map (reported payment) (line ∷ []))
    × (settled.payout.processed_amount ≡ payout.processed_amount +ℤ total_of (line ∷ []))
    × ((settled.published ≡ true) ↔ (settled.payout.processed_amount ≡ payout.amount))
    × ((settled.published ≡ false) ⊎ (settled.payout.status ≡ PayoutStatus.paid))
    × ((e : Error) × (mark_payout_lines_as_paid payment settled.lines (some settled.payout)
          ≡ err e))
unfolding mark_payout_lines_as_paid ◌+ℤ◌
mark_payout_lines_as_paid_lem_example =
    mark_payout_lines_as_paid_lem payment (line ∷ []) payout settled refl
