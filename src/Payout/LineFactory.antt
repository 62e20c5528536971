-- ===== src/Payout/LineFactory.antt =====
-- payout/factories/payout-lines.factory.ts: the lines of the transactions that are paid out.
use vz.Common.{
  ℕ, String, Bool, true, false, Option, none, some, List, [], ◌∷◌, ◌++◌, ◌==◌, is_id, chain,
  replicate, if◌then◌else◌,
}
use vz.Common.Int.{ℤ, pos}
use vz.Common.Results.{Result, ok, ◌>>=◌, required}
use vz.Shared.Tenant.{Tenant}
use vz.Wallet.{WalletTransaction, WalletTransactionType, is_compensation}
use vz.Order.Pricing.{RequestedServicePackage}
use vz.Order.Customer.{CustomerOrder}
use vz.Payout.{PayoutStatus}
use vz.Payout.Lines.{ItemRef, PayoutLineType, PayoutLine}
use vz.Payout.Factory.{PayableProvider, find_service_provider}

-- What the factory calls of `IServiceRequest`. The provider's dispatcher is an object, its id may
-- be missing.
pub record PayableRequest : Type 0 where
  pub id : ℕ
  pub dispatcher_id : Option ℕ
  pub customer_name : String
  pub principal_group : Tenant
  pub customer_order : CustomerOrder
  pub consumer_surcharge_amount : ℤ

-- `lookup[id]` after the `reduce`, in which a later entry of an id replaces an earlier one.
unfoldable pub find_wallet_transaction : List WalletTransaction → ℕ → Option WalletTransaction
find_wallet_transaction [] id = none
find_wallet_transaction (t ∷ ts) id = elim (find_wallet_transaction ts id) [
  | some found ↦ some found
  | none ↦ if is_id t.service_request_id id then some t else none
]

unfoldable pub find_service_request : List PayableRequest → ℕ → Option PayableRequest
find_service_request [] id = none
find_service_request (sr ∷ srs) id = elim (find_service_request srs id) [
  | some found ↦ some found
  | none ↦ if sr.id == id then some sr else none
]

abbrev pub is_income : WalletTransactionType → Bool
is_income WalletTransactionType.income = true
is_income _ = false

-- The line of one unit of a package. `lookup` is the transaction that the lookup has for the
-- request.
abbrev pub service_package_line :
    PayableRequest → PayableProvider → WalletTransaction → RequestedServicePackage → PayoutLine
service_package_line sr owner lookup sp = record {
  amount = sp.service_provider.discounted_unit_price;
  wallet_transaction_id = lookup.id;
  service_request_id = sr.id;
  payout_id = lookup.payout_id;
  payout_batch_id = none;
  owner_vendor_id = owner.vendor_id;
  status = PayoutStatus.scheduled;
  sap_document_payment_no = none;
  payment_date = none;
  owner_id = owner.id;
  principal_group = sr.principal_group;
  customer_name = sr.customer_name;
  bank = owner.bank_info;
  item_ref_id = ItemRef.request sr.id;
  item_description = sp.name;
  item_sales_amount = sp.consumer.discounted_unit_price;
  item_type = PayoutLineType.service_package;
  consumer_promotion_code = sr.customer_order.consumer_promotion_code;
  consumer_promotion_amount = sr.customer_order.consumer_promotion_amount;
  consumer_quotation_unit_price = sp.consumer.unit_price;
  service_provider_quotation_unit_price = sp.service_provider.unit_price;
}

-- The two unit prices are not set, and are 0 by the defaults of their columns.
abbrev pub surcharge_line :
    PayableRequest → PayableProvider → WalletTransaction → WalletTransaction → PayoutLine
surcharge_line sr owner lookup t = record {
  amount = t.amount;
  wallet_transaction_id = lookup.id;
  service_request_id = sr.id;
  payout_id = lookup.payout_id;
  payout_batch_id = none;
  owner_vendor_id = owner.vendor_id;
  status = PayoutStatus.scheduled;
  sap_document_payment_no = none;
  payment_date = none;
  owner_id = owner.id;
  principal_group = t.principal_group;
  customer_name = sr.customer_name;
  bank = owner.bank_info;
  item_ref_id = ItemRef.surcharge sr.id;
  item_description = "RESCHEDULE_SURCHARGE";
  item_sales_amount = sr.consumer_surcharge_amount;
  item_type = PayoutLineType.reschedule_surcharge;
  consumer_promotion_code = sr.customer_order.consumer_promotion_code;
  consumer_promotion_amount = sr.customer_order.consumer_promotion_amount;
  consumer_quotation_unit_price = pos 0;
  service_provider_quotation_unit_price = pos 0;
}

-- The arguments and lookups of `create`.
module _ (transactions : List WalletTransaction) (providers : List PayableProvider)
    (requests : List PayableRequest) where
  -- A round of `servicePackages.forEach` for each package.
  unfoldable pub lines_of_packages :
      PayableRequest → List RequestedServicePackage → Result (List PayoutLine)
  lines_of_packages sr [] = ok []
  lines_of_packages sr (sp ∷ sps) = do
    owner ← required (chain sr.dispatcher_id (find_service_provider providers))
    lookup ← required (find_wallet_transaction transactions sr.id)
    rest ← lines_of_packages sr sps
    ok (replicate sp.quantity (service_package_line sr owner lookup sp) ++ rest)

  unfoldable pub lines_of_income : WalletTransaction → Result (List PayoutLine)
  unfolding lines_of_packages find_service_request
  lines_of_income t = do
    sr ← required (chain t.service_request_id (find_service_request requests))
    lines_of_packages sr sr.customer_order.service_packages

  unfoldable pub generate_income_payout_lines : List WalletTransaction → Result (List PayoutLine)
  unfolding lines_of_income
  generate_income_payout_lines [] = ok []
  generate_income_payout_lines (t ∷ ts) = do
    lines ← (if is_income t.type then lines_of_income t else ok [])
    rest ← generate_income_payout_lines ts
    ok (lines ++ rest)

  unfoldable pub line_of_compensation : WalletTransaction → Result (List PayoutLine)
  unfolding find_service_request find_service_provider find_wallet_transaction
  line_of_compensation t = do
    sr ← required (chain t.service_request_id (find_service_request requests))
    owner ← required (find_service_provider providers t.owner_id)
    lookup ← required (find_wallet_transaction transactions sr.id)
    ok (surcharge_line sr owner lookup t ∷ [])

  unfoldable pub generate_reschedule_surcharge_payout_lines :
      List WalletTransaction → Result (List PayoutLine)
  unfolding line_of_compensation
  generate_reschedule_surcharge_payout_lines [] = ok []
  generate_reschedule_surcharge_payout_lines (t ∷ ts) = do
    lines ← (if is_compensation t.type then line_of_compensation t else ok [])
    rest ← generate_reschedule_surcharge_payout_lines ts
    ok (lines ++ rest)

  unfoldable pub create_lines : Result (List PayoutLine)
  unfolding generate_income_payout_lines generate_reschedule_surcharge_payout_lines
  create_lines = do
    income ← generate_income_payout_lines transactions
    surcharges ← generate_reschedule_surcharge_payout_lines transactions
    ok (income ++ surcharges)
