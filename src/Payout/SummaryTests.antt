-- ===== src/Payout/SummaryTests.antt =====
-- A cleaning and a compensation of one request, due to two vendors.
use vz.Common.{◌≡◌, refl, some, none, [], ◌∷◌, List}
use vz.Common.Int.{pos}
use vz.Shared.Tenant.{Tenant}
use vz.Common.Results.{err}
use vz.Shared.Errors.{plain}
use vz.Payout.{Payout, PayoutStatus}
use vz.Payout.Tenants.{Surroundings, payouts_of, payout_lines_of, generate_and_upload_payment_files}
use vz.Payout.Batch.{create_payout_batch}
use vz.Payout.Lines.{PayoutLine, PayoutLineType, ItemRef}
use vz.Payout.LinesFile.{Formats}
use vz.Payout.SummaryFile.{group_payout_lines_by_service_request}
use vz.Payout.Summaries.{rows_for, row_of, lines_for, group_payout_lines_by_service_request_lem}

abbrev formats : Formats
formats = record {
  to_string = λ n. "n";
  to_fixed = λ a. "0.00";
  job_desc_of = λ s. s;
  item_ref_of = λ r. "r";
}

abbrev cleaning : PayoutLine
cleaning = record {
  amount = pos 60;
  wallet_transaction_id = some 11;
  service_request_id = 1;
  payout_id = some 3;
  payout_batch_id = none;
  owner_vendor_id = some "15453";
  status = PayoutStatus.scheduled;
  sap_document_payment_no = none;
  payment_date = none;
  owner_id = 7;
  principal_group = Tenant.acson;
  customer_name = "Customer";
  bank = record {
    bank_name = none;
    account_holder_name = none;
    account_number = none;
    swift_code = none;
  };
  item_ref_id = ItemRef.request 1;
  item_description = "Cleaning";
  item_sales_amount = pos 80;
  item_type = PayoutLineType.service_package;
  consumer_promotion_code = none;
  consumer_promotion_amount = pos 0;
  consumer_quotation_unit_price = pos 80;
  service_provider_quotation_unit_price = pos 60;
}

abbrev compensation : PayoutLine
compensation = record cleaning {
  amount = pos 20;
  owner_vendor_id = some "15460";
  owner_id = 8;
  item_ref_id = ItemRef.surcharge 1;
  item_type = PayoutLineType.reschedule_surcharge;
  item_sales_amount = pos 50;
}

abbrev other : PayoutLine
other = record cleaning { service_request_id = 2 }

group_payout_lines_by_service_request_lem_example :
    rows_for 1 (group_payout_lines_by_service_request (cleaning ∷ other ∷ compensation ∷ []))
    ≡ row_of (lines_for 1 (cleaning ∷ other ∷ compensation ∷ []))
group_payout_lines_by_service_request_lem_example =
    group_payout_lines_by_service_request_lem 1 (cleaning ∷ other ∷ compensation ∷ [])

abbrev payout : Payout
payout = record {
  amount = pos 80;
  bank = cleaning.bank;
  owner_id = 7;
  principal_group = Tenant.acson;
  status = PayoutStatus.scheduled;
  wallet_transactions = [];
  processed_amount = pos 0;
}

abbrev payouts : List Payout
payouts = payout ∷ record payout { principal_group = Tenant.daikin; amount = pos 30 } ∷ []

abbrev lines : List PayoutLine
lines = cleaning ∷ record cleaning { principal_group = Tenant.daikin } ∷ []

abbrev surroundings : Tenant → Surroundings
surroundings Tenant.daikin = record { id = 8; count = 0; uploads = err (plain "S3") }
surroundings Tenant.acson = record { id = 9; count = 0; uploads = err (plain "S3") }

both_fail :
    (generate_and_upload_payment_files surroundings "2020/07/27" payouts lines).thrown ≡ none
unfolding generate_and_upload_payment_files payouts_of payout_lines_of create_payout_batch
both_fail = refl
