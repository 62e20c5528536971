-- ===== src/Payout/BatchTests.antt =====
-- A batch of one payout whose line has been sent before, a return file of two lines, and a file of three.
use vz.Common.{
  ◌+◌, ◌≡◌, ℕ, String, arith, refl, Bool, true, false, none, some, List, [], ◌∷◌, ◌++◌, map, length,
  ◌==◌, if◌then◌else◌, Bool-cases, inl, inr,
}
use vz.Common.Int.{pos}
use vz.Common.Sums.{sum_of}
use vz.Common.Results.{ok}
use vz.Shared.Tenant.{Tenant}
use vz.Payout.{Bank, Payout, PayoutStatus}
use vz.Payout.Lines.{ItemRef, PayoutLineType, PayoutLine}
use vz.Payout.Batch.{Urls, Batched, PayoutBatchStatus, create_payout_batch}
use vz.Payout.Batches.{Outcome, create_payout_batch_lem}
use vz.Payout.LinesFile.{Formats, set_details, get_result}
use vz.Payout.JobNumbers.{job_numbers}
use vz.Payout.ReturnFile.{Text, payout_file_delimiter, MarkPayoutLinesAsPaidInput, inputs_of_file}
use vz.Payout.ReturnFiles.{
  IsPrintable, IsPlain, IsColumn, IsTrim, Row, print_file, inputs_of_file-print_file,
}

abbrev bank : Bank
bank = record {
  bank_name = some "Bank";
  account_holder_name = some "Owner";
  account_number = some "123";
  swift_code = some "SCB";
}

abbrev payout : Payout
payout = record {
  amount = pos 60;
  bank = bank;
  owner_id = 7;
  principal_group = Tenant.acson;
  status = PayoutStatus.scheduled;
  wallet_transactions = [];
  processed_amount = pos 0;
}

abbrev sent_before : PayoutLine
sent_before = record {
  amount = pos 60;
  wallet_transaction_id = some 11;
  service_request_id = 1;
  payout_id = some 3;
  payout_batch_id = some 4;
  owner_vendor_id = some "15453";
  status = PayoutStatus.in_transit;
  sap_document_payment_no = none;
  payment_date = none;
  owner_id = 7;
  principal_group = Tenant.acson;
  customer_name = "Customer";
  bank = bank;
  item_ref_id = ItemRef.request 1;
  item_description = "Cleaning";
  item_sales_amount = pos 80;
  item_type = PayoutLineType.service_package;
  consumer_promotion_code = none;
  consumer_promotion_amount = pos 0;
  consumer_quotation_unit_price = pos 80;
  service_provider_quotation_unit_price = pos 60;
}

abbrev urls : Urls
urls = record {
  scb_payment_file = "payment.csv";
  payout_summary_file = "summary.csv";
  payout_lines_file = "lines.csv";
}

create_payout_batch_lem_example :
    (r : Batched) × (create_payout_batch 9 2 "2020/07/27" (ok urls) (payout ∷ []) (sent_before ∷ [])
      ≡ ok (some r))
    × Outcome 9 (ok urls) (payout ∷ []) (sent_before ∷ []) r
    × (r.batch.total_amount ≡ sum_of (λ p. p.amount) (payout ∷ []))
    × (r.batch.total_records ≡ length (payout ∷ []))
    × (r.batch.daily_running_count ≡ 2 + 1)
    × (r.batch.principal_group ≡ Tenant.acson)
create_payout_batch_lem_example =
    create_payout_batch_lem 9 2 "2020/07/27" (ok urls) payout [] sent_before []

-- The batch has failed, and its payout is in transit.
stuck_batch :
    (r : Batched) × (create_payout_batch 9 2 "2020/07/27" (ok urls) (payout ∷ []) (sent_before ∷ [])
      ≡ ok (some r))
    × (r.batch.status ≡ PayoutBatchStatus.failed)
    × (map (λ p. p.status) r.batch.payouts ≡ PayoutStatus.in_transit ∷ [])
unfolding create_payout_batch
stuck_batch = (_, refl, refl, refl)

-- Spaces in front go.
trim_start : Text → Text
trim_start [] = []
trim_start (c ∷ cs) = let rest = trim_start cs in if c == b' ' then rest else c ∷ cs

trim_start-keeps :
    (a b : Text) → (length (trim_start (a ++ (payout_file_delimiter ∷ b))) == 0) ≡ false
unfolding trim_start
trim_start-keeps [] b = ground arith
trim_start-keeps (c ∷ cs) b = elim (Bool-cases (c == b' ')) [
  | inl blank ↦ rw blank (trim_start-keeps cs b)
  | inr other ↦ rw other (ground arith)
]

trim_start-IsTrim : IsTrim trim_start
unfolding trim_start
trim_start-IsTrim = record { empty = refl; keeps = trim_start-keeps }

abbrev paid : MarkPayoutLinesAsPaidInput
paid = record {
  service_request_id = b'7' ∷ [];
  sap_document_payment_no = b'2' ∷ b'0' ∷ [];
  service_provider_vendor_id = b'V' ∷ [];
  payment_date = b'1' ∷ [];
}

abbrev row : ℕ → Bool → Row
row id with_carriage_return = record {
  input = record paid { service_request_id = id ∷ [] };
  with_carriage_return = with_carriage_return;
}

abbrev rows : List Row
rows = row b'7' true ∷ row b'8' false ∷ []

digits-IsColumn : IsColumn trim_start trim_start-IsTrim paid.sap_document_payment_no
unfolding trim_start
digits-IsColumn = record { plain = ((refl, refl, refl), ((refl, refl, refl), tt)); trimmed = refl }

letter-IsColumn :
    (c : ℕ) → IsPlain c → (c == b' ') ≡ false → IsColumn trim_start trim_start-IsTrim (c ∷ [])
unfolding trim_start
letter-IsColumn c plain mark = record { plain = (plain, tt); trimmed = rw mark refl }

row-IsPrintable :
    (c : ℕ) (b : Bool)
    → IsPlain c
    → (c == b' ') ≡ false
    → IsPrintable trim_start trim_start-IsTrim (row c b)
row-IsPrintable c b plain mark = record {
  service_request_id = letter-IsColumn c plain mark;
  sap_document_payment_no = digits-IsColumn;
  service_provider_vendor_id = letter-IsColumn b'V' (refl, refl, refl) refl;
  payment_date = letter-IsColumn b'1' (refl, refl, refl) refl;
}

inputs_of_file-print_file_example :
    inputs_of_file trim_start (print_file rows) ≡ map (λ r. r.input) rows
inputs_of_file-print_file_example = inputs_of_file-print_file trim_start trim_start-IsTrim rows (
  row-IsPrintable b'7' true (refl, refl, refl) refl,
  (row-IsPrintable b'8' false (refl, refl, refl) refl, tt),
)

abbrev digit : ℕ → String
digit n = if n == 1 then "1" else if n == 2 then "2" else "more"

abbrev formats : Formats
formats = record {
  to_string = digit;
  to_fixed = λ amount. "60.00";
  job_desc_of = λ text. text;
  item_ref_of = λ ref. "R";
}

abbrev elsewhere : PayoutLine
elsewhere = record sent_before { service_request_id = 2 }

-- Two lines of one request with a line of another between them.
abbrev filed : List PayoutLine
filed = sent_before ∷ elsewhere ∷ sent_before ∷ []

numbered : job_numbers 1 (get_result formats true filed) ≡ "1" ∷ "2" ∷ []
unfolding get_result set_details
numbered = refl
