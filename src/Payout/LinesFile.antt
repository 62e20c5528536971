-- ===== src/Payout/LinesFile.antt =====
-- payout/factories/payout-lines-file.builder.ts: the file of lines that goes to the accountants.
use vz.Common.{ℕ, suc, String, Bool, Option, List, [], ◌∷◌, ◌==◌, if◌then◌else◌}
use vz.Common.Int.{ℤ}
use vz.Payout.Lines.{PayoutLine, ItemRef}

-- What the methods of texts and numbers make: `toString`, `toFixed(2)`, and the first fifty characters
-- of a description or a reference, trimmed and without line breaks.
pub record Formats : Type 0 where
  pub to_string : ℕ → String
  pub to_fixed : ℤ → String
  pub job_desc_of : String → String
  pub item_ref_of : ItemRef → String

pub record PayoutLinesFileDetail : Type 0 where
  pub service_request_id : ℕ
  pub job_no : String
  pub job_desc : String
  pub item_ref : String
  pub service_provider_payout_amount : String
  pub service_provider_single_unit_payout_amount : String
  pub customer_paid_amount : String
  pub customer_single_unit_paid_amount : String
  pub service_provider_bank_acc : Option String
  pub service_provider_bank_code : Option String
  pub service_provider_sap_vendor_id : Option String

-- The header has a name for each column.
pub data Row : Type 0 where
  header : Row
  detail : PayoutLinesFileDetail → Row

-- `++serviceRequestJobCounter[id]`, where what is missing is 0.
abbrev pub count_up : ℕ → (ℕ → ℕ) → ℕ → ℕ
count_up id counter i = if i == id then suc (counter i) else counter i

module _ (f : Formats) where
  abbrev pub new_detail : PayoutLine → ℕ → PayoutLinesFileDetail
  new_detail line job_no = record {
    service_request_id = line.service_request_id;
    job_no = f.to_string job_no;
    job_desc = f.job_desc_of line.item_description;
    item_ref = f.item_ref_of line.item_ref_id;
    service_provider_payout_amount = f.to_fixed line.amount;
    service_provider_single_unit_payout_amount =
        f.to_fixed line.service_provider_quotation_unit_price;
    customer_paid_amount = f.to_fixed line.item_sales_amount;
    customer_single_unit_paid_amount = f.to_fixed line.consumer_quotation_unit_price;
    service_provider_bank_acc = line.bank.account_number;
    service_provider_bank_code = line.bank.swift_code;
    service_provider_sap_vendor_id = line.owner_vendor_id;
  }

  unfoldable pub set_details : (ℕ → ℕ) → List PayoutLine → List Row
  set_details counter [] = []
  set_details counter (line ∷ lines) =
      let counter' = count_up line.service_request_id counter in
      detail (new_detail line (counter' line.service_request_id)) ∷ set_details counter' lines

  unfoldable pub get_result : Bool → List PayoutLine → List Row
  unfolding set_details
  get_result include_header [] = []
  get_result include_header (line ∷ lines) =
      if include_header
      then header ∷ set_details (λ id. 0) (line ∷ lines)
      else set_details (λ id. 0) (line ∷ lines)
