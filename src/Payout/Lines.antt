-- ===== src/Payout/Lines.antt =====
-- payout/entities/payout-line.entity.ts, and `markPayoutLinesAsPaid` of payout/payout.service.ts,
-- which the return files of the bank drive.
use mathlib.Core.List.{foldl}
use vz.Common.{
  ℕ, String, Bool, true, false, not, Option, none, some, List, [], ◌∷◌, length, ltb, if◌then◌else◌,
}
use vz.Common.Int.{ℤ, pos, ◌+ℤ◌, leb_ℤ}
use vz.Common.Results.{Result, ok, err, ◌>>=◌, ◌>>◌, throw_if}
use vz.Shared.Errors.{plain}
use vz.Shared.Tenant.{Tenant}
use vz.Payout.{Bank, Payout, PayoutStatus}

-- payout/enums/payout-line-type.enum.ts
pub data PayoutLineType : Type 0 where
  service_package reschedule_surcharge : PayoutLineType

-- The id of a request, or that id behind `Surcharge-`.
pub data ItemRef : Type 0 where
  request : ℕ → ItemRef
  surcharge : ℕ → ItemRef

pub record PayoutLine : Type 0 where
  pub amount : ℤ
  pub wallet_transaction_id : Option ℕ
  pub service_request_id : ℕ
  pub payout_id : Option ℕ
  pub payout_batch_id : Option ℕ
  pub owner_vendor_id : Option String
  pub status : PayoutStatus
  pub sap_document_payment_no : Option String
  pub payment_date : Option String
  pub owner_id : ℕ
  pub principal_group : Tenant
  pub customer_name : String
  pub bank : Bank
  pub item_ref_id : ItemRef
  pub item_description : String
  pub item_sales_amount : ℤ
  pub item_type : PayoutLineType
  pub consumer_promotion_code : Option String
  pub consumer_promotion_amount : ℤ
  pub consumer_quotation_unit_price : ℤ
  pub service_provider_quotation_unit_price : ℤ

abbrev pub is_scheduled : PayoutStatus → Bool
is_scheduled PayoutStatus.scheduled = true
is_scheduled _ = false

abbrev pub is_in_transit : PayoutStatus → Bool
is_in_transit PayoutStatus.in_transit = true
is_in_transit _ = false

unfoldable pub payout_batch_in_transit : ℕ → PayoutLine → Result PayoutLine
payout_batch_in_transit batch_id line = do
  throw_if (not (is_scheduled line.status))
      (plain "Payout line not in correct state to be marked as in-transit")
  ok (record line { payout_batch_id = some batch_id; status = PayoutStatus.in_transit })

-- What a line of a return file says of the payment.
pub record Payment : Type 0 where
  pub sap_document_payment_no : String
  pub payment_date : String

abbrev pub paid_line : Payment → PayoutLine → PayoutLine
paid_line input line = record line {
  sap_document_payment_no = some input.sap_document_payment_no;
  payment_date = some input.payment_date;
  status = PayoutStatus.paid;
}

unfoldable pub mark_as_paid : Payment → PayoutLine → Result PayoutLine
mark_as_paid input line = do
  throw_if (not (is_in_transit line.status))
      (plain "Payout line not in correct state to be marked as paid")
  ok (paid_line input line)

-- `payoutLines.forEach(line => line.markAsPaid(...))`
unfoldable pub mark_all : Payment → List PayoutLine → Result (List PayoutLine)
unfolding mark_as_paid
mark_all input [] = ok []
mark_all input (line ∷ lines) = do
  line' ← mark_as_paid input line
  lines' ← mark_all input lines
  ok (line' ∷ lines')

abbrev pub total_of : List PayoutLine → ℤ
total_of = foldl (λ sum line. sum +ℤ line.amount) (pos 0)

-- `processedAmount === amount`; of two amounts that are both at most the other.
abbrev pub has_payment_fully_processed : Payout → Bool
has_payment_fully_processed p =
    if leb_ℤ p.processed_amount p.amount then leb_ℤ p.amount p.processed_amount else false

abbrev pub processed : List PayoutLine → Payout → Payout
processed lines p = record p { processed_amount = p.processed_amount +ℤ total_of lines }

-- What the call saves, and whether it publishes `PayoutPaidEvent`.
pub record Processed : Type 0 where
  pub lines : List PayoutLine
  pub payout : Payout
  pub published : Bool

-- The rest of the call, from the increment of the amount on; none where that affects no row.
unfoldable pub settle : List PayoutLine → Option Payout → Result Processed
settle lines' none = err (plain "Unable to locate payout")
settle lines' (some row) =
    let p = processed lines' row in
    if has_payment_fully_processed p
    then ok (record {
      lines = lines';
      payout = record p { status = PayoutStatus.paid };
      published = true;
    })
    else ok (record { lines = lines'; payout = p; published = false })

-- The lines are those that the query finds, and the payout is the row of the first line's payout.
unfoldable pub mark_payout_lines_as_paid :
    Payment → List PayoutLine → Option Payout → Result Processed
unfolding mark_all settle
mark_payout_lines_as_paid input lines payout = do
  throw_if (ltb (length lines) 1) (plain "Unable to locate payout-lines")
  lines' ← mark_all input lines
  settle lines' payout
