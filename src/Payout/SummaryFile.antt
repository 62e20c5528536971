-- ===== src/Payout/SummaryFile.antt =====
-- payout/factories/payout-summary-file.builder.ts and the record of
-- payout/dtos/payout-summary-file.dto.ts: the file for the accountants that has one row for each
-- service request. The ids of requests are no array indices, so the groups come in the order of
-- their first lines.
use mathlib.Core.List.{foldl}
use vz.Common.{
  ℕ, String, Bool, true, false, not, ◌||◌, ◌==◌, Option, none, List, [], ◌∷◌, ◌++◌, map,
  if◌then◌else◌,
}
use vz.Common.Int.{pos, ◌+ℤ◌, ◌-ℤ◌}
use vz.Shared.Tenant.{Tenant}
use vz.Payout.Lines.{PayoutLine, PayoutLineType}
use vz.Payout.LinesFile.{Formats}

-- The lines of a request, of which there is a first; the key of the group is their request.
pub record RequestLines : Type 0 where
  pub first : PayoutLine
  pub later : List PayoutLine

abbrev pub lines_of : RequestLines → List PayoutLine
lines_of g = g.first ∷ g.later

-- `grouped[id] = grouped[id] ?? []; grouped[id].push(line)`
unfoldable pub push_line : PayoutLine → List RequestLines → List RequestLines
push_line line [] = record { first = line; later = [] } ∷ []
push_line line (g ∷ gs) =
    let rest = push_line line gs in
    if g.first.service_request_id == line.service_request_id
    then record g { later = g.later ++ (line ∷ []) } ∷ gs
    else g ∷ rest

unfoldable pub grouped_by_service_request : List PayoutLine → List RequestLines
unfolding push_line
grouped_by_service_request lines = foldl (λ groups line. push_line line groups) [] lines

-- A line of the sums, and what kinds of items it stands for.
pub record PayoutSummary : Type 0 where
  pub line : PayoutLine
  pub has_service_fee : Bool
  pub has_reschedule_surcharge : Bool

abbrev pub is_service_package : PayoutLine → Bool
is_service_package l = elim l.item_type [
  | PayoutLineType.service_package ↦ true
  | PayoutLineType.reschedule_surcharge ↦ false
]

-- `lines.filter(…).length > 0`
abbrev pub any_line : (PayoutLine → Bool) → List PayoutLine → Bool
any_line p [] = false
any_line p (l ∷ ls) = p l || any_line p ls

unfoldable pub summary_of : RequestLines → PayoutSummary
summary_of g = record {
  line = record g.first {
    amount = foldl (λ sum l. sum +ℤ l.amount) (pos 0) (lines_of g);
    item_sales_amount = foldl (λ sum l. sum +ℤ l.item_sales_amount) (pos 0) (lines_of g);
  };
  has_service_fee = any_line is_service_package (lines_of g);
  has_reschedule_surcharge = any_line (λ l. not (is_service_package l)) (lines_of g);
}

unfoldable pub group_payout_lines_by_service_request : List PayoutLine → List PayoutSummary
unfolding grouped_by_service_request summary_of
group_payout_lines_by_service_request lines = map summary_of (grouped_by_service_request lines)

-- A vendor or a code that is missing is written as an empty text.
pub record PayoutSummaryFileDetail : Type 0 where
  pub service_request_id : ℕ
  pub company_code : String
  pub date : ℕ
  pub customer_name : String
  pub service_provider_payout_amount : String
  pub customer_paid_amount : String
  pub consumer_promotion_code : Option String
  pub consumer_promotion_amount : String
  pub vendor_on_surcharge : Option String
  pub vendor_on_service_request : Option String

abbrev pub company_code_of : Tenant → String
company_code_of Tenant.daikin = "0700"
company_code_of Tenant.acson = "0800"

pub data SummaryRow : Type 0 where
  header : SummaryRow
  detail : PayoutSummaryFileDetail → SummaryRow

module _ (f : Formats) where
  -- The constructor, as `setDetails` calls it; `clock` is the time of the call, which the default of
  -- the last parameter reads. The title is the name of the customer behind `Consumer: `.
  unfoldable pub new_summary_detail : (clock : ℕ) → PayoutSummary → PayoutSummaryFileDetail
  new_summary_detail clock s = record {
    service_request_id = s.line.service_request_id;
    company_code = company_code_of s.line.principal_group;
    date = clock;
    customer_name = s.line.customer_name;
    service_provider_payout_amount = f.to_fixed s.line.amount;
    customer_paid_amount =
        f.to_fixed (s.line.item_sales_amount -ℤ s.line.consumer_promotion_amount);
    consumer_promotion_code = s.line.consumer_promotion_code;
    consumer_promotion_amount = f.to_fixed s.line.consumer_promotion_amount;
    vendor_on_surcharge = if s.has_reschedule_surcharge then s.line.owner_vendor_id else none;
    vendor_on_service_request = if s.has_service_fee then s.line.owner_vendor_id else none;
  }

  -- `now` is what the service hands to the builder, which keeps it and does not read it.
  unfoldable pub get_summary_result :
      (now clock : ℕ) → (include_header : Bool) → List PayoutLine → List SummaryRow
  unfolding group_payout_lines_by_service_request new_summary_detail
  get_summary_result now clock include_header [] = []
  get_summary_result now clock include_header (l ∷ ls) =
      let rows =
        map (λ s. detail (new_summary_detail clock s))
          (group_payout_lines_by_service_request (l ∷ ls)) in
      if include_header then header ∷ rows else rows
