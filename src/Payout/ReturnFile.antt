-- ===== src/Payout/ReturnFile.antt =====
-- `processPaymentStatus` of payout/payout.service.ts: how a return file of the bank is read. A text
-- is a list of code points, and `String.prototype.trim` is a parameter. The transfers of files, and
-- the log, are left out.
use vz.Common.{
  ℕ, Bool, false, ◌&&◌, Option, none, some, List, [], ◌∷◌, ltb, length, ◌==◌, if◌then◌else◌,
}

abbrev pub Text : Type 0
Text = List ℕ

abbrev pub carriage_return : ℕ
carriage_return = 13

abbrev pub line_feed : ℕ
line_feed = 10

-- `PAYOUT_FILE_DELIMITER` of shared/constants.ts
abbrev pub payout_file_delimiter : ℕ
payout_file_delimiter = b';'

-- The argument of `markPayoutLinesAsPaid`.
pub record MarkPayoutLinesAsPaidInput : Type 0 where
  pub service_request_id : Text
  pub sap_document_payment_no : Text
  pub service_provider_vendor_id : Text
  pub payment_date : Text

abbrev pub onto_first : ℕ → List Text → List Text
onto_first c [] = (c ∷ []) ∷ []
onto_first c (l ∷ ls) = (c ∷ l) ∷ ls

abbrev pub starts_with_line_feed : Text → Bool
starts_with_line_feed [] = false
starts_with_line_feed (c ∷ cs) = c == line_feed

-- `data.split(/\r?\n/)`
unfoldable pub split_lines : Text → List Text
split_lines [] = [] ∷ []
split_lines (c ∷ cs) =
    let rest = split_lines cs in
    if c == line_feed
    then [] ∷ rest
    else if (c == carriage_return) && starts_with_line_feed cs
    then rest
    else onto_first c rest

-- `l.split(PAYOUT_FILE_DELIMITER)`
unfoldable pub split_columns : Text → List Text
split_columns [] = [] ∷ []
split_columns (c ∷ cs) =
    let rest = split_columns cs in
    if c == payout_file_delimiter then [] ∷ rest else onto_first c rest

module _ (trim : Text → Text) where
  unfoldable pub input_of_columns : List Text → Option MarkPayoutLinesAsPaidInput
  input_of_columns (a ∷ b ∷ c ∷ d ∷ []) = some (record {
    service_request_id = trim a;
    sap_document_payment_no = trim b;
    service_provider_vendor_id = trim c;
    payment_date = trim d;
  })
  input_of_columns _ = none

  -- None for a blank line, and for one that is logged as invalid.
  unfoldable pub input_of_line : Text → Option MarkPayoutLinesAsPaidInput
  unfolding input_of_columns split_columns
  input_of_line l = if length (trim l) == 0 then none else input_of_columns (split_columns l)

  unfoldable pub inputs_of_lines : List Text → List MarkPayoutLinesAsPaidInput
  unfolding input_of_line
  inputs_of_lines [] = []
  inputs_of_lines (l ∷ ls) = elim (input_of_line l) [
    | none ↦ inputs_of_lines ls
    | some input ↦ input ∷ inputs_of_lines ls
  ]

  -- The calls of `markPayoutLinesAsPaid` that a file makes, in their order. An error that a call
  -- throws is logged, and the next line follows.
  unfoldable pub inputs_of_file : Text → List MarkPayoutLinesAsPaidInput
  unfolding inputs_of_lines split_lines
  inputs_of_file text = if ltb 0 (length text) then inputs_of_lines (split_lines text) else []
