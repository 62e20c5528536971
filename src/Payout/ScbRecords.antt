-- ===== src/Payout/ScbRecords.antt =====
-- payout/factories/scb-payment-records.builder.ts, and the text that `buildAndUploadScbPaymentFile`
-- of payout/payout.service.ts makes of the records.
use mathlib.Core.List.{foldl}
use vz.Common.{ℕ, Option, List, [], ◌∷◌, ◌++◌, map, length}
use vz.Common.Int.{ℤ, pos, ◌+ℤ◌}
use vz.Common.Csv.{Text, codes, replace_first, join}
use vz.Payout.ScbPayment.{
  Cell, undefined, text, date, number, Entry, Formats, new_header, DetailArguments, new_detail,
  new_invoice, new_trailer,
}

-- What is read of a service provider; the address is that of `getAddressString(' ')`.
pub record ScbOwner : Type 0 where
  pub name : Text
  pub address : Text
  pub swift_code : Option Text
  pub account_number : Option Text
  pub email_address : Option Text

-- payout/interfaces/payout.interface.ts
pub record ScbPayout : Type 0 where
  pub id : Text
  pub owner : ScbOwner
  pub amount : ℤ

-- The arguments of the constructor; `now` is the day of the batch.
pub record ScbPaymentRecordsBuilder : Type 0 where
  pub id : Text
  pub now : ℕ
  pub payer_account_number : Text
  pub payer_city_code : Text
  pub payouts : List ScbPayout

abbrev pub Row : Type 0
Row = List Cell

unfoldable pub get_payment_amount : List ScbPayout → ℤ
get_payment_amount payouts = foldl (λ sum p. sum +ℤ p.amount) (pos 0) payouts

-- `.replace(',', ' ')` is given texts, and so replaces one comma.
abbrev pub arguments_of : ScbPaymentRecordsBuilder → ScbPayout → DetailArguments
arguments_of b p = record {
  customer_reference = p.id;
  payer_account_no = b.payer_account_number;
  payer_city_code = b.payer_city_code;
  payment_date = b.now;
  payee_name = p.owner.name;
  payee_address = replace_first 44 32 p.owner.address;
  payee_bank_code = p.owner.swift_code;
  payee_account_no = p.owner.account_number;
  payment_amount = p.amount;
  payee_email = p.owner.email_address;
}

module _ (f : Formats) where
  abbrev pub formatted : Cell → Cell
  formatted (date d) = text (f.date_text d)
  formatted undefined = undefined
  formatted (text t) = text t
  formatted (number n) = number n

  unfoldable pub generate_record : List Entry → Row
  generate_record o = map (λ e. formatted (e.1)) o

  unfoldable pub details : ScbPaymentRecordsBuilder → List ScbPayout → List Row
  unfolding generate_record
  details b payouts = map (λ p. generate_record (new_detail f (arguments_of b p))) payouts

  -- The records of the payouts; of none there are none.
  unfoldable pub records : ScbPaymentRecordsBuilder → List ScbPayout → List Row
  unfolding details generate_record
  records b [] = []
  records b (p ∷ ps) =
      (generate_record new_header ∷ details b (p ∷ ps))
      ++ (generate_record (
            new_invoice f b.id b.now (codes "batch payment file from uberisation")
              (get_payment_amount (p ∷ ps)))
          ∷ generate_record (new_trailer f (length (p ∷ ps)) (get_payment_amount (p ∷ ps)))
          ∷ [])

  unfoldable pub get_result : ScbPaymentRecordsBuilder → List Row
  get_result b = records b b.payouts

  -- What `join` writes of a value: nothing for one that is undefined.
  abbrev pub cell_text : Cell → Text
  cell_text undefined = []
  cell_text (text t) = t
  cell_text (date d) = f.date_text d
  cell_text (number n) = f.digits n

  unfoldable pub line : Row → Text
  line r = join 44 (map cell_text r)

  abbrev joined : Text → Row → Text
  joined content r = content ++ (line r ++ (13 ∷ 10 ∷ []))

  -- `fContent.slice(0, fContent.length - 1)`
  abbrev without_last : Text → Text
  without_last [] = []
  without_last (c ∷ []) = []
  without_last (c ∷ d ∷ t) = c ∷ without_last (d ∷ t)

  unfoldable pub file_content : ScbPaymentRecordsBuilder → Text
  unfolding get_result
  file_content b = without_last (foldl joined [] (get_result b))
