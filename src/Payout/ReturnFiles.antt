-- ===== src/Payout/ReturnFiles.antt =====
-- What a return file is read as is what it was written from.
use vz.Common.{
  ℕ, ◌<◌, ◌≡◌, refl, ap, Bool, true, false, none, some, List, [], ◌∷◌, ◌++◌, map, length, ltb, ◌==◌,
  All, All-append, arith,
}
use vz.Payout.ReturnFile.{
  Text, carriage_return, line_feed, payout_file_delimiter, MarkPayoutLinesAsPaidInput, split_lines,
  split_columns, input_of_columns, input_of_line, inputs_of_lines, inputs_of_file,
}

-- What `trim` is known to do: nothing to the empty text, and it leaves a delimiter, since that is
-- no white space.
pub record IsTrim (trim : Text → Text) : Type 0 where
  pub empty : trim [] ≡ []
  pub keeps : (a b : Text) → (length (trim (a ++ (payout_file_delimiter ∷ b))) == 0) ≡ false

-- A code point that ends no line and no column.
abbrev pub IsPlain : ℕ → Type 0
IsPlain c =
    ((c == line_feed) ≡ false)
    × ((c == carriage_return) ≡ false)
    × ((c == payout_file_delimiter) ≡ false)

-- The end of a line, with or without a carriage return.
abbrev pub ending : Bool → Text
ending true = carriage_return ∷ line_feed ∷ []
ending false = line_feed ∷ []

abbrev pub print_line : MarkPayoutLinesAsPaidInput → Text
print_line i =
    i.service_request_id
    ++ (payout_file_delimiter
        ∷ (i.sap_document_payment_no
            ++ (payout_file_delimiter
                ∷ (i.service_provider_vendor_id ++ (payout_file_delimiter ∷ i.payment_date)))))

pub record Row : Type 0 where
  pub input : MarkPayoutLinesAsPaidInput
  pub with_carriage_return : Bool

abbrev pub print_file : List Row → Text
print_file [] = []
print_file (r ∷ rs) = print_line r.input ++ (ending r.with_carriage_return ++ print_file rs)

-- No line feed and no carriage return.
abbrev IsInLine : ℕ → Type 0
IsInLine c = ((c == line_feed) ≡ false) × ((c == carriage_return) ≡ false)

split_lines-ending :
    (b : Bool) (rest : Text) → split_lines (ending b ++ rest) ≡ [] ∷ split_lines rest
unfolding split_lines
split_lines-ending true rest = refl
split_lines-ending false rest = refl

split_lines-line :
    (xs : Text) (b : Bool) (rest : Text)
    → All IsInLine xs
    → split_lines (xs ++ (ending b ++ rest)) ≡ xs ∷ split_lines rest
unfolding split_lines
split_lines-line [] b rest h = split_lines-ending b rest
split_lines-line (x ∷ xs) b rest h =
    rw (h.0.0) (rw (h.0.1) (rw (split_lines-line xs b rest h.1) refl))

split_columns-next :
    (xs rest : Text)
    → All IsPlain xs
    → split_columns (xs ++ (payout_file_delimiter ∷ rest)) ≡ xs ∷ split_columns rest
unfolding split_columns
split_columns-next [] rest h = refl
split_columns-next (x ∷ xs) rest h = rw (h.0.2) (rw (split_columns-next xs rest h.1) refl)

split_columns-last : (xs : Text) → All IsPlain xs → split_columns xs ≡ xs ∷ []
unfolding split_columns
split_columns-last [] h = refl
split_columns-last (x ∷ xs) h = rw (h.0.2) (rw (split_columns-last xs h.1) refl)

IsPlain-IsInLine : (xs : Text) → All IsPlain xs → All IsInLine xs
IsPlain-IsInLine [] h = tt
IsPlain-IsInLine (x ∷ xs) h = ((h.0.0, h.0.1), IsPlain-IsInLine xs h.1)

column_then-IsInLine :
    (xs rest : Text)
    → All IsPlain xs
    → All IsInLine rest
    → All IsInLine (xs ++ (payout_file_delimiter ∷ rest))
column_then-IsInLine xs rest h k =
    All-append IsInLine xs (payout_file_delimiter ∷ rest) (IsPlain-IsInLine xs h) ((refl, refl), k)

first : (xs ys rest : Text) → 0 < length ((xs ++ (payout_file_delimiter ∷ ys)) ++ rest)
first [] ys rest = omega arith
first (x ∷ xs) ys rest = omega arith

above : {n : ℕ} → 0 < n → ltb 0 n ≡ true
above h = ground arith

module _ (trim : Text → Text) (laws : IsTrim trim) where
  -- A column that holds no end of a line or column, and no white space around it.
  pub record IsColumn (xs : Text) : Type 0 where
    pub plain : All IsPlain xs
    pub trimmed : trim xs ≡ xs

  pub record IsPrintable (r : Row) : Type 0 where
    pub service_request_id : IsColumn r.input.service_request_id
    pub sap_document_payment_no : IsColumn r.input.sap_document_payment_no
    pub service_provider_vendor_id : IsColumn r.input.service_provider_vendor_id
    pub payment_date : IsColumn r.input.payment_date

  print_line-IsInLine : (r : Row) → IsPrintable r → All IsInLine (print_line r.input)
  print_line-IsInLine r h = column_then-IsInLine _ _ h.service_request_id.plain (
      column_then-IsInLine _ _ h.sap_document_payment_no.plain (
        column_then-IsInLine _ _ h.service_provider_vendor_id.plain
          (IsPlain-IsInLine _ h.payment_date.plain)))

  split_columns-print_line :
      (r : Row)
      → IsPrintable r
      → split_columns (print_line r.input)
        ≡ r.input.service_request_id ∷ r.input.sap_document_payment_no
          ∷ r.input.service_provider_vendor_id ∷ r.input.payment_date ∷ []
  split_columns-print_line r h =
      rw (split_columns-next r.input.service_request_id _ h.service_request_id.plain) (
        rw (split_columns-next r.input.sap_document_payment_no _ h.sap_document_payment_no.plain) (
          rw
            (split_columns-next r.input.service_provider_vendor_id _
              h.service_provider_vendor_id.plain)
            (rw (split_columns-last r.input.payment_date h.payment_date.plain) refl)))

  input_of_line-print_line :
      (r : Row) → IsPrintable r → input_of_line trim (print_line r.input) ≡ some r.input
  unfolding input_of_line
  input_of_line-print_line r h = rw (laws.keeps r.input.service_request_id _) (
      rw (split_columns-print_line r h) (
        unfold input_of_columns in
        rw (h.service_request_id.trimmed) (
          rw (h.sap_document_payment_no.trimmed)
            (rw (h.service_provider_vendor_id.trimmed) (rw (h.payment_date.trimmed) refl)))))

  blank : input_of_line trim [] ≡ none
  unfolding input_of_line
  blank = rw (laws.empty) refl

  inputs_of_lines-print_file :
      (rs : List Row)
      → All IsPrintable rs
      → inputs_of_lines trim (split_lines (print_file rs)) ≡ map (λ r. r.input) rs
  unfolding inputs_of_lines split_lines
  inputs_of_lines-print_file [] h = rw (blank, inputs_of_lines) refl
  inputs_of_lines-print_file (r ∷ rs) h =
      rw
        (split_lines-line (print_line r.input) r.with_carriage_return (print_file rs)
          (print_line-IsInLine r h.0))
        (rw (input_of_line-print_line r h.0, inputs_of_lines)
          (ap (λ x. r.input ∷ x) (inputs_of_lines-print_file rs h.1)))

  print_line-length :
      (i : MarkPayoutLinesAsPaidInput) (rest : Text) → 0 < length (print_line i ++ rest)
  print_line-length i rest = first i.service_request_id _ rest

  -- A file that is written a line for each payment, with the four columns behind one another, and
  -- that ends each line with or without a carriage return, is read as exactly these payments, in
  -- their order, where no column holds a delimiter or the end of a line, or has white space around
  -- it.
  pub inputs_of_file-print_file :
      (rs : List Row)
      → All IsPrintable rs
      → inputs_of_file trim (print_file rs) ≡ map (λ r. r.input) rs
  unfolding inputs_of_file
  inputs_of_file-print_file [] h = refl
  inputs_of_file-print_file (r ∷ rs) h =
      let filled : ltb 0 (length (print_file (r ∷ rs))) ≡ true =
        above (print_line-length r.input (ending r.with_carriage_return ++ print_file rs)) in
      rw filled (inputs_of_lines-print_file (r ∷ rs) h)
