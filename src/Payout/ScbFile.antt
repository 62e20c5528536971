-- ===== src/Payout/ScbFile.antt =====
-- What a payment file holds, and what a reader of its lines finds.
use mathlib.Core.List.{append-nil}
use mathlib.Core.Path.{subst}
use vz.Common.{
  suc, ◌+◌, ◌-◌, ◌≤◌, ◌≡◌, refl, sym, ap, ◌∙◌, Bool, true, false, ◌&&◌, ◌==◌, Option, some, List,
  [], ◌∷◌, ◌++◌, map, length, length-map, last?, get_elem?, All, if◌then◌else◌, arith,
}
use vz.Common.Sums.{sum_of, foldl-sum_of}
use vz.Common.Csv.{
  Text, codes, take, drop, replace_first, occurrences, occurrences_in, occurrences-pieces,
  occurrences-replace_first, length-replace_first, split, length-split-join,
}
use vz.Payout.ScbPayment.{
  Cell, new_header, text, number, optional, Formats, new_detail, DetailArguments,
}
use vz.Payout.ScbRecords.{
  ScbPayout, ScbPaymentRecordsBuilder, Row, get_payment_amount, arguments_of, generate_record,
  details, records, get_result, formatted, cell_text, line,
}

-- The rows whose first column is a text.
abbrev pub same_text : Text → Text → Bool
same_text [] [] = true
same_text (a ∷ s) (b ∷ t) = (a == b) && same_text s t
same_text _ _ = false

abbrev pub is_of_type : Text → Row → Bool
is_of_type t (text u ∷ r) = same_text t u
is_of_type t _ = false

abbrev pub of_type : Text → List Row → List Row
of_type t [] = []
of_type t (r ∷ rs) = let rest = of_type t rs in if is_of_type t r then r ∷ rest else rest

-- The column of the amount, `invoiceOrGrossAmount`.
abbrev pub amount_of : Row → Option Cell
amount_of r = get_elem? r 38

module _ (f : Formats) (b : ScbPaymentRecordsBuilder) where
  of_type-details :
      (ps : List ScbPayout) (rest : List Row)
      → of_type (codes "P") (details f b ps ++ rest) ≡ details f b ps ++ of_type (codes "P") rest
  unfolding details new_detail generate_record
  of_type-details [] rest = refl
  of_type-details (p ∷ ps) rest =
      ap (λ rows. generate_record f (new_detail f (arguments_of b p)) ∷ rows)
        (of_type-details ps rest)

  details-amounts :
      (ps : List ScbPayout)
      → map amount_of (details f b ps) ≡ map (λ p. some (text (f.to_fixed p.amount))) ps
  unfolding details new_detail generate_record
  details-amounts [] = refl
  details-amounts (p ∷ ps) =
      ap (λ cells. some (text (f.to_fixed p.amount)) ∷ cells) (details-amounts ps)

  details-length : (ps : List ScbPayout) → All (λ r. length r ≡ 207) (details f b ps)
  unfolding details new_detail generate_record
  details-length [] = tt
  details-length (p ∷ ps) = (refl, details-length ps)

  last?-append :
      (r : Row) (rows : List Row) → (s t : Row) → last? ((r ∷ rows) ++ (s ∷ t ∷ [])) ≡ some t
  last?-append r [] s t = refl
  last?-append r (q ∷ rows) s t = last?-append q rows s t

  length-details :
      (ps : List ScbPayout) (rest : List Row)
      → length (details f b ps ++ rest) ≡ length ps + length rest
  unfolding details
  length-details [] rest = omega arith
  length-details (p ∷ ps) rest = omega (arith, length-details ps rest)

  -- A cell of a detail that no text of the caller may break.
  pub record IsClean (d : DetailArguments) : Type 0 where
    pub reference : occurrences 44 d.customer_reference ≡ 0
    pub account : occurrences 44 d.payer_account_no ≡ 0
    pub city : occurrences 44 d.payer_city_code ≡ 0
    pub day : occurrences 44 (f.date_text d.payment_date) ≡ 0
    pub bank : occurrences 44 (cell_text f (formatted f (optional d.payee_bank_code))) ≡ 0
    pub payee_account : occurrences 44 (cell_text f (formatted f (optional d.payee_account_no))) ≡ 0
    pub amount : occurrences 44 (f.to_fixed d.payment_amount) ≡ 0
    pub email : occurrences 44 (cell_text f (formatted f (optional d.payee_email))) ≡ 0

  length-map_text : (r : Row) → length (map (cell_text f) r) ≡ length r
  length-map_text [] = refl
  length-map_text (c ∷ r) = ap suc (length-map_text r)

  split-line :
      (c : Cell) (r : Row)
      → length (split 44 (line f (c ∷ r)))
        ≡ length (c ∷ r) + occurrences_in 44 (map (cell_text f) (c ∷ r))
  unfolding line
  split-line c r =
      omega (arith, length-split-join 44 (cell_text f c) (map (cell_text f) r), length-map_text r)

  detail-split :
      (d : DetailArguments)
      → IsClean d
      → length (split 44 (line f (generate_record f (new_detail f d))))
        ≡ 207
          + occurrences 44 d.payee_name
          + occurrences 44 (take 35 d.payee_address)
          + occurrences 44 (take 35 (drop 35 d.payee_address))
  unfolding new_detail generate_record occurrences
  detail-split d c = split-line _ _ ∙ omega arith

  -- The line of a payout, whose other texts hold no comma and whose address has at most 70 units,
  -- is read as 207 cells, one more for each comma of the name, and one more for each comma of the
  -- address but the first.
  pub line-split :
      (p : ScbPayout)
      → IsClean (arguments_of b p)
      → length p.owner.address ≤ 70
      → length (split 44 (line f (generate_record f (new_detail f (arguments_of b p)))))
        ≡ 207 + occurrences 44 p.owner.name + (occurrences 44 p.owner.address - 1)
  line-split p c short = omega (
    arith,
    detail-split (arguments_of b p) c,
    occurrences-pieces 44 35 35 (replace_first 44 32 p.owner.address)
        (omega (arith, length-replace_first 44 32 p.owner.address)),
    occurrences-replace_first 44 32 p.owner.address refl,
  )

  -- Header, details, invoice and trailer.
  kept :
      (p : ScbPayout) (ps : List ScbPayout)
      → of_type (codes "P") (records f b (p ∷ ps)) ≡ details f b (p ∷ ps)
  unfolding records generate_record
  kept p ps = of_type-details (p ∷ ps) _ ∙ append-nil (details f b (p ∷ ps))

  -- `kept` are the rows whose type is P.
  abbrev Fits : List Row → List Row → List ScbPayout → Type 0
  Fits rows kept payouts =
      (get_elem? rows 0 ≡ some (text (codes "H") ∷ text (codes "P") ∷ []))
      × (map amount_of kept ≡ map (λ p. some (text (f.to_fixed p.amount))) payouts)
      × All (λ r. length r ≡ 207) kept
      × (length rows ≡ length kept + 3)
      × (last? rows
          ≡ some (
              text (codes "T")
              ∷ number (length kept)
              ∷ text (f.to_fixed (sum_of (λ p. p.amount) payouts))
              ∷ []))

  length-of_details : (ps : List ScbPayout) → length (details f b ps) ≡ length ps
  unfolding details
  length-of_details ps = length-map ps _

  records-trailer :
      (p : ScbPayout) (ps : List ScbPayout)
      → last? (records f b (p ∷ ps))
        ≡ some (
            text (codes "T")
            ∷ number (length (details f b (p ∷ ps)))
            ∷ text (f.to_fixed (sum_of (λ p. p.amount) (p ∷ ps)))
            ∷ [])
  unfolding records generate_record get_payment_amount
  records-trailer p ps =
      last?-append (generate_record f new_header) (details f b (p ∷ ps)) _ _ ∙ (λ i. some (
        text (codes "T")
        ∷ number (sym (length-of_details (p ∷ ps)) i)
        ∷ text (f.to_fixed (foldl-sum_of (λ p. p.amount) (p ∷ ps) i))
        ∷ []))

  records-length :
      (p : ScbPayout) (ps : List ScbPayout)
      → length (records f b (p ∷ ps)) ≡ length (details f b (p ∷ ps)) + 3
  unfolding records generate_record
  records-length p ps = omega (arith, length-details (p ∷ ps) _, length-of_details (p ∷ ps))

  records-first :
      (p : ScbPayout) (ps : List ScbPayout)
      → get_elem? (records f b (p ∷ ps)) 0 ≡ some (text (codes "H") ∷ text (codes "P") ∷ [])
  unfolding records generate_record
  records-first p ps = refl

  records-Fits :
      (p : ScbPayout) (ps : List ScbPayout)
      → Fits (records f b (p ∷ ps)) (of_type (codes "P") (records f b (p ∷ ps))) (p ∷ ps)
  records-Fits p ps =
      subst (λ kept. Fits (records f b (p ∷ ps)) kept (p ∷ ps)) (sym (kept p ps))
        (
          records-first p ps,
          details-amounts (p ∷ ps),
          details-length (p ∷ ps),
          records-length p ps,
          records-trailer p ps,
        )

  -- A file of payouts starts with the header and ends with the trailer, which states how many
  -- details there are and the sum of the amounts; the details have the amounts of the payouts, in
  -- their order, and 207 columns each; and beside them there are three rows.
  pub get_result_lem :
      (p : ScbPayout) (ps : List ScbPayout)
      → b.payouts ≡ p ∷ ps
      → (get_elem? (get_result f b) 0 ≡ some (text (codes "H") ∷ text (codes "P") ∷ []))
        × (map amount_of (of_type (codes "P") (get_result f b))
            ≡ map (λ p. some (text (f.to_fixed p.amount))) (p ∷ ps))
        × All (λ r. length r ≡ 207) (of_type (codes "P") (get_result f b))
        × (length (get_result f b) ≡ length (of_type (codes "P") (get_result f b)) + 3)
        × (last? (get_result f b)
            ≡ some (
                text (codes "T")
                ∷ number (length (of_type (codes "P") (get_result f b)))
                ∷ text (f.to_fixed (sum_of (λ p. p.amount) (p ∷ ps)))
                ∷ []))
  unfolding get_result
  get_result_lem p ps is =
      subst
        (λ payouts. Fits (records f b payouts) (of_type (codes "P") (records f b payouts)) (p ∷ ps))
        (sym is) (records-Fits p ps)
