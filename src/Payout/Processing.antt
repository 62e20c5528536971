-- ===== src/Payout/Processing.antt =====
-- What the report of a payment does to the lines of a payout and to the payout.
use mathlib.Core.List.{foldl}
use vz.Common.{
  ◌⊎◌, ltb, ◌≡◌, refl, sym, ap, ◌∙◌, ◌↔◌, inl, inr, true, false, Option, some, List, [], ◌∷◌, map,
  arith, All, length, Bool-cases,
}
use vz.Common.Int.{pos, ◌+ℤ◌, ℤ, eq_of_parts}
use vz.Common.Results.{ok, err, ◌>>=◌, >>=-eq-ok, ok-injective}
use vz.Shared.Errors.{Error, plain}
use vz.Payout.{Payout, PayoutStatus}
use vz.Payout.Lines.{
  PayoutLine, Payment, Processed, paid_line, mark_as_paid, mark_all, total_of, processed,
  has_payment_fully_processed, settle, mark_payout_lines_as_paid,
}

-- A line with the number and the date of the report, which is paid, and is the same otherwise.
abbrev pub reported : Payment → PayoutLine → PayoutLine
reported input line = record line {
  sap_document_payment_no = some input.sap_document_payment_no;
  payment_date = some input.payment_date;
  status = PayoutStatus.paid;
}

module _ (input : Payment) where
  mark_as_paid-ok :
      (l l' : PayoutLine)
      → mark_as_paid input l ≡ ok l'
      → (l' ≡ paid_line input l) × (l.status ≡ PayoutStatus.in_transit)
  unfolding mark_as_paid
  mark_as_paid-ok l l' e = ground arith

  mark_all-ok :
      (lines lines' : List PayoutLine)
      → mark_all input lines ≡ ok lines'
      → (lines' ≡ map (paid_line input) lines) × All (λ l. l.status ≡ PayoutStatus.in_transit) lines
  unfolding mark_all
  mark_all-ok [] lines' e = (sym (ok-injective e), tt)
  mark_all-ok (l ∷ ls) lines' e =
      let (l', one, e') = >>=-eq-ok (mark_as_paid input l) _ e in
      let (ls', rest, e'') = >>=-eq-ok (mark_all input ls) _ e' in
      let (same, all) = mark_all-ok ls ls' rest in
      let (marked, transit) = mark_as_paid-ok l l' one in
      (
        sym (ok-injective e'') ∙ ap (λ x. x ∷ ls') marked ∙ ap (λ x. paid_line input l ∷ x) same,
        (transit, all),
      )

  total_of-paid :
      (a : ℤ) (ls : List PayoutLine)
      → foldl (λ sum line. sum +ℤ line.amount) a (map (paid_line input) ls)
        ≡ foldl (λ sum line. sum +ℤ line.amount) a ls
  total_of-paid a [] = refl
  total_of-paid a (l ∷ ls) = total_of-paid (a +ℤ l.amount) ls

  found :
      (l : PayoutLine) (ls : List PayoutLine) (p : Option Payout)
      → mark_payout_lines_as_paid input (l ∷ ls) p
        ≡ mark_all input (l ∷ ls) >>= (λ lines'. settle lines' p)
  unfolding mark_payout_lines_as_paid
  found l ls p =
      let some_lines : ltb (length (l ∷ ls)) 1 ≡ false = ground arith in rw some_lines refl

  -- Lines that are paid already throw.
  paid_again :
      (l : PayoutLine) (ls : List PayoutLine) (p : Payout)
      → (e : Error) × (mark_payout_lines_as_paid input (map (paid_line input) (l ∷ ls)) (some p)
          ≡ err e)
  paid_again l ls p = (
    plain "Payout line not in correct state to be marked as paid",
    found (paid_line input l) (map (paid_line input) ls) (some p)
        ∙ unfold mark_all mark_as_paid in refl,
  )

  fully_processed_iff :
      (p : Payout) → (has_payment_fully_processed p ≡ true) ↔ (p.processed_amount ≡ p.amount)
  fully_processed_iff p =
      (λ h. ground (arith, eq_of_parts p.processed_amount p.amount), λ e. rw e (ground arith))

  settled :
      (lines' : List PayoutLine) (payout : Payout) (r : Processed)
      → settle lines' (some payout) ≡ ok r
      → (r.lines ≡ lines')
        × (r.payout.processed_amount ≡ payout.processed_amount +ℤ total_of lines')
        × ((r.published ≡ true) ↔ (r.payout.processed_amount ≡ payout.amount))
        × ((r.published ≡ false) ⊎ (r.payout.status ≡ PayoutStatus.paid))
  unfolding settle
  settled lines' payout r e =
      let p = processed lines' payout in
      let (to, from) = fully_processed_iff p in
      elim (Bool-cases (has_payment_fully_processed p)) [
        | inl full ↦
            rw (← ok-injective (rw full at e)) (refl, refl, (λ _. to full, λ _. refl), inr refl)
        | inr part ↦
            rw (← ok-injective (rw part at e))
              (refl, refl, (λ h. cc, λ h. sym part ∙ from h), inl refl)
      ]

  -- A report of a payment that succeeds: every line that it is about was in transit, and is paid
  -- now with the number and the date of the report; the processed amount of the payout grows by the
  -- amounts of the lines; and the payout is announced as paid exactly when that amount is the
  -- payout's, and is marked as paid when it is announced. A report about the same lines again fails, so that none is counted twice.
  pub mark_payout_lines_as_paid_lem :
      (lines : List PayoutLine) (payout : Payout) (r : Processed)
      → mark_payout_lines_as_paid input lines (some payout) ≡ ok r
      → (All (λ l. l.status ≡ PayoutStatus.in_transit) lines)
        × (r.lines ≡ map (reported input) lines)
        × (r.payout.processed_amount ≡ payout.processed_amount +ℤ total_of lines)
        × ((r.published ≡ true) ↔ (r.payout.processed_amount ≡ payout.amount))
        × ((r.published ≡ false) ⊎ (r.payout.status ≡ PayoutStatus.paid))
        × ((e : Error) × (mark_payout_lines_as_paid input r.lines (some r.payout) ≡ err e))
  mark_payout_lines_as_paid_lem [] payout r e = unfold mark_payout_lines_as_paid in cc
  mark_payout_lines_as_paid_lem (l ∷ ls) payout r e =
      let (lines', marked, e') =
        >>=-eq-ok (mark_all input (l ∷ ls)) _ (sym (found l ls (some payout)) ∙ e) in
      let (same, transit) = mark_all-ok (l ∷ ls) lines' marked in
      let total = total_of-paid (pos 0) (l ∷ ls) in
      let (kept, grown, whole, status) = settled lines' payout r e' in
      (
        transit,
        kept ∙ same,
        grown ∙ ap (λ x. payout.processed_amount +ℤ x) (ap total_of same ∙ total),
        whole,
        status,
        rw (kept, same) (paid_again l ls r.payout),
      )
