-- ===== src/Payout/JobNumbers.antt =====
-- The job numbers in the file of payout lines.
use vz.Common.{
  ℕ, zero, suc, String, ◌≡◌, inl, inr, refl, sym, ap, ◌∙◌, Bool, true, false, List, [], ◌∷◌, map,
  ◌==◌, arith, if◌then◌else◌, Bool-cases,
}
use vz.Payout.Lines.{PayoutLine}
use vz.Payout.LinesFile.{Formats, Row, header, detail, count_up, set_details, get_result}

-- The numbers k + 1, k + 2 and so on, n of them.
abbrev pub numbers_after : ℕ → ℕ → List ℕ
numbers_after k zero = []
numbers_after k (suc n) = suc k ∷ numbers_after (suc k) n

abbrev pub lines_of_request : ℕ → List PayoutLine → ℕ
lines_of_request id [] = 0
lines_of_request id (line ∷ lines) =
    if id == line.service_request_id
    then suc (lines_of_request id lines)
    else lines_of_request id lines

abbrev pub job_numbers : ℕ → List Row → List String
job_numbers id [] = []
job_numbers id (header ∷ rows) = job_numbers id rows
job_numbers id (detail d ∷ rows) =
    if id == d.service_request_id then d.job_no ∷ job_numbers id rows else job_numbers id rows

abbrev pub payout_amounts : List Row → List String
payout_amounts [] = []
payout_amounts (header ∷ rows) = payout_amounts rows
payout_amounts (detail d ∷ rows) = d.service_provider_payout_amount ∷ payout_amounts rows

module _ (f : Formats) where
  set_details-job_numbers :
      (counter : ℕ → ℕ) (lines : List PayoutLine) (id : ℕ)
      → job_numbers id (set_details f counter lines)
        ≡ map f.to_string (numbers_after (counter id) (lines_of_request id lines))
  unfolding set_details
  set_details-job_numbers counter [] id = refl
  set_details-job_numbers counter (line ∷ lines) id =
      let rest = set_details-job_numbers (count_up line.service_request_id counter) lines id in
      elim (Bool-cases (id == line.service_request_id)) [
        | inl own ↦
            let e : id ≡ line.service_request_id = ground arith in
            let next : count_up line.service_request_id counter id ≡ suc (counter id) =
              rw own refl in
            let counted : count_up line.service_request_id counter line.service_request_id
                ≡ suc (counter id) =
              ap (count_up line.service_request_id counter) (sym e) ∙ next in
            rw (own, counted) (ap (f.to_string (suc (counter id)) ∷◌) (rw own at rest))
        | inr other ↦ rw other (rw other at rest)
      ]

  set_details-payout_amounts :
      (counter : ℕ → ℕ) (lines : List PayoutLine)
      → payout_amounts (set_details f counter lines) ≡ map (λ l. f.to_fixed l.amount) lines
  unfolding set_details
  set_details-payout_amounts counter [] = refl
  set_details-payout_amounts counter (line ∷ lines) =
      ap (f.to_fixed line.amount ∷◌)
        (set_details-payout_amounts (count_up line.service_request_id counter) lines)

  -- With or without a header: the rows of each service request are numbered from 1, in the order of
  -- its lines and without a gap, and the amounts are those of the lines in their order.
  pub get_result-job_numbers :
      (include_header : Bool) (lines : List PayoutLine) (id : ℕ)
      → (job_numbers id (get_result f include_header lines)
          ≡ map f.to_string (numbers_after 0 (lines_of_request id lines)))
        × (payout_amounts (get_result f include_header lines)
            ≡ map (λ l. f.to_fixed l.amount) lines)
  unfolding get_result
  get_result-job_numbers include_header [] id = (refl, refl)
  get_result-job_numbers true (line ∷ lines) id = (
    set_details-job_numbers (λ i. 0) (line ∷ lines) id,
    set_details-payout_amounts (λ i. 0) (line ∷ lines),
  )
  get_result-job_numbers false (line ∷ lines) id = (
    set_details-job_numbers (λ i. 0) (line ∷ lines) id,
    set_details-payout_amounts (λ i. 0) (line ∷ lines),
  )
