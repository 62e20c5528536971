-- ===== src/Payout/Summaries.antt =====
-- The rows of the summary file: one for each service request, whatever the order of the lines.
use mathlib.Core.List.{foldl, append-nil, append_assoc}
use vz.Common.{
  ℕ, ◌≡◌, refl, sym, ap, ◌∙◌, true, false, not, ◌==◌, List, [], ◌∷◌, ◌++◌, map, if◌then◌else◌,
  Bool-cases, inl, inr, arith,
}
use vz.Common.Sums.{sum_of, foldl-sum_of}
use vz.Payout.Lines.{PayoutLine}
use vz.Payout.LinesFile.{Formats}
use vz.Payout.SummaryFile.{
  RequestLines, push_line, grouped_by_service_request, PayoutSummary, is_service_package, any_line,
  summary_of, group_payout_lines_by_service_request, PayoutSummaryFileDetail, detail,
  get_summary_result, new_summary_detail,
}

-- The lines and the rows of one request.
abbrev pub lines_for : ℕ → List PayoutLine → List PayoutLine
lines_for id [] = []
lines_for id (l ∷ ls) =
    let rest = lines_for id ls in if l.service_request_id == id then l ∷ rest else rest

abbrev pub rows_for : ℕ → List PayoutSummary → List PayoutSummary
rows_for id [] = []
rows_for id (s ∷ ss) =
    let rest = rows_for id ss in if s.line.service_request_id == id then s ∷ rest else rest

-- The row that the lines of a request should have.
abbrev pub row_of : List PayoutLine → List PayoutSummary
row_of [] = []
row_of (l ∷ ls) =
    record {
      line = record l {
        amount = sum_of (λ l. l.amount) (l ∷ ls);
        item_sales_amount = sum_of (λ l. l.item_sales_amount) (l ∷ ls);
      };
      has_service_fee = any_line is_service_package (l ∷ ls);
      has_reschedule_surcharge = any_line (λ l. not (is_service_package l)) (l ∷ ls);
    }
    ∷ []

groups_for : ℕ → List RequestLines → List RequestLines
groups_for id [] = []
groups_for id (g ∷ gs) =
    let rest = groups_for id gs in if g.first.service_request_id == id then g ∷ rest else rest

-- A line that is put to the first group there is.
put : PayoutLine → List RequestLines → List RequestLines
put l [] = record { first = l; later = [] } ∷ []
put l (g ∷ gs) = record g { later = g.later ++ (l ∷ []) } ∷ gs

groups_for-push_line :
    (id : ℕ) (l : PayoutLine) (gs : List RequestLines)
    → groups_for id (push_line l gs)
      ≡ (if l.service_request_id == id then put l (groups_for id gs) else groups_for id gs)
unfolding groups_for push_line put
groups_for-push_line id l [] = refl
groups_for-push_line id l (g ∷ gs) = ground (arith, groups_for-push_line id l gs)

groups_for-foldl :
    (id : ℕ) (gs : List RequestLines) (ls : List PayoutLine)
    → groups_for id (foldl (λ groups l. push_line l groups) gs ls)
      ≡ foldl (λ groups l. put l groups) (groups_for id gs) (lines_for id ls)
groups_for-foldl id gs [] = refl
groups_for-foldl id gs (l ∷ ls) =
    groups_for-foldl id (push_line l gs) ls ∙ (elim (Bool-cases (l.service_request_id == id)) [
      | inl own ↦ rw (groups_for-push_line id l gs) (rw own refl)
      | inr other ↦ rw (groups_for-push_line id l gs) (rw other refl)
    ])

foldl-put :
    (first : PayoutLine) (later ls : List PayoutLine)
    → foldl (λ groups l. put l groups) (record { first = first; later = later } ∷ []) ls
      ≡ record { first = first; later = later ++ ls } ∷ []
unfolding put
foldl-put first later [] =
    ap (λ ls. record { first = first; later = ls } ∷ []) (sym (append-nil later))
foldl-put first later (l ∷ ls) =
    foldl-put first (later ++ (l ∷ [])) ls
    ∙ ap (λ ls. record { first = first; later = ls } ∷ []) (append_assoc later (l ∷ []) ls)

rows_for-map :
    (id : ℕ) (gs : List RequestLines)
    → rows_for id (map summary_of gs) ≡ map summary_of (groups_for id gs)
unfolding summary_of groups_for
rows_for-map id [] = refl
rows_for-map id (g ∷ gs) = elim (Bool-cases (g.first.service_request_id == id)) [
  | inl own ↦ rw own (ap (λ rows. summary_of g ∷ rows) (rows_for-map id gs))
  | inr other ↦ rw other (rows_for-map id gs)
]

put_all :
    (ls : List PayoutLine) → map summary_of (foldl (λ groups l. put l groups) [] ls) ≡ row_of ls
unfolding put summary_of
put_all [] = refl
put_all (l ∷ ls) = ap (map summary_of) (foldl-put l [] ls) ∙ (λ i.
    record {
      line = record l {
        amount = foldl-sum_of (λ l. l.amount) (l ∷ ls) i;
        item_sales_amount = foldl-sum_of (λ l. l.item_sales_amount) (l ∷ ls) i;
      };
      has_service_fee = any_line is_service_package (l ∷ ls);
      has_reschedule_surcharge = any_line (λ l. not (is_service_package l)) (l ∷ ls);
    }
    ∷ [])

-- A request that has lines in a file has exactly one row there, and other requests have none: the
-- row sums up the amounts and the sales of these lines, says what kinds of items they are, and has
-- all else of the first of them.
pub group_payout_lines_by_service_request_lem :
    (id : ℕ) (lines : List PayoutLine)
    → rows_for id (group_payout_lines_by_service_request lines) ≡ row_of (lines_for id lines)
unfolding group_payout_lines_by_service_request grouped_by_service_request groups_for
group_payout_lines_by_service_request_lem id lines =
    rows_for-map id (grouped_by_service_request lines)
    ∙ ap (map summary_of) (groups_for-foldl id [] lines)
    ∙ put_all (lines_for id lines)

pushed :
    (l k : PayoutLine)
    → k.service_request_id ≡ l.service_request_id
    → push_line k (record { first = l; later = [] } ∷ [])
      ≡ record { first = l; later = k ∷ [] } ∷ []
unfolding push_line
pushed l k same = ground arith

-- Where the lines of a request are due to two vendors, a service and a surcharge after it, the row
-- names the vendor of the service for both.
pub surcharge_vendor_lost :
    (f : Formats) (now clock : ℕ) (service surcharge : PayoutLine)
    → surcharge.service_request_id ≡ service.service_request_id
    → is_service_package service ≡ true
    → is_service_package surcharge ≡ false
    → (d : PayoutSummaryFileDetail) × (get_summary_result f now clock false
          (service ∷ surcharge ∷ [])
        ≡ detail d ∷ [])
      × (d.vendor_on_service_request ≡ service.owner_vendor_id)
      × (d.vendor_on_surcharge ≡ service.owner_vendor_id)
unfolding get_summary_result group_payout_lines_by_service_request grouped_by_service_request
    summary_of new_summary_detail push_line
surcharge_vendor_lost f now clock service surcharge same s r = (
  new_summary_detail f clock (summary_of (record { first = service; later = surcharge ∷ [] })),
  ap (λ gs. map (λ s. detail (new_summary_detail f clock s)) (map summary_of gs))
      (pushed service surcharge same),
  ground arith,
  ground arith,
)
