-- ===== src/Payout/Batches.antt =====
-- What has been saved when a batch has been made, whether its files were uploaded or not.
use vz.Common.{
  ℕ, ◌+◌, String, ◌≡◌, refl, ◌∙◌, true, false, none, some, List, [], ◌∷◌, map, length, All, arith,
  Bool-cases, inl, inr,
}
use vz.Common.Sums.{sum_of, foldl-sum_of}
use vz.Common.Results.{Result, ok, err}
use vz.Shared.Errors.{Error, plain}
use vz.Payout.{Payout, PayoutStatus}
use vz.Payout.Lines.{PayoutLine, is_scheduled, payout_batch_in_transit}
use vz.Payout.Batch.{
  PayoutBatch, PayoutBatchStatus, Urls, Batched, new_payout_batch, create_batch,
  payment_file_uploaded, set_uploaded_payment_files, payment_file_upload_failed, all_in_transit,
  send_lines, send, create_payout_batch,
}

abbrev pub IsScheduled : PayoutLine → Type 0
IsScheduled l = is_scheduled l.status ≡ true

abbrev pub sent_line : ℕ → PayoutLine → PayoutLine
sent_line batch_id l = record l {
  payout_batch_id = some batch_id;
  status = PayoutStatus.in_transit;
}

-- How a batch ends.
pub data Outcome (id : ℕ) (uploads : Result Urls) (payouts : List Payout) (lines : List PayoutLine)
    (r : Batched) : Type 0 where
  sent :
      (u : Urls)
      → uploads ≡ ok u
      → All IsScheduled lines
      → r.batch.status ≡ PayoutBatchStatus.in_transit
      → r.batch.payouts ≡ map payment_file_uploaded payouts
      → r.lines ≡ some (map (sent_line id) lines)
      → Outcome id uploads payouts lines r
  not_uploaded :
      (e : Error)
      → uploads ≡ err e
      → r.batch.status ≡ PayoutBatchStatus.failed
      → r.batch.payouts ≡ payouts
      → r.lines ≡ none
      → Outcome id uploads payouts lines r
  stuck :
      (u : Urls)
      → uploads ≡ ok u
      → (All IsScheduled lines → ⊥)
      → r.batch.status ≡ PayoutBatchStatus.failed
      → r.batch.payouts ≡ map payment_file_uploaded payouts
      → r.lines ≡ none
      → Outcome id uploads payouts lines r

-- Either all lines were scheduled, and are sent, or the loop throws.
data Sent (id : ℕ) (lines : List PayoutLine) : Type 0 where
  all :
      All IsScheduled lines
      → all_in_transit id lines ≡ ok (map (sent_line id) lines)
      → Sent id lines
  thrown :
      (e : Error) → (All IsScheduled lines → ⊥) → all_in_transit id lines ≡ err e → Sent id lines

line_sent :
    (id : ℕ) (l : PayoutLine)
    → is_scheduled l.status ≡ true
    → payout_batch_in_transit id l ≡ ok (sent_line id l)
unfolding payout_batch_in_transit
line_sent id l h = rw h refl

line_thrown :
    (id : ℕ) (l : PayoutLine)
    → is_scheduled l.status ≡ false
    → (e : Error) × (payout_batch_in_transit id l ≡ err e)
unfolding payout_batch_in_transit
line_thrown id l h =
    (plain "Payout line not in correct state to be marked as in-transit", rw h refl)

all_in_transit-Sent : (id : ℕ) (lines : List PayoutLine) → Sent id lines
unfolding all_in_transit
all_in_transit-Sent id [] = all tt refl
all_in_transit-Sent id (l ∷ ls) = elim (Bool-cases (is_scheduled l.status)) [
  | inl ready ↦ elim (all_in_transit-Sent id ls) [
    | all h e ↦ all (ready, h) (rw (line_sent id l ready) (rw e refl))
    | thrown x h e ↦ thrown x (λ k. h k.1) (rw (line_sent id l ready) (rw e refl))
  ]
  | inr other ↦ let (x, e) = line_thrown id l other in thrown x (λ k. cc) (rw e refl)
]

-- What a batch is made with, and keeps.
pub record Kept (b c : PayoutBatch) : Type 0 where
  pub amount : c.total_amount ≡ b.total_amount
  pub records : c.total_records ≡ b.total_records
  pub count : c.daily_running_count ≡ b.daily_running_count
  pub group : c.principal_group ≡ b.principal_group

module _ (lines : List PayoutLine) (b : PayoutBatch)
    (ready : b.status ≡ PayoutBatchStatus.scheduled) where
  -- The batch once its files are up.
  uploaded : Urls → PayoutBatch
  uploaded u = record b {
    scb_payment_file_url = some u.scb_payment_file;
    payout_summary_file_url = some u.payout_summary_file;
    payout_lines_file_url = some u.payout_lines_file;
    status = PayoutBatchStatus.in_transit;
    payouts = map payment_file_uploaded b.payouts;
  }

  set_uploaded_payment_files-ok : (u : Urls) → set_uploaded_payment_files u b ≡ ok (uploaded u)
  unfolding set_uploaded_payment_files uploaded
  set_uploaded_payment_files-ok u = rw ready refl

  send_lines-Outcome :
      (u : Urls) → Outcome b.id (ok u) b.payouts lines (send_lines lines (uploaded u))
  unfolding send_lines uploaded payment_file_upload_failed
  send_lines-Outcome u = elim (all_in_transit-Sent b.id lines) [
    | all h e ↦ rw (e, send_lines) (sent u refl h refl refl refl)
    | thrown x h e ↦ rw (e, send_lines) (stuck u refl h refl refl refl)
  ]

  send-Outcome :
      (uploads : Result Urls) → Outcome b.id uploads b.payouts lines (send uploads lines b)
  unfolding send payment_file_upload_failed
  send-Outcome (err e) = not_uploaded e refl refl refl refl
  send-Outcome (ok u) = rw (set_uploaded_payment_files-ok u, send) (send_lines-Outcome u)

  send_lines-Kept : (u : Urls) → Kept b (send_lines lines (uploaded u)).batch
  unfolding send_lines uploaded payment_file_upload_failed
  send_lines-Kept u = elim (all_in_transit-Sent b.id lines) [
    | all h e ↦
        rw (e, send_lines) (record { amount = refl; records = refl; count = refl; group = refl })
    | thrown x h e ↦
        rw (e, send_lines) (record { amount = refl; records = refl; count = refl; group = refl })
  ]

  send-Kept : (uploads : Result Urls) → Kept b (send uploads lines b).batch
  unfolding send payment_file_upload_failed
  send-Kept (err e) = record { amount = refl; records = refl; count = refl; group = refl }
  send-Kept (ok u) = rw (set_uploaded_payment_files-ok u, send) (send_lines-Kept u)

made :
    (id count : ℕ) (date : String) (uploads : Result Urls) (p : Payout) (ps : List Payout)
    (l : PayoutLine) (ls : List PayoutLine)
    → create_payout_batch id count date uploads (p ∷ ps) (l ∷ ls)
      ≡ ok (
          some (
            send uploads
              (l ∷ ls)
              (new_payout_batch id p.principal_group (p ∷ ps) (count + 1) date)))
unfolding create_payout_batch create_batch
made id count date uploads p ps l ls = ground arith

-- Payouts and lines, neither of them empty, always make a batch, whose amount is the sum of the
-- payouts, whose number of records is theirs, and whose number of the day follows that of the
-- batches there are. It ends in one of three ways. All lines were scheduled and the files are
-- uploaded: the batch, its payouts and the lines are in transit, and the lines know the batch. The
-- files are not uploaded: the batch has failed, and the payouts and the lines are as they were. Or
-- the files are uploaded, but not all lines were scheduled: the batch has failed and the lines are
-- as they were, although the payouts are in transit.
pub create_payout_batch_lem :
    (id count : ℕ) (date : String) (uploads : Result Urls) (p : Payout) (ps : List Payout)
    (l : PayoutLine) (ls : List PayoutLine)
    → (r : Batched) × (create_payout_batch id count date uploads (p ∷ ps) (l ∷ ls) ≡ ok (some r))
      × Outcome id uploads (p ∷ ps) (l ∷ ls) r
      × (r.batch.total_amount ≡ sum_of (λ p. p.amount) (p ∷ ps))
      × (r.batch.total_records ≡ length (p ∷ ps))
      × (r.batch.daily_running_count ≡ count + 1)
      × (r.batch.principal_group ≡ p.principal_group)
create_payout_batch_lem id count date uploads p ps l ls =
    let b = new_payout_batch id p.principal_group (p ∷ ps) (count + 1) date in
    let kept = send-Kept (l ∷ ls) b (unfold new_payout_batch in refl) uploads in
    (
      send uploads (l ∷ ls) b,
      made id count date uploads p ps l ls,
      unfold new_payout_batch in send-Outcome (l ∷ ls) b refl uploads,
      kept.amount ∙ unfold new_payout_batch in foldl-sum_of (λ p. p.amount) (p ∷ ps),
      kept.records ∙ unfold new_payout_batch in refl,
      kept.count ∙ unfold new_payout_batch in refl,
      kept.group ∙ unfold new_payout_batch in refl,
    )
