-- ===== src/Payout/Batch.antt =====
-- payout/entities/payout-batch.entity.ts, payout/factories/payout-batch.factory.ts, and
-- `createPayoutBatch` of payout/payout.service.ts: the payouts of one company go to the bank in a
-- batch, with three files.
use mathlib.Core.List.{foldl}
use vz.Common.{
  ℕ, ◌+◌, String, Bool, true, false, not, ◌&&◌, ◌||◌, Option, none, some, List, [], ◌∷◌, ◌++◌, map,
  length, ltb, get_elem?, if◌then◌else◌,
}
use vz.Common.Int.{ℤ, pos, ◌+ℤ◌}
use vz.Common.Results.{Result, ok, err, ◌>>=◌, ◌>>◌, throw_if, required}
use vz.Shared.Errors.{Error, plain}
use vz.Shared.Tenant.{Tenant}
use vz.Payout.{Payout, PayoutStatus}
use vz.Payout.Lines.{PayoutLine, payout_batch_in_transit}

-- payout/enums/payout-batch-status.enum.ts
pub data PayoutBatchStatus : Type 0 where
  failed in_transit paid partially_paid scheduled : PayoutBatchStatus

-- `payoutIds` repeats the ids of `payouts`, and is left out.
pub record PayoutBatch : Type 0 where
  pub id : ℕ
  pub total_amount : ℤ
  pub total_records : ℕ
  pub scb_payment_file_url : Option String
  pub payout_summary_file_url : Option String
  pub payout_lines_file_url : Option String
  pub principal_group : Tenant
  pub payouts : List Payout
  pub status : PayoutBatchStatus
  pub daily_running_count : ℕ
  pub date : String
  pub err : Option Error

-- The constructor: `date` is the day of `now` as a text, and the first payout is there.
unfoldable pub new_payout_batch : ℕ → Tenant → List Payout → ℕ → String → PayoutBatch
new_payout_batch id principal_group payouts daily_running_count date = record {
  id = id;
  total_amount = foldl (λ sum p. sum +ℤ p.amount) (pos 0) payouts;
  total_records = length payouts;
  scb_payment_file_url = none;
  payout_summary_file_url = none;
  payout_lines_file_url = none;
  principal_group = principal_group;
  payouts = payouts;
  status = PayoutBatchStatus.scheduled;
  daily_running_count = daily_running_count;
  date = date;
  err = none;
}

-- `PayoutBatchFactory.create`: `count` batches of the company and the day are there already.
unfoldable pub create_batch : ℕ → List Payout → ℕ → String → Result PayoutBatch
unfolding new_payout_batch
create_batch id payouts count date = do
  first ← required (get_elem? payouts 0)
  ok (new_payout_batch id first.principal_group payouts (count + 1) date)

abbrev pub is_scheduled_batch : PayoutBatchStatus → Bool
is_scheduled_batch PayoutBatchStatus.scheduled = true
is_scheduled_batch _ = false

abbrev pub payment_file_uploaded : Payout → Payout
payment_file_uploaded p = record p { status = PayoutStatus.in_transit }

abbrev pub mark_payout_as_paid : Payout → Payout
mark_payout_as_paid p = record p { status = PayoutStatus.paid }

-- The places of the three files.
pub record Urls : Type 0 where
  pub scb_payment_file : String
  pub payout_summary_file : String
  pub payout_lines_file : String

unfoldable pub set_uploaded_payment_files : Urls → PayoutBatch → Result PayoutBatch
set_uploaded_payment_files urls b = do
  throw_if (not (is_scheduled_batch b.status))
      (plain "Payout batch not in correct state to accept new payment file")
  ok (record b {
    scb_payment_file_url = some urls.scb_payment_file;
    payout_summary_file_url = some urls.payout_summary_file;
    payout_lines_file_url = some urls.payout_lines_file;
    status = PayoutBatchStatus.in_transit;
    payouts = map payment_file_uploaded b.payouts;
  })

unfoldable pub payment_file_upload_failed : Error → PayoutBatch → PayoutBatch
payment_file_upload_failed e b = record b { status = PayoutBatchStatus.failed; err = some e }

unfoldable pub mark_batch_as_paid : PayoutBatch → PayoutBatch
mark_batch_as_paid b = record b {
  status = PayoutBatchStatus.paid;
  payouts = map mark_payout_as_paid b.payouts;
}

-- `payoutLines.forEach(line => line.payoutBatchInTransit(payoutBatch.id))`
unfoldable pub all_in_transit : ℕ → List PayoutLine → Result (List PayoutLine)
unfolding payout_batch_in_transit
all_in_transit batch_id [] = ok []
all_in_transit batch_id (line ∷ lines) = do
  line' ← payout_batch_in_transit batch_id line
  lines' ← all_in_transit batch_id lines
  ok (line' ∷ lines')

-- What the call has saved when it ends: the batch with its payouts, and the lines, where they were
-- saved.
pub record Batched : Type 0 where
  pub batch : PayoutBatch
  pub lines : Option (List PayoutLine)

-- The `try` block after the files. Where the lines throw, the batch has its files already.
unfoldable pub send_lines : List PayoutLine → PayoutBatch → Batched
unfolding all_in_transit payment_file_upload_failed
send_lines lines b = elim (all_in_transit b.id lines) [
  | ok lines' ↦ record { batch = b; lines = some lines' }
  | err e ↦ record { batch = payment_file_upload_failed e b; lines = none }
]

-- `uploads` is what the building and uploading of the three files comes to, in their order. The
-- saves succeed.
unfoldable pub send : Result Urls → List PayoutLine → PayoutBatch → Batched
unfolding send_lines set_uploaded_payment_files payment_file_upload_failed
send uploads lines b = elim uploads [
  | err e ↦ record { batch = payment_file_upload_failed e b; lines = none }
  | ok urls ↦ elim (set_uploaded_payment_files urls b) [
    | err e ↦ record { batch = payment_file_upload_failed e b; lines = none }
    | ok b' ↦ send_lines lines b'
  ]
]

-- `id` is that of the batch that is saved. The result is none where nothing is made.
unfoldable pub create_payout_batch :
    (id : ℕ)
    → (count : ℕ) → (date : String) → (uploads : Result Urls) → List Payout
    → List PayoutLine
    → Result (Option Batched)
unfolding create_batch send
create_payout_batch id count date uploads payouts lines = do
  throw_if (ltb 1 (length payouts) && ltb (length lines) 1) (plain "Empty payout lines detected")
  (if ltb (length payouts) 1 || ltb (length lines) 1
      then ok none
      else (create_batch id payouts count date >>= λ b. ok (some (send uploads lines b))))

abbrev has_paid : Payout → Bool
has_paid p = elim p.status [ PayoutStatus.paid ↦ true | _ ↦ false ]

abbrev filtered : List Payout → List Payout
filtered [] = []
filtered (p ∷ ps) = if has_paid p then p ∷ filtered ps else filtered ps

abbrev published : List PayoutBatch → List Payout
published [] = []
published (b ∷ bs) = filtered b.payouts ++ published bs

-- The batches that are saved, and the payouts of which a `PayoutPaidEvent` is published. `batches`
-- are those that the repository finds in transit.
unfoldable pub mark_every_in_transit_payout_batches_as_paid :
    List PayoutBatch → List PayoutBatch × List Payout
unfolding mark_batch_as_paid
mark_every_in_transit_payout_batches_as_paid batches =
    let saved = map mark_batch_as_paid batches in (saved, published saved)
