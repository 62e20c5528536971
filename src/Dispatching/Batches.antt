-- ===== src/Dispatching/Batches.antt =====
-- The rounds of a service request that nobody takes.
use vz.Common.{
  ℕ, zero, suc, ◌+◌, ◌≤◌, ◌≡◌, inl, inr, refl, sym, ap, ◌∙◌, true, false, none, some, List, [], ◌∷◌,
  ◌++◌, map, ltb, leb, arith, Bool-cases,
}
use vz.Common.Int.{ℤ}
use vz.Dispatching.{Assignment}
use vz.Dispatching.Scan.{scan_candidates}
use vz.Dispatching.Tickets.{
  Answers, BatchWise, Job, ServiceTicket, is_send_to_all, batch_no_of, offer, exit, offer_batch,
  send_batch_wise, handle_allocation,
}
use vz.Dispatching.Rounds.{batches_of, run, run-step, followed_by-none, followed_by-some}

-- A list so many times.
abbrev pub times : {A : Type 0} → ℕ → List A → List A
times zero xs = []
times (suc n) xs = xs ++ times n xs

append_nil : {A : Type 0} → (xs : List A) → xs ++ [] ≡ xs
append_nil [] = refl
append_nil (x ∷ xs) = ap (x ∷◌) (append_nil xs)

module _ (seconds_from_now : ℤ → ℕ) where
  -- The offers of a batch.
  abbrev pub offers_of : Answers → BatchWise → Job → List Assignment
  offers_of q b job =
      map (offer seconds_from_now job b.duration_setting.request_seconds)
        (scan_candidates job.scanning_zone_type [] 0 q.repositories)

  offer_batch-assignments :
      (q : Answers) (b : BatchWise) (job : Job) (number : ℕ)
      → (offer_batch seconds_from_now q b job number).assignments ≡ offers_of q b job
  unfolding offer_batch scan_candidates
  offer_batch-assignments q b job number = elim (Bool-cases (leb b.batch_limit.size number)) [
    | inl last ↦ rw last refl
    | inr more ↦ rw more refl
  ]

  offer_batch-last :
      (q : Answers) (b : BatchWise) (job : Job) (number : ℕ)
      → leb b.batch_limit.size number ≡ true
      → (offer_batch seconds_from_now q b job number).next ≡ none
  unfolding offer_batch
  offer_batch-last q b job number last = rw last refl

  -- A job like another one, of a later batch.
  abbrev IsLater : BatchWise → Job → ℕ → Job → Type 0
  IsLater b job number j =
      (j.batch_wise ≡ job.batch_wise)
      × (batch_no_of j.state ≡ suc number)
      × (is_send_to_all j.type ≡ is_send_to_all job.type)
      × ((q : Answers) → offers_of q b j ≡ offers_of q b job)

  offer_batch-more :
      (q : Answers) (b : BatchWise) (job : Job) (number : ℕ)
      → leb b.batch_limit.size number ≡ false
      → (j : Job) × ((offer_batch seconds_from_now q b job number).next ≡ some j)
        × IsLater b job number j
  unfolding offer_batch
  offer_batch-more q b job number more = rw more (_, refl, (refl, refl, refl, λ p. refl))

  handle_allocation-over :
      (q : Answers) (b : BatchWise) (job : Job)
      → is_send_to_all job.type ≡ false
      → job.batch_wise ≡ some b
      → ltb b.batch_limit.size (batch_no_of job.state) ≡ true
      → handle_allocation seconds_from_now q job ≡ exit
  unfolding send_batch_wise
  handle_allocation-over q b job batches set over =
      batches_of seconds_from_now q b job batches set ∙ rw over refl

  handle_allocation-free :
      (q : Answers) (b : BatchWise) (ticket : ServiceTicket) (job : Job)
      → is_send_to_all job.type ≡ false
      → job.batch_wise ≡ some b
      → q.service_ticket ≡ some ticket
      → ticket.has_been_assigned_or_allocated ≡ false
      → ltb b.batch_limit.size (batch_no_of job.state) ≡ false
      → handle_allocation seconds_from_now q job
        ≡ offer_batch seconds_from_now q b job (batch_no_of job.state)
  unfolding send_batch_wise
  handle_allocation-free q b ticket job batches set there free within =
      batches_of seconds_from_now q b job batches set ∙ rw (within, there, free) refl

  -- The jobs of the batches that are left, where the ticket stays free.
  run_batches :
      (left rounds : ℕ) (q : Answers) (b : BatchWise) (ticket : ServiceTicket) (round : ℕ)
      (job : Job)
      → is_send_to_all job.type ≡ false
      → job.batch_wise ≡ some b
      → q.service_ticket ≡ some ticket
      → ticket.has_been_assigned_or_allocated ≡ false
      → batch_no_of job.state + left ≡ suc b.batch_limit.size
      → left ≤ rounds
      → run seconds_from_now (suc rounds) (λ r. q) round job ≡ some (times left (offers_of q b job))
  run_batches zero rounds q b ticket round job batches set there free count enough =
      let over : ltb b.batch_limit.size (batch_no_of job.state) ≡ true = ground arith in
      run-step seconds_from_now rounds (λ r. q) round job exit
        (handle_allocation-over q b job batches set over)
  run_batches (suc left) zero q b ticket round job batches set there free count enough =
      ground arith
  run_batches (suc zero) (suc rounds) q b ticket round job batches set there free count enough =
      let within : ltb b.batch_limit.size (batch_no_of job.state) ≡ false = ground arith in
      let last : leb b.batch_limit.size (batch_no_of job.state) ≡ true = ground arith in
      run-step seconds_from_now (suc rounds) (λ r. q) round job _
        (handle_allocation-free q b ticket job batches set there free within)
      ∙ followed_by-none _ _ (offer_batch-last q b job (batch_no_of job.state) last)
      ∙ ap some (
          offer_batch-assignments q b job (batch_no_of job.state)
          ∙ sym (append_nil (offers_of q b job)))
  run_batches (suc (suc left)) (suc rounds) q b ticket round job batches set there free count
        enough =
      let within : ltb b.batch_limit.size (batch_no_of job.state) ≡ false = ground arith in
      let more : leb b.batch_limit.size (batch_no_of job.state) ≡ false = ground arith in
      let (j, next, later) = offer_batch-more q b job (batch_no_of job.state) more in
      let (same, number, type, offers) = later in
      let rest =
        run_batches (suc left) rounds q b ticket (suc round) j (type ∙ batches) (same ∙ set) there
          free (rw number (omega arith)) (omega arith) in
      run-step seconds_from_now (suc rounds) (λ r. q) round job _
        (handle_allocation-free q b ticket job batches set there free within)
      ∙ followed_by-some _ _ j _ next rest
      ∙ rw (offers q, offer_batch-assignments q b job (batch_no_of job.state)) refl

  -- A job that goes by batches and has their settings, from its first run on, with a ticket that
  -- stays free and the same answers in each round: every batch is offered to all the providers
  -- that the first has been offered to, whatever the greatest number of agents is and whoever has
  -- an offer already.
  pub batches_repeat :
      (q : Answers) (b : BatchWise) (ticket : ServiceTicket) (job : Job)
      → is_send_to_all job.type ≡ false
      → job.batch_wise ≡ some b
      → q.service_ticket ≡ some ticket
      → ticket.has_been_assigned_or_allocated ≡ false
      → job.state.current_batch_no ≡ none
      → run seconds_from_now (suc b.batch_limit.size) (λ r. q) 0 job
        ≡ some (times b.batch_limit.size (offers_of q b job))
  batches_repeat q b ticket job batches set there free fresh =
      let first : batch_no_of job.state ≡ 1 = rw fresh refl in
      run_batches b.batch_limit.size b.batch_limit.size q b ticket 0 job batches set there free
        (omega arith) (omega arith)
