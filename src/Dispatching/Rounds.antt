-- ===== src/Dispatching/Rounds.antt =====
-- dispatching/ticket.processor.ts: the jobs that the queue runs one after another for a service
-- request, each of which the one before has added.
use mathlib.Core.Path.{subst}
use vz.Common.{
  ℕ, false, zero, suc, ◌+◌, ◌≤◌, ◌≡◌, ◌⊎◌, inl, inr, refl, ap, sym, ◌∙◌, Option, none, some, List,
  ◌++◌, ltb, leb, arith, Bool-cases, Option-cases,
}
use vz.Common.Int.{ℤ}
use vz.Dispatching.{Assignment}
use vz.Dispatching.Tickets.{
  BatchWise, seconds_or, exit, Answers, Job, Dispatched, is_send_to_all, batch_no_of, send_to_all,
  offer_batch, send_batch_wise, handle_allocation,
}

-- What a job has offered, with the offers of the job that it adds.
abbrev pub followed_by : Dispatched → (Job → Option (List Assignment)) → Option (List Assignment)
followed_by d rest = elim d.next [
  | none ↦ some d.assignments
  | some next ↦ elim (rest next) [ none ↦ none | some others ↦ some (d.assignments ++ others) ]
]

pub followed_by-none :
    (d : Dispatched) (rest : Job → Option (List Assignment))
    → d.next ≡ none
    → followed_by d rest ≡ some d.assignments
followed_by-none d rest last = rw last refl

pub followed_by-some :
    (d : Dispatched) (rest : Job → Option (List Assignment)) (next : Job) (others : List Assignment)
    → d.next ≡ some next
    → rest next ≡ some others
    → followed_by d rest ≡ some (d.assignments ++ others)
followed_by-some d rest next others more e =
    rw more (ap (λ x. elim x [ none ↦ none | some others' ↦ some (d.assignments ++ others') ]) e)

module _ (seconds_from_now : ℤ → ℕ) where
  -- The offers of at most so many rounds, none where the last of these adds another job. `answers`
  -- has what the queries answer in each round.
  unfoldable pub run : ℕ → (ℕ → Answers) → ℕ → Job → Option (List Assignment)
  run zero answers round job = none
  run (suc rounds) answers round job =
      followed_by (handle_allocation seconds_from_now (answers round) job)
        (run rounds answers (suc round))

  pub run-step :
      (rounds : ℕ) (answers : ℕ → Answers) (round : ℕ) (job : Job) (d : Dispatched)
      → handle_allocation seconds_from_now (answers round) job ≡ d
      → run (suc rounds) answers round job ≡ followed_by d (run rounds answers (suc round))
  unfolding run
  run-step rounds answers round job d e = ap (λ x. followed_by x (run rounds answers (suc round))) e

  send_to_all-next : (q : Answers) (job : Job) → (send_to_all seconds_from_now q job).next ≡ none
  unfolding send_to_all
  send_to_all-next q job = elim (Option-cases q.service_ticket) [
    | inl missing ↦ rw missing refl
    | inr (ticket, there) ↦ elim (Bool-cases ticket.has_been_assigned_or_allocated) [
      | inl busy ↦ rw (there, busy) refl
      | inr free ↦
          elim (Option-cases (
            seconds_or job.send_to_all_request_seconds
              ticket.seconds_till_service_scheduled_date)) [
                | inl unset ↦ rw (there, free, unset) refl
                | inr (seconds, set) ↦ rw (there, free, set) refl
              ]
    ]
  ]

  -- The number of batches, none where the settings are missing.
  abbrev pub size_of : Option BatchWise → ℕ
  size_of none = 0
  size_of (some batch_wise) = batch_wise.batch_limit.size

  -- The job after one whose batch is `number`.
  abbrev Counts : Job → ℕ → Option Job → Type 0
  Counts job number next =
      (next ≡ none)
      ⊎ ((j : Job) × (next ≡ some j)
          × (j.batch_wise ≡ job.batch_wise)
          × (batch_no_of j.state ≡ suc number)
          × (suc number ≤ size_of job.batch_wise))

  offer_batch-next :
      (q : Answers) (b : BatchWise) (job : Job) (number : ℕ)
      → size_of job.batch_wise ≡ b.batch_limit.size
      → Counts job number (offer_batch seconds_from_now q b job number).next
  unfolding offer_batch
  offer_batch-next q b job number set = elim (Bool-cases (leb b.batch_limit.size number)) [
    | inl last ↦ inl (rw last refl)
    | inr more ↦ rw more (inr (_, refl, refl, refl, ground arith))
  ]

  send_batch_wise-next :
      (q : Answers) (b : BatchWise) (job : Job)
      → size_of job.batch_wise ≡ b.batch_limit.size
      → Counts job (batch_no_of job.state) (send_batch_wise seconds_from_now q b job).next
  unfolding send_batch_wise
  send_batch_wise-next q b job set =
      elim (Bool-cases (ltb b.batch_limit.size (batch_no_of job.state))) [
        | inl over ↦ inl (rw over refl)
        | inr within ↦ elim (Option-cases q.service_ticket) [
          | inl missing ↦ inl (rw (within, missing) refl)
          | inr (ticket, there) ↦ elim (Bool-cases ticket.has_been_assigned_or_allocated) [
            | inl busy ↦ inl (rw (within, there, busy) refl)
            | inr free ↦
                rw (within, there, free) (offer_batch-next q b job (batch_no_of job.state) set)
          ]
        ]
      ]

  pub batches_of :
      (q : Answers) (b : BatchWise) (job : Job)
      → is_send_to_all job.type ≡ false
      → job.batch_wise ≡ some b
      → handle_allocation seconds_from_now q job ≡ send_batch_wise seconds_from_now q b job
  unfolding handle_allocation
  batches_of q b job batches set =
      rw batches
        (ap (λ x. elim x [ none ↦ exit | some b' ↦ send_batch_wise seconds_from_now q b' job ]) set)

  handle_allocation-batches :
      (q : Answers) (b : BatchWise) (job : Job)
      → is_send_to_all job.type ≡ false
      → job.batch_wise ≡ some b
      → Counts job (batch_no_of job.state) (send_batch_wise seconds_from_now q b job).next
      → Counts job (batch_no_of job.state) (handle_allocation seconds_from_now q job).next
  handle_allocation-batches q b job batches set =
      subst (λ d. Counts job (batch_no_of job.state) d.next) (sym (batches_of q b job batches set))

  handle_allocation-next :
      (q : Answers) (job : Job)
      → Counts job (batch_no_of job.state) (handle_allocation seconds_from_now q job).next
  unfolding handle_allocation
  handle_allocation-next q job = elim (Bool-cases (is_send_to_all job.type)) [
    | inl all ↦ inl (rw all (send_to_all-next q job))
    | inr batches ↦ elim (Option-cases job.batch_wise) [
      | inl unset ↦ inl (rw (batches, unset) refl)
      | inr (b, set) ↦
          let size : size_of job.batch_wise ≡ b.batch_limit.size = rw set refl in
          handle_allocation-batches q b job batches set (send_batch_wise-next q b job size)
    ]
  ]

  run_ends :
      (rounds : ℕ) (answers : ℕ → Answers) (round : ℕ) (job : Job)
      → suc (size_of job.batch_wise) ≤ batch_no_of job.state + rounds
      → 1 ≤ rounds
      → (offers : List Assignment) × (run rounds answers round job ≡ some offers)
  unfolding run
  run_ends zero answers round job enough some_round = ground arith
  run_ends (suc rounds) answers round job enough some_round =
      elim (handle_allocation-next (answers round) job) [
        | inl last ↦ (
          (handle_allocation seconds_from_now (answers round) job).assignments,
          run-step rounds answers round job _ refl ∙ followed_by-none _ _ last,
        )
        | inr (j, next, same, number, within) ↦
            let enough' : suc (size_of j.batch_wise) ≤ batch_no_of j.state + rounds =
              rw (same, number) (omega arith) in
            let (others, e) = run_ends rounds answers (suc round) j enough' (omega arith) in
            (
              (handle_allocation seconds_from_now (answers round) job).assignments ++ others,
              run-step rounds answers round job _ refl ∙ followed_by-some _ _ j others next e,
            )
      ]

  -- Whatever the queries answer in each round, and whatever state the job is in, some job adds no
  -- other: one round more than there are batches is enough for all offers to be made.
  pub run_total :
      (answers : ℕ → Answers) (job : Job)
      → (offers : List Assignment) × (run (suc (size_of job.batch_wise)) answers 0 job
          ≡ some offers)
  run_total answers job =
      run_ends (suc (size_of job.batch_wise)) answers 0 job (omega arith) (omega arith)
