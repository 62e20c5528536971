-- ===== src/Dispatching/Tickets.antt =====
-- dispatching/ticket.processor.ts: a job of the queue offers a service request to providers, all at
-- once or batch by batch.
use vz.Common.{
  ℕ, zero, suc, Bool, true, false, Option, none, some, List, [], ◌++◌, map, ltb, leb, if◌then◌else◌,
}
use vz.Common.Int.{ℤ, pos, negsuc}
use vz.Dispatching.{Assignment, AutoAssignmentType, ScanningZoneType, create_assignment}
use vz.Dispatching.Scan.{Repositories, scan_candidates}

-- dispatching/entities/batch-wise-batch-limit.entity.ts
pub record BatchWiseBatchLimit : Type 0 where
  pub size : ℕ
  pub max_agents : ℕ

-- dispatching/entities/batch-wise-duration-setting.entity.ts
pub record BatchWiseDurationSetting : Type 0 where
  pub batch_processing_seconds : ℕ
  pub request_seconds : ℤ

-- The distances and retries are not read.
pub record BatchWise : Type 0 where
  pub batch_limit : BatchWiseBatchLimit
  pub duration_setting : BatchWiseDurationSetting

-- `job.data.state`, empty at first.
pub record JobState : Type 0 where
  pub dispatched : Option (List ℕ)
  pub current_batch_no : Option ℕ

-- The settings of one kind may be missing. The processor catches the error of reading them, and ends.
pub record Job : Type 0 where
  pub type : AutoAssignmentType
  pub scanning_zone_type : ScanningZoneType
  pub batch_wise : Option BatchWise
  pub send_to_all_request_seconds : Option ℤ
  pub service_ticket_id : ℕ
  pub state : JobState

-- The service request as the query finds it.
pub record ServiceTicket : Type 0 where
  pub has_been_assigned_or_allocated : Bool
  pub seconds_till_service_scheduled_date : ℤ

pub record Answers : Type 0 where
  pub service_ticket : Option ServiceTicket
  pub repositories : Repositories

-- The offers that are saved and announced, and the job that is added to the queue.
pub record Dispatched : Type 0 where
  pub assignments : List Assignment
  pub next : Option Job

abbrev pub exit : Dispatched
exit = record { assignments = []; next = none }

abbrev pub is_send_to_all : AutoAssignmentType → Bool
is_send_to_all AutoAssignmentType.send_to_all = true
is_send_to_all _ = false

-- `state.dispatched` and `state.currentBatchNo`, with what stands in for them at first.
abbrev pub dispatched_of : JobState → List ℕ
dispatched_of s = elim s.dispatched [ none ↦ [] | some ids ↦ ids ]

abbrev pub batch_no_of : JobState → ℕ
batch_no_of s = elim s.current_batch_no [ none ↦ 1 | some n ↦ elim n [ zero ↦ 1 | suc k ↦ suc k ] ]

-- `seconds || sendToAll.requestSeconds`
abbrev pub seconds_or : Option ℤ → ℤ → Option ℤ
seconds_or fallback (pos zero) = fallback
seconds_or fallback (pos (suc n)) = some (pos (suc n))
seconds_or fallback (negsuc n) = some (negsuc n)

module _ (seconds_from_now : ℤ → ℕ) where
  -- `AssignmentInput` and the factory, for one provider.
  abbrev pub offer : Job → ℤ → ℕ → Assignment
  offer job request_seconds provider_id = create_assignment seconds_from_now (record {
    provider_id = provider_id;
    request_seconds = request_seconds;
    service_request_id = job.service_ticket_id;
    assignment_type = job.type;
    scanning_zone_type = some job.scanning_zone_type;
  })

  unfoldable pub send_to_all : Answers → Job → Dispatched
  unfolding scan_candidates
  send_to_all q job = elim q.service_ticket [
    | none ↦ exit
    | some ticket ↦
        if ticket.has_been_assigned_or_allocated
        then exit
        else elim (seconds_or job.send_to_all_request_seconds
            ticket.seconds_till_service_scheduled_date) [
              | none ↦ exit
              | some seconds ↦ record {
                assignments =
                    map (offer job seconds)
                      (scan_candidates job.scanning_zone_type [] 0 q.repositories);
                next = none;
              }
            ]
  ]

  -- The batch `number` of a request that is not assigned.
  unfoldable pub offer_batch : Answers → BatchWise → Job → ℕ → Dispatched
  offer_batch q batch_wise job number =
      let ids =
        scan_candidates job.scanning_zone_type (dispatched_of job.state)
          batch_wise.batch_limit.max_agents q.repositories in
      let offers = map (offer job batch_wise.duration_setting.request_seconds) ids in
      if leb batch_wise.batch_limit.size number
      then record { assignments = offers; next = none }
      else record {
        assignments = offers;
        next = some (record job {
          state = record {
            dispatched = some (dispatched_of job.state ++ ids);
            current_batch_no = some (suc number);
          };
        });
      }

  unfoldable pub send_batch_wise : Answers → BatchWise → Job → Dispatched
  unfolding offer_batch
  send_batch_wise q batch_wise job =
      let number = batch_no_of job.state in
      if ltb batch_wise.batch_limit.size number then exit else elim q.service_ticket [
        | none ↦ exit
        | some ticket ↦
            if ticket.has_been_assigned_or_allocated
            then exit
            else offer_batch q batch_wise job number
      ]

  unfoldable pub handle_allocation : Answers → Job → Dispatched
  unfolding send_to_all send_batch_wise
  handle_allocation q job =
      if is_send_to_all job.type
      then send_to_all q job
      else elim job.batch_wise [ none ↦ exit | some batch_wise ↦ send_batch_wise q batch_wise job ]
