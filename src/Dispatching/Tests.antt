-- ===== src/Dispatching/Tests.antt =====
-- Two providers who are offered the same job, and batches of offers.
use vz.Common.{
  map, ℕ, ◌+◌, ◌≡◌, ◌⊎◌, inl, refl, true, false, none, some, List, [], ◌∷◌, ◌++◌, All,
  if◌then◌else◌,
}
use vz.Common.Int.{ℤ, pos, pos_part}
use vz.Common.Results.{ok}
use vz.Service.Provider.{create, is_worker, is_independent, agent_of, create_empty_provider}
use vz.Service.Status.{ServiceStatus, ServiceAllocationStatus}
use vz.Service.Build.{build}
use vz.Service.Operations as Job
use vz.Service.Queries.{
  has_been_assigned_or_allocated, has_been_cancelled, is_assigned_or_allocated_to, is_allocated_to,
}
use vz.Request.Aggregate.{assign_to_dispatcher}
use vz.Request.Fixtures.{clock, request, solo, taken_request, visit}
use vz.Dispatching.{
  Assignment, AssignmentInput, AutoAssignmentType, ScanningZoneType, Tables, create_assignment,
}
use vz.Dispatching.Assignments.{
  Answers, Taken, create_appointment, settle_assignments, taken, accepted_by,
  accept_new_dispatched_job,
}
use vz.Dispatching.Exclusive.{IsHeldBy, IsExclusive}
use vz.Dispatching.Acceptance.{accept_new_dispatched_job_lem}
use vz.Dispatching.Reachable.{start, next, offered, accepted, Reach-IsExclusive}
use vz.Request.Progress.{revoke}
use vz.Request.Saga.{
  commands_of, revoked as revoked_request, push_notify_customer_cancellation,
  create_reschedule_surcharge_compensation_transaction,
}
use vz.Dispatching.Revocations.{revoke_job_lem}
use vz.Dispatching.Commands.{Commanded, revoked_event, revoke_job}
use vz.Dispatching.Agreement.{IsAgreed}
use vz.Dispatching.Desks.{Desk, opened, afterwards, accepted as took, revoked, Turns-IsAgreed}
use vz.Dispatching.Scan.{scan_candidates, distinct, within_coverage}
use vz.Dispatching.Candidates.{IsSetOf, is_candidate, scan_candidates-IsSetOf}
use vz.Dispatching.Tickets as Tickets
use vz.Dispatching.Rounds.{run, run_total}
use vz.Dispatching.Batches.{times, offers_of, batches_repeat}

abbrev in_seconds : ℤ → ℕ
in_seconds n = 1000 + pos_part n

abbrev offer_to : ℕ → AssignmentInput
offer_to provider_id = record {
  provider_id = provider_id;
  request_seconds = pos 60;
  service_request_id = 1;
  assignment_type = AutoAssignmentType.send_to_all;
  scanning_zone_type = none;
}

abbrev no_rows : Tables
no_rows = record { assignments = []; appointments = [] }

abbrev first_offer : Tables
first_offer = record no_rows { assignments = create_assignment in_seconds (offer_to 7) ∷ [] }

abbrev two_offers : Tables
two_offers = record first_offer {
  assignments = first_offer.assignments ++ (create_assignment in_seconds (offer_to 9) ∷ []);
}

abbrev answers : Answers
answers = record {
  service_provider = some solo;
  is_active = true;
  available_workers = [];
  overlapped_appointments = [];
}

abbrev won : Taken
won = record {
  service_request = taken_request;
  tables = record {
    assignments = (settle_assignments 1 7 two_offers).assignments;
    appointments = create_appointment 1 taken_request.service.provider ∷ [];
  };
  is_allocated = true;
}

solo-won : accept_new_dispatched_job clock 1 (some request) answers two_offers ≡ ok won
unfolding accept_new_dispatched_job accepted_by taken settle_assignments assign_to_dispatcher build
    create create_empty_provider Job.assign_to_dispatcher Job.allocate_to_worker
solo-won = refl

accept_new_dispatched_job_lem_example :
    (answers.is_active ≡ true)
    × (is_worker solo ≡ false)
    × ((has_been_assigned_or_allocated request.service ≡ false)
        ⊎ (has_been_cancelled request.service ≡ true))
    × (is_assigned_or_allocated_to taken_request.service solo.id ≡ true)
    × (taken_request.service.allocation_status ≡ (
        if is_independent solo
        then ServiceAllocationStatus.allocated
        else ServiceAllocationStatus.assigned))
    × All (IsHeldBy 1 solo.id) won.tables.assignments
    × (won.tables.appointments ≡ (
        if is_allocated_to taken_request.service solo.id
        then two_offers.appointments ++ (create_appointment 1 taken_request.service.provider ∷ [])
        else two_offers.appointments))
accept_new_dispatched_job_lem_example =
    accept_new_dispatched_job_lem clock 1 request solo answers two_offers won refl solo-won

Reach-IsExclusive_example : IsExclusive won.tables
Reach-IsExclusive_example = Reach-IsExclusive clock (
    next (next (next start (offered in_seconds (offer_to 7))) (offered in_seconds (offer_to 9)))
      (accepted 1 (some request) answers solo-won))

-- The winner is withdrawn, and nobody has heard of it.
abbrev lost : Commanded
lost = record {
  service_request = revoke false 5 taken_request;
  tables = won.tables;
  published = revoked_event (some 7) ∷ [];
}

solo-lost : revoke_job false 5 (some taken_request) won.tables ≡ ok lost
unfolding revoke_job revoke Job.revoke Job.terminate_provider build create_empty_provider
solo-lost = refl

abbrev first_desk : Desk
first_desk = record { service_request = request; tables = two_offers }

Turns-IsAgreed_example : IsAgreed 1 lost.service_request lost.tables
unfolding create_assignment
Turns-IsAgreed_example =
    Turns-IsAgreed clock 1 {d = first_desk} (inl refl, (inl refl, tt))
      (afterwards (afterwards opened (took answers solo-won)) (revoked false 5 solo-lost))

-- Three batches of one provider each, and two who are on duty.
abbrev one_each : Tickets.BatchWise
one_each = record {
  batch_limit = record { size = 3; max_agents = 1 };
  duration_setting = record { batch_processing_seconds = 10; request_seconds = pos 60 };
}

abbrev job : Tickets.Job
job = record {
  type = AutoAssignmentType.batch_wise;
  scanning_zone_type = ScanningZoneType.none_zone;
  batch_wise = some one_each;
  send_to_all_request_seconds = none;
  service_ticket_id = 1;
  state = record { dispatched = none; current_batch_no = none };
}

abbrev ticket : Tickets.ServiceTicket
ticket = record {
  has_been_assigned_or_allocated = false;
  seconds_till_service_scheduled_date = pos 0;
}

abbrev on_duty : Tickets.Answers
on_duty = record {
  service_ticket = some ticket;
  repositories = record {
    by_postal_code =
        record { id = 1; is_now_within_coverage = false }
        ∷ record { id = 2; is_now_within_coverage = true }
        ∷ [];
    by_lat_lng = [];
    on_duty = 7 ∷ 9 ∷ 7 ∷ [];
    within = λ areas. map (λ area. area.id) areas;
  };
}

batches_repeat_example :
    run in_seconds 4 (λ r. on_duty) 0 job
    ≡ some (times 3 (offers_of in_seconds on_duty one_each job))
batches_repeat_example =
    batches_repeat in_seconds on_duty one_each ticket job refl refl refl refl refl

run_total_example :
    (offers : List Assignment) × (run in_seconds 4 (λ r. on_duty) 0 job ≡ some offers)
run_total_example = run_total in_seconds (λ r. on_duty) job

scanned : scan_candidates ScanningZoneType.all [] 1 on_duty.repositories ≡ 7 ∷ 9 ∷ []
unfolding scan_candidates distinct within_coverage
scanned = refl

closed_area_left_out :
    scan_candidates ScanningZoneType.postal_code [] 1 on_duty.repositories ≡ 2 ∷ []
unfolding scan_candidates distinct within_coverage
closed_area_left_out = refl

scan_candidates-IsSetOf_example :
    IsSetOf
      (is_candidate ScanningZoneType.postal_code on_duty.repositories)
      (scan_candidates ScanningZoneType.postal_code (7 ∷ []) 1 on_duty.repositories)
scan_candidates-IsSetOf_example =
    scan_candidates-IsSetOf ScanningZoneType.postal_code (7 ∷ []) 1 on_duty.repositories

revoke_job_lem_example :
    (c : Commanded) × (revoke_job true 5 (some taken_request) no_rows ≡ ok c)
    × (c.published ≡ revoked_event (some 7) ∷ [])
    × (c.service_request.service.status ≡ ServiceStatus.failed)
    × (c.service_request.service.eligible_for_refund ≡ true)
    × (commands_of (revoked_request c.service_request (some 7))
        ≡ ok (
            push_notify_customer_cancellation (some 7)
            ∷ create_reschedule_surcharge_compensation_transaction
            ∷ []))
unfolding build
revoke_job_lem_example =
    revoke_job_lem true 5 taken_request no_rows
      (record {
        dispatcher = some (agent_of solo);
        worker = some (agent_of solo);
        schedule = some (Job.schedule_of visit.service_schedule);
      })
      (agent_of solo) refl refl
