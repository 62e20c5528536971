-- ===== src/Dispatching/Assignments.antt =====
-- commands/handlers/accept-new-dispatched-job.handler.ts and manually-assign-job-to-provider: a
-- provider takes a service request, and the offers to the others fail.
use vz.Common.{
  ℕ, Bool, true, false, not, ◌&&◌, Option, none, some, List, [], ◌∷◌, ◌++◌, length, ltb, ◌==◌,
  if◌then◌else◌,
}
use vz.Common.Int.{ℤ, pos}
use vz.Common.Results.{Result, ok, err, ◌>>=◌, ◌>>◌, throw_if}
use vz.Shared.Errors.{
  Error, entity_not_found, unauthorized, fail_to_accept_job_due_to_fully_occupied_workers,
  fail_to_accept_job_due_to_overlapping_appointment,
  fail_to_manually_assign_dealer_due_to_fully_occupied_workers,
  fail_to_manually_assign_independent_contractor_due_to_overlapping_appointment,
}
use vz.Service.Provider.{Provider, ServiceProvider, is_dealer}
use vz.Service.Queries.{is_allocated_to}
use vz.Request.Moment.{Moment}
use vz.Request.Aggregate.{ServiceRequest, assign_to_dispatcher}
use vz.Dispatching.{
  AssignmentStatus, AssignmentInput, AutoAssignmentType, Appointment, AppointmentStatus, Tables,
  create_assignment,
}
use vz.Dispatching.Events.{set_assignments, is_pending, is_of}

-- `AppointmentFactory.create`
abbrev pub create_appointment : ℕ → Option Provider → Appointment
create_appointment id provider = record {
  provider = provider;
  service_request_id = id;
  status = AppointmentStatus.allocated;
}

-- The two updates of assignments: the pending ones of the provider, and those of the others.
unfoldable pub settle_assignments : ℕ → ℕ → Tables → Tables
settle_assignments id provider_id t =
    set_assignments (λ a. is_of id a && not (a.provider_id == provider_id)) AssignmentStatus.failed
      (set_assignments (λ a. is_of id a && ((a.provider_id == provider_id) && is_pending a.status))
        AssignmentStatus.accepted t)

-- What the queries answer: the provider and whether his general status is active, the workers of a
-- dealer who are free at the time, and the appointments that overlap with it.
pub record Answers : Type 0 where
  pub service_provider : Option ServiceProvider
  pub is_active : Bool
  pub available_workers : List ℕ
  pub overlapped_appointments : List ℕ

-- The request as it is saved, the tables, and whether it was allocated at once, which is what
-- `ServiceRequestAllocatedEvent` is published for. The event that it was assigned always is.
pub record Taken : Type 0 where
  pub service_request : ServiceRequest
  pub tables : Tables
  pub is_allocated : Bool

abbrev pub manual_input : ℕ → ℕ → AssignmentInput
manual_input id provider_id = record {
  provider_id = provider_id;
  request_seconds = pos 0;
  service_request_id = id;
  assignment_type = AutoAssignmentType.manual;
  scanning_zone_type = none;
}

-- The errors of the two handlers where nobody is free.
abbrev pub throw_if_busy : Error → Error → ServiceProvider → Answers → Result (Unit {0})
throw_if_busy occupied overlapping sp q =
    if is_dealer sp
    then throw_if (ltb (length q.available_workers) 1) occupied
    else throw_if (ltb 0 (length q.overlapped_appointments)) overlapping

-- The end of both: an independent provider gets his appointment.
unfoldable pub taken : ℕ → ℕ → ServiceRequest → Tables → Taken
taken id provider_id sr t =
    if is_allocated_to sr.service provider_id
    then record {
      service_request = sr;
      tables = record t {
        appointments = t.appointments ++ (create_appointment id sr.service.provider ∷ []);
      };
      is_allocated = true;
    }
    else record { service_request = sr; tables = t; is_allocated = false }

module _ (m : Moment) where
  -- The handler of an offer that is accepted, once the request and the provider are found.
  unfoldable pub accepted_by :
      ℕ → ServiceRequest → ServiceProvider → Answers → Tables → Result Taken
  accepted_by id sr sp q t = do
    throw_if (not q.is_active) unauthorized
    throw_if_busy fail_to_accept_job_due_to_fully_occupied_workers
        fail_to_accept_job_due_to_overlapping_appointment sp q
    sr' ← assign_to_dispatcher m sp sr
    ok (taken id sp.id sr' (settle_assignments id sp.id t))

  unfoldable pub accept_new_dispatched_job :
      (id : ℕ) → Option ServiceRequest → Answers → Tables → Result Taken
  accept_new_dispatched_job id none q t = err (entity_not_found "ServiceRequest")
  accept_new_dispatched_job id (some sr) q t = elim q.service_provider [
    | none ↦ err (entity_not_found "ServiceProvider")
    | some sp ↦ accepted_by id sr sp q t
  ]

  module _ (seconds_from_now : ℤ → ℕ) where
    -- The handler of an assignment by an operator, the same way. The new offer is inserted, and
    -- accepted by the update that follows.
    unfoldable pub manually_assigned_to :
        ℕ → ServiceRequest → ServiceProvider → Answers → Tables → Result Taken
    manually_assigned_to id sr sp q t = do
      throw_if_busy fail_to_manually_assign_dealer_due_to_fully_occupied_workers
          fail_to_manually_assign_independent_contractor_due_to_overlapping_appointment sp q
      sr' ← assign_to_dispatcher m sp sr
      ok (
          taken id sp.id sr' (
            settle_assignments id sp.id (record t {
              assignments =
                  t.assignments
                  ++ (create_assignment seconds_from_now (manual_input id sp.id) ∷ []);
            })))

    -- The ids of the command are not empty.
    unfoldable pub manually_assign_job_to_provider :
        (id : ℕ) → Option ServiceRequest → Answers → Tables → Result Taken
    manually_assign_job_to_provider id none q t = err (entity_not_found "ServiceRequest")
    manually_assign_job_to_provider id (some sr) q t = elim q.service_provider [
      | none ↦ err (entity_not_found "ServiceProvider")
      | some sp ↦ manually_assigned_to id sr sp q t
    ]
