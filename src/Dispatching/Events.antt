-- ===== src/Dispatching/Events.antt =====
-- src/dispatching/events/handlers and commands/handlers/expire-job-assignment.handler.ts: how the
-- rows of a service request change when something happens to it.
use vz.Common.{
  ℕ, Bool, true, false, not, ◌&&◌, Option, none, some, map, ◌==◌, is_id, chain, if◌then◌else◌,
}
use vz.Dispatching.{Assignment, AssignmentStatus, Appointment, AppointmentStatus, Tables}

-- `repository.update(where, { status })`
abbrev pub set_assignments : (Assignment → Bool) → AssignmentStatus → Tables → Tables
set_assignments test status t = record t {
  assignments = map (λ a. if test a then record a { status = status } else a) t.assignments;
}

abbrev pub set_appointments : (Appointment → Bool) → AppointmentStatus → Tables → Tables
set_appointments test status t = record t {
  appointments = map (λ a. if test a then record a { status = status } else a) t.appointments;
}

abbrev pub is_pending : AssignmentStatus → Bool
is_pending AssignmentStatus.pending = true
is_pending _ = false

abbrev pub is_of : ℕ → Assignment → Bool
is_of id a = a.service_request_id == id

-- The ids of the agents of an appointment.
abbrev worker_id : Appointment → Option ℕ
worker_id a = chain a.provider (λ p. chain p.worker (λ w. w.id))

abbrev dispatcher_id : Appointment → Option ℕ
dispatcher_id a = chain a.provider (λ p. chain p.dispatcher (λ d. d.id))

unfoldable pub expire_job_assignment : ℕ → Tables → Tables
expire_job_assignment id =
    set_assignments (λ a. is_of id a && is_pending a.status) AssignmentStatus.failed

unfoldable pub service_request_cancelled : ℕ → Tables → Tables
service_request_cancelled id t =
    set_appointments (λ a. a.service_request_id == id) AppointmentStatus.cancelled
      (set_assignments (is_of id) AssignmentStatus.cancelled t)

unfoldable pub service_request_revoked : ℕ → Tables → Tables
service_request_revoked id t =
    set_appointments (λ a. a.service_request_id == id) AppointmentStatus.revoked
      (set_assignments (is_of id) AssignmentStatus.revoked t)

-- The second argument is the provider who is impacted, where there is one.
unfoldable pub service_request_rescheduled : ℕ → Option ℕ → Tables → Tables
service_request_rescheduled id impacted t =
    set_appointments
      (λ a.
        (a.service_request_id == id)
        && elim impacted [ none ↦ true | some p ↦ is_id (dispatcher_id a) p ])
      AppointmentStatus.rescheduled (set_assignments (is_of id) AssignmentStatus.rescheduled t)

-- `Not(worker.id)` in the query: a row with no worker is not found by it.
unfoldable pub service_request_allocated : ℕ → ℕ → Tables → Tables
service_request_allocated id worker =
    set_appointments
      (λ a.
        (a.service_request_id == id)
        && elim (worker_id a) [ none ↦ false | some w ↦ not (w == worker) ])
      AppointmentStatus.replaced

unfoldable pub service_request_fulfilled : ℕ → ℕ → Tables → Tables
service_request_fulfilled id worker =
    set_appointments (λ a. (a.service_request_id == id) && is_id (worker_id a) worker)
      AppointmentStatus.fulfilled
