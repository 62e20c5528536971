-- ===== src/Request/Stale.antt =====
-- What a reminder of a request that has changed says.
use vz.Common.{ℕ, ◌≡◌, ◌<◌, refl, true, false, List, ◌∷◌, arith}
use vz.Common.Int.{pos, ltb_ℤ}
use vz.Common.Results.{ok}
use vz.Service.Provider.{Agent}
use vz.Service.Queries.{has_been_assigned_or_allocated}
use vz.Request.Moment.{Moment}
use vz.Request.Aggregate.{ServiceRequest}
use vz.Request.Saga.{dispatcher_of, worker_of}
use vz.Request.Reminders.{Reminder, others_of, has_appointment_start_time_changed, process}

unchanged :
    (cached current : ℕ)
    → cached < current
    → has_appointment_start_time_changed cached current ≡ false
unfolding has_appointment_start_time_changed
unchanged cached current h = ground arith

module _ (m : Moment) where
  -- A reminder of a start that is earlier than the present one is not recognised as out of date: of
  -- a request that was postponed and is assigned, the dispatcher is still reminded of the old start.
  pub postponed_request_is_reminded :
      (now cached : ℕ) (sr : ServiceRequest) (dispatcher worker : Agent)
      → cached < sr.appointment.service_schedule.start
      → ltb_ℤ (m.diff_seconds sr.appointment.service_schedule.start now) (pos 1) ≡ false
      → has_been_assigned_or_allocated sr.service ≡ true
      → dispatcher_of sr ≡ ok dispatcher
      → worker_of sr ≡ ok worker
      → (rest : List Reminder) × (process m now cached sr
          ≡ ok (
              record {
                recipient = dispatcher.id;
                shown_start = cached;
                count_down = m.diff_seconds sr.appointment.service_schedule.start now;
              }
              ∷ rest))
  unfolding process
  postponed_request_is_reminded now cached sr dispatcher worker earlier ahead assigned d w = (
    others_of dispatcher.id worker.id (record {
      recipient = dispatcher.id;
      shown_start = cached;
      count_down = m.diff_seconds sr.appointment.service_schedule.start now;
    }),
    rw (unchanged cached sr.appointment.service_schedule.start earlier)
        (rw ahead (rw assigned (rw d (rw w refl)))),
  )
