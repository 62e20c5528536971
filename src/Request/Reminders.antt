-- ===== src/Request/Reminders.antt =====
-- service-request/reminder.processor.ts, and `addToReminders` of service-request.service.ts.
use vz.Common.{ℕ, Bool, not, ltb, Option, is_some, List, [], ◌∷◌, ◌||◌, if◌then◌else◌}
use vz.Common.Int.{ℤ, pos, ltb_ℤ}
use vz.Common.Results.{Result, ok, ◌>>=◌, ◌>>◌, throw_if}
use vz.Shared.Errors.{plain}
use vz.Service.Queries.{has_been_assigned_or_allocated}
use vz.Request.Moment.{Moment}
use vz.Request.Aggregate.{ServiceRequest}
use vz.Request.Saga.{same_id, dispatcher_of, worker_of}

-- `PushNotifyScheduledJobReminderCommand`: to whom, of which start of the schedule, and the seconds
-- that it counts down.
pub record Reminder : Type 0 where
  pub recipient : Option ℕ
  pub shown_start : ℕ
  pub count_down : ℤ

-- The test of the two starts, `diff(…) > 0`, in milliseconds.
unfoldable pub has_appointment_start_time_changed : (cached current : ℕ) → Bool
has_appointment_start_time_changed cached current = ltb current cached

-- To the dispatcher, and to the worker where that is somebody else.
abbrev pub others_of : Option ℕ → Option ℕ → Reminder → List Reminder
others_of dispatcher worker first =
    if not (is_some worker) || same_id worker dispatcher
    then []
    else record first { recipient = worker } ∷ []

abbrev pub reminders_of : ℕ → ℤ → Option ℕ → Option ℕ → List Reminder
reminders_of cached count dispatcher worker =
    record { recipient = dispatcher; shown_start = cached; count_down = count }
    ∷ others_of dispatcher worker
        (record { recipient = dispatcher; shown_start = cached; count_down = count })

module _ (m : Moment) where
  -- `process`: `cached` is the start of the schedule in the data of the job of the queue, and `sr`
  -- the request as it is now.
  unfoldable pub process : (now : ℕ) → (cached : ℕ) → ServiceRequest → Result (List Reminder)
  unfolding has_appointment_start_time_changed
  process now cached sr = do
    throw_if (has_appointment_start_time_changed cached sr.appointment.service_schedule.start)
        (plain "Appointment start time has been changed")
    let count = m.diff_seconds sr.appointment.service_schedule.start now
    (if ltb_ℤ count (pos 1) || not (has_been_assigned_or_allocated sr.service) then ok [] else (do
      dispatcher ← dispatcher_of sr
      worker ← worker_of sr
      ok (reminders_of cached count dispatcher.id worker.id)))
