-- ===== src/Request/Work.antt =====
-- The report of work on a job: handling/commands/handlers/handle-servicing-job.handler.ts, with
-- handling/entities/handling-event.factory.ts and `deriveServiceProgress` of
-- service-request.entity.ts.
use text.Mathlib.Text.{◌==◌ as str_eq}
use vz.Common.{
  ℕ, String, Bool, true, false, not, ◌&&◌, ◌||◌, ◌==◌, Option, none, some, List, [], ◌∷◌, ◌++◌,
  if◌then◌else◌,
}
use vz.Common.Int.{ℤ}
use vz.Common.Results.{Result, ok, err, ◌>>=◌, ◌>>◌, throw_if}
use vz.Shared.Errors.{
  entity_not_found, job_start_too_early, incorrect_verification_code,
  technical_report_not_completed,
}
use vz.Handling.{HandlingEvent, HandlingEventType, HandlingHistory}
use vz.Service.Status.{ServiceStatus}
use vz.Service.Queries.{has_been_fulfilled, next_handling_event_type}
use vz.Service.Operations.{derived_from_handling_history}
use vz.Request.Moment.{Moment}
use vz.Request.Appointment.{is_expected_arrival_time_less_than_duration_from_now}
use vz.Request.Aggregate.{ServiceRequest}

-- `HandlingEventInput`; the code is the text that `String(input.verificationCode)` makes, and the
-- type is overwritten before it is read.
pub record HandlingEventInput : Type 0 where
  pub latitude : ℤ
  pub longitude : ℤ
  pub provider_worker_id : ℕ
  pub service_request_id : ℕ
  pub verification_code : String

-- The factory, whose test of the worker is switched off. The id and the date are those that the
-- row gets.
abbrev pub create_event : ℕ → ℕ → HandlingEventType → HandlingEventInput → HandlingEvent
create_event id created_at type input = record {
  id = id;
  created_at = created_at;
  latitude = input.latitude;
  longitude = input.longitude;
  provider_worker_id = input.provider_worker_id;
  service_request_id = input.service_request_id;
  type = type;
}

abbrev index : ServiceStatus → ℕ
index ServiceStatus.awaiting_payment = 0
index ServiceStatus.failed_payment = 1
index ServiceStatus.unassigned = 2
index ServiceStatus.assigned = 3
index ServiceStatus.allocated = 4
index ServiceStatus.started = 5
index ServiceStatus.in_progress = 6
index ServiceStatus.fulfilled = 7
index ServiceStatus.failed = 8
index ServiceStatus.cancelled_by_service_provider = 9
index ServiceStatus.cancelled_by_operator = 10
index ServiceStatus.cancelled_by_customer = 11

unfoldable pub derive_service_progress : HandlingHistory → ℕ → ServiceRequest → ServiceRequest
derive_service_progress history now sr =
    let service = derived_from_handling_history history sr.service in
    record sr {
      service = service;
      transitioned_at =
          if index sr.service.status == index service.status then sr.transitioned_at else some now;
    }

pub data JobEvent : Type 0 where
  started work_commenced fulfilled : JobEvent

pub record Handled : Type 0 where
  pub event : HandlingEvent
  pub request : ServiceRequest
  pub published : List JobEvent

abbrev is_start : HandlingEventType → Bool
is_start HandlingEventType.start = true
is_start _ = false

abbrev is_in_progress : HandlingEventType → Bool
is_in_progress HandlingEventType.in_progress = true
is_in_progress _ = false

abbrev pub is_fullfil : HandlingEventType → Bool
is_fullfil HandlingEventType.fullfil = true
is_fullfil _ = false

abbrev pub published_of : HandlingEventType → ServiceRequest → List JobEvent
published_of type sr =
    (if is_start type then JobEvent.started ∷ [] else [])
    ++ (if is_in_progress type then JobEvent.work_commenced ∷ [] else [])
    ++ (if has_been_fulfilled sr.service then JobEvent.fulfilled ∷ [] else [])

-- `String(input.verificationCode) !== serviceRequest.getVerificationCode()`, with the code that
-- development mode lets pass.
abbrev pub accepts : Bool → String → ServiceRequest → Bool
accepts is_dev_mode code sr =
    str_eq code sr.verification_code || (is_dev_mode && str_eq code "99999")

module _ (m : Moment) (is_dev_mode : Bool) where
  -- `history` answers the query for the history, made after the event has been saved; `id` and
  -- `now` are the id that the event gets and the clock.
  unfoldable pub handle_servicing_job :
      HandlingEventInput
      → (HandlingEvent → HandlingHistory)
      → ℕ
      → ℕ
      → Option ServiceRequest
      → Result Handled
  unfolding derive_service_progress
  handle_servicing_job input history id now none = err (entity_not_found "ServiceRequest")
  handle_servicing_job input history id now (some sr) = do
    throw_if
        (not (
          is_expected_arrival_time_less_than_duration_from_now m
            sr.config.hour_limit_before_job_is_allowed_to_start now sr.appointment))
        job_start_too_early
    type ← next_handling_event_type sr.service
    throw_if (is_fullfil type && not (accepts is_dev_mode input.verification_code sr))
        incorrect_verification_code
    throw_if (is_fullfil type && not sr.have_completed_all_technical_reports)
        technical_report_not_completed
    let event = create_event id now type input
    let derived = derive_service_progress (history event) now sr
    ok (record { event = event; request = derived; published = published_of type derived })
