-- ===== src/Request/Completion.antt =====
-- When the report of work completes a job.
use text.Mathlib.Text.{◌==◌ as str_eq}
use vz.Common.{
  ◌⊎◌, inl, inr, Bool-cases, Bool, ℕ, String, ◌≡◌, sym, ap, ◌∙◌, true, false, some, arith,
}
use vz.Common.Results.{ok}
use vz.Handling.{HandlingEvent, HandlingEventType, HandlingHistory, most_recently_completed_event}
use vz.Service.Build.{Service, build}
use vz.Service.Queries.{has_been_fulfilled, next_handling_event_type}
use vz.Service.Operations.{derived_from_handling_history}
use vz.Request.Moment.{Moment}
use vz.Request.Appointment.{is_expected_arrival_time_less_than_duration_from_now}
use vz.Request.Aggregate.{ServiceRequest}
use vz.Request.Work.{
  HandlingEventInput, Handled, accepts, is_fullfil, handle_servicing_job, derive_service_progress,
}

module _ (m : Moment) where
  handle_servicing_job-ok :
      (is_dev_mode : Bool) (input : HandlingEventInput) (history : HandlingEvent → HandlingHistory)
      (id now : ℕ) (sr : ServiceRequest) (r : Handled)
      → handle_servicing_job m is_dev_mode input history id now (some sr) ≡ ok r
      → (is_expected_arrival_time_less_than_duration_from_now m
            sr.config.hour_limit_before_job_is_allowed_to_start now sr.appointment
          ≡ true)
        × (next_handling_event_type sr.service ≡ ok r.event.type)
        × (is_fullfil r.event.type ≡ true
            → (accepts is_dev_mode input.verification_code sr ≡ true)
              × (sr.have_completed_all_technical_reports ≡ true))
        × (r.request.service ≡ derived_from_handling_history (history r.event) sr.service)
  unfolding handle_servicing_job derive_service_progress
  handle_servicing_job-ok is_dev_mode input history id now sr r e = ground arith

  unfinished :
      (s : Service) (t : HandlingEventType)
      → next_handling_event_type s ≡ ok t
      → has_been_fulfilled s ≡ false
  unfolding next_handling_event_type
  unfinished s t e = ground arith

  finishing :
      (s : Service) (history : HandlingHistory) (e : HandlingEvent)
      → most_recently_completed_event history ≡ some e
      → has_been_fulfilled (derived_from_handling_history history s) ≡ true
      → is_fullfil e.type ≡ true
  unfolding derived_from_handling_history build
  finishing s history e recent done = ground arith

  coded :
      (is_dev_mode : Bool) (code : String) (sr : ServiceRequest)
      → accepts is_dev_mode code sr ≡ true
      → (is_dev_mode ≡ true) ⊎ (str_eq code sr.verification_code ≡ true)
  coded is_dev_mode code sr a = ground arith

  -- A report of work that succeeds, where the history that is read after the save has the new event
  -- as its most recent one: the time for a start had come, the job was not fulfilled before, and the
  -- event is of the type that the job asked for. Either the job is not fulfilled then, or all
  -- technical reports were complete and the code was the request's, unless development mode is on.
  pub handle_servicing_job_lem :
      (is_dev_mode : Bool) (input : HandlingEventInput) (history : HandlingEvent → HandlingHistory)
      (id now : ℕ) (sr : ServiceRequest) (r : Handled)
      → ((e : HandlingEvent) → most_recently_completed_event (history e) ≡ some e)
      → handle_servicing_job m is_dev_mode input history id now (some sr) ≡ ok r
      → (is_expected_arrival_time_less_than_duration_from_now m
            sr.config.hour_limit_before_job_is_allowed_to_start now sr.appointment
          ≡ true)
        × (has_been_fulfilled sr.service ≡ false)
        × (next_handling_event_type sr.service ≡ ok r.event.type)
        × ((has_been_fulfilled r.request.service ≡ false)
            ⊎ ((sr.have_completed_all_technical_reports ≡ true)
                × ((is_dev_mode ≡ true)
                    ⊎ (str_eq input.verification_code sr.verification_code ≡ true))))
  handle_servicing_job_lem is_dev_mode input history id now sr r recent e =
      let (timely, next, finish, derived) =
        handle_servicing_job-ok is_dev_mode input history id now sr r e in
      (
        timely,
        unfinished sr.service r.event.type next,
        next,
        elim (Bool-cases (has_been_fulfilled r.request.service)) [
          | inl done ↦
              let done' = sym (ap has_been_fulfilled derived) ∙ done in
              let (code, complete) =
                finish (finishing sr.service (history r.event) r.event (recent r.event) done') in
              inr (complete, coded is_dev_mode input.verification_code sr code)
          | inr undone ↦ inl undone
        ],
      )
