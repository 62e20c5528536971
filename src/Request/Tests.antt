-- ===== src/Request/Tests.antt =====
-- A request that is paid, taken, rescheduled and cancelled, at concrete dates.
use vz.Common.{◌+◌, ◌*◌, ◌≤◌, ◌≡◌, ◌⊎◌, ◌↔◌, refl, true, false, some, [], ◌∷◌, chain, arith}
use vz.Common.Int.{pos}
use vz.Common.Results.{ok}
use vz.Shared.Period.{to_opt_period}
use vz.Payment.{PaymentGatewayResponseStatus, most_recent_response}
use vz.Service.Status.{ServiceStatus, ServiceAllocationStatus}
use vz.Service.Provider.{create_empty_provider, create}
use vz.Service.Build.{build}
use vz.Service.Queries.{has_been_fulfilled, has_been_closed, has_customer_paid}
use vz.Service.Operations as Job
use vz.Request.Appointment.{create_appointment, fitting_appointment}
use vz.Request.Rescheduling.{create_with_surcharge, has_paid_surcharge}
use vz.Request.Aggregate.{
  ServiceRequest, limit_or, has_been_rescheduled_once, get_customer_reschedule_order,
  cancel_by_customer, assign_to_dispatcher,
}
use vz.Request.Orders.{reschedule_service_request, surcharge_responded}
use vz.Request.Guards.{cancel_by_customer_iff}
use vz.Request.Reschedules.{reschedule_service_request_lem, failed_surcharge_reschedules}
use text.Mathlib.Text.{◌==◌ as str_eq}
use vz.Handling.{HandlingEventType, most_recently_completed_event}
use vz.Request.Work.{
  HandlingEventInput, Handled, JobEvent, create_event, derive_service_progress,
  handle_servicing_job,
}
use vz.Request.Completion.{handle_servicing_job_lem}
use vz.Service.Queries.{next_handling_event_type}
use vz.Request.Appointment.{is_expected_arrival_time_less_than_duration_from_now}
use vz.Service.Invariant.{IsConsistent, fresh}
use vz.Request.Progress.{derive_customer_payment_progress, revoke}
use vz.Request.Consistency.{History-IsConsistent, created, changed, paid, withdrawn_by_operator}
use vz.Request.Fixtures.{
  clock, clock-IsMoment, factory, later, response, request, solo, taken_request, evening,
  surcharge_order, waiting_request,
}

cancel_by_customer_iff_example :
    ((t : ServiceRequest) × (cancel_by_customer clock 0 request ≡ ok t)
      × (t.service.status ≡ ServiceStatus.cancelled_by_customer)
      × (t.service.allocation_status ≡ ServiceAllocationStatus.unassigned))
    ↔ ((has_customer_paid request.service ≡ true)
        × (has_been_rescheduled_once request ≡ false)
        × (has_been_fulfilled request.service ≡ false)
        × (has_been_closed request.service ≡ false)
        × (0
              + limit_or request.config.hour_limit_before_ec_cancellation_option_is_disabled 24
                * 3600000
            ≤ request.appointment.expected_arrival_period.start))
unfolding fitting_appointment
cancel_by_customer_iff_example = cancel_by_customer_iff clock 0 request clock-IsMoment (omega arith)

taken_request-assigned : assign_to_dispatcher clock solo request ≡ ok taken_request
unfolding assign_to_dispatcher build create create_empty_provider Job.assign_to_dispatcher
    Job.allocate_to_worker
taken_request-assigned = refl

waiting_request-saved :
    reschedule_service_request clock factory later evening taken_request ≡ ok waiting_request
unfolding reschedule_service_request fitting_appointment build
waiting_request-saved = refl

reschedule_service_request_lem_example :
    (((waiting_request.service ≡ taken_request.service)
        × (waiting_request.appointment ≡ taken_request.appointment)
        × ((get_customer_reschedule_order waiting_request).surcharge_required ≡ true)
        × ((get_customer_reschedule_order waiting_request).payment_status
            ≡ some PaymentGatewayResponseStatus.awaiting_payment)
        × (has_been_rescheduled_once waiting_request ≡ false))
      ⊎ ((waiting_request.service ≡ Job.reschedule taken_request.service)
          × (waiting_request.appointment.expected_arrival_period.start ≡ later.start)
          × (has_been_rescheduled_once waiting_request ≡ true)))
    × (chain
          (get_customer_reschedule_order waiting_request).new_expected_arrival_period
          (λ p. p.start)
        ≡ some later.start)
    × (chain
          (get_customer_reschedule_order waiting_request).old_expected_arrival_period
          (λ p. p.start)
        ≡ some taken_request.appointment.expected_arrival_period.start)
reschedule_service_request_lem_example =
    reschedule_service_request_lem clock factory later evening taken_request waiting_request
      waiting_request-saved

failed_surcharge_reschedules_example :
    (t : ServiceRequest) × (surcharge_responded clock factory
        (response PaymentGatewayResponseStatus.failed ∷ [])
        (evening + 1)
        waiting_request
      ≡ ok (some t))
    × (t.appointment ≡ fitting_appointment clock factory later 90)
    × (t.service ≡ Job.reschedule waiting_request.service)
    × (has_paid_surcharge (get_customer_reschedule_order t) ≡ false)
    × (has_been_rescheduled_once t ≡ false)
unfolding create_with_surcharge most_recent_response create_appointment to_opt_period
failed_surcharge_reschedules_example =
    failed_surcharge_reschedules clock factory (response PaymentGatewayResponseStatus.failed ∷ [])
      (response PaymentGatewayResponseStatus.failed) surcharge_order later.start later.end evening
      (evening + 1) later.timezone_offset waiting_request
      (fitting_appointment clock factory later 90) refl refl refl refl refl refl refl refl refl refl

abbrev input : HandlingEventInput
input = record {
  latitude = pos 0;
  longitude = pos 0;
  provider_worker_id = 7;
  service_request_id = 5;
  verification_code = "12345";
}

-- The job is in progress, and the report completes it.
abbrev working_request : ServiceRequest
working_request = record taken_request {
  service =
      Job.derived_from_handling_history (create_event 1 1 HandlingEventType.in_progress input ∷ [])
        taken_request.service;
}

abbrev completed : Handled
completed =
    let event = create_event 2 evening HandlingEventType.fullfil input in
    let derived = derive_service_progress (event ∷ []) evening working_request in
    record { event = event; request = derived; published = JobEvent.fulfilled ∷ [] }

handle_servicing_job_lem_example :
    (is_expected_arrival_time_less_than_duration_from_now clock
        working_request.config.hour_limit_before_job_is_allowed_to_start evening
        working_request.appointment
      ≡ true)
    × (has_been_fulfilled working_request.service ≡ false)
    × (next_handling_event_type working_request.service ≡ ok completed.event.type)
    × ((has_been_fulfilled completed.request.service ≡ false)
        ⊎ ((working_request.have_completed_all_technical_reports ≡ true)
            × ((false ≡ true)
                ⊎ (str_eq input.verification_code working_request.verification_code ≡ true))))
unfolding handle_servicing_job build Job.derived_from_handling_history next_handling_event_type
    fitting_appointment most_recently_completed_event
    is_expected_arrival_time_less_than_duration_from_now
handle_servicing_job_lem_example =
    handle_servicing_job_lem clock false input (λ e. e ∷ []) 2 evening working_request completed
      (λ e. refl) refl

abbrev new_request : ServiceRequest
new_request = record request { service = fresh true }

abbrev paid_request : ServiceRequest
paid_request =
    derive_customer_payment_progress (response PaymentGatewayResponseStatus.succeeded ∷ []) 50
      new_request

History-IsConsistent_example : IsConsistent (revoke true 60 paid_request).service
History-IsConsistent_example = History-IsConsistent clock true {start = new_request} refl (
    changed (changed created (paid (response PaymentGatewayResponseStatus.succeeded ∷ []) 50))
      (withdrawn_by_operator true 60))
