-- ===== src/Request/EndingTests.antt =====
-- A request that its customer cancels, and one that is reminded of a time that has passed.
use vz.Common.{
  ◌+◌, ◌*◌, ◌≤◌, ◌≡◌, ◌↔◌, refl, true, some, none, [], ◌∷◌, List, arith, false, [], if◌then◌else◌,
}
use vz.Common.Int.{pos}
use vz.Common.Results.{ok}
use vz.Service.Status.{ServiceStatus}
use vz.Service.Provider.{agent_of}
use vz.Service.Build.{build}
use vz.Service.Operations as Job
use vz.Request.Appointment.{fitting_appointment}
use vz.Request.Aggregate.{ServiceRequest, limit_or, cancel_by_customer}
use vz.Request.Fixtures.{clock, clock-IsMoment, response, request, solo, taken_request, visit}
use vz.Payment.{PaymentGatewayResponseStatus, PaymentGatewayResponseHistory, most_recent_response}
use vz.Service.Queries.{has_customer_paid, has_been_cancelled}
use vz.Service.Invariant.{fresh}
use vz.Request.Payments.{Responded, fee_responded}
use vz.Request.Fees.{ends_paid, fee_responded_lem}
use vz.Request.Saga.{confirmed, cancelled, UserType}
use vz.Request.Services.{Ended, cancel_request}
use vz.Request.Endings.{with_refund_limit, cancel_request_lem}
use vz.Request.Reminders.{Reminder, process}
use vz.Request.Stale.{postponed_request_is_reminded}

abbrev cancelled_request : ServiceRequest
cancelled_request = record taken_request {
  service = Job.cancel_by_customer taken_request.service;
  transitioned_at = some 1000;
}

done : cancel_by_customer clock 1000 taken_request ≡ ok cancelled_request
unfolding cancel_by_customer build fitting_appointment
done = refl

cancel_request_lem_example :
    (r r' : Ended) × (cancel_request clock 1000 2000 taken_request ≡ ok r)
    × (cancel_request clock 1000 2000 (with_refund_limit clock 96 taken_request) ≡ ok r')
    × (r.service_request.service.status ≡ ServiceStatus.cancelled_by_customer)
    × ((r.service_request.service.eligible_for_refund ≡ true) ↔ (
        2000 + limit_or none 24 * 3600000
        ≤ taken_request.appointment.expected_arrival_period.start))
    × (r'.service_request.service.eligible_for_refund
        ≡ r.service_request.service.eligible_for_refund)
    × (r.published ≡ cancelled r.service_request (some 7) (some 7) UserType.customer ∷ [])
unfolding build fitting_appointment
cancel_request_lem_example =
    cancel_request_lem clock 1000 2000 96 taken_request cancelled_request
      (record {
        dispatcher = some (agent_of solo);
        worker = some (agent_of solo);
        schedule = some (Job.schedule_of visit.service_schedule);
      })
      (agent_of solo) (agent_of solo) clock-IsMoment (omega arith) refl refl refl done

-- The queue holds the time of an hour before.
postponed_request_is_reminded_example :
    (rest : List Reminder) × (process clock 140000000 140400000 taken_request
      ≡ ok (record { recipient = some 7; shown_start = 140400000; count_down = pos 4000 } ∷ rest))
unfolding build fitting_appointment
postponed_request_is_reminded_example =
    postponed_request_is_reminded clock 140000000 140400000 taken_request (agent_of solo)
      (agent_of solo) (omega arith) refl refl refl refl

-- The first payment of a request is declined, and the second one goes through.
abbrev unpaid_request : ServiceRequest
unpaid_request = record request { service = fresh true }

abbrev responses : PaymentGatewayResponseHistory
responses =
    response PaymentGatewayResponseStatus.failed
    ∷ record (response PaymentGatewayResponseStatus.succeeded) { created_at = 60 }
    ∷ []

fee_responded_lem_example :
    (r : Responded) × (fee_responded responses 1000 unpaid_request ≡ some r)
    × (has_customer_paid r.service_request.service ≡ ends_paid responses)
    × (has_been_cancelled r.service_request.service ≡ false)
    × (r.published ≡ ok (if ends_paid responses then confirmed r.service_request true ∷ [] else []))
unfolding build Job.derived_from most_recent_response
fee_responded_lem_example = fee_responded_lem responses 1000 unpaid_request refl

paid_in_the_end : ends_paid responses ≡ true
unfolding most_recent_response
paid_in_the_end = refl
