-- ===== src/Request/Reschedules.antt =====
-- What rescheduling does to a service request.
use vz.Common.{ℕ, ◌≡◌, ◌⊎◌, true, false, refl, arith, some, none, Option, chain}
use vz.Common.Int.{ℤ}
use vz.Common.Results.{ok}
use vz.Shared.Period.{Period, to_opt_period}
use vz.Payment.{
  PaymentGatewayResponse, PaymentGatewayResponseHistory, PaymentGatewayResponseStatus,
  most_recent_response,
}
use vz.Service.Operations as Job
use vz.Request.Moment.{Moment}
use vz.Request.Appointment.{Appointment, AppointmentConfig, create_appointment, fitting_appointment}
use vz.Request.Rescheduling.{
  CustomerRescheduleOrder, new_reschedule_order, create_with_surcharge, create_with_free_of_charge,
  execute, has_paid_surcharge, is_empty,
}
use vz.Request.Aggregate.{
  ServiceRequest, get_customer_reschedule_order, has_been_rescheduled_once, reschedule,
}
use vz.Request.Orders.{
  create_customer_reschedule_order, execute_customer_reschedule_order, reschedule_service_request,
  surcharge_responded,
}

module _ (m : Moment) where
  -- What a reschedule that succeeds saves. Either a surcharge has to be paid first: the job and the
  -- appointment stay as they are, and the order that is kept asks for the payment. Or the
  -- reschedule is done: the appointment starts at the requested time, nobody has the job, and the
  -- request counts as rescheduled. The order has the requested start as its new one and the start
  -- before as its old one.
  pub reschedule_service_request_lem :
      (factory : AppointmentConfig) (arrival : Period) (now : ℕ) (sr t : ServiceRequest)
      → reschedule_service_request m factory arrival now sr ≡ ok t
      → (((t.service ≡ sr.service)
            × (t.appointment ≡ sr.appointment)
            × ((get_customer_reschedule_order t).surcharge_required ≡ true)
            × ((get_customer_reschedule_order t).payment_status
                ≡ some PaymentGatewayResponseStatus.awaiting_payment)
            × (has_been_rescheduled_once t ≡ false))
          ⊎ ((t.service ≡ Job.reschedule sr.service)
              × (t.appointment.expected_arrival_period.start ≡ arrival.start)
              × (has_been_rescheduled_once t ≡ true)))
        × (chain (get_customer_reschedule_order t).new_expected_arrival_period (λ p. p.start)
            ≡ some arrival.start)
        × (chain (get_customer_reschedule_order t).old_expected_arrival_period (λ p. p.start)
            ≡ some sr.appointment.expected_arrival_period.start)
  unfolding reschedule_service_request create_customer_reschedule_order
      execute_customer_reschedule_order create_appointment fitting_appointment execute reschedule
      create_with_surcharge create_with_free_of_charge new_reschedule_order to_opt_period
  reschedule_service_request_lem factory arrival now sr t e = ground arith

  -- A response that the payment of a surcharge failed executes the order all the same: where the
  -- new appointment can be made, it replaces the old one and nobody has the job any more, while
  -- the surcharge is not paid and the request does not count as rescheduled.
  pub failed_surcharge_reschedules :
      (factory : AppointmentConfig) (history : PaymentGatewayResponseHistory)
      (response : PaymentGatewayResponse) (order : CustomerRescheduleOrder)
      (start end created now : ℕ) (offset : Option ℤ) (sr : ServiceRequest) (a : Appointment)
      → sr.customer_reschedule_order ≡ some order
      → is_empty order ≡ false
      → order.surcharge_required ≡ true
      → order.payment_status ≡ some PaymentGatewayResponseStatus.awaiting_payment
      → order.executed_at ≡ none
      → order.new_expected_arrival_period
        ≡ some (record { start = some start; end = some end; timezone_offset = offset })
      → order.created_at ≡ some created
      → most_recent_response history ≡ some response
      → response.response_status ≡ PaymentGatewayResponseStatus.failed
      → create_appointment m factory
          (record { start = start; end = end; timezone_offset = offset })
          sr.appointment.total_service_minutes
          created
        ≡ ok a
      → (t : ServiceRequest) × (surcharge_responded m factory history now sr ≡ ok (some t))
        × (t.appointment ≡ a)
        × (t.service ≡ Job.reschedule sr.service)
        × (has_paid_surcharge (get_customer_reschedule_order t) ≡ false)
        × (has_been_rescheduled_once t ≡ false)
  unfolding surcharge_responded execute_customer_reschedule_order execute reschedule
  failed_surcharge_reschedules factory history response order start end created now offset sr a
        known full required awaiting unexecuted arrival created_at recent failed made =
      let failed_order : CustomerRescheduleOrder = record order {
        payment_gateway_response = some response;
        payment_status = some response.response_status;
      } in
      let t : ServiceRequest = record sr {
        appointment = a;
        service = Job.reschedule sr.service;
        customer_reschedule_order = some failed_order;
      } in
      (t, ground arith, refl, refl, ground arith, ground arith)
