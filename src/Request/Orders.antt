-- ===== src/Request/Orders.antt =====
-- The creation and the execution of a reschedule order (service-request.entity.ts), and the two
-- callers that save the request: `reschedule` of service-request.service.ts, and the handler of a
-- surcharge payment in events/handlers/payment-gateway-responded.handler.ts.
use vz.Common.{ℕ, not, ◌&&◌, Option, none, some, is_some, if◌then◌else◌}
use vz.Common.Int.{pos, ltb_ℤ}
use vz.Common.Results.{Result, ok, err, ◌>>=◌, ◌>>◌, throw_if}
use vz.Shared.Errors.{plain, type_error, unable_to_reschedule_service_request}
use vz.Shared.Period.{OptPeriod, Period, to_opt_period}
use vz.Payment.{PaymentGatewayResponseHistory}
use vz.Request.Moment.{Moment}
use vz.Request.Appointment.{
  AppointmentConfig, create_appointment, is_expected_arrival_time_equal_to,
}
use vz.Request.Rescheduling.{
  create_with_surcharge, create_with_free_of_charge, execute, has_paid_surcharge, is_empty,
}
use vz.Request.Aggregate.{
  ServiceRequest, get_customer_reschedule_order, dispatcher_id, allow_reschedule,
  allow_reschedule_without_surcharge, reschedule,
}

-- What `createCustomerRescheduleOrder` leaves: a free order, or an order that waits for the
-- payment of its surcharge, with the error that says so.
pub data Created : Type 0 where
  free : ServiceRequest → Created
  surcharged : ServiceRequest → Created

-- `this.getServiceProvider().dispatcher?.id`
abbrev pub impacted_id : ServiceRequest → Result (Option ℕ)
impacted_id sr =
    if is_some sr.service.provider then ok (dispatcher_id sr.service) else err type_error

-- The period of an order, whose dates are there; without them, which no order has, it is an error
-- here.
abbrev pub to_period : Option OptPeriod → Result Period
to_period none = err type_error
to_period (some p) = elim p.start [
  | none ↦ err type_error
  | some start ↦ elim p.end [
    | none ↦ err type_error
    | some end ↦ ok (record { start = start; end = end; timezone_offset = p.timezone_offset })
  ]
]

module _ (m : Moment) where
  unfoldable pub create_customer_reschedule_order :
      AppointmentConfig → Period → ℕ → ServiceRequest → Result Created
  unfolding allow_reschedule create_appointment allow_reschedule_without_surcharge
      create_with_surcharge create_with_free_of_charge to_opt_period
  create_customer_reschedule_order factory arrival now sr = do
    throw_if (not (allow_reschedule m now sr)) unable_to_reschedule_service_request
    throw_if (is_expected_arrival_time_equal_to arrival.start sr.appointment)
        (plain "Unnecessary rescheduling: New appointment start time is the same as current one")
    -- The trial writes the time zone of the configuration to the period.
    trial ← create_appointment m factory arrival sr.appointment.total_service_minutes now
    impacted ← impacted_id sr
    let first = to_opt_period trial.expected_arrival_period
    let second = to_opt_period sr.appointment.expected_arrival_period
    ok (
        if sr.config.payment_gateway_enabled
          && not (allow_reschedule_without_surcharge m now sr)
          && ltb_ℤ (pos 0) sr.config.ec_reschedule_surcharge_amount
        then surcharged (record sr {
          customer_reschedule_order = some (
              create_with_surcharge first second sr.config.ec_reschedule_surcharge_amount
                sr.config.ec_reschedule_compensation_amount impacted now);
        })
        else free (record sr {
          customer_reschedule_order = some (create_with_free_of_charge first second impacted now);
        }))

  -- `createdAt` is there, since the order is not empty. The test `=== null` on the history never
  -- holds: the callers leave it out or pass an object.
  unfoldable pub execute_customer_reschedule_order :
      AppointmentConfig
      → Option PaymentGatewayResponseHistory
      → ℕ
      → ServiceRequest
      → Result ServiceRequest
  unfolding execute reschedule
  execute_customer_reschedule_order factory history now sr = do
    let o = get_customer_reschedule_order sr
    throw_if (is_empty o) (plain "Please create a new customer reschedule order before execution")
    executed ← execute history now o
    arrival ← to_period executed.new_expected_arrival_period
    created_at ← elim executed.created_at [ none ↦ err type_error | some d ↦ ok d ]
    reschedule m factory arrival created_at
        (record sr { customer_reschedule_order = some executed })

  -- `reschedule` of the service, up to the save: the request that it saves.
  unfoldable pub reschedule_service_request :
      AppointmentConfig → Period → ℕ → ServiceRequest → Result ServiceRequest
  unfolding create_customer_reschedule_order execute_customer_reschedule_order
  reschedule_service_request factory arrival now sr = do
    created ← create_customer_reschedule_order factory arrival now sr
    elim created [
      | free made ↦ execute_customer_reschedule_order factory none now made
      | surcharged made ↦ ok made
    ]

  -- `handleEcRescheduleSurchargePayementGatewayResponded`, up to the save; none where it returns
  -- before.
  unfoldable pub surcharge_responded :
      AppointmentConfig
      → PaymentGatewayResponseHistory
      → ℕ
      → ServiceRequest
      → Result (Option ServiceRequest)
  unfolding execute_customer_reschedule_order
  surcharge_responded factory history now sr =
      if has_paid_surcharge (get_customer_reschedule_order sr) then ok none else do
        saved ← execute_customer_reschedule_order factory (some history) now sr
        ok (some saved)
