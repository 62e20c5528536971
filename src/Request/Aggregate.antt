-- ===== src/Request/Aggregate.antt =====
-- service-request/entities/service-request.entity.ts: the methods with guards, over the fields that
-- they read and write. `now` is the clock; a method reads it once.
use vz.Common.{
  String, ℕ, zero, suc, Bool, not, ◌&&◌, ◌||◌, Option, none, some, is_some, chain, if◌then◌else◌,
}
use vz.Common.Int.{ℤ}
use vz.Common.Results.{Result, ok, ◌>>=◌, ◌>>◌, throw_if}
use vz.Shared.Errors.{
  plain, unable_to_open_unpaid_service_request, unable_to_cancel_completed_job,
  unable_to_cancel_terminated_job, unable_to_cancel_not_paid_service_request,
  unable_to_cancel_rescheduled_service_request, unable_to_cancel_due_to_window_period_is_past,
}
use vz.Shared.Period.{Period}
use vz.Service.Provider.{ServiceProvider, is_worker, is_independent}
use vz.Service.Build.{Service}
use vz.Service.Queries.{
  has_been_assigned_or_allocated, has_been_cancelled, has_been_fulfilled, has_been_closed,
  has_customer_paid, is_work_in_progress, is_assigned_or_allocated_to,
}
use vz.Service.Operations as Job
use vz.Request.Moment.{Moment}
use vz.Request.Appointment.{
  Appointment, AppointmentConfig, create_appointment,
  is_expected_arrival_time_more_than_duration_from_now,
}
use vz.Request.Rescheduling.{CustomerRescheduleOrder, empty_reschedule_order}

-- The members of `ServiceRequestOptions` that the guards read, and the limit that is documented for
-- refunds, which nothing reads.
pub record Options : Type 0 where
  pub payment_gateway_enabled : Bool
  pub ec_reschedule_multiple_occurrences_allowed : Bool
  pub ec_reschedule_surcharge_amount : ℤ
  pub ec_reschedule_compensation_amount : ℤ
  pub hour_limit_ec_eligible_for_refund : ℕ
  pub hour_limit_before_ec_reschedule_option_is_disabled : Option ℕ
  pub hour_limit_before_ec_reschedule_surchage_is_required : Option ℕ
  pub hour_limit_before_ec_cancellation_option_is_disabled : Option ℕ
  pub hour_limit_before_job_is_allowed_to_start : Option ℕ

-- `haveCompletedAllTechnicalReports` is that of the customer order.
pub record ServiceRequest : Type 0 where
  pub service : Service
  pub appointment : Appointment
  pub customer_reschedule_order : Option CustomerRescheduleOrder
  pub config : Options
  pub transitioned_at : Option ℕ
  pub verification_code : String
  pub have_completed_all_technical_reports : Bool

-- `limit || fallback`
abbrev pub limit_or : Option ℕ → ℕ → ℕ
limit_or none fallback = fallback
limit_or (some zero) fallback = fallback
limit_or (some (suc n)) fallback = suc n

abbrev pub get_customer_reschedule_order : ServiceRequest → CustomerRescheduleOrder
get_customer_reschedule_order sr = elim sr.customer_reschedule_order [
  | none ↦ empty_reschedule_order
  | some o ↦ o
]

abbrev pub has_been_rescheduled_once : ServiceRequest → Bool
has_been_rescheduled_once sr = is_some (chain sr.customer_reschedule_order (λ o. o.executed_at))

abbrev pub dispatcher_id : Service → Option ℕ
dispatcher_id s = chain (chain s.provider (λ p. p.dispatcher)) (λ a. a.id)

-- The two calls at the end of `assignToDispatcher`: an independent provider is his own worker.
unfoldable pub taken_by : ServiceProvider → Period → Service → Result Service
taken_by dispatcher schedule service = do
  s ← Job.assign_to_dispatcher dispatcher service
  if is_independent dispatcher then Job.allocate_to_worker dispatcher schedule s else ok s

module _ (m : Moment) where
  unfoldable pub allow_reschedule : ℕ → ServiceRequest → Bool
  unfolding is_expected_arrival_time_more_than_duration_from_now
  allow_reschedule now sr =
      not (
        not (has_customer_paid sr.service)
        || is_work_in_progress sr.service
        || has_been_closed sr.service
        || has_been_fulfilled sr.service)
      && (sr.config.ec_reschedule_multiple_occurrences_allowed
          || not (has_been_rescheduled_once sr))
      && is_expected_arrival_time_more_than_duration_from_now m
          (limit_or sr.config.hour_limit_before_ec_reschedule_option_is_disabled 3) now
          sr.appointment

  unfoldable pub allow_reschedule_without_surcharge : ℕ → ServiceRequest → Bool
  unfolding is_expected_arrival_time_more_than_duration_from_now
  allow_reschedule_without_surcharge now sr =
      is_expected_arrival_time_more_than_duration_from_now m
        (limit_or sr.config.hour_limit_before_ec_reschedule_surchage_is_required 12) now
        sr.appointment

  -- `validateAllowEcCancelAndThrowError(true, now)`
  unfoldable pub validate_allow_ec_cancel : ℕ → ServiceRequest → Result (Unit {0})
  unfolding is_expected_arrival_time_more_than_duration_from_now
  validate_allow_ec_cancel now sr = do
    throw_if (not (has_customer_paid sr.service)) unable_to_cancel_not_paid_service_request
    throw_if (has_been_rescheduled_once sr) unable_to_cancel_rescheduled_service_request
    throw_if (has_been_fulfilled sr.service) unable_to_cancel_completed_job
    throw_if (has_been_closed sr.service) unable_to_cancel_terminated_job
    throw_if
        (not (
          is_expected_arrival_time_more_than_duration_from_now m
            (limit_or sr.config.hour_limit_before_ec_cancellation_option_is_disabled 24) now
            sr.appointment))
        unable_to_cancel_due_to_window_period_is_past
    ok tt

  unfoldable pub cancel_by_customer : ℕ → ServiceRequest → Result ServiceRequest
  unfolding validate_allow_ec_cancel
  cancel_by_customer now sr = do
    validate_allow_ec_cancel now sr
    ok (record sr { service = Job.cancel_by_customer sr.service; transitioned_at = some now })

  unfoldable pub cancel : Option ServiceProvider → ℕ → ServiceRequest → Result ServiceRequest
  cancel provider now sr = do
    throw_if (has_been_fulfilled sr.service) unable_to_cancel_completed_job
    s ← Job.cancel provider sr.service
    ok (record sr { service = s; transitioned_at = some now })

  unfoldable pub allocate_to_worker :
      ServiceProvider → ServiceProvider → ServiceRequest → Result ServiceRequest
  allocate_to_worker worker dealer sr = do
    throw_if (not (is_assigned_or_allocated_to sr.service dealer.id))
        (plain "Job is not assigned/allocated to you")
    s ← Job.allocate_to_worker worker sr.appointment.service_schedule sr.service
    ok (record sr { service = s })

  unfoldable pub assign_to_dispatcher : ServiceProvider → ServiceRequest → Result ServiceRequest
  unfolding taken_by
  assign_to_dispatcher dispatcher sr = do
    throw_if (has_been_assigned_or_allocated sr.service && not (has_been_cancelled sr.service))
        (plain "Job is taken")
    throw_if (sr.config.payment_gateway_enabled && not (has_customer_paid sr.service))
        unable_to_open_unpaid_service_request
    throw_if (is_worker dispatcher) (
        plain
          "Dispatcher with type \"Worker\" found. It has to be of type: \"Dealer\" or \"Independent\"")
    s ← taken_by dispatcher sr.appointment.service_schedule sr.service
    ok (record sr { service = s })

  -- The private method, which makes a new appointment and drops the provider.
  unfoldable pub reschedule :
      AppointmentConfig → Period → ℕ → ServiceRequest → Result ServiceRequest
  unfolding create_appointment
  reschedule factory arrival now sr = do
    a ← create_appointment m factory arrival sr.appointment.total_service_minutes now
    ok (record sr { appointment = a; service = Job.reschedule sr.service })
