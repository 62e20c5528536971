-- ===== src/Service/Operations.antt =====
-- The methods of `Service` that make a new one. Each goes through the constructor, `build`.
use vz.Common.{Bool, not, Option, none, some, chain, if◌then◌else◌}
use vz.Common.Results.{Result, ok, err, ◌>>=◌, ◌>>◌, throw_if}
use vz.Shared.Errors.{plain}
use vz.Shared.Period.{Period}
use vz.Handling.{HandlingHistory, most_recently_completed_event}
use vz.Payment.{PaymentGatewayResponseStatus, PaymentGatewayResponseHistory, most_recent_response}
use vz.Service.Status.{ServiceStatus}
use vz.Service.Provider.{
  Provider, Schedule, ServiceProvider, create as create_provider, create_empty_provider, agent_of,
  is_worker,
}
use vz.Service.Build.{Service, build}
use vz.Service.Queries.{has_been_cancelled, has_been_fulfilled, is_assigned_or_allocated_to}

unfoldable pub derived_from :
    HandlingHistory → Option Provider → PaymentGatewayResponseHistory → Bool → Service
derived_from handling provider payments is_prepaid =
    build (most_recently_completed_event handling) provider (most_recent_response payments)
      is_prepaid none

unfoldable pub derived_from_handling_history : HandlingHistory → Service → Service
derived_from_handling_history history s =
    build (most_recently_completed_event history) s.provider
      s.last_customer_payment_gateway_response s.is_prepaid none

unfoldable pub derived_from_payment_gateway_response_history :
    PaymentGatewayResponseHistory → Service → Service
derived_from_payment_gateway_response_history history s =
    build s.last_event s.provider (most_recent_response history) s.is_prepaid none

unfoldable pub restart : Service → Service
restart s = build none none s.last_customer_payment_gateway_response s.is_prepaid none

unfoldable pub assign_to_dispatcher : ServiceProvider → Service → Result Service
assign_to_dispatcher dispatcher s = do
  p ← create_provider (some (agent_of dispatcher)) none none
  ok (build s.last_event (some p) s.last_customer_payment_gateway_response s.is_prepaid none)

abbrev pub schedule_of : Period → Schedule
schedule_of period = record {
  block_after_in_minutes = none;
  block_before_in_minutes = none;
  period = record { start = some period.start; end = some period.end; timezone_offset = none };
}

unfoldable pub allocate_to_worker : ServiceProvider → Period → Service → Result Service
allocate_to_worker worker period s = do
  p ←
      create_provider (chain s.provider (λ p. p.dispatcher)) (some (agent_of worker))
        (some (schedule_of period))
  ok (build s.last_event (some p) s.last_customer_payment_gateway_response s.is_prepaid none)

unfoldable pub terminate_provider : Option ServiceStatus → Service → Service
terminate_provider cancellation s =
    build s.last_event (some create_empty_provider) s.last_customer_payment_gateway_response
      s.is_prepaid cancellation

unfoldable pub mark_failed : Service → Service
mark_failed s =
    build s.last_event s.provider s.last_customer_payment_gateway_response s.is_prepaid
      (some ServiceStatus.failed)

unfoldable pub cancel : Option ServiceProvider → Service → Result Service
unfolding terminate_provider
cancel none s = err (plain "Provider not found")
cancel (some provider) s = do
  throw_if (not (is_assigned_or_allocated_to s provider.id))
      (plain "Job is not assigned/allocated to you")
  throw_if (is_worker provider) (plain "Job should not be cancelled by worker")
  throw_if (has_been_cancelled s) (plain "Job has already been cancelled")
  throw_if (has_been_fulfilled s) (plain "Job has been completed, unable to cancel")
  ok (terminate_provider (some ServiceStatus.cancelled_by_service_provider) s)

unfoldable pub cancel_by_customer : Service → Service
unfolding terminate_provider
cancel_by_customer = terminate_provider (some ServiceStatus.cancelled_by_customer)

unfoldable pub revoke : Bool → Service → Service
unfolding terminate_provider mark_failed
revoke mark_as_failed s =
    if mark_as_failed
    then mark_failed s
    else terminate_provider (some ServiceStatus.cancelled_by_operator) s

unfoldable pub reschedule : Service → Service
unfolding terminate_provider
reschedule = terminate_provider none

-- The three fields are written after the constructor has run.
unfoldable pub expired_by_system : Service → Service
expired_by_system s =
    let service =
      build none (some create_empty_provider) s.last_customer_payment_gateway_response s.is_prepaid
        none in
    record service {
      payment_status = PaymentGatewayResponseStatus.failed;
      status = ServiceStatus.failed_payment;
      remarks = some "Marked as expired by system";
    }
