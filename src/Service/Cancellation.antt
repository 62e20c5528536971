-- ===== src/Service/Cancellation.antt =====
-- Who may cancel a job, and what becomes of a cancelled one: service.entity.ts.
use vz.Common.{◌≡◌, ◌↔◌, true, false, some, arith}
use vz.Common.Results.{ok}
use vz.Handling.{HandlingHistory}
use vz.Payment.{PaymentGatewayResponseHistory}
use vz.Service.Status.{ServiceStatus}
use vz.Service.Provider.{ServiceProvider, is_worker, create_empty_provider}
use vz.Service.Build.{Service, build}
use vz.Service.Queries.{has_been_cancelled, has_been_fulfilled, is_assigned_or_allocated_to}
use vz.Service.Operations.{
  derived_from_handling_history, derived_from_payment_gateway_response_history, restart, reschedule,
  terminate_provider, cancel,
}

-- A service provider can cancel exactly the jobs that are assigned or allocated to him and are
-- neither cancelled nor fulfilled, unless he is a worker. The job is then cancelled by him, and
-- is his no more.
pub cancel_iff :
    (p : ServiceProvider) (s : Service)
    → ((t : Service) × (cancel (some p) s ≡ ok t)
        × (t.status ≡ ServiceStatus.cancelled_by_service_provider)
        × (is_assigned_or_allocated_to t p.id ≡ false))
      ↔ ((is_assigned_or_allocated_to s p.id ≡ true)
          × (is_worker p ≡ false)
          × (has_been_cancelled s ≡ false)
          × (has_been_fulfilled s ≡ false))
unfolding cancel build create_empty_provider
cancel_iff p s = (
  λ (t, done, _, _). ground arith,
  λ may. (
    terminate_provider (some ServiceStatus.cancelled_by_service_provider) s,
    ground arith,
    ground arith,
    ground arith,
  ),
)

-- No payment response, handling event, restart or reschedule leaves a job cancelled or failed:
-- the status is derived anew from the event, the provider and the payment, whatever it was.
pub rebuild_forgets_cancellation :
    (h : HandlingHistory) (r : PaymentGatewayResponseHistory) (s : Service)
    → (has_been_cancelled (derived_from_payment_gateway_response_history r s) ≡ false)
      × (has_been_cancelled (derived_from_handling_history h s) ≡ false)
      × (has_been_cancelled (restart s) ≡ false)
      × (has_been_cancelled (reschedule s) ≡ false)
unfolding derived_from_payment_gateway_response_history derived_from_handling_history restart
    reschedule build
rebuild_forgets_cancellation h r s = ground arith
