-- ===== src/Service/Queries.antt =====
-- The methods of `Service` that only read it.
use vz.Common.{ℕ, String, Bool, true, false, not, ◌&&◌, ◌||◌, is_id, is_some, chain}
use vz.Common.Results.{Result, ok, ◌>>◌, throw_if}
use vz.Shared.Errors.{plain}
use vz.Handling.{HandlingEventType}
use vz.Payment.{PaymentGatewayResponseStatus}
use vz.Service.Status.{
  ServiceStatus, ServiceActionType, is_cancelled, is_closed, is_fulfilled, is_failed,
  is_cancelled_by_service_provider, is_in_progress, is_unassigned, is_assigned,
}
use vz.Service.Build.{Service}

abbrev pub has_been_assigned_or_allocated : Service → Bool
has_been_assigned_or_allocated s = not (is_unassigned s.allocation_status)

abbrev pub has_been_assigned_but_not_allocated : Service → Bool
has_been_assigned_but_not_allocated s = is_assigned s.allocation_status

abbrev pub has_been_allocated : Service → Bool
has_been_allocated s =
    has_been_assigned_or_allocated s && not (has_been_assigned_but_not_allocated s)

abbrev pub has_been_started : Service → Bool
has_been_started s = is_some s.last_event

abbrev pub has_been_fulfilled : Service → Bool
has_been_fulfilled s = is_fulfilled s.status

abbrev pub is_work_in_progress : Service → Bool
is_work_in_progress s = is_in_progress s.status

abbrev pub has_been_cancelled : Service → Bool
has_been_cancelled s = is_cancelled s.status

abbrev pub has_been_marked_as_failed : Service → Bool
has_been_marked_as_failed s = is_failed s.status

abbrev pub has_been_closed : Service → Bool
has_been_closed s = is_closed s.status

abbrev pub has_customer_paid : Service → Bool
has_customer_paid s = elim s.payment_status [
  | PaymentGatewayResponseStatus.succeeded ↦ true
  | _ ↦ false
]

abbrev pub is_allocated_to : Service → ℕ → Bool
is_allocated_to s worker_id = is_id (chain (chain s.provider (λ p. p.worker)) (λ a. a.id)) worker_id

abbrev pub is_assigned_or_allocated_to : Service → ℕ → Bool
is_assigned_or_allocated_to s provider_id =
    is_id (chain (chain s.provider (λ p. p.dispatcher)) (λ a. a.id)) provider_id
    || is_allocated_to s provider_id

-- The conjunction of the five `!==` tests says that the status is not fulfilled and not cancelled.
unfoldable pub is_ongoing : Service → Bool
is_ongoing s = has_been_assigned_or_allocated s && elim s.status [
  | ServiceStatus.fulfilled ↦ false
  | ServiceStatus.failed ↦ false
  | ServiceStatus.cancelled_by_service_provider ↦ false
  | ServiceStatus.cancelled_by_customer ↦ false
  | ServiceStatus.cancelled_by_operator ↦ false
  | _ ↦ true
]

unfoldable pub is_historical : Service → Bool
unfolding is_ongoing
is_historical s = has_been_assigned_or_allocated s && not (is_ongoing s)

unfoldable pub event_type_of_status : ServiceStatus → HandlingEventType
event_type_of_status ServiceStatus.allocated = HandlingEventType.start
event_type_of_status ServiceStatus.started = HandlingEventType.in_progress
event_type_of_status ServiceStatus.in_progress = HandlingEventType.fullfil
event_type_of_status _ = HandlingEventType.fullfil

unfoldable pub next_handling_event_type : Service → Result HandlingEventType
unfolding event_type_of_status
next_handling_event_type s = do
  throw_if (has_been_fulfilled s) (plain "Job has already been fulfilled.")
  throw_if (is_cancelled_by_service_provider s.status) (plain "Job has already been cancelled")
  throw_if (has_been_assigned_but_not_allocated s) (plain "Job must be allocated to worker first")
  ok (event_type_of_status s.status)

-- The names in `toNextServiceActionTypeDto`; the default prints the code, and only IDLE is left.
unfoldable pub next_service_action_name : ServiceActionType → String
next_service_action_name ServiceActionType.request_job = "Request Job"
next_service_action_name ServiceActionType.allocate_worker = "Allocate Worker"
next_service_action_name ServiceActionType.start = "Travel"
next_service_action_name ServiceActionType.in_progress = "Start Job"
next_service_action_name ServiceActionType.fullfil = "Complete Job"
next_service_action_name ServiceActionType.idle = "IDLE"

-- The names in `toServiceStatusDto`; the default prints the code, and only FAILED is left.
unfoldable pub service_status_name : ServiceStatus → String
service_status_name ServiceStatus.awaiting_payment = "Awaiting Payment"
service_status_name ServiceStatus.failed_payment = "Payment Failed"
service_status_name ServiceStatus.unassigned = "Open"
service_status_name ServiceStatus.assigned = "Accepted"
service_status_name ServiceStatus.allocated = "Allocated"
service_status_name ServiceStatus.started = "Traveling"
service_status_name ServiceStatus.in_progress = "Job Started"
service_status_name ServiceStatus.fulfilled = "Job Completed"
service_status_name ServiceStatus.failed = "FAILED"
service_status_name ServiceStatus.cancelled_by_service_provider = "Cancelled By Service Provider"
service_status_name ServiceStatus.cancelled_by_operator = "Cancelled By Operator"
service_status_name ServiceStatus.cancelled_by_customer = "Cancelled By Customer"
