-- ===== src/Service/Build.antt =====
-- The record of `Service` and its private constructor with what that calculates:
-- `calculateAllocationStatus`, `calculateStatus` and `calculateNextActionType`. `none` stands for
-- null; the branch of the constructor that the ORM takes to hydrate a row is not modelled.
use vz.Common.{
  String, Bool, true, false, not, ◌&&◌, Option, none, some, is_some, chain, if◌then◌else◌,
}
use vz.Handling.{HandlingEventType, HandlingEvent}
use vz.Payment.{PaymentGatewayResponseStatus, PaymentGatewayResponse}
use vz.Service.Status.{
  ServiceStatus, ServiceAllocationStatus, ServiceActionType, is_cancelled, is_unassigned,
  is_assigned,
}
use vz.Service.Provider.{Provider}

-- A column that the constructor does not set is undefined in the new object: `none` for the
-- remarks, and false for the two tests.
pub record Service : Type 0 where
  pub last_event : Option HandlingEvent
  pub last_customer_payment_gateway_response : Option PaymentGatewayResponse
  pub provider : Option Provider
  pub is_prepaid : Bool
  pub payment_status : PaymentGatewayResponseStatus
  pub allocation_status : ServiceAllocationStatus
  pub status : ServiceStatus
  pub next_action_type : ServiceActionType
  pub remarks : Option String
  pub eligible_for_refund : Bool
  pub is_refunded : Bool

-- `switch (true)`: the first case that holds.
allocation_status_of : Provider → ServiceAllocationStatus
allocation_status_of p =
    let dispatched = is_some (chain p.dispatcher (λ a. a.id)) in
    let staffed = is_some (chain p.worker (λ a. a.id)) in
    if not (is_some p.dispatcher) && not (is_some p.worker)
    then ServiceAllocationStatus.unassigned
    else if dispatched && not staffed
    then ServiceAllocationStatus.assigned
    else if dispatched && staffed
    then ServiceAllocationStatus.allocated
    else ServiceAllocationStatus.unassigned

unfoldable pub calculate_allocation_status : Option Provider → ServiceAllocationStatus
unfolding allocation_status_of
calculate_allocation_status none = ServiceAllocationStatus.unassigned
calculate_allocation_status (some p) = allocation_status_of p

-- The status before the work starts, and that of the last event.
status_of_allocation : ServiceAllocationStatus → ServiceStatus
status_of_allocation ServiceAllocationStatus.unassigned = ServiceStatus.unassigned
status_of_allocation ServiceAllocationStatus.assigned = ServiceStatus.assigned
status_of_allocation ServiceAllocationStatus.allocated = ServiceStatus.allocated

status_of_event : HandlingEventType → ServiceStatus
status_of_event HandlingEventType.start = ServiceStatus.started
status_of_event HandlingEventType.in_progress = ServiceStatus.in_progress
status_of_event HandlingEventType.fullfil = ServiceStatus.fulfilled

status_of_progress : Option HandlingEvent → ServiceAllocationStatus → ServiceStatus
status_of_progress none allocation = status_of_allocation allocation
status_of_progress (some e) allocation = status_of_event e.type

abbrev has_been_paid : PaymentGatewayResponseStatus → Bool
has_been_paid PaymentGatewayResponseStatus.awaiting_payment = false
has_been_paid PaymentGatewayResponseStatus.failed = false
has_been_paid PaymentGatewayResponseStatus.succeeded = true

-- The first argument is the status that the object has by now, `none` while it is undefined.
unfoldable pub calculate_status :
    Option ServiceStatus
    → Bool
    → PaymentGatewayResponseStatus
    → ServiceAllocationStatus
    → Option HandlingEvent
    → ServiceStatus
unfolding status_of_progress status_of_allocation status_of_event
calculate_status current is_prepaid payment allocation last_event =
    let derived =
      if is_prepaid && not (is_some last_event) && not (has_been_paid payment)
      then ServiceStatus.awaiting_payment
      else status_of_progress last_event allocation in
    elim current [ none ↦ derived | some status ↦ if is_cancelled status then status else derived ]

unfoldable pub calculate_next_action_type :
    ServiceStatus → ServiceAllocationStatus → ServiceActionType
calculate_next_action_type status allocation =
    if is_cancelled status
    then ServiceActionType.idle
    else if is_unassigned allocation
    then ServiceActionType.request_job
    else if is_assigned allocation
    then ServiceActionType.allocate_worker
    else elim status [
      | ServiceStatus.allocated ↦ ServiceActionType.start
      | ServiceStatus.started ↦ ServiceActionType.in_progress
      | ServiceStatus.in_progress ↦ ServiceActionType.fullfil
      | _ ↦ ServiceActionType.fullfil
    ]

-- `response?.responseStatus ?? AWAITING_PAYMENT`
abbrev pub payment_status_of : Option PaymentGatewayResponse → PaymentGatewayResponseStatus
payment_status_of none = PaymentGatewayResponseStatus.awaiting_payment
payment_status_of (some r) = r.response_status

-- `new Service(lastEvent, provider, lastCustomerPaymentGatewayResponse, isPrepaid,
-- cancellationStatus)`
unfoldable pub build :
    Option HandlingEvent
    → Option Provider
    → Option PaymentGatewayResponse
    → Bool
    → Option ServiceStatus
    → Service
unfolding calculate_allocation_status calculate_status calculate_next_action_type
build last_event provider response is_prepaid cancellation =
    let payment = payment_status_of response in
    let allocation = calculate_allocation_status provider in
    let status : ServiceStatus = elim cancellation [
      | some c ↦ c
      | none ↦ calculate_status none is_prepaid payment allocation last_event
    ] in
    record {
      last_event = last_event;
      last_customer_payment_gateway_response = response;
      provider = provider;
      is_prepaid = is_prepaid;
      payment_status = payment;
      allocation_status = allocation;
      status = status;
      next_action_type = calculate_next_action_type status allocation;
      remarks = none;
      eligible_for_refund = false;
      is_refunded = false;
    }
