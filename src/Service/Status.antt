-- ===== src/Service/Status.antt =====
-- service-request/entities/service-status.enum.ts, service-allocation-status.enum.ts and
-- service-request/enums/service-action-type.enum.ts.
use vz.Common.{Bool, true, false}

pub data ServiceStatus : Type 0 where
  awaiting_payment failed_payment unassigned assigned allocated started in_progress : ServiceStatus
  fulfilled failed cancelled_by_service_provider cancelled_by_operator : ServiceStatus
  cancelled_by_customer : ServiceStatus

pub data ServiceAllocationStatus : Type 0 where
  unassigned assigned allocated : ServiceAllocationStatus

pub data ServiceActionType : Type 0 where
  request_job allocate_worker start in_progress fullfil idle : ServiceActionType

-- The list of statuses in `Service.hasBeenCancelled`.
abbrev pub is_cancelled : ServiceStatus → Bool
is_cancelled ServiceStatus.cancelled_by_operator = true
is_cancelled ServiceStatus.failed = true
is_cancelled ServiceStatus.cancelled_by_service_provider = true
is_cancelled ServiceStatus.cancelled_by_customer = true
is_cancelled _ = false

-- The list of statuses in `Service.hasBeenClosed`.
abbrev pub is_closed : ServiceStatus → Bool
is_closed ServiceStatus.failed_payment = true
is_closed ServiceStatus.failed = true
is_closed ServiceStatus.cancelled_by_customer = true
is_closed _ = false

abbrev pub is_fulfilled : ServiceStatus → Bool
is_fulfilled ServiceStatus.fulfilled = true
is_fulfilled _ = false

abbrev pub is_failed : ServiceStatus → Bool
is_failed ServiceStatus.failed = true
is_failed _ = false

abbrev pub is_cancelled_by_service_provider : ServiceStatus → Bool
is_cancelled_by_service_provider ServiceStatus.cancelled_by_service_provider = true
is_cancelled_by_service_provider _ = false

abbrev pub is_in_progress : ServiceStatus → Bool
is_in_progress ServiceStatus.started = true
is_in_progress ServiceStatus.in_progress = true
is_in_progress _ = false

abbrev pub is_unassigned : ServiceAllocationStatus → Bool
is_unassigned ServiceAllocationStatus.unassigned = true
is_unassigned _ = false

abbrev pub is_assigned : ServiceAllocationStatus → Bool
is_assigned ServiceAllocationStatus.assigned = true
is_assigned _ = false
