-- ===== src/Shared/Errors.antt =====
-- src/shared/errors.ts, and `new Error(message)`, which carries its text. What the classes are
-- given to print is left out, except where a test reads it.
use Prim.Native.String.{String}

pub data Error : Type 0 where
  plain : String → Error
  -- What the runtime throws where a member of null is read.
  type_error : Error
  entity_not_found : String → Error
  user_input : String → Error
  less_than_expected_arrival_window_hour : Error
  unable_to_open_unpaid_service_request : Error
  job_start_too_early : Error
  incorrect_verification_code : Error
  technical_report_not_completed : Error
  unable_to_cancel_completed_job : Error
  unable_to_cancel_terminated_job : Error
  unable_to_cancel_not_paid_service_request : Error
  unable_to_cancel_rescheduled_service_request : Error
  unable_to_cancel_due_to_window_period_is_past : Error
  unable_to_reschedule_service_request : Error
  unable_to_reschedule_due_to_unpaid_surcharge : Error
  promotion_code_invalid : Error
  promotion_code_expired : Error
  promotion_code_usage_limit : Error
  out_of_service_coverage : Error
  unauthorized : Error
  fail_to_accept_job_due_to_fully_occupied_workers : Error
  fail_to_accept_job_due_to_overlapping_appointment : Error
  fail_to_manually_assign_dealer_due_to_fully_occupied_workers : Error
  fail_to_manually_assign_independent_contractor_due_to_overlapping_appointment : Error
