-- ===== src/Request/Fixtures.antt =====
-- Data for the tests of service requests: a clock, and a request at concrete dates.
use vz.Common.{ℕ, ◌+◌, ◌-◌, ◌*◌, ◌/◌, refl, true, false, some, none, ltb, leb, if◌then◌else◌, arith}
use vz.Common.Int.{pos, ◌-ℤ◌}
use vz.Shared.Period.{Period, to_opt_period}
use vz.Payment.{PaymentGatewayResponseStatus, PaymentPurposeCode, PaymentGatewayResponse}
use vz.Service.Provider.{ServiceProvider, ServiceProviderType, create_empty_provider, agent_of}
use vz.Service.Build.{Service, build}
use vz.Service.Operations as Job
use vz.Request.Moment.{Moment, IsMoment}
use vz.Request.Appointment.{Appointment, AppointmentConfig, fitting_appointment}
use vz.Request.Rescheduling.{CustomerRescheduleOrder, create_with_surcharge}
use vz.Request.Aggregate.{Options, ServiceRequest}

abbrev pub clock : Moment
clock = record {
  is_before = ltb;
  add_hours = λ d h. d + h * 3600000;
  add_minutes = λ d n. d + n * 60000;
  diff_hours = λ a b. if leb b a then pos ((a - b) / 3600000) else pos 0 -ℤ pos ((b - a) / 3600000);
  diff_seconds = λ a b. if leb b a then pos ((a - b) / 1000) else pos 0 -ℤ pos ((b - a) / 1000);
  unix = λ d. d / 1000;
}

pub clock-IsMoment : IsMoment clock
clock-IsMoment = record {
  is_before = λ a b. refl;
  add_hours = λ d h. refl;
  add_minutes = λ d n. refl;
  diff_hours = λ a b h. ground arith;
  unix = λ d. refl;
}

abbrev pub factory : AppointmentConfig
factory = record {
  expected_arrival_window_hour = 2;
  block_before_in_minutes = 0;
  block_after_in_minutes = 0;
  timezone_offset = pos 8;
}

-- In 40 and in 90 hours.
abbrev pub arrival : Period
arrival = record { start = 144000000; end = 147600000; timezone_offset = some (pos 8) }

abbrev pub later : Period
later = record { start = 324000000; end = 327600000; timezone_offset = some (pos 8) }

abbrev pub visit : Appointment
visit = fitting_appointment clock factory arrival 90

abbrev pub response : PaymentGatewayResponseStatus → PaymentGatewayResponse
response status = record {
  id = 1;
  created_at = 50;
  reference_id = some 5;
  response_status = status;
  transaction_id = none;
  payment_id = none;
  payment_purpose_code = PaymentPurposeCode.fee;
}

abbrev pub open_job : Service
open_job =
    build none (some create_empty_provider) (some (response PaymentGatewayResponseStatus.succeeded))
      true none

abbrev pub options : Options
options = record {
  payment_gateway_enabled = true;
  ec_reschedule_multiple_occurrences_allowed = false;
  ec_reschedule_surcharge_amount = pos 50;
  ec_reschedule_compensation_amount = pos 20;
  hour_limit_ec_eligible_for_refund = 72;
  hour_limit_before_ec_reschedule_option_is_disabled = none;
  hour_limit_before_ec_reschedule_surchage_is_required = none;
  hour_limit_before_ec_cancellation_option_is_disabled = none;
  hour_limit_before_job_is_allowed_to_start = some 48;
}

abbrev pub request : ServiceRequest
request = record {
  service = open_job;
  appointment = visit;
  customer_reschedule_order = none;
  config = options;
  transitioned_at = none;
  verification_code = "12345";
  have_completed_all_technical_reports = true;
}

abbrev pub solo : ServiceProvider
solo = record {
  id = 7;
  name = some "Solo";
  phone = none;
  profile_picture = none;
  type = ServiceProviderType.independent;
}

abbrev pub taken_request : ServiceRequest
taken_request = record request {
  service =
      build none
        (some (record {
          dispatcher = some (agent_of solo);
          worker = some (agent_of solo);
          schedule = some (Job.schedule_of visit.service_schedule);
        }))
        (some (response PaymentGatewayResponseStatus.succeeded)) true none;
}

-- 34 hours later the arrival is only 6 hours away, so a surcharge has to be paid.
abbrev pub evening : ℕ
evening = 122400000

abbrev pub surcharge_order : CustomerRescheduleOrder
surcharge_order =
    create_with_surcharge (to_opt_period later) (to_opt_period arrival) (pos 50) (pos 20) (some 7)
      evening

abbrev pub waiting_request : ServiceRequest
waiting_request = record taken_request { customer_reschedule_order = some surcharge_order }
