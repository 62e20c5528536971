-- ===== src/Request/Progress.antt =====
-- service-request/entities/service-request.entity.ts: the methods without guards that make a new
-- job. The columns of the payment that they also set are left out.
use vz.Common.{ℕ, Bool, true, some, if◌then◌else◌}
use vz.Payment.{PaymentGatewayResponseHistory}
use vz.Service.Operations as Job
use vz.Request.Aggregate.{ServiceRequest}

unfoldable pub revoke : Bool → ℕ → ServiceRequest → ServiceRequest
revoke mark_as_failed now sr =
    let service = Job.revoke mark_as_failed sr.service in
    record sr {
      service = if mark_as_failed then record service { eligible_for_refund = true } else service;
      transitioned_at = some now;
    }

unfoldable pub expired_by_system : ℕ → ServiceRequest → ServiceRequest
expired_by_system now sr = record sr {
  service = Job.expired_by_system sr.service;
  transitioned_at = some now;
}

unfoldable pub restart : ServiceRequest → ServiceRequest
restart sr = record sr { service = Job.restart sr.service }

unfoldable pub derive_customer_payment_progress :
    PaymentGatewayResponseHistory → ℕ → ServiceRequest → ServiceRequest
derive_customer_payment_progress history now sr = record sr {
  service = Job.derived_from_payment_gateway_response_history history sr.service;
  transitioned_at = some now;
}

unfoldable pub derive_customer_reschedule_surcharge_payment_progress :
    PaymentGatewayResponseHistory → ServiceRequest → ServiceRequest
derive_customer_reschedule_surcharge_payment_progress history sr = record sr {
  service = Job.derived_from_payment_gateway_response_history history sr.service;
}
