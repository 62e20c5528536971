-- ===== src/Request/Payments.antt =====
-- service-request/events/handlers/payment-gateway-responded.handler.ts: a response of the payment
-- gateway reaches the request that it refers to.
use vz.Common.{ℕ, Bool, true, false, Option, none, some, List, [], ◌∷◌, ◌++◌, if◌then◌else◌}
use vz.Common.Results.{Result, ok, ◌>>=◌, required}
use vz.Payment.{PaymentGatewayResponseStatus, PaymentGatewayResponseHistory, most_recent_response}
use vz.Service.Queries.{has_customer_paid, has_been_cancelled}
use vz.Request.Aggregate.{ServiceRequest}
use vz.Request.Progress.{derive_customer_payment_progress}
use vz.Request.Saga.{Event, confirmed, failed}

abbrev pub is_failed_response : PaymentGatewayResponseStatus → Bool
is_failed_response PaymentGatewayResponseStatus.failed = true
is_failed_response _ = false

abbrev pub is_succeeded_response : PaymentGatewayResponseStatus → Bool
is_succeeded_response PaymentGatewayResponseStatus.succeeded = true
is_succeeded_response _ = false

-- The request as it is saved, and what is published; the most recent response is read where the
-- request has been cancelled.
pub record Responded : Type 0 where
  pub service_request : ServiceRequest
  pub published : Result (List Event)

unfoldable pub published_after :
    PaymentGatewayResponseHistory → ServiceRequest → Result (List Event)
published_after history sr = do
  let paid : List Event = if has_customer_paid sr.service then confirmed sr true ∷ [] else []
  (if has_been_cancelled sr.service
      then (required (most_recent_response history) >>= λ r.
          ok (if is_failed_response r.response_status then paid ++ (failed sr ∷ []) else paid))
      else ok paid)

-- `handleServiceRequestFeePaymentGatewayResponded`; none where it returns at once.
unfoldable pub fee_responded : PaymentGatewayResponseHistory → ℕ → ServiceRequest → Option Responded
unfolding published_after
fee_responded history now sr =
    if has_customer_paid sr.service
    then none
    else some (record {
      service_request = derive_customer_payment_progress history now sr;
      published = published_after history (derive_customer_payment_progress history now sr);
    })
