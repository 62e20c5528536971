-- ===== src/Request/Fees.antt =====
-- What a response to the payment of a fee does.
use vz.Common.{ℕ, ◌≡◌, refl, Bool, true, false, Option, none, some, [], ◌∷◌, if◌then◌else◌, arith}
use vz.Common.Results.{ok}
use vz.Payment.{PaymentGatewayResponse, PaymentGatewayResponseHistory, most_recent_response}
use vz.Service.Build.{Service, build}
use vz.Service.Cancellation.{rebuild_forgets_cancellation}
use vz.Service.Queries.{has_customer_paid, has_been_cancelled}
use vz.Service.Operations.{derived_from_payment_gateway_response_history}
use vz.Request.Aggregate.{ServiceRequest}
use vz.Request.Progress.{derive_customer_payment_progress}
use vz.Request.Saga.{confirmed}
use vz.Request.Payments.{Responded, is_succeeded_response, published_after, fee_responded}

-- The last response of a history is one that succeeded.
abbrev pub response_paid : Option PaymentGatewayResponse → Bool
response_paid none = false
response_paid (some r) = is_succeeded_response r.response_status

abbrev pub ends_paid : PaymentGatewayResponseHistory → Bool
ends_paid history = response_paid (most_recent_response history)

built-paid :
    (s : Service) (response : Option PaymentGatewayResponse)
    → has_customer_paid (build s.last_event s.provider response s.is_prepaid none)
      ≡ response_paid response
unfolding build
built-paid s none = refl
built-paid s (some r) = ground arith

published_after-eq :
    (history : PaymentGatewayResponseHistory) (sr : ServiceRequest) (paid : Bool)
    → has_customer_paid sr.service ≡ paid
    → has_been_cancelled sr.service ≡ false
    → published_after history sr ≡ ok (if paid then confirmed sr true ∷ [] else [])
unfolding published_after
published_after-eq history sr paid e1 e2 = rw e1 (rw e2 refl)

-- A response to the fee of an unpaid request makes it paid exactly when the most recent response
-- succeeded. Its confirmation is then published, and nothing otherwise: that the request has
-- failed is never published, since the job that is derived is not a cancelled one.
pub fee_responded_lem :
    (history : PaymentGatewayResponseHistory) (now : ℕ) (sr : ServiceRequest)
    → has_customer_paid sr.service ≡ false
    → (r : Responded) × (fee_responded history now sr ≡ some r)
      × (has_customer_paid r.service_request.service ≡ ends_paid history)
      × (has_been_cancelled r.service_request.service ≡ false)
      × (r.published ≡ ok (if ends_paid history then confirmed r.service_request true ∷ [] else []))
unfolding fee_responded derive_customer_payment_progress
    derived_from_payment_gateway_response_history
fee_responded_lem history now sr unpaid =
    let saved = derive_customer_payment_progress history now sr in
    let paid = built-paid sr.service (most_recent_response history) in
    let open_again = (rebuild_forgets_cancellation [] history sr.service).0 in
    (
      record { service_request = saved; published = published_after history saved },
      rw unpaid refl,
      paid,
      open_again,
      published_after-eq history saved (ends_paid history) paid open_again,
    )
