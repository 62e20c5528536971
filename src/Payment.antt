-- ===== src/Payment.antt =====
-- src/payment: a response of the payment gateway, and the history of the responses.
pub mod History
pub mod Responses
mod Deliveries
mod Methods
mod Page
mod Pages
mod Tests
use vz.Common.{ℕ, String, Option, none, List, [], ◌∷◌, last?, sort_by}

-- src/shared/enums/payment-gateway-response-status.ts
pub data PaymentGatewayResponseStatus : Type 0 where
  awaiting_payment failed succeeded : PaymentGatewayResponseStatus

-- src/shared/enums/payment-purpose-code.ts
pub data PaymentPurposeCode : Type 0 where
  fee ec_reschedule_surcharge : PaymentPurposeCode

-- entities/payment-gateway-response.entity.ts, as far as other parts read it. Dates are
-- milliseconds since the epoch.
pub record PaymentGatewayResponse : Type 0 where
  pub id : ℕ
  pub created_at : ℕ
  pub reference_id : Option ℕ
  pub response_status : PaymentGatewayResponseStatus
  pub transaction_id : Option String
  pub payment_id : Option String
  pub payment_purpose_code : PaymentPurposeCode

-- entities/payment-gateway-response-history.entity.ts, the class by its one field.
abbrev pub PaymentGatewayResponseHistory : Type 0
PaymentGatewayResponseHistory = List PaymentGatewayResponse

abbrev pub empty_history : PaymentGatewayResponseHistory
empty_history = []

-- A slice of the responses, sorted by their dates; its last member, or null.
unfoldable pub most_recent_response : PaymentGatewayResponseHistory → Option PaymentGatewayResponse
unfolding sort_by
most_recent_response [] = none
most_recent_response (r ∷ rs) = last? (sort_by (λ x. x.created_at) (r ∷ rs))
