-- ===== src/Payment/History.antt =====
-- The history of payment responses: payment/entities/payment-gateway-response-history.entity.ts.
use vz.Common.{◌≡◌, refl, ◌⊎◌, inl, inr, none, some, [], ◌∷◌}
use vz.Common.Sort.{Latest, last?-sort_by}
use vz.Payment.{PaymentGatewayResponse, PaymentGatewayResponseHistory, most_recent_response}

-- The most recent response is null for the empty history only. Otherwise it is a member of the
-- history, no member has a later date, and every member behind it in the history has an earlier
-- date.
pub most_recent_response_lem :
    (h : PaymentGatewayResponseHistory)
    → ((h ≡ []) × (most_recent_response h ≡ none))
      ⊎ ((r : PaymentGatewayResponse) × (most_recent_response h ≡ some r)
          × Latest (λ x. x.created_at) h r)
unfolding most_recent_response
most_recent_response_lem [] = inl (refl, refl)
most_recent_response_lem (r ∷ rs) = inr (last?-sort_by (λ x. x.created_at) r rs)
