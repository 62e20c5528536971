-- ===== src/Payment/Responses.antt =====
-- payment/repository/payment-gateway-response.repository.ts, and `iPay88Response` and `iPay88Webhook`
-- of payment/payment.service.ts: the response that the browser brings and the message of the
-- gateway are stored in one table. A reference is the id of a request, behind which the delimiter
-- is cut off; the company of a response is that of its request.
use text.Mathlib.Text.{◌==◌ as str_eq}
use vz.Common.{
  ℕ, String, Bool, true, false, ◌&&◌, ◌==◌, Option, none, some, List, [], ◌∷◌, ◌++◌, if◌then◌else◌,
}
use vz.Payment.{PaymentGatewayResponse, PaymentGatewayResponseStatus, PaymentPurposeCode}

-- payment/dtos/payment-gateway-response.input.ts, with the id and the date that the row will have.
pub record PaymentGatewayResponseInput : Type 0 where
  pub id : ℕ
  pub created_at : ℕ
  pub ref_no : ℕ
  pub status : String
  pub trans_id : Option String
  pub payment_id : Option String
  pub xfield1 : PaymentPurposeCode

unfoldable pub response_of : PaymentGatewayResponseInput → PaymentGatewayResponse
response_of input = record {
  id = input.id;
  created_at = input.created_at;
  reference_id = some input.ref_no;
  response_status =
      if str_eq input.status "1"
      then PaymentGatewayResponseStatus.succeeded
      else PaymentGatewayResponseStatus.failed;
  transaction_id = input.trans_id;
  payment_id = input.payment_id;
  payment_purpose_code = input.xfield1;
}

-- The unique column: rows without a transaction do not collide.
abbrev pub same_transaction : Option String → Option String → Bool
same_transaction none t = false
same_transaction (some s) none = false
same_transaction (some s) (some t) = str_eq s t

abbrev pub same_reference : Option ℕ → Option ℕ → Bool
same_reference none t = false
same_reference (some a) none = false
same_reference (some a) (some b) = a == b

unfoldable pub is_duplicate : PaymentGatewayResponse → List PaymentGatewayResponse → Bool
is_duplicate pr [] = false
is_duplicate pr (r ∷ rs) =
    let rest = is_duplicate pr rs in
    if same_transaction r.transaction_id pr.transaction_id then true else rest

abbrev pub overridden : PaymentGatewayResponse → PaymentGatewayResponse → PaymentGatewayResponse
overridden pr r = record r { payment_id = pr.payment_id; response_status = pr.response_status }

-- The first row of the transaction and the reference is written; none where there is none.
unfoldable pub override_first :
    PaymentGatewayResponse → List PaymentGatewayResponse → Option (List PaymentGatewayResponse)
override_first pr [] = none
override_first pr (r ∷ rs) =
    let rest = override_first pr rs in
    if same_transaction r.transaction_id pr.transaction_id
      && same_reference r.reference_id pr.reference_id
    then some (overridden pr r ∷ rs)
    else elim rest [ none ↦ none | some rs' ↦ some (r ∷ rs') ]

-- The table after the call, and its result.
pub record Stored : Type 0 where
  pub rows : List PaymentGatewayResponse
  pub success : Bool

unfoldable pub insert_if_not_exist :
    (override : Bool) → PaymentGatewayResponse → List PaymentGatewayResponse → Stored
unfolding is_duplicate override_first
insert_if_not_exist override pr rows =
    if is_duplicate pr rows
    then (if override
        then elim (override_first pr rows) [
          | none ↦ record { rows = rows; success = false }
          | some rows' ↦ record { rows = rows'; success = true }
        ]
        else record { rows = rows; success = false })
    else record { rows = rows ++ (pr ∷ []); success = true }

-- The response of the browser, and the message of the gateway, whose request is found. The event
-- `PaymentGatewayRespondedEvent` is published where the result is true.
unfoldable pub i_pay88_response :
    (override : Bool) → PaymentGatewayResponseInput → List PaymentGatewayResponse → Stored
unfolding insert_if_not_exist response_of
i_pay88_response override input rows = insert_if_not_exist override (response_of input) rows

unfoldable pub i_pay88_webhook : PaymentGatewayResponseInput → List PaymentGatewayResponse → Stored
unfolding i_pay88_response
i_pay88_webhook payload rows = i_pay88_response true payload rows
