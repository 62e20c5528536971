-- ===== src/Payment/Tests.antt =====
-- The history of payment responses at concrete inputs.
use vz.Common.{◌≡◌, refl, true, false, none, some, [], ◌∷◌, ◌++◌}
use vz.Common.Csv.{codes, occurrences}
use vz.Common.Int.{pos}
use vz.Common.Results.{ok}
use vz.Shared.Tenant.{Tenant}
use vz.Payment.Page.{
  Library, PaymentGatewayIPay88Options, Settings, CheckoutRequest, PaymentCheckoutInfo,
  strip_amount_string, reference_of, get_checkout_info, create_payment_request, payment_request_for,
  update_signature, get_signature,
}
use vz.Payment.Pages.{signed_of, get_checkout_info_lem}
use vz.Payment.Methods.{get_payment_method}
use vz.Payment.Responses.{
  PaymentGatewayResponseInput, is_duplicate, i_pay88_response, i_pay88_webhook,
}
use vz.Payment.Deliveries.{Says, webhook_wins}
use vz.Payment.{
  PaymentGatewayResponseStatus, PaymentPurposeCode, PaymentGatewayResponse,
  PaymentGatewayResponseHistory, most_recent_response,
}

abbrev declined : PaymentGatewayResponse
declined = record {
  id = 1;
  created_at = 100;
  reference_id = some 5;
  response_status = PaymentGatewayResponseStatus.failed;
  transaction_id = none;
  payment_id = some "2";
  payment_purpose_code = PaymentPurposeCode.fee;
}

abbrev settled : PaymentGatewayResponse
settled = record declined {
  id = 2;
  created_at = 150;
  response_status = PaymentGatewayResponseStatus.succeeded;
}

abbrev responses : PaymentGatewayResponseHistory
responses = settled ∷ declined ∷ []

newest : most_recent_response responses ≡ some settled
unfolding most_recent_response
newest = refl

paid_by_card : get_payment_method none declined ≡ "Credit Card"
unfolding get_payment_method
paid_by_card = refl

abbrev response : PaymentGatewayResponseInput
response = record {
  id = 3;
  created_at = 200;
  ref_no = 5;
  status = "0";
  trans_id = some "T1";
  payment_id = some "2";
  xfield1 = PaymentPurposeCode.fee;
}

abbrev message : PaymentGatewayResponseInput
message = record response { id = 4; created_at = 210; status = "1" }

webhook_wins_example :
    (row row' : PaymentGatewayResponse) × (i_pay88_webhook message
        (i_pay88_response false response responses).rows
      ≡ record { rows = responses ++ (row ∷ []); success = true })
    × (i_pay88_response false response (i_pay88_webhook message responses).rows
        ≡ record { rows = responses ++ (row' ∷ []); success = false })
    × (row.id ≡ 3)
    × Says message "T1" row
    × (row'.id ≡ 4)
    × Says message "T1" row'
unfolding is_duplicate
webhook_wins_example = webhook_wins responses response message "T1" refl refl refl refl refl

-- A digest that keeps its text, and one amount.
abbrev library : Library
library = record { sha256 = λ t. t; to_fixed = λ a. codes "1,200.50" }

abbrev gateway : PaymentGatewayIPay88Options
gateway = record {
  merchant_code = codes "M1";
  merchant_key = codes "K";
  backend_url = codes "https://b";
  response_url = codes "https://r";
  deep_link_redirect_url = some (codes "app://p");
  host = codes "https://pay";
  payment_path = some [];
}

abbrev settings : Settings
settings = record {
  dmss = gateway;
  amss = gateway;
  ec_reschedule_surcharge_amount = pos 30;
  use_rm1_to_test_payment_gateway = false;
}

abbrev payable : CheckoutRequest
payable = record {
  principal_group = Tenant.acson;
  customer_invoice_total_price = record { amount = pos 1; currency = codes "MYR" };
  name = codes "A";
  email = codes "a@b";
  phone = codes "1";
}

abbrev surcharge : PaymentPurposeCode
surcharge = PaymentPurposeCode.ec_reschedule_surcharge

signed_without_commas :
    (info : PaymentCheckoutInfo) × (get_checkout_info library settings
        (some payable)
        (codes "7a")
        surcharge
      ≡ ok info)
    × (info.checkout_payload.signature ≡ codes "KM17a~EC_SURCHARGE120050MYREC_SURCHARGE")
    × (info.checkout_url ≡ codes "https://pay/epayment/entry.asp")
unfolding get_checkout_info create_payment_request payment_request_for update_signature
    get_signature
signed_without_commas = (_, refl, refl, refl)

get_checkout_info_lem_example :
    (info : PaymentCheckoutInfo) × (get_checkout_info library settings
        (some payable)
        (codes "7a")
        surcharge
      ≡ ok info)
    × (reference_of info.checkout_payload.ref_no ≡ codes "7a")
    × (info.checkout_payload.xfield1 ≡ surcharge)
    × (info.checkout_payload.signature ≡ library.sha256 (signed_of gateway info.checkout_payload))
    × (occurrences 46 (strip_amount_string info.checkout_payload.amount) ≡ 0)
    × (occurrences 44 (strip_amount_string info.checkout_payload.amount) ≡ 0)
unfolding occurrences
get_checkout_info_lem_example =
    get_checkout_info_lem library settings payable (codes "7a") surcharge refl
