-- ===== src/Payment/Page.antt =====
-- The page on which a customer pays: payment/queries/handlers/get-ipay88-payment-checkout-info.handler.ts,
-- and payment/ipay88 with its model of a request, its helper and its service. The texts that the
-- gateway reads are lists of code units.
use vz.Common.{Bool, Option, none, some, List, [], ◌∷◌, ◌++◌, ◌==◌, ◌||◌, if◌then◌else◌}
use vz.Common.Int.{ℤ}
use vz.Common.Csv.{Text, codes, split}
use vz.Common.Results.{Result, ok, err}
use vz.Shared.Errors.{Error}
use vz.Shared.Tenant.{Tenant}
use vz.Payment.{PaymentPurposeCode}

-- The digest of crypto in hexadecimal digits, and `toFixed(2)` of the runtime.
pub record Library : Type 0 where
  pub sha256 : Text → Text
  pub to_fixed : ℤ → Text

-- shared/interfaces/app.config.ts
pub record PaymentGatewayIPay88Options : Type 0 where
  pub merchant_code : Text
  pub merchant_key : Text
  pub backend_url : Text
  pub response_url : Text
  pub deep_link_redirect_url : Option Text
  pub host : Text
  pub payment_path : Option Text

-- payment/ipay88/dtos/create-payment-request.param.ts; the tokens are not read.
pub record CreatePaymentRequestParam : Type 0 where
  pub payment_id : Option Text
  pub reference_id : Text
  pub amount : Text
  pub currency : Text
  pub description : Text
  pub full_name : Text
  pub email : Text
  pub mobile : Text
  pub remark : Option Text
  pub response_url : Option Text
  pub webhook_url : Option Text
  pub deep_link_redirect_url : Option Text
  pub payment_purpose_code : PaymentPurposeCode

pub record PaymentRequestModel : Type 0 where
  pub merchant_code : Text
  pub payment_id : Text
  pub ref_no : Text
  pub amount : Text
  pub currency : Text
  pub prod_desc : Text
  pub user_name : Text
  pub user_email : Text
  pub user_contact : Text
  pub remark : Text
  pub lang : Text
  pub signature_type : Text
  pub signature : Text
  pub response_url : Text
  pub backend_url : Text
  pub xfield1 : PaymentPurposeCode
  pub appdeeplink : Text

abbrev pub purpose_text : PaymentPurposeCode → Text
purpose_text PaymentPurposeCode.fee = codes "FEE"
purpose_text PaymentPurposeCode.ec_reschedule_surcharge = codes "EC_SURCHARGE"

abbrev pub or_else : Option Text → Text → Text
or_else none t = t
or_else (some s) t = s

abbrev first_of : Option Text → Option Text → Option Text
first_of none o = o
first_of (some t) o = some t

-- The values that are not null, one behind the other.
unfoldable pub signed_text : List (Option Text) → Text
signed_text [] = []
signed_text (none ∷ values) = signed_text values
signed_text (some t ∷ values) = t ++ signed_text values

-- Each full stop and each comma is taken out.
unfoldable pub strip_amount_string : Text → Text
strip_amount_string [] = []
strip_amount_string (c ∷ t) =
    let rest = strip_amount_string t in if (c == 46) || (c == 44) then rest else c ∷ rest

module _ (l : Library) where
  -- `getSignature` with the type SHA256, the only one that is asked for.
  unfoldable pub get_signature : List (Option Text) → Text
  unfolding signed_text
  get_signature values = l.sha256 (signed_text values)

  unfoldable pub update_signature :
      (merchant_key : Text) → PaymentRequestModel → PaymentRequestModel
  unfolding get_signature strip_amount_string
  update_signature merchant_key r = record r {
    signature = get_signature (
        some merchant_key
        ∷ some r.merchant_code
        ∷ some r.ref_no
        ∷ some (strip_amount_string r.amount)
        ∷ some r.currency
        ∷ some (purpose_text r.xfield1)
        ∷ []);
  }

  -- `PaymentRequestModel.for`
  unfoldable pub payment_request_for :
      (merchant_code merchant_key : Text) → CreatePaymentRequestParam → PaymentRequestModel
  unfolding update_signature
  payment_request_for merchant_code merchant_key p = update_signature merchant_key (record {
    merchant_code = merchant_code;
    payment_id = or_else p.payment_id [];
    ref_no = p.reference_id;
    amount = p.amount;
    currency = p.currency;
    prod_desc = p.description;
    user_name = p.full_name;
    user_email = p.email;
    user_contact = p.mobile;
    remark = or_else p.remark [];
    lang = codes "UTF-8";
    signature_type = codes "SHA256";
    signature = [];
    response_url = or_else p.response_url [];
    backend_url = or_else p.webhook_url [];
    xfield1 = p.payment_purpose_code;
    appdeeplink = or_else p.deep_link_redirect_url [];
  })

  unfoldable pub create_payment_request :
      PaymentGatewayIPay88Options → CreatePaymentRequestParam → PaymentRequestModel
  unfolding payment_request_for
  create_payment_request o p = payment_request_for o.merchant_code o.merchant_key (record p {
    webhook_url = some (or_else p.webhook_url o.backend_url);
    response_url = some (or_else p.response_url o.response_url);
    deep_link_redirect_url = first_of p.deep_link_redirect_url o.deep_link_redirect_url;
  })

-- An empty path is none.
abbrev path_or : Option Text → Text → Text
path_or none default_path = default_path
path_or (some []) default_path = default_path
path_or (some (c ∷ t)) default_path = c ∷ t

unfoldable pub get_payment_url : PaymentGatewayIPay88Options → Text
get_payment_url o = o.host ++ path_or o.payment_path (codes "/epayment/entry.asp")

-- service-request/dto/money.dto.ts
pub record Money : Type 0 where
  pub amount : ℤ
  pub currency : Text

-- What the handler reads of a request.
pub record CheckoutRequest : Type 0 where
  pub principal_group : Tenant
  pub customer_invoice_total_price : Money
  pub name : Text
  pub email : Text
  pub phone : Text

pub record Settings : Type 0 where
  pub dmss : PaymentGatewayIPay88Options
  pub amss : PaymentGatewayIPay88Options
  pub ec_reschedule_surcharge_amount : ℤ
  pub use_rm1_to_test_payment_gateway : Bool

pub record PaymentCheckoutInfo : Type 0 where
  pub checkout_url : Text
  pub checkout_payload : PaymentRequestModel

abbrev pub options_of : Settings → Tenant → PaymentGatewayIPay88Options
options_of s Tenant.daikin = s.dmss
options_of s Tenant.acson = s.amss

abbrev pub payment_of : Settings → CheckoutRequest → PaymentPurposeCode → Money × Text
payment_of s r PaymentPurposeCode.fee =
    (r.customer_invoice_total_price, codes "Air-conditional service")
payment_of s r PaymentPurposeCode.ec_reschedule_surcharge = (
  record { amount = s.ec_reschedule_surcharge_amount; currency = codes "MYR" },
  codes "End Consumer Reschedule Surcharge",
)

unfoldable pub reference_id : (service_request_id : Text) → PaymentPurposeCode → Text
reference_id id PaymentPurposeCode.fee = id ++ []
reference_id id PaymentPurposeCode.ec_reschedule_surcharge =
    id ++ (126 ∷ purpose_text PaymentPurposeCode.ec_reschedule_surcharge)

unfoldable pub get_checkout_info :
    Library
    → Settings
    → (found : Option CheckoutRequest) → (service_request_id : Text) → PaymentPurposeCode
    → Result PaymentCheckoutInfo
unfolding create_payment_request get_payment_url reference_id
get_checkout_info l s none id code = err (Error.entity_not_found "ServiceRequest")
get_checkout_info l s (some r) id code =
    let payment = payment_of s r code in
    ok (record {
      checkout_url = get_payment_url (options_of s r.principal_group);
      checkout_payload = create_payment_request l (options_of s r.principal_group) (record {
        payment_id = none;
        reference_id = reference_id id code;
        amount =
            if s.use_rm1_to_test_payment_gateway
            then codes "1.00"
            else l.to_fixed (payment.0).amount;
        currency = (payment.0).currency;
        description = payment.1;
        full_name = r.name;
        email = r.email;
        mobile = r.phone;
        remark = none;
        response_url = none;
        webhook_url = none;
        deep_link_redirect_url = none;
        payment_purpose_code = code;
      });
    })

abbrev pub first_cell : List Text → Text
first_cell [] = []
first_cell (t ∷ ts) = t

-- The reference that payment/payment.service.ts reads in a response.
unfoldable pub reference_of : Text → Text
unfolding split
reference_of ref_no = first_cell (split 126 ref_no)
