-- ===== src/Payment/Pages.antt =====
-- What the gateway is sent, and what comes back of it.
use mathlib.Core.List.{append-nil}
use vz.Common.{◌≡◌, refl, ap, [], ◌∷◌, ◌++◌, some, arith, if◌then◌else◌}
use vz.Common.Csv.{Text, codes, join, occurrences, split-join}
use vz.Common.Results.{ok}
use vz.Payment.{PaymentPurposeCode}
use vz.Payment.Page.{
  PaymentRequestModel, Library, Settings, CheckoutRequest, PaymentCheckoutInfo,
  PaymentGatewayIPay88Options, options_of, purpose_text, signed_text, strip_amount_string,
  get_signature, update_signature, payment_request_for, create_payment_request, reference_id,
  get_checkout_info, reference_of, first_cell, payment_of,
}

strip_amount_string-IsPlain :
    (t : Text)
    → (occurrences 46 (strip_amount_string t) ≡ 0) × (occurrences 44 (strip_amount_string t) ≡ 0)
unfolding strip_amount_string occurrences
strip_amount_string-IsPlain [] = (refl, refl)
strip_amount_string-IsPlain (c ∷ t) =
    (ground (arith, strip_amount_string-IsPlain t), ground (arith, strip_amount_string-IsPlain t))

reference_of-reference_id :
    (id : Text) (code : PaymentPurposeCode)
    → occurrences 126 id ≡ 0
    → reference_of (reference_id id code) ≡ id
unfolding reference_of reference_id join occurrences
reference_of-reference_id id PaymentPurposeCode.fee h =
    rw append-nil (ap first_cell (split-join 126 id [] (h, tt)))
reference_of-reference_id id PaymentPurposeCode.ec_reschedule_surcharge h = ap first_cell (
    split-join 126 id (purpose_text PaymentPurposeCode.ec_reschedule_surcharge ∷ [])
      (h, (refl, tt)))

-- What the signature is made of: the texts one behind the other, without anything between them.
abbrev pub signed_of : PaymentGatewayIPay88Options → PaymentRequestModel → Text
signed_of o r =
    o.merchant_key
    ++ (o.merchant_code
        ++ (r.ref_no
            ++ (strip_amount_string r.amount ++ (r.currency ++ (purpose_text r.xfield1 ++ [])))))

-- The page of a request whose id has no delimiter has the purpose that was asked for, and a reference of
-- which the answer of the gateway gives back the id. It is signed with the key, the merchant, the
-- reference, the amount without stops and commas, the currency and the purpose.
pub get_checkout_info_lem :
    (l : Library) (s : Settings) (r : CheckoutRequest) (id : Text) (code : PaymentPurposeCode)
    → occurrences 126 id ≡ 0
    → (info : PaymentCheckoutInfo) × (get_checkout_info l s (some r) id code ≡ ok info)
      × (reference_of info.checkout_payload.ref_no ≡ id)
      × (info.checkout_payload.xfield1 ≡ code)
      × (info.checkout_payload.signature
          ≡ l.sha256 (signed_of (options_of s r.principal_group) info.checkout_payload))
      × (occurrences 46 (strip_amount_string info.checkout_payload.amount) ≡ 0)
      × (occurrences 44 (strip_amount_string info.checkout_payload.amount) ≡ 0)
unfolding get_checkout_info create_payment_request payment_request_for update_signature
    get_signature signed_text
get_checkout_info_lem l s r id code h =
    let amount : Text =
      if s.use_rm1_to_test_payment_gateway
      then codes "1.00"
      else l.to_fixed (payment_of s r code).0.amount in
    let plain = strip_amount_string-IsPlain amount in
    (_, refl, reference_of-reference_id id code h, refl, refl, plain.0, plain.1)
