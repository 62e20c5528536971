-- ===== src/Payment/Methods.antt =====
-- payment/entities/payment-gateway-response.entity.ts: the names of the methods of payment, by the
-- codes of the gateway.
use text.Mathlib.Text.{◌==◌ as str_eq}
use vz.Common.{String, Option, none, some, List, [], ◌∷◌, if◌then◌else◌}
use vz.Payment.{PaymentGatewayResponse}

abbrev payment_method_names : List (String × String)
payment_method_names =
    ("2", "Credit Card")
    ∷ ("55", "Credit Card (MYR) Pre-Auth")
    ∷ ("122", "Pay4Me")
    ∷ ("163", "Hong Leong PEx+ (QR Payment)")
    ∷ ("173", "CIMB Virtual")
    ∷ ("48", "PayPal")
    ∷ ("6", "FPX - Maybank")
    ∷ ("8", "FPX - Alliance Bank")
    ∷ ("10", "FPX - Ambank")
    ∷ ("14", "FPX - RHB Bank")
    ∷ ("15", "FPX - Hong Leong Bank")
    ∷ ("20", "FPX - CIMB Bank")
    ∷ ("31", "FPX - Public Bank")
    ∷ ("102", "FPX - Bank Rakyat")
    ∷ ("103", "FPX - Affin Bank")
    ∷ ("124", "FPX - Bank Simpanan Nasional")
    ∷ ("134", "FPX - Bank Islam")
    ∷ ("152", "FPX - UOB")
    ∷ ("167", "FPX - OCBC Bank")
    ∷ ("168", "FPX - Standard Chartered Bank")
    ∷ ("198", "FPX - HSBC Bank")
    ∷ ("199", "FPX - Kuwait Finance House")
    ∷ ("210", "eWallet - Boost")
    ∷ ("523", "eWallet - GrabPay")
    ∷ ("538", "eWallet - Touch 'n Go")
    ∷ ("243", "eWallet - VCash")
    ∷ []

-- `PaymentMethodNames[paymentId] || ''`
unfoldable pub name_of : String → List (String × String) → String
name_of payment_id [] = ""
name_of payment_id ((code, name) ∷ names) =
    let rest = name_of payment_id names in if str_eq code payment_id then name else rest

-- `this.paymentId || this.data?.PaymentId`: an empty id is none, and that of the data is used.
abbrev id_or : Option String → Option String → Option String
id_or none data_id = data_id
id_or (some id) data_id = if str_eq id "" then data_id else some id

unfoldable pub get_payment_method :
    (data_payment_id : Option String) → PaymentGatewayResponse → String
unfolding name_of
get_payment_method data_payment_id r = elim (id_or r.payment_id data_payment_id) [
  | none ↦ ""
  | some id ↦ name_of id payment_method_names
]
