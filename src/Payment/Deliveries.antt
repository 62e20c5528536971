-- ===== src/Payment/Deliveries.antt =====
-- The two deliveries of one transaction, in either order.
use text.Mathlib.Text.{◌==◌ as str_eq}
use text.Mathlib.TextEquality.{eq_iff}
use vz.Common.{
  ◌↔◌, ℕ, String, ◌≡◌, refl, ap, ◌∙◌, Bool, true, false, ◌==◌, some, List, [], ◌∷◌, ◌++◌, arith,
  Bool-cases, inl, inr,
}
use vz.Payment.{PaymentGatewayResponseStatus, PaymentGatewayResponse}
use vz.Payment.Responses.{
  PaymentGatewayResponseInput, response_of, same_transaction, same_reference, is_duplicate,
  overridden, override_first, Stored, insert_if_not_exist, i_pay88_response, i_pay88_webhook,
}

str_eq_self : (s : String) → str_eq s s ≡ true
str_eq_self s = (eq_iff s s).1 refl

==-self : (a : ℕ) → (a == a) ≡ true
==-self a = ground arith

same-transaction :
    (r q : PaymentGatewayResponseInput) (t : String)
    → r.trans_id ≡ some t
    → q.trans_id ≡ some t
    → same_transaction (response_of r).transaction_id (response_of q).transaction_id ≡ true
unfolding response_of
same-transaction r q t e1 e2 = rw e1 (rw e2 (str_eq_self t))

same-reference :
    (r q : PaymentGatewayResponseInput)
    → r.ref_no ≡ q.ref_no
    → same_reference (response_of r).reference_id (response_of q).reference_id ≡ true
unfolding response_of
same-reference r q e = ground arith

module _ (pr q : PaymentGatewayResponse)
    (same : same_transaction q.transaction_id pr.transaction_id ≡ true) where
  is_duplicate-append :
      (rows : List PaymentGatewayResponse) → is_duplicate pr (rows ++ (q ∷ [])) ≡ true
  unfolding is_duplicate
  is_duplicate-append [] = rw same refl
  is_duplicate-append (r ∷ rows) =
      elim (Bool-cases (same_transaction r.transaction_id pr.transaction_id)) [
        | inl own ↦ rw own refl
        | inr other ↦ rw other (is_duplicate-append rows)
      ]

  override_first-append :
      (rows : List PaymentGatewayResponse)
      → same_reference q.reference_id pr.reference_id ≡ true
      → is_duplicate pr rows ≡ false
      → override_first pr (rows ++ (q ∷ [])) ≡ some (rows ++ (overridden pr q ∷ []))
  unfolding is_duplicate override_first
  override_first-append [] ref fresh = rw same (rw ref refl)
  override_first-append (r ∷ rows) ref fresh =
      elim (Bool-cases (same_transaction r.transaction_id pr.transaction_id)) [
        | inl own ↦ cc (rw own at fresh)
        | inr other ↦ rw other (rw (override_first-append rows ref (rw other at fresh)) refl)
      ]

insert-duplicate :
    (pr q : PaymentGatewayResponse) (rows : List PaymentGatewayResponse)
    → same_transaction q.transaction_id pr.transaction_id ≡ true
    → insert_if_not_exist false pr (rows ++ (q ∷ []))
      ≡ record { rows = rows ++ (q ∷ []); success = false }
unfolding insert_if_not_exist
insert-duplicate pr q rows same = rw (is_duplicate-append pr q same rows) refl

insert-override :
    (pr q : PaymentGatewayResponse) (rows : List PaymentGatewayResponse)
    → same_transaction q.transaction_id pr.transaction_id ≡ true
    → same_reference q.reference_id pr.reference_id ≡ true
    → is_duplicate pr rows ≡ false
    → insert_if_not_exist true pr (rows ++ (q ∷ []))
      ≡ record { rows = rows ++ (overridden pr q ∷ []); success = true }
unfolding insert_if_not_exist
insert-override pr q rows same ref fresh =
    rw (is_duplicate-append pr q same rows)
      (rw (override_first-append pr q same rows ref fresh) refl)

insert-new :
    (override : Bool) (pr : PaymentGatewayResponse) (rows : List PaymentGatewayResponse)
    → is_duplicate pr rows ≡ false
    → insert_if_not_exist override pr rows ≡ record { rows = rows ++ (pr ∷ []); success = true }
unfolding insert_if_not_exist
insert-new override pr rows fresh = rw fresh refl

-- A row that says what the message says.
abbrev pub Says : PaymentGatewayResponseInput → String → PaymentGatewayResponse → Type 0
Says message t row =
    (row.transaction_id ≡ some t)
    × (row.reference_id ≡ some message.ref_no)
    × (row.payment_id ≡ message.payment_id)
    × ((row.response_status ≡ PaymentGatewayResponseStatus.succeeded) ↔ (message.status ≡ "1"))

succeeded_iff :
    (message : PaymentGatewayResponseInput)
    → ((response_of message).response_status ≡ PaymentGatewayResponseStatus.succeeded)
      ↔ (message.status ≡ "1")
unfolding response_of
succeeded_iff message =
    let (to_path, of_path) = eq_iff message.status "1" in
    elim (Bool-cases (str_eq message.status "1")) [
      | inl is_one ↦ (λ _. to_path is_one, λ _. rw is_one refl)
      | inr other ↦ (λ h. cc (rw other at h), λ e. cc (of_path e, other))
    ]

-- Where no row has the transaction yet, its response and the message of the gateway leave one new
-- row in either order. It has the transaction, the reference and the method of the message, and has
-- succeeded exactly when the status of the message is "1". The message writes to the row of the
-- response that came before it, whose id stays. A response that comes after it is dropped, and nothing
-- is published for it.
pub webhook_wins :
    (rows : List PaymentGatewayResponse) (response message : PaymentGatewayResponseInput)
    (t : String)
    → response.trans_id ≡ some t
    → message.trans_id ≡ some t
    → response.ref_no ≡ message.ref_no
    → is_duplicate (response_of response) rows ≡ false
    → is_duplicate (response_of message) rows ≡ false
    → (row row' : PaymentGatewayResponse) × (i_pay88_webhook message
          (i_pay88_response false response rows).rows
        ≡ record { rows = rows ++ (row ∷ []); success = true })
      × (i_pay88_response false response (i_pay88_webhook message rows).rows
          ≡ record { rows = rows ++ (row' ∷ []); success = false })
      × (row.id ≡ response.id)
      × Says message t row
      × (row'.id ≡ message.id)
      × Says message t row'
unfolding i_pay88_response i_pay88_webhook response_of
webhook_wins rows response message t e1 e2 e3 fresh fresh' = (
  overridden (response_of message) (response_of response),
  response_of message,
  ap (λ (o : Stored). insert_if_not_exist true (response_of message) o.rows)
        (insert-new false (response_of response) rows fresh)
      ∙ insert-override (response_of message) (response_of response) rows
          (same-transaction response message t e1 e2) (same-reference response message e3) fresh',
  ap (λ (o : Stored). insert_if_not_exist false (response_of response) o.rows)
        (insert-new true (response_of message) rows fresh')
      ∙ insert-duplicate (response_of response) (response_of message) rows
          (same-transaction message response t e2 e1),
  refl,
  (e1, ap some e3, refl, succeeded_iff message),
  refl,
  (e2, refl, refl, succeeded_iff message),
)
