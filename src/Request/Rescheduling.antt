-- ===== src/Request/Rescheduling.antt =====
-- service-request/entities/customer-reschedule-order.entity.ts.
use vz.Common.{
  chain, ℕ, Bool, true, false, ◌&&◌, ◌||◌, not, Option, none, some, is_some, if◌then◌else◌,
}
use vz.Common.Int.{ℤ, pos, ltb_ℤ}
use vz.Common.Results.{Result, ok, err}
use vz.Shared.Errors.{plain}
use vz.Shared.Period.{OptPeriod}
use vz.Payment.{
  PaymentGatewayResponse, PaymentGatewayResponseHistory, PaymentGatewayResponseStatus,
  most_recent_response,
}

pub record CustomerRescheduleOrder : Type 0 where
  pub old_expected_arrival_period : Option OptPeriod
  pub new_expected_arrival_period : Option OptPeriod
  pub consumer_surcharge_amount : ℤ
  pub impacted_service_provider_compensation_amount : ℤ
  pub impacted_service_provider_id : Option ℕ
  pub payment_gateway_response : Option PaymentGatewayResponse
  pub payment_status : Option PaymentGatewayResponseStatus
  pub surcharge_required : Bool
  pub executed_at : Option ℕ
  pub created_at : Option ℕ

-- The constructor: its first argument becomes the new period and its second the old one.
unfoldable pub new_reschedule_order :
    Option OptPeriod → Option OptPeriod → ℤ → ℤ → Option ℕ → Option ℕ → CustomerRescheduleOrder
new_reschedule_order first second surcharge compensation impacted created_at =
    let required = ltb_ℤ (pos 0) surcharge in
    record {
      old_expected_arrival_period = second;
      new_expected_arrival_period = first;
      consumer_surcharge_amount = surcharge;
      impacted_service_provider_compensation_amount = compensation;
      impacted_service_provider_id = impacted;
      payment_gateway_response = none;
      payment_status =
          if required then some PaymentGatewayResponseStatus.awaiting_payment else none;
      surcharge_required = required;
      executed_at = none;
      created_at = created_at;
    }

unfoldable pub empty_reschedule_order : CustomerRescheduleOrder
unfolding new_reschedule_order
empty_reschedule_order = new_reschedule_order none none (pos 0) (pos 0) none none

unfoldable pub create_with_surcharge :
    OptPeriod → OptPeriod → ℤ → ℤ → Option ℕ → ℕ → CustomerRescheduleOrder
unfolding new_reschedule_order
create_with_surcharge first second surcharge compensation impacted created_at =
    new_reschedule_order (some first) (some second) surcharge compensation impacted
      (some created_at)

unfoldable pub create_with_free_of_charge :
    OptPeriod → OptPeriod → Option ℕ → ℕ → CustomerRescheduleOrder
unfolding new_reschedule_order
create_with_free_of_charge first second impacted created_at =
    new_reschedule_order (some first) (some second) (pos 0) (pos 0) impacted (some created_at)

abbrev pub has_succeeded : PaymentGatewayResponseStatus → Bool
has_succeeded PaymentGatewayResponseStatus.succeeded = true
has_succeeded _ = false

abbrev responded : ℕ → CustomerRescheduleOrder → PaymentGatewayResponse → CustomerRescheduleOrder
responded now o r = record o {
  payment_gateway_response = some r;
  payment_status = some r.response_status;
  executed_at = if has_succeeded r.response_status then some now else o.executed_at;
}

-- `history` is none where the caller leaves it out; `now` is the clock.
unfoldable pub execute :
    Option PaymentGatewayResponseHistory
    → ℕ
    → CustomerRescheduleOrder
    → Result CustomerRescheduleOrder
unfolding most_recent_response
execute history now o =
    if not o.surcharge_required
    then ok (record o { executed_at = some now })
    else elim (chain history most_recent_response) [
      | none ↦ err (plain "Fail to execute, please ensure payment is made")
      | some r ↦ ok (responded now o r)
    ]

abbrev pub has_paid_surcharge : CustomerRescheduleOrder → Bool
has_paid_surcharge o =
    o.surcharge_required
    && elim o.payment_status [ none ↦ false | some status ↦ has_succeeded status ]

abbrev pub is_empty : CustomerRescheduleOrder → Bool
is_empty o =
    not (is_some o.old_expected_arrival_period)
    || not (is_some o.new_expected_arrival_period)
    || not (is_some o.created_at)
