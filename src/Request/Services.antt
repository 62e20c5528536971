-- ===== src/Request/Services.antt =====
-- service-request/service-request.service.ts: the calls that end a request.
use vz.Common.{ℕ, ltb, Bool, true, ◌&&◌, Option, List, [], ◌∷◌, if◌then◌else◌}
use vz.Common.Results.{Result, ok, ◌>>=◌, ◌>>◌, required, throw_if}
use vz.Shared.Errors.{plain}
use vz.Service.Queries.{has_been_cancelled}
use vz.Request.Moment.{Moment}
use vz.Request.Appointment.{is_expected_arrival_time_more_than_duration_from_now}
use vz.Request.Aggregate.{ServiceRequest, limit_or, cancel_by_customer}
use vz.Request.Progress.{expired_by_system}
use vz.Request.Saga.{Event, cancelled, failed, UserType}

-- What a call has saved, and what it publishes.
pub record Ended : Type 0 where
  pub service_request : ServiceRequest
  pub published : List Event

module _ (m : Moment) where
  -- `service.hasCustomerPaid` names a method, does not call it, and so is always there.
  unfoldable pub eligible : ℕ → ServiceRequest → Bool
  unfolding is_expected_arrival_time_more_than_duration_from_now
  eligible now sr =
      true
      && is_expected_arrival_time_more_than_duration_from_now m
          (limit_or sr.config.hour_limit_before_ec_reschedule_option_is_disabled 24) now
          sr.appointment

  -- What `cancel` saves and publishes after the cancellation.
  unfoldable pub ended : (later : ℕ) → (provider_id worker_id : Option ℕ) → ServiceRequest → Ended
  unfolding eligible
  ended later provider_id worker_id sr =
      let saved = record sr {
        service = record sr.service { eligible_for_refund = eligible later sr };
      } in
      record {
        service_request = saved;
        published =
            if has_been_cancelled saved.service
            then cancelled saved provider_id worker_id UserType.customer ∷ []
            else [];
      }

  -- `cancel`. The ids are those before the cancellation, and the clock is read twice.
  unfoldable pub cancel_request : (now later : ℕ) → ServiceRequest → Result Ended
  cancel_request now later sr = do
    provider ← required sr.service.provider
    dispatcher ← required provider.dispatcher
    worker ← required provider.worker
    sr' ← cancel_by_customer m now sr
    ok (ended later dispatcher.id worker.id sr')

-- `expire`, which also lets the assignments of the request expire.
unfoldable pub expire_request : ℕ → ServiceRequest → Ended
unfolding expired_by_system
expire_request now sr = record {
  service_request = expired_by_system now sr;
  published = failed (expired_by_system now sr) ∷ [];
}

-- `refund`: `existing` are the refunds of the request that are found.
unfoldable pub refund_request : (existing : ℕ) → ServiceRequest → Result Ended
refund_request existing sr = do
  throw_if (ltb 0 existing)
      (plain "Unable to refund the service request. The refund already processed")
  let saved = record sr { service = record sr.service { is_refunded = true } }
  ok (record { service_request = saved; published = failed saved ∷ [] })
