-- ===== src/Service/Tests.antt =====
-- Jobs at concrete inputs: one that is paid, taken, worked on and completed, one that is
-- cancelled, and one that nobody has taken.
use vz.Common.{◌≡◌, refl, true, false, some, none, [], ◌∷◌}
use vz.Common.Int.{pos}
use vz.Shared.Period.{Period}
use vz.Handling.{HandlingEventType, HandlingEvent, most_recently_completed_event}
use vz.Payment.{
  PaymentGatewayResponseStatus, PaymentPurposeCode, PaymentGatewayResponse, most_recent_response,
}
use vz.Service.Status.{ServiceStatus}
use vz.Service.Provider.{
  ServiceProvider, ServiceProviderType, Provider, create, agent_of, create_empty_provider,
}
use vz.Service.Build.{Service, build}
use vz.Service.Queries.{has_been_cancelled, next_handling_event_type}
use vz.Service.Operations.{
  derived_from, derived_from_handling_history, derived_from_payment_gateway_response_history,
  restart, reschedule, schedule_of, assign_to_dispatcher, allocate_to_worker, revoke,
}
use vz.Service.Invariant.{
  IsConsistent, Reach, here, next, fresh, responded, assigned_to, allocated_to, revoked,
  Reach-IsConsistent,
}
use vz.Service.Lifecycle.{worker_completes_job}
use vz.Service.Cancellation.{rebuild_forgets_cancellation}

abbrev event : HandlingEventType → HandlingEvent
event t = record {
  id = 1;
  created_at = 100;
  latitude = pos 0;
  longitude = pos 0;
  provider_worker_id = 8;
  service_request_id = 5;
  type = t;
}

abbrev paid : PaymentGatewayResponse
paid = record {
  id = 1;
  created_at = 50;
  reference_id = some 5;
  response_status = PaymentGatewayResponseStatus.succeeded;
  transaction_id = none;
  payment_id = none;
  payment_purpose_code = PaymentPurposeCode.fee;
}

abbrev dealer : ServiceProvider
dealer = record {
  id = 7;
  name = some "Dealer";
  phone = none;
  profile_picture = none;
  type = ServiceProviderType.dealer;
}

abbrev worker : ServiceProvider
worker = record dealer { id = 8; name = some "Worker"; type = ServiceProviderType.worker }

abbrev period : Period
period = record { start = 1000; end = 2000; timezone_offset = some (pos 8) }

abbrev staff : Provider
staff = record {
  dispatcher = some (agent_of dealer);
  worker = some (agent_of worker);
  schedule = some (schedule_of period);
}

abbrev assigned_job : Service
assigned_job =
    build none
      (some (record { dispatcher = some (agent_of dealer); worker = none; schedule = none }))
      (some paid) true none

abbrev allocated_job : Service
allocated_job = build none (some staff) (some paid) true none

allocated_job-Reach : Reach (fresh true) allocated_job
unfolding derived_from derived_from_payment_gateway_response_history assign_to_dispatcher
    allocate_to_worker create most_recent_response most_recently_completed_event build
    create_empty_provider
allocated_job-Reach =
    next (next (next here (responded (paid ∷ []))) (assigned_to dealer {t = assigned_job} refl))
      (allocated_to worker period refl)

abbrev failed_job : Service
failed_job = revoke true allocated_job

failed_job-Reach : Reach (fresh true) failed_job
failed_job-Reach = next allocated_job-Reach (revoked true)

Reach-IsConsistent_example : IsConsistent allocated_job
Reach-IsConsistent_example = Reach-IsConsistent true allocated_job-Reach

abbrev started_job : Service
started_job = derived_from_handling_history (event HandlingEventType.start ∷ []) allocated_job

abbrev progressing_job : Service
progressing_job =
    derived_from_handling_history (event HandlingEventType.in_progress ∷ []) started_job

abbrev completed_job : Service
completed_job = derived_from_handling_history (event HandlingEventType.fullfil ∷ []) progressing_job

worker_completes_job_example :
    (started_job.status ≡ ServiceStatus.started)
    × (progressing_job.status ≡ ServiceStatus.in_progress)
    × (completed_job.status ≡ ServiceStatus.fulfilled)
    × (completed_job.provider ≡ allocated_job.provider)
unfolding build derived_from_handling_history most_recently_completed_event next_handling_event_type
worker_completes_job_example =
    worker_completes_job allocated_job started_job progressing_job completed_job
      (event HandlingEventType.start ∷ []) (event HandlingEventType.in_progress ∷ [])
      (event HandlingEventType.fullfil ∷ []) (event HandlingEventType.start)
      (event HandlingEventType.in_progress) (event HandlingEventType.fullfil) refl refl refl refl
      refl refl refl refl refl refl

rebuild_forgets_cancellation_example :
    (has_been_cancelled (derived_from_payment_gateway_response_history (paid ∷ []) failed_job)
      ≡ false)
    × (has_been_cancelled (derived_from_handling_history [] failed_job) ≡ false)
    × (has_been_cancelled (restart failed_job) ≡ false)
    × (has_been_cancelled (reschedule failed_job) ≡ false)
rebuild_forgets_cancellation_example = rebuild_forgets_cancellation [] (paid ∷ []) failed_job
