-- ===== src/Dispatching/Releases.antt =====
-- What becomes of the dispatcher of a service request: he stays, or there is none.
use vz.Common.{ℕ, ◌≡◌, ◌⊎◌, inl, inr, refl, ap, Bool, true, false, Option, none, some, arith}
use vz.Common.Results.{ok}
use vz.Service.Provider.{ServiceProvider, create, create_empty_provider}
use vz.Service.Build.{Service, build}
use vz.Service.Operations as Job
use vz.Shared.Period.{Period}
use vz.Handling.{HandlingHistory}
use vz.Payment.{PaymentGatewayResponseHistory}
use vz.Request.Moment.{Moment}
use vz.Request.Appointment.{AppointmentConfig}
use vz.Request.Aggregate.{
  ServiceRequest, dispatcher_id, taken_by, assign_to_dispatcher, allocate_to_worker, cancel,
  cancel_by_customer,
}
use vz.Request.Guards.{assign_to_dispatcher-ok}
use vz.Request.Orders.{reschedule_service_request, surcharge_responded}
use vz.Request.Reschedules.{reschedule_service_request_lem}
use vz.Request.Consistency.{surcharge_responded-service}
use vz.Request.Work.{derive_service_progress}
use vz.Request.Progress.{
  derive_customer_payment_progress, derive_customer_reschedule_surcharge_payment_progress,
  expired_by_system, revoke, restart,
}

-- The dispatcher of the second is that of the first, or there is none.
abbrev pub Releases : Service → Service → Type 0
Releases s t = (dispatcher_id t ≡ dispatcher_id s) ⊎ (dispatcher_id t ≡ none)

taken_by-dispatcher :
    (p : ServiceProvider) (period : Period) (s u : Service)
    → taken_by p period s ≡ ok u
    → dispatcher_id u ≡ some p.id
unfolding taken_by Job.assign_to_dispatcher Job.allocate_to_worker create build
taken_by-dispatcher p period s u e = ground arith

allocate_to_worker-Releases :
    (p : ServiceProvider) (period : Period) (s u : Service)
    → Job.allocate_to_worker p period s ≡ ok u
    → Releases s u
unfolding Job.allocate_to_worker create build
allocate_to_worker-Releases p period s u e = inl (ground arith)

cancel-Releases :
    (p : Option ServiceProvider) (s u : Service) → Job.cancel p s ≡ ok u → Releases s u
unfolding Job.cancel Job.terminate_provider create_empty_provider build
cancel-Releases none s u e = cc
cancel-Releases (some p) s u e = inr (ground arith)

revoke-Releases : (failed : Bool) (s : Service) → Releases s (Job.revoke failed s)
unfolding Job.revoke Job.mark_failed Job.terminate_provider create_empty_provider build
revoke-Releases true s = inl refl
revoke-Releases false s = inr refl

cancel_by_customer-Releases : (s : Service) → Releases s (Job.cancel_by_customer s)
unfolding Job.cancel_by_customer Job.terminate_provider create_empty_provider build
cancel_by_customer-Releases s = inr refl

reschedule-Releases : (s : Service) → Releases s (Job.reschedule s)
unfolding Job.reschedule Job.terminate_provider create_empty_provider build
reschedule-Releases s = inr refl

pub revoked-Releases :
    (mark_as_failed : Bool) (now : ℕ) (sr : ServiceRequest)
    → Releases sr.service (revoke mark_as_failed now sr).service
unfolding revoke
revoked-Releases true now sr = revoke-Releases true sr.service
revoked-Releases false now sr = revoke-Releases false sr.service

pub restarted-Releases : (sr : ServiceRequest) → Releases sr.service (restart sr).service
unfolding restart Job.restart build
restarted-Releases sr = inr refl

module _ (m : Moment) where
  pub assign_to_dispatcher-dispatcher :
      (p : ServiceProvider) (sr t : ServiceRequest)
      → assign_to_dispatcher m p sr ≡ ok t
      → dispatcher_id t.service ≡ some p.id
  assign_to_dispatcher-dispatcher p sr t e =
      taken_by-dispatcher p sr.appointment.service_schedule sr.service t.service
        (assign_to_dispatcher-ok m p sr t e).3

  pub allocated-Releases :
      (worker dealer : ServiceProvider) (sr t : ServiceRequest)
      → allocate_to_worker m worker dealer sr ≡ ok t
      → Releases sr.service t.service
  unfolding allocate_to_worker
  allocated-Releases worker dealer sr t e =
      let made : Job.allocate_to_worker worker sr.appointment.service_schedule sr.service
          ≡ ok t.service =
        ground arith in
      allocate_to_worker-Releases worker sr.appointment.service_schedule sr.service t.service made

  pub withdrawn-Releases :
      (p : Option ServiceProvider) (now : ℕ) (sr t : ServiceRequest)
      → cancel m p now sr ≡ ok t
      → Releases sr.service t.service
  unfolding cancel
  withdrawn-Releases p now sr t e =
      let made : Job.cancel p sr.service ≡ ok t.service = ground arith in
      cancel-Releases p sr.service t.service made

  -- What else happens to a request.
  pub data Change (sr : ServiceRequest) : ServiceRequest → Type 0 where
    called_off : (now : ℕ) {t : ServiceRequest} → cancel_by_customer m now sr ≡ ok t → Change sr t
    moved :
        (factory : AppointmentConfig) (arrival : Period) (now : ℕ) {t : ServiceRequest}
        → reschedule_service_request m factory arrival now sr ≡ ok t
        → Change sr t
    surcharge :
        (factory : AppointmentConfig) (history : PaymentGatewayResponseHistory) (now : ℕ)
        {t : ServiceRequest}
        → surcharge_responded m factory history now sr ≡ ok (some t)
        → Change sr t
    worked :
        (history : HandlingHistory) (now : ℕ) → Change sr (derive_service_progress history now sr)
    paid :
        (history : PaymentGatewayResponseHistory) (now : ℕ)
        → Change sr (derive_customer_payment_progress history now sr)
    surcharge_paid :
        (history : PaymentGatewayResponseHistory)
        → Change sr (derive_customer_reschedule_surcharge_payment_progress history sr)
    timed_out : (now : ℕ) → Change sr (expired_by_system now sr)

  called_off-Releases :
      (now : ℕ) (sr t : ServiceRequest)
      → cancel_by_customer m now sr ≡ ok t
      → Releases sr.service t.service
  unfolding cancel_by_customer
  called_off-Releases now sr t e =
      let made : t.service ≡ Job.cancel_by_customer sr.service = ground arith in
      rw made (cancel_by_customer-Releases sr.service)

  pub Change-Releases : {sr t : ServiceRequest} → Change sr t → Releases sr.service t.service
  unfolding derive_service_progress derive_customer_payment_progress expired_by_system
      derive_customer_reschedule_surcharge_payment_progress Job.derived_from_handling_history
      Job.derived_from_payment_gateway_response_history Job.expired_by_system create_empty_provider
      build
  Change-Releases {sr = sr} {t = t} (called_off now e) = called_off-Releases now sr t e
  Change-Releases {sr = sr} {t = t} (moved f a now e) =
      elim (reschedule_service_request_lem m f a now sr t e).0 [
        | inl kept ↦ inl (ap dispatcher_id kept.0)
        | inr done ↦ rw done.0 (reschedule-Releases sr.service)
      ]
  Change-Releases {sr = sr} {t = t} (surcharge f h now e) =
      rw (surcharge_responded-service m f h now sr t e) (reschedule-Releases sr.service)
  Change-Releases (worked h now) = inl refl
  Change-Releases (paid h now) = inl refl
  Change-Releases (surcharge_paid h) = inl refl
  Change-Releases (timed_out now) = inr refl
