-- ===== src/Request/Consistency.antt =====
-- The job of a service request stays consistent, whatever the request goes through.
use vz.Common.{ℕ, ◌≡◌, Bool, true, false, Option, some, arith, inl, inr, Bool-cases}
use vz.Common.Results.{ok, >>=-eq-ok, ok-injective}
use vz.Shared.Period.{Period}
use vz.Handling.{HandlingHistory}
use vz.Payment.{PaymentGatewayResponseHistory}
use vz.Service.Provider.{ServiceProvider, is_independent}
use vz.Service.Build.{Service}
use vz.Service.Operations as Job
use vz.Service.Invariant.{
  IsConsistent, Step-IsConsistent, fresh, handled, responded, restarted, assigned_to, allocated_to,
  cancelled, cancelled_by_customer, revoked, rescheduled, expired, here, Reach-IsConsistent,
}
use vz.Request.Moment.{Moment}
use vz.Request.Appointment.{AppointmentConfig}
use vz.Request.Aggregate.{
  ServiceRequest, cancel, cancel_by_customer, allocate_to_worker, assign_to_dispatcher, taken_by,
}
use vz.Request.Orders.{reschedule_service_request, surcharge_responded}
use vz.Request.Reschedules.{reschedule_service_request_lem}
use vz.Request.Guards.{assign_to_dispatcher-ok}
use vz.Request.Work.{derive_service_progress}
use vz.Request.Progress.{
  revoke, expired_by_system, restart, derive_customer_payment_progress,
  derive_customer_reschedule_surcharge_payment_progress,
}

module _ (m : Moment) where
  pub data Change (sr : ServiceRequest) : ServiceRequest → Type 0 where
    assigned :
        (p : ServiceProvider) {t : ServiceRequest}
        → assign_to_dispatcher m p sr ≡ ok t
        → Change sr t
    allocated :
        (worker dealer : ServiceProvider) {t : ServiceRequest}
        → allocate_to_worker m worker dealer sr ≡ ok t
        → Change sr t
    withdrawn :
        (p : Option ServiceProvider) (now : ℕ) {t : ServiceRequest}
        → cancel m p now sr ≡ ok t
        → Change sr t
    called_off : (now : ℕ) {t : ServiceRequest} → cancel_by_customer m now sr ≡ ok t → Change sr t
    moved :
        (factory : AppointmentConfig) (arrival : Period) (now : ℕ) {t : ServiceRequest}
        → reschedule_service_request m factory arrival now sr ≡ ok t
        → Change sr t
    surcharge :
        (factory : AppointmentConfig) (history : PaymentGatewayResponseHistory) (now : ℕ)
        {t : ServiceRequest}
        → surcharge_responded m factory history now sr ≡ ok (some t)
        → Change sr t
    worked :
        (history : HandlingHistory) (now : ℕ) → Change sr (derive_service_progress history now sr)
    paid :
        (history : PaymentGatewayResponseHistory) (now : ℕ)
        → Change sr (derive_customer_payment_progress history now sr)
    surcharge_paid :
        (history : PaymentGatewayResponseHistory)
        → Change sr (derive_customer_reschedule_surcharge_payment_progress history sr)
    withdrawn_by_operator :
        (mark_as_failed : Bool) (now : ℕ) → Change sr (revoke mark_as_failed now sr)
    timed_out : (now : ℕ) → Change sr (expired_by_system now sr)
    reopened : Change sr (restart sr)

  pub data History (start : ServiceRequest) : ServiceRequest → Type 0 where
    created : History start start
    changed : {s t : ServiceRequest} → History start s → Change s t → History start t

  taken_by-IsConsistent :
      (p : ServiceProvider) (d : Period) (s u : Service)
      → taken_by p d s ≡ ok u
      → IsConsistent s
      → IsConsistent u
  unfolding taken_by
  taken_by-IsConsistent p d s u e c =
      let (v, first, e') = >>=-eq-ok (Job.assign_to_dispatcher p s) _ e in
      let c' = Step-IsConsistent (assigned_to p first) c in
      elim (Bool-cases (is_independent p)) [
        | inl own ↦ Step-IsConsistent (allocated_to p d (rw own at e')) c'
        | inr dealer ↦ rw (← ok-injective (rw dealer at e')) c'
      ]

  allocate_to_worker-IsConsistent :
      (worker dealer : ServiceProvider) (sr t : ServiceRequest)
      → allocate_to_worker m worker dealer sr ≡ ok t
      → IsConsistent sr.service
      → IsConsistent t.service
  unfolding allocate_to_worker
  allocate_to_worker-IsConsistent worker dealer sr t e c =
      let made : Job.allocate_to_worker worker sr.appointment.service_schedule sr.service
          ≡ ok t.service =
        ground arith in
      Step-IsConsistent (allocated_to worker sr.appointment.service_schedule made) c

  cancel-IsConsistent :
      (p : Option ServiceProvider) (now : ℕ) (sr t : ServiceRequest)
      → cancel m p now sr ≡ ok t
      → IsConsistent sr.service
      → IsConsistent t.service
  unfolding cancel
  cancel-IsConsistent p now sr t e c =
      let made : Job.cancel p sr.service ≡ ok t.service = ground arith in
      Step-IsConsistent (cancelled p made) c

  cancel_by_customer-IsConsistent :
      (now : ℕ) (sr t : ServiceRequest)
      → cancel_by_customer m now sr ≡ ok t
      → IsConsistent sr.service
      → IsConsistent t.service
  unfolding cancel_by_customer
  cancel_by_customer-IsConsistent now sr t e c =
      let made : t.service ≡ Job.cancel_by_customer sr.service = ground arith in
      rw made (Step-IsConsistent cancelled_by_customer c)

  pub surcharge_responded-service :
      (factory : AppointmentConfig) (history : PaymentGatewayResponseHistory) (now : ℕ)
      (sr t : ServiceRequest)
      → surcharge_responded m factory history now sr ≡ ok (some t)
      → t.service ≡ Job.reschedule sr.service
  unfolding surcharge_responded
  surcharge_responded-service factory history now sr t e = ground arith

  refundable-IsConsistent :
      (s : Service) → IsConsistent s → IsConsistent (record s { eligible_for_refund = true })
  refundable-IsConsistent s c = record {
    staffed = c.staffed;
    action = c.action;
    idle_if = c.idle_if;
    idle_only = c.idle_only;
    open_if = c.open_if;
    open_only = c.open_only;
    assigned = c.assigned;
    allocated = c.allocated;
    paid = c.paid;
    unpaid = c.unpaid;
    released = c.released;
    worked = c.worked;
  }

  revoke-IsConsistent :
      (mark_as_failed : Bool) (now : ℕ) (sr : ServiceRequest)
      → IsConsistent sr.service
      → IsConsistent (revoke mark_as_failed now sr).service
  unfolding revoke
  revoke-IsConsistent true now sr c =
      refundable-IsConsistent (Job.revoke true sr.service) (Step-IsConsistent (revoked true) c)
  revoke-IsConsistent false now sr c = Step-IsConsistent (revoked false) c

  moved-IsConsistent :
      (factory : AppointmentConfig) (arrival : Period) (now : ℕ) (sr t : ServiceRequest)
      → reschedule_service_request m factory arrival now sr ≡ ok t
      → IsConsistent sr.service
      → IsConsistent t.service
  moved-IsConsistent factory arrival now sr t e c =
      elim (reschedule_service_request_lem m factory arrival now sr t e).0 [
        | inl kept ↦ rw kept.0 c
        | inr done ↦ rw done.0 (Step-IsConsistent rescheduled c)
      ]

  Change-IsConsistent :
      {sr t : ServiceRequest} → Change sr t → IsConsistent sr.service → IsConsistent t.service
  unfolding derive_service_progress derive_customer_payment_progress expired_by_system restart
      derive_customer_reschedule_surcharge_payment_progress
  Change-IsConsistent {sr = sr} {t = t} (assigned p e) c =
      taken_by-IsConsistent p sr.appointment.service_schedule sr.service t.service
        (assign_to_dispatcher-ok m p sr t e).3 c
  Change-IsConsistent {sr = sr} {t = t} (allocated w d e) c =
      allocate_to_worker-IsConsistent w d sr t e c
  Change-IsConsistent {sr = sr} {t = t} (withdrawn p now e) c = cancel-IsConsistent p now sr t e c
  Change-IsConsistent {sr = sr} {t = t} (called_off now e) c =
      cancel_by_customer-IsConsistent now sr t e c
  Change-IsConsistent {sr = sr} {t = t} (moved f a now e) c = moved-IsConsistent f a now sr t e c
  Change-IsConsistent {sr = sr} {t = t} (surcharge f h now e) c =
      rw (surcharge_responded-service f h now sr t e) (Step-IsConsistent rescheduled c)
  Change-IsConsistent (worked h now) c = Step-IsConsistent (handled h) c
  Change-IsConsistent (paid h now) c = Step-IsConsistent (responded h) c
  Change-IsConsistent (surcharge_paid h) c = Step-IsConsistent (responded h) c
  Change-IsConsistent {sr = sr} (withdrawn_by_operator b now) c = revoke-IsConsistent b now sr c
  Change-IsConsistent (timed_out now) c = Step-IsConsistent expired c
  Change-IsConsistent reopened c = Step-IsConsistent restarted c

  -- A service request whose job was new, after any sequence of assignments, allocations,
  -- cancellations, reschedules, surcharge payments, reports of work, payments, revocations,
  -- expiries and restarts that succeeded: its job is consistent.
  pub History-IsConsistent :
      (is_prepaid : Bool) {start sr : ServiceRequest}
      → start.service ≡ fresh is_prepaid
      → History start sr
      → IsConsistent sr.service
  History-IsConsistent b new created = rw new (Reach-IsConsistent b here)
  History-IsConsistent b new (changed h c) = Change-IsConsistent c (History-IsConsistent b new h)
