-- ===== src/Request/Endings.antt =====
-- What is saved and what follows when a request is cancelled by its customer.
use vz.Common.{ap, ℕ, ◌+◌, ◌*◌, ◌≤◌, ◌≡◌, ◌↔◌, refl, sym, ◌∙◌, true, some, [], ◌∷◌}
use vz.Common.Results.{ok, ◌>>◌, >>-eq-ok, >>=-eq-ok}
use vz.Service.Status.{ServiceStatus}
use vz.Service.Provider.{Agent, Provider, create_empty_provider}
use vz.Service.Build.{build}
use vz.Service.Operations as Job
use vz.Request.Moment.{Moment, IsMoment}
use vz.Request.Aggregate.{ServiceRequest, limit_or, cancel_by_customer, validate_allow_ec_cancel}
use vz.Request.Guards.{more_than-hours}
use vz.Request.Saga.{cancelled, UserType}
use vz.Request.Services.{Ended, eligible, ended, cancel_request}

module _ (m : Moment) where
  eligible_iff :
      (later : ℕ) (sr : ServiceRequest)
      → IsMoment m
      → later ≤ sr.appointment.expected_arrival_period.start
      → (eligible m later sr ≡ true) ↔ (
          later + limit_or sr.config.hour_limit_before_ec_reschedule_option_is_disabled 24 * 3600000
          ≤ sr.appointment.expected_arrival_period.start)
  unfolding eligible
  eligible_iff later sr laws ahead =
      more_than-hours m (limit_or sr.config.hour_limit_before_ec_reschedule_option_is_disabled 24)
        later sr laws ahead

  abbrev cancelled_at : ℕ → ServiceRequest → ServiceRequest
  cancelled_at now sr = record sr {
    service = Job.cancel_by_customer sr.service;
    transitioned_at = some now;
  }

  cancel_by_customer-eq :
      (now : ℕ) (sr t : ServiceRequest)
      → cancel_by_customer m now sr ≡ ok t
      → cancel_by_customer m now sr ≡ ok (cancelled_at now sr)
  unfolding cancel_by_customer
  cancel_by_customer-eq now sr t done =
      done ∙ sym (>>-eq-ok (validate_allow_ec_cancel m now sr) _ done)

  cancel_request-eq :
      (now later : ℕ) (sr t : ServiceRequest) (p : Provider) (dispatcher worker : Agent)
      → sr.service.provider ≡ some p
      → p.dispatcher ≡ some dispatcher
      → p.worker ≡ some worker
      → cancel_by_customer m now sr ≡ ok t
      → cancel_request m now later sr
        ≡ ok (ended m later dispatcher.id worker.id (cancelled_at now sr))
  unfolding cancel_request
  cancel_request-eq now later sr t p dispatcher worker e1 e2 e3 done =
      rw (cancel_by_customer-eq now sr t done) (simp (e1, e2, e3))

  -- The same request, with another limit for refunds.
  abbrev pub with_refund_limit : ℕ → ServiceRequest → ServiceRequest
  with_refund_limit limit sr = record sr {
    config = record sr.config { hour_limit_ec_eligible_for_refund = limit };
  }

  cancel_by_customer-limit :
      (limit now : ℕ) (sr t : ServiceRequest)
      → cancel_by_customer m now sr ≡ ok t
      → cancel_by_customer m now (with_refund_limit limit sr)
        ≡ ok (cancelled_at now (with_refund_limit limit sr))
  unfolding cancel_by_customer validate_allow_ec_cancel
  cancel_by_customer-limit limit now sr t done =
      let (u, allowed, e) = >>=-eq-ok (validate_allow_ec_cancel m now sr) _ done in
      ap (λ v. v >> ok (cancelled_at now (with_refund_limit limit sr))) allowed

  -- A customer who may cancel a request does so: it is saved as cancelled by the customer, its
  -- dispatcher and worker are those that the event names, and a refund is due exactly when the
  -- arrival is at least the hours of the limit for reschedules away (24 where none is set). The limit
  -- that the configuration has for refunds makes no difference: with any other, the same is due.
  pub cancel_request_lem :
      (now later limit : ℕ) (sr t : ServiceRequest) (p : Provider) (dispatcher worker : Agent)
      → IsMoment m
      → later ≤ sr.appointment.expected_arrival_period.start
      → sr.service.provider ≡ some p
      → p.dispatcher ≡ some dispatcher
      → p.worker ≡ some worker
      → cancel_by_customer m now sr ≡ ok t
      → (r r' : Ended) × (cancel_request m now later sr ≡ ok r)
        × (cancel_request m now later (with_refund_limit limit sr) ≡ ok r')
        × (r.service_request.service.status ≡ ServiceStatus.cancelled_by_customer)
        × ((r.service_request.service.eligible_for_refund ≡ true) ↔ (
            later
              + limit_or sr.config.hour_limit_before_ec_reschedule_option_is_disabled 24 * 3600000
            ≤ sr.appointment.expected_arrival_period.start))
        × (r'.service_request.service.eligible_for_refund
            ≡ r.service_request.service.eligible_for_refund)
        × (r.published ≡ cancelled r.service_request dispatcher.id worker.id UserType.customer ∷ [])
  unfolding ended eligible Job.cancel_by_customer Job.terminate_provider build create_empty_provider
  cancel_request_lem now later limit sr t p dispatcher worker laws ahead e1 e2 e3 done = (
    ended m later dispatcher.id worker.id (cancelled_at now sr),
    ended m later dispatcher.id worker.id (cancelled_at now (with_refund_limit limit sr)),
    cancel_request-eq now later sr t p dispatcher worker e1 e2 e3 done,
    cancel_request-eq now later (with_refund_limit limit sr)
        (cancelled_at now (with_refund_limit limit sr)) p dispatcher worker e1 e2 e3
        (cancel_by_customer-limit limit now sr t done),
    refl,
    eligible_iff later (cancelled_at now sr) laws ahead,
    refl,
    refl,
  )
