-- ===== src/Dispatching/Reachable.antt =====
-- The life of offers: of each service request, only one provider's are accepted.
use mathlib.Core.Path.{subst}
use vz.Common.{ℕ, ◌≡◌, refl, sym, ap, Option, [], ◌∷◌, ◌++◌}
use vz.Common.Int.{ℤ}
use vz.Common.Results.{ok}
use vz.Request.Moment.{Moment}
use vz.Request.Aggregate.{ServiceRequest}
use vz.Dispatching.{AssignmentInput, Tables, create_assignment}
use vz.Dispatching.Events.{
  is_of, expire_job_assignment, service_request_cancelled, service_request_revoked,
  service_request_rescheduled, service_request_allocated, service_request_fulfilled,
}
use vz.Dispatching.Assignments.{
  Answers, Taken, accept_new_dispatched_job, manually_assign_job_to_provider,
}
use vz.Dispatching.Exclusive.{
  IsExclusive, set_assignments-IsExclusive, settle_assignments-IsExclusive, offered-IsExclusive,
  taken-IsExclusive,
}
use vz.Dispatching.Assignments.{manual_input}
use vz.Dispatching.Acceptance.{accept-ok, accepted_by-ok, manual-found, manually_assigned_to-ok}

module _ (m : Moment) where
  -- What happens to the tables: offers, acceptances, assignments by an operator, and the events of
  -- a service request.
  pub data Step (t : Tables) : Tables → Type 0 where
    offered :
        (seconds_from_now : ℤ → ℕ) (input : AssignmentInput)
        → Step t (record t {
          assignments = t.assignments ++ (create_assignment seconds_from_now input ∷ []);
        })
    accepted :
        (id : ℕ) (sr : Option ServiceRequest) (q : Answers) {r : Taken}
        → accept_new_dispatched_job m id sr q t ≡ ok r
        → Step t r.tables
    assigned :
        (seconds_from_now : ℤ → ℕ) (id : ℕ) (sr : Option ServiceRequest) (q : Answers) {r : Taken}
        → manually_assign_job_to_provider m seconds_from_now id sr q t ≡ ok r
        → Step t r.tables
    expired : (id : ℕ) → Step t (expire_job_assignment id t)
    cancelled : (id : ℕ) → Step t (service_request_cancelled id t)
    revoked : (id : ℕ) → Step t (service_request_revoked id t)
    rescheduled : (id : ℕ) (p : Option ℕ) → Step t (service_request_rescheduled id p t)
    allocated : (id worker : ℕ) → Step t (service_request_allocated id worker t)
    fulfilled : (id worker : ℕ) → Step t (service_request_fulfilled id worker t)

  pub data Reach : Tables → Type 0 where
    start : Reach (record { assignments = []; appointments = [] })
    next : {t u : Tables} → Reach t → Step t u → Reach u

  Step-IsExclusive : {t u : Tables} → Step t u → IsExclusive t → IsExclusive u
  unfolding expire_job_assignment service_request_cancelled service_request_revoked
      service_request_rescheduled service_request_allocated service_request_fulfilled
  Step-IsExclusive {t = t} (offered seconds_from_now input) h =
      offered-IsExclusive seconds_from_now input t h
  Step-IsExclusive {t = t} (accepted id sr q {r = r} e) h =
      let (found, sp, is_found, is_sp, by) = accept-ok m id sr q t r e in
      let (sr', given, made) = accepted_by-ok m id found sp q t r by in
      subst IsExclusive (sym (ap (λ x. x.tables) made))
        (taken-IsExclusive id sp.id sr' _ (settle_assignments-IsExclusive id sp.id t h))
  Step-IsExclusive {t = t} (assigned seconds_from_now id sr q {r = r} e) h =
      let (found, sp0, by) = manual-found m seconds_from_now id sr q t r e in
      let (sp, sr', given, made) =
        manually_assigned_to-ok m seconds_from_now id found sp0 q t r by in
      subst IsExclusive (sym (ap (λ x. x.tables) made)) (
        taken-IsExclusive id sp.id sr' _ (
          settle_assignments-IsExclusive id sp.id _
            (offered-IsExclusive seconds_from_now (manual_input id sp.id) t h)))
  Step-IsExclusive {t = t} (expired id) h = set_assignments-IsExclusive _ _ t refl h
  Step-IsExclusive {t = t} (cancelled id) h = set_assignments-IsExclusive (is_of id) _ t refl h
  Step-IsExclusive {t = t} (revoked id) h = set_assignments-IsExclusive (is_of id) _ t refl h
  Step-IsExclusive {t = t} (rescheduled id p) h = set_assignments-IsExclusive (is_of id) _ t refl h
  Step-IsExclusive (allocated id worker) h = h
  Step-IsExclusive (fulfilled id worker) h = h

  -- After any sequence of offers, acceptances, assignments by an operator, expiries,
  -- cancellations, revocations, reschedules, allocations and completions: the accepted offers of
  -- each service request are all of one provider.
  pub Reach-IsExclusive : {t : Tables} → Reach t → IsExclusive t
  Reach-IsExclusive start = λ id. (0, tt)
  Reach-IsExclusive (next r s) = Step-IsExclusive s (Reach-IsExclusive r)
