-- ===== src/Dispatching/Desks.antt =====
-- A service request together with the offers: the commands of dispatching and what else happens to
-- the request, in any order with the handlers of events.
use mathlib.Core.Path.{subst}
use vz.Common.{
  ℕ, ◌≡◌, inl, inr, refl, sym, ap, Bool, Option, none, some, [], ◌∷◌, ◌++◌, All, All-append, arith,
  Bool-cases, chain,
}
use vz.Common.Int.{ℤ}
use vz.Common.Results.{ok, required, >>=-eq-ok, ok-injective}
use vz.Service.Provider.{ServiceProvider}
use vz.Service.Queries.{is_allocated_to}
use vz.Request.Moment.{Moment}
use vz.Request.Aggregate.{ServiceRequest, dispatcher_id, allocate_to_worker, cancel}
use vz.Request.Progress.{restart}
use vz.Dispatching.{AssignmentInput, Tables, create_assignment}
use vz.Dispatching.Events.{
  is_of, expire_job_assignment, service_request_cancelled, service_request_revoked,
  service_request_rescheduled, service_request_allocated, service_request_fulfilled,
}
use vz.Dispatching.Assignments.{
  Answers, Taken, accept_new_dispatched_job, manually_assign_job_to_provider,
}
use vz.Dispatching.Acceptance.{accept-ok, accepted_by-ok, manual-found, manually_assigned_to-ok}
use vz.Dispatching.Commands.{
  Commanded, AutoAssignmentSetting, Initiated, allocate_job_to_worker, cancel_job, revoke_job,
  initiate_auto_assignment,
}
use vz.Dispatching.Releases.{
  Releases, Change, Change-Releases, assign_to_dispatcher-dispatcher, allocated-Releases,
  withdrawn-Releases, revoked-Releases, restarted-Releases,
}
use vz.Dispatching.Agreement.{
  IsFor, IsAgreed, released-IsAgreed, set_assignments-IsAgreed, taken-IsAgreed,
}

-- The request with the id that is fixed below, and the tables.
pub record Desk : Type 0 where
  pub service_request : ServiceRequest
  pub tables : Tables

module _ (m : Moment) (id : ℕ) where
  -- Each event is handled at any time, or more than once.
  pub data Turn (d : Desk) : Desk → Type 0 where
    offered :
        (seconds_from_now : ℤ → ℕ) (input : AssignmentInput)
        → Turn d (record d {
          tables = record d.tables {
            assignments = d.tables.assignments ++ (create_assignment seconds_from_now input ∷ []);
          };
        })
    expired : Turn d (record d { tables = expire_job_assignment id d.tables })
    heard_cancelled : Turn d (record d { tables = service_request_cancelled id d.tables })
    heard_revoked : Turn d (record d { tables = service_request_revoked id d.tables })
    heard_rescheduled :
        (p : Option ℕ) → Turn d (record d { tables = service_request_rescheduled id p d.tables })
    heard_allocated :
        (worker : ℕ) → Turn d (record d { tables = service_request_allocated id worker d.tables })
    heard_fulfilled :
        (worker : ℕ) → Turn d (record d { tables = service_request_fulfilled id worker d.tables })
    accepted :
        (q : Answers) {r : Taken}
        → accept_new_dispatched_job m id (some d.service_request) q d.tables ≡ ok r
        → Turn d (record { service_request = r.service_request; tables = r.tables })
    assigned :
        (seconds_from_now : ℤ → ℕ) (q : Answers) {r : Taken}
        → manually_assign_job_to_provider m seconds_from_now id (some d.service_request) q d.tables
          ≡ ok r
        → Turn d (record { service_request = r.service_request; tables = r.tables })
    allocated :
        (dealer worker : Option ServiceProvider) {r : Commanded}
        → allocate_job_to_worker m id (some d.service_request) dealer worker d.tables ≡ ok r
        → Turn d (record { service_request = r.service_request; tables = r.tables })
    cancelled :
        (provider : Option ServiceProvider) (now : ℕ) {r : Commanded}
        → cancel_job m (some d.service_request) provider now d.tables ≡ ok r
        → Turn d (record { service_request = r.service_request; tables = r.tables })
    revoked :
        (mark_as_failed : Bool) (now : ℕ) {r : Commanded}
        → revoke_job mark_as_failed now (some d.service_request) d.tables ≡ ok r
        → Turn d (record { service_request = r.service_request; tables = r.tables })
    initiated :
        (setting : Option AutoAssignmentSetting) {r : Initiated}
        → initiate_auto_assignment id setting (some d.service_request) ≡ some r
        → Turn d (record d { service_request = r.service_request })
    changed :
        {sr : ServiceRequest}
        → Change m d.service_request sr
        → Turn d (record d { service_request = sr })

  pub data Turns (start : Desk) : Desk → Type 0 where
    opened : Turns start start
    afterwards : {d e : Desk} → Turns start d → Turn d e → Turns start e

  allocated-lem :
      (dealer worker : Option ServiceProvider) (sr : ServiceRequest) (t : Tables) (r : Commanded)
      → allocate_job_to_worker m id (some sr) dealer worker t ≡ ok r
      → Releases sr.service r.service_request.service × (r.tables.assignments ≡ t.assignments)
  unfolding allocate_job_to_worker
  allocated-lem none worker sr t r e = cc
  allocated-lem (some dealer) none sr t r e = cc
  allocated-lem (some dealer) (some worker) sr t r e =
      elim (Bool-cases (is_allocated_to sr.service worker.id)) [
        | inl already ↦
            let made = sym (ok-injective (rw (already, allocate_job_to_worker) at e)) in
            (
              inl (ap (λ x. dispatcher_id x.service_request.service) made),
              ap (λ x. x.tables.assignments) made,
            )
        | inr new ↦
            let (sr', given, e') =
              >>=-eq-ok (allocate_to_worker m worker dealer sr) _
                (rw (new, allocate_job_to_worker) at e) in
            let made = sym (ok-injective e') in
            (
              subst (λ x. Releases sr.service x.service) (sym (ap (λ x. x.service_request) made))
                  (allocated-Releases m worker dealer sr sr' given),
              ap (λ x. x.tables.assignments) made,
            )
      ]

  cancelled-lem :
      (provider : Option ServiceProvider) (now : ℕ) (sr : ServiceRequest) (t : Tables)
      (r : Commanded)
      → cancel_job m (some sr) provider now t ≡ ok r
      → Releases sr.service r.service_request.service × (r.tables ≡ t)
  unfolding cancel_job
  cancelled-lem none now sr t r e = cc
  cancelled-lem (some provider) now sr t r e =
      let (sr', gone, e') = >>=-eq-ok (cancel m (some provider) now sr) _ e in
      let made = sym (ok-injective e') in
      (
        subst (λ x. Releases sr.service x.service) (sym (ap (λ x. x.service_request) made))
            (withdrawn-Releases m (some provider) now sr sr' gone),
        ap (λ x. x.tables) made,
      )

  revoked-lem :
      (mark_as_failed : Bool) (now : ℕ) (sr : ServiceRequest) (t : Tables) (r : Commanded)
      → revoke_job mark_as_failed now (some sr) t ≡ ok r
      → Releases sr.service r.service_request.service × (r.tables ≡ t)
  unfolding revoke_job
  revoked-lem mark_as_failed now sr t r e =
      let (dispatcher, there, e') =
        >>=-eq-ok (required (chain sr.service.provider (λ p. p.dispatcher))) _ e in
      let made = sym (ok-injective e') in
      (
        subst (λ x. Releases sr.service x.service) (sym (ap (λ x. x.service_request) made))
            (revoked-Releases mark_as_failed now sr),
        ap (λ x. x.tables) made,
      )

  initiated-lem :
      (setting : Option AutoAssignmentSetting) (sr : ServiceRequest) (r : Initiated)
      → initiate_auto_assignment id setting (some sr) ≡ some r
      → Releases sr.service r.service_request.service
  unfolding initiate_auto_assignment
  initiated-lem setting sr r e =
      let made : r.service_request ≡ restart sr = ground arith in
      subst (λ x. Releases sr.service x.service) (sym made) (restarted-Releases sr)

  Turn-IsAgreed :
      {d e : Desk}
      → Turn d e
      → IsAgreed id d.service_request d.tables
      → IsAgreed id e.service_request e.tables
  unfolding expire_job_assignment service_request_cancelled service_request_revoked
      service_request_rescheduled service_request_allocated service_request_fulfilled
      create_assignment
  Turn-IsAgreed {d = d} (offered seconds_from_now input) h =
      All-append (IsFor id (dispatcher_id d.service_request.service)) d.tables.assignments _ h
        (inl (ground arith), tt)
  Turn-IsAgreed {d = d} expired h =
      set_assignments-IsAgreed id d.service_request _ _ d.tables refl h
  Turn-IsAgreed {d = d} heard_cancelled h =
      set_assignments-IsAgreed id d.service_request (is_of id) _ d.tables refl h
  Turn-IsAgreed {d = d} heard_revoked h =
      set_assignments-IsAgreed id d.service_request (is_of id) _ d.tables refl h
  Turn-IsAgreed {d = d} (heard_rescheduled p) h =
      set_assignments-IsAgreed id d.service_request (is_of id) _ d.tables refl h
  Turn-IsAgreed (heard_allocated worker) h = h
  Turn-IsAgreed (heard_fulfilled worker) h = h
  Turn-IsAgreed {d = d} (accepted q {r = r} e) h =
      let (found, sp, is_found, is_sp, by) =
        accept-ok m id (some d.service_request) q d.tables r e in
      let (sr, given, made) = accepted_by-ok m id found sp q d.tables r by in
      taken-IsAgreed id sp.id sr d.tables r (assign_to_dispatcher-dispatcher m sp found sr given)
        made
  Turn-IsAgreed {d = d} (assigned seconds_from_now q {r = r} e) h =
      let (found, sp0, by) =
        manual-found m seconds_from_now id (some d.service_request) q d.tables r e in
      let (sp, sr, given, made) =
        manually_assigned_to-ok m seconds_from_now id found sp0 q d.tables r by in
      taken-IsAgreed id sp.id sr _ r (assign_to_dispatcher-dispatcher m sp found sr given) made
  Turn-IsAgreed {d = d} (allocated dealer worker {r = r} e) h =
      let (released, same) = allocated-lem dealer worker d.service_request d.tables r e in
      subst (All (IsFor id (dispatcher_id r.service_request.service))) (sym same)
        (released-IsAgreed id d.service_request r.service_request d.tables released h)
  Turn-IsAgreed {d = d} (cancelled provider now {r = r} e) h =
      let (released, same) = cancelled-lem provider now d.service_request d.tables r e in
      subst (IsAgreed id r.service_request) (sym same)
        (released-IsAgreed id d.service_request r.service_request d.tables released h)
  Turn-IsAgreed {d = d} (revoked mark_as_failed now {r = r} e) h =
      let (released, same) = revoked-lem mark_as_failed now d.service_request d.tables r e in
      subst (IsAgreed id r.service_request) (sym same)
        (released-IsAgreed id d.service_request r.service_request d.tables released h)
  Turn-IsAgreed {d = d} (initiated setting {r = r} e) h =
      released-IsAgreed id d.service_request r.service_request d.tables
        (initiated-lem setting d.service_request r e) h
  Turn-IsAgreed {d = d} (changed {sr = sr} c) h =
      released-IsAgreed id d.service_request sr d.tables (Change-Releases m c) h

  -- In any order of offers, acceptances, assignments, allocations, cancellations, revocations,
  -- restarts, reschedules, payments and reports, and however late the events of a request are
  -- handled: if the request has a dispatcher, its accepted offers are his, provided that this was
  -- so at the start.
  pub Turns-IsAgreed :
      {d e : Desk}
      → IsAgreed id d.service_request d.tables
      → Turns d e
      → IsAgreed id e.service_request e.tables
  Turns-IsAgreed h opened = h
  Turns-IsAgreed h (afterwards s t) = Turn-IsAgreed t (Turns-IsAgreed h s)
