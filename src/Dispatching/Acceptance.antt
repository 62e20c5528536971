-- ===== src/Dispatching/Acceptance.antt =====
-- What a provider has come through who takes a service request, and what changes.
use mathlib.Core.Path.{subst}
use vz.Common.{
  ℕ, ◌≡◌, ◌⊎◌, inl, inr, refl, sym, ap, ◌∙◌, true, false, not, Option, none, some, [], ◌∷◌, ◌++◌,
  All, if◌then◌else◌, Bool-cases, Option-cases,
}
use vz.Shared.Errors.{
  unauthorized, fail_to_accept_job_due_to_fully_occupied_workers,
  fail_to_accept_job_due_to_overlapping_appointment,
  fail_to_manually_assign_dealer_due_to_fully_occupied_workers,
  fail_to_manually_assign_independent_contractor_due_to_overlapping_appointment,
}
use vz.Common.Int.{ℤ}
use vz.Common.Results.{throw_if, ok, >>=-eq-ok, >>-eq-ok, ok-injective}
use vz.Service.Provider.{ServiceProvider, is_worker}
use vz.Service.Queries.{
  has_been_assigned_or_allocated, has_been_cancelled, is_assigned_or_allocated_to, is_allocated_to,
}
use vz.Request.Moment.{Moment}
use vz.Request.Aggregate.{ServiceRequest, assign_to_dispatcher}
use vz.Dispatching.{Tables, create_assignment}
use vz.Dispatching.Assignments.{
  Answers, Taken, settle_assignments, taken, throw_if_busy, accepted_by, manually_assigned_to,
  accept_new_dispatched_job, manually_assign_job_to_provider,
}
use vz.Dispatching.Exclusive.{IsHeldBy, settle_assignments-held, taken-assignments}
use vz.Dispatching.Assignments.{manual_input, create_appointment}
use vz.Service.Status.{ServiceAllocationStatus}
use vz.Service.Provider.{is_independent}
use vz.Request.Guards.{assign_to_dispatcher_lem}

pub taken-service_request :
    (id p : ℕ) (sr : ServiceRequest) (t : Tables) → (taken id p sr t).service_request ≡ sr
unfolding taken
taken-service_request id p sr t = elim (Bool-cases (is_allocated_to sr.service p)) [
  | inl allocated ↦ rw allocated refl
  | inr other ↦ rw other refl
]

taken-appointments :
    (id p : ℕ) (sr : ServiceRequest) (t : Tables)
    → (taken id p sr t).tables.appointments ≡ (
        if is_allocated_to sr.service p
        then t.appointments ++ (create_appointment id sr.service.provider ∷ [])
        else t.appointments)
unfolding taken
taken-appointments id p sr t = elim (Bool-cases (is_allocated_to sr.service p)) [
  | inl allocated ↦ rw allocated refl
  | inr other ↦ rw other refl
]

module _ (m : Moment) where
  -- What a call that succeeds has come through.
  pub accepted_by-ok :
      (id : ℕ) (sr : ServiceRequest) (sp : ServiceProvider) (q : Answers) (t : Tables) (r : Taken)
      → accepted_by m id sr sp q t ≡ ok r
      → (sr' : ServiceRequest) × (assign_to_dispatcher m sp sr ≡ ok sr')
        × (r ≡ taken id sp.id sr' (settle_assignments id sp.id t))
  unfolding accepted_by
  accepted_by-ok id sr sp q t r e =
      let e1 = >>-eq-ok (throw_if (not q.is_active) unauthorized) _ e in
      let e2 =
        >>-eq-ok
          (throw_if_busy fail_to_accept_job_due_to_fully_occupied_workers
            fail_to_accept_job_due_to_overlapping_appointment sp q)
          _ e1 in
      let (sr', assigned, e3) = >>=-eq-ok (assign_to_dispatcher m sp sr) _ e2 in
      (sr', assigned, sym (ok-injective e3))

  pub accept-ok :
      (id : ℕ) (sr : Option ServiceRequest) (q : Answers) (t : Tables) (r : Taken)
      → accept_new_dispatched_job m id sr q t ≡ ok r
      → (found : ServiceRequest) × (sp : ServiceProvider) × (sr ≡ some found)
        × (q.service_provider ≡ some sp)
        × (accepted_by m id found sp q t ≡ ok r)
  unfolding accept_new_dispatched_job
  accept-ok id none q t r e = cc
  accept-ok id (some found) q t r e = elim (Option-cases q.service_provider) [
    | inl missing ↦ cc (rw (missing, accept_new_dispatched_job) at e)
    | inr (sp, there) ↦ (found, sp, refl, there, rw (there, accept_new_dispatched_job) at e)
  ]

  pub manually_assigned_to-ok :
      (seconds_from_now : ℤ → ℕ) (id : ℕ) (sr : ServiceRequest) (sp : ServiceProvider) (q : Answers)
      (t : Tables) (r : Taken)
      → manually_assigned_to m seconds_from_now id sr sp q t ≡ ok r
      → (sp' : ServiceProvider) × (sr' : ServiceRequest) × (assign_to_dispatcher m sp' sr ≡ ok sr')
        × (r
            ≡ taken id sp'.id sr' (
                settle_assignments id sp'.id (record t {
                  assignments =
                      t.assignments
                      ++ (create_assignment seconds_from_now (manual_input id sp'.id) ∷ []);
                })))
  unfolding manually_assigned_to
  manually_assigned_to-ok seconds_from_now id sr sp q t r e =
      let e1 =
        >>-eq-ok
          (throw_if_busy fail_to_manually_assign_dealer_due_to_fully_occupied_workers
            fail_to_manually_assign_independent_contractor_due_to_overlapping_appointment sp q)
          _ e in
      let (sr', assigned, e2) = >>=-eq-ok (assign_to_dispatcher m sp sr) _ e1 in
      (sp, sr', assigned, sym (ok-injective e2))

  pub manual-found :
      (seconds_from_now : ℤ → ℕ) (id : ℕ) (sr : Option ServiceRequest) (q : Answers) (t : Tables)
      (r : Taken)
      → manually_assign_job_to_provider m seconds_from_now id sr q t ≡ ok r
      → (found : ServiceRequest) × (sp : ServiceProvider) × (manually_assigned_to m seconds_from_now
            id found sp q t
          ≡ ok r)
  unfolding manually_assign_job_to_provider
  manual-found seconds_from_now id none q t r e = cc
  manual-found seconds_from_now id (some found) q t r e = elim (Option-cases q.service_provider) [
    | inl missing ↦ cc (rw (missing, manually_assign_job_to_provider) at e)
    | inr (sp, there) ↦ (found, sp, rw (there, manually_assign_job_to_provider) at e)
  ]

  accepted_by-is_active :
      (id : ℕ) (sr : ServiceRequest) (sp : ServiceProvider) (q : Answers) (t : Tables) (r : Taken)
      → accepted_by m id sr sp q t ≡ ok r
      → q.is_active ≡ true
  unfolding accepted_by
  accepted_by-is_active id sr sp q t r e = elim (Bool-cases q.is_active) [
    | inl active ↦ active
    | inr inactive ↦ cc (rw (inactive, accepted_by) at e)
  ]

  accepted_as :
      (id : ℕ) (sr0 sr : ServiceRequest) (sp' sp : ServiceProvider) (q : Answers) (t : Tables)
      (r : Taken)
      → some sr ≡ some sr0
      → some sp' ≡ some sp
      → accepted_by m id sr0 sp' q t ≡ ok r
      → accepted_by m id sr sp q t ≡ ok r
  accepted_as id sr0 sr sp' sp q t r is_sr is_sp e =
      let same : sr ≡ sr0 = cc in
      let same' : sp' ≡ sp = cc in
      ap (λ x. accepted_by m id x sp q t) same
      ∙ ap (λ x. accepted_by m id sr0 x q t) (sym same')
      ∙ e

  -- An offer that is accepted with success: the provider is active and no worker, the request was
  -- free or cancelled, and is his now, as an allocation exactly when he is independent. The
  -- accepted offers of the request are his, and it gets an appointment exactly when it is
  -- allocated to him.
  pub accept_new_dispatched_job_lem :
      (id : ℕ) (sr : ServiceRequest) (sp : ServiceProvider) (q : Answers) (t : Tables) (r : Taken)
      → q.service_provider ≡ some sp
      → accept_new_dispatched_job m id (some sr) q t ≡ ok r
      → (q.is_active ≡ true)
        × (is_worker sp ≡ false)
        × ((has_been_assigned_or_allocated sr.service ≡ false)
            ⊎ (has_been_cancelled sr.service ≡ true))
        × (is_assigned_or_allocated_to r.service_request.service sp.id ≡ true)
        × (r.service_request.service.allocation_status ≡ (
            if is_independent sp
            then ServiceAllocationStatus.allocated
            else ServiceAllocationStatus.assigned))
        × All (IsHeldBy id sp.id) r.tables.assignments
        × (r.tables.appointments ≡ (
            if is_allocated_to r.service_request.service sp.id
            then t.appointments ++ (create_appointment id r.service_request.service.provider ∷ [])
            else t.appointments))
  unfolding settle_assignments
  accept_new_dispatched_job_lem id sr sp q t r found e =
      let (sr0, sp', is_sr, is_sp, by) = accept-ok id (some sr) q t r e in
      let (sr', given, made) =
        accepted_by-ok id sr sp q t r
          (accepted_as id sr0 sr sp' sp q t r is_sr (sym is_sp ∙ found) by) in
      let (no_worker, free, paid, allocation, his) = assign_to_dispatcher_lem m sp sr sr' given in
      let request : r.service_request ≡ sr' =
        ap (λ x. x.service_request) made ∙ taken-service_request id sp.id sr' _ in
      let tables : r.tables.assignments ≡ (settle_assignments id sp.id t).assignments =
        ap (λ x. x.tables.assignments) made ∙ taken-assignments id sp.id sr' _ in
      let booked =
        ap (λ x. x.tables.appointments) made
        ∙ taken-appointments id sp.id sr' (settle_assignments id sp.id t) in
      (
        accepted_by-is_active id sr sp q t r
            (accepted_as id sr0 sr sp' sp q t r is_sr (sym is_sp ∙ found) by),
        no_worker,
        free,
        ap (λ x. is_assigned_or_allocated_to x.service sp.id) request ∙ his,
        ap (λ x. x.service.allocation_status) request ∙ allocation,
        subst (All (IsHeldBy id sp.id)) (sym tables) (settle_assignments-held id sp.id t),
        subst
            (λ x. r.tables.appointments ≡ (
              if is_allocated_to x.service sp.id
              then t.appointments ++ (create_appointment id x.service.provider ∷ [])
              else t.appointments))
            (sym request) (booked),
      )
