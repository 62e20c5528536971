-- ===== src/Dispatching/Agreement.antt =====
-- What agrees between a service request and its offers, and what keeps it.
use mathlib.Core.Path.{subst}
use vz.Common.{
  ℕ, ◌≡◌, ◌⊎◌, inl, inr, sym, ap, ◌∙◌, Bool, true, false, Option, none, some, List, [], ◌∷◌, ◌&&◌,
  All, arith, if◌then◌else◌,
}
use vz.Service.Build.{Service}
use vz.Request.Aggregate.{ServiceRequest, dispatcher_id}
use vz.Dispatching.{Assignment, AssignmentStatus, Tables}
use vz.Dispatching.Events.{is_of, set_assignments}
use vz.Dispatching.Assignments.{Taken, settle_assignments, taken}
use vz.Dispatching.Exclusive.{
  is_accepted, IsHeldBy, All-map, settle_assignments-held, taken-assignments,
}
use vz.Dispatching.Acceptance.{taken-service_request}
use vz.Dispatching.Releases.{Releases}

-- An accepted offer of the request is one to its dispatcher, if it has one.
abbrev pub IsFor : ℕ → Option ℕ → Assignment → Type 0
IsFor id dispatcher a =
    ((is_of id a && is_accepted a.status) ≡ false)
    ⊎ ((dispatcher ≡ none) ⊎ (dispatcher ≡ some a.provider_id))

abbrev pub IsAgreed : ℕ → ServiceRequest → Tables → Type 0
IsAgreed id sr t = All (IsFor id (dispatcher_id sr.service)) t.assignments

All-weaken :
    (P Q : Assignment → Type 0) (xs : List Assignment)
    → ((a : Assignment) → P a → Q a)
    → All P xs
    → All Q xs
All-weaken P Q [] step h = tt
All-weaken P Q (x ∷ xs) step h = (step x h.0, All-weaken P Q xs step h.1)

released-IsFor :
    (id : ℕ) (s t : Service) (a : Assignment)
    → Releases s t
    → IsFor id (dispatcher_id s) a
    → IsFor id (dispatcher_id t) a
released-IsFor id s t a (inl same) h = rw same h
released-IsFor id s t a (inr nobody) h = inr (inl nobody)

pub released-IsAgreed :
    (id : ℕ) (sr u : ServiceRequest) (t : Tables)
    → Releases sr.service u.service
    → IsAgreed id sr t
    → IsAgreed id u t
released-IsAgreed id sr u t r =
    All-weaken (IsFor id (dispatcher_id sr.service)) (IsFor id (dispatcher_id u.service))
      t.assignments (λ a. released-IsFor id sr.service u.service a r)

lapsed-IsFor :
    (id : ℕ) (o : Option ℕ) (status : AssignmentStatus) (test : Bool) (a : Assignment)
    → is_accepted status ≡ false
    → IsFor id o a
    → IsFor id o (if test then record a { status = status } else a)
lapsed-IsFor id o status true a no_accept h = inl (ground arith)
lapsed-IsFor id o status false a no_accept h = h

pub set_assignments-IsAgreed :
    (id : ℕ) (sr : ServiceRequest) (test : Assignment → Bool) (status : AssignmentStatus)
    (t : Tables)
    → is_accepted status ≡ false
    → IsAgreed id sr t
    → IsAgreed id sr (set_assignments test status t)
set_assignments-IsAgreed id sr test status t no_accept =
    All-map (IsFor id (dispatcher_id sr.service)) (IsFor id (dispatcher_id sr.service)) _
      t.assignments (λ a. lapsed-IsFor id (dispatcher_id sr.service) status (test a) a no_accept)

-- Whoever has taken the request holds what is accepted.
pub taken-IsAgreed :
    (id p : ℕ) (sr : ServiceRequest) (t : Tables) (r : Taken)
    → dispatcher_id sr.service ≡ some p
    → r ≡ taken id p sr (settle_assignments id p t)
    → IsAgreed id r.service_request r.tables
taken-IsAgreed id p sr t r his made =
    let held : All (IsFor id (some p)) (settle_assignments id p t).assignments =
      All-weaken (IsHeldBy id p) (IsFor id (some p)) _
        (λ a h. elim h [ inl other ↦ inl other | inr own ↦ inr (inr (ap some (sym own))) ])
        (settle_assignments-held id p t) in
    let o : dispatcher_id r.service_request.service ≡ some p =
      ap (λ x. dispatcher_id x.service)
        (ap (λ x. x.service_request) made ∙ taken-service_request id p sr _)
      ∙ his in
    let rows : r.tables.assignments ≡ (settle_assignments id p t).assignments =
      ap (λ x. x.tables.assignments) made ∙ taken-assignments id p sr _ in
    subst (λ x. All (IsFor id x) r.tables.assignments) (sym o)
      (subst (All (IsFor id (some p))) (sym rows) held)
