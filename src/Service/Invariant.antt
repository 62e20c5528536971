-- ===== src/Service/Invariant.antt =====
-- What holds of every service that the constructor and the methods of service.entity.ts make.
use vz.Common.{
  ◌≡◌, refl, sym, ◌≢◌, ◌⊎◌, Bool, true, false, Option, none, some, is_some, chain, arith, [],
}
use vz.Common.Results.{ok, >>=-eq-ok, ok-injective}
use vz.Shared.Period.{Period}
use vz.Handling.{HandlingEvent, HandlingHistory}
use vz.Payment.{PaymentGatewayResponse, PaymentGatewayResponseStatus, PaymentGatewayResponseHistory}
use vz.Service.Status.{ServiceStatus, ServiceAllocationStatus, ServiceActionType, is_cancelled}
use vz.Service.Provider.{
  Agent, Schedule, Provider, ServiceProvider, create, create_empty_provider, agent_of,
}
use vz.Service.Build.{Service, build, calculate_next_action_type}
use vz.Service.Operations.{
  derived_from, derived_from_handling_history, derived_from_payment_gateway_response_history,
  restart, assign_to_dispatcher, allocate_to_worker, cancel, cancel_by_customer, revoke, reschedule,
  expired_by_system, schedule_of, terminate_provider,
}

-- A worker is never there without a dispatcher.
abbrev pub IsStaffed : Option Provider → Type 0
IsStaffed none = Unit
IsStaffed (some p) =
    is_some (chain p.worker (λ a. a.id)) ≡ true → is_some (chain p.dispatcher (λ a. a.id)) ≡ true

pub record IsConsistent (s : Service) : Type 0 where
  pub staffed : IsStaffed s.provider
  -- The stored action is that of the status and the allocation.
  pub action : s.next_action_type ≡ calculate_next_action_type s.status s.allocation_status
  -- The job is idle exactly when it is cancelled or failed, and open to requests exactly when it
  -- is neither and has no provider.
  pub idle_if : is_cancelled s.status ≡ true → s.next_action_type ≡ ServiceActionType.idle
  pub idle_only : s.next_action_type ≡ ServiceActionType.idle → is_cancelled s.status ≡ true
  pub open_if :
      is_cancelled s.status ≡ false
      → s.allocation_status ≡ ServiceAllocationStatus.unassigned
      → s.next_action_type ≡ ServiceActionType.request_job
  pub open_only :
      s.next_action_type ≡ ServiceActionType.request_job
      → s.allocation_status ≡ ServiceAllocationStatus.unassigned
  -- The status of a job that has not been started tells its allocation.
  pub assigned :
      s.status ≡ ServiceStatus.assigned → s.allocation_status ≡ ServiceAllocationStatus.assigned
  pub allocated :
      s.status ≡ ServiceStatus.allocated → s.allocation_status ≡ ServiceAllocationStatus.allocated
  -- A prepaid job that is open, assigned or allocated has been paid.
  pub paid :
      s.is_prepaid ≡ true
      → (s.status ≡ ServiceStatus.unassigned)
        ⊎ (s.status ≡ ServiceStatus.assigned)
        ⊎ (s.status ≡ ServiceStatus.allocated)
      → s.payment_status ≡ PaymentGatewayResponseStatus.succeeded
  pub unpaid :
      s.status ≡ ServiceStatus.awaiting_payment
      → (s.is_prepaid ≡ true) × (s.payment_status ≢ PaymentGatewayResponseStatus.succeeded)
  -- A job that a customer, an operator or a provider has cancelled has no provider.
  pub released :
      (s.status ≡ ServiceStatus.cancelled_by_customer)
        ⊎ (s.status ≡ ServiceStatus.cancelled_by_operator)
        ⊎ (s.status ≡ ServiceStatus.cancelled_by_service_provider)
      → s.allocation_status ≡ ServiceAllocationStatus.unassigned
  -- A job that is started, in progress or fulfilled has a reported event.
  pub worked :
      (s.status ≡ ServiceStatus.started)
        ⊎ (s.status ≡ ServiceStatus.in_progress)
        ⊎ (s.status ≡ ServiceStatus.fulfilled)
      → is_some s.last_event ≡ true

build-IsConsistent :
    (e : Option HandlingEvent) (p : Option Provider) (r : Option PaymentGatewayResponse) (b : Bool)
    → IsStaffed p
    → IsConsistent (build e p r b none)
unfolding build
build-IsConsistent e p r b h = ground arith

build_cancelled-IsConsistent :
    (c : ServiceStatus) (e : Option HandlingEvent) (r : Option PaymentGatewayResponse) (b : Bool)
    → is_cancelled c ≡ true
    → IsConsistent (build e (some create_empty_provider) r b (some c))
unfolding build create_empty_provider
build_cancelled-IsConsistent c e r b h = ground arith

build_failed-IsConsistent :
    (e : Option HandlingEvent) (p : Option Provider) (r : Option PaymentGatewayResponse) (b : Bool)
    → IsStaffed p
    → IsConsistent (build e p r b (some ServiceStatus.failed))
unfolding build
build_failed-IsConsistent e p r b h = ground arith

empty-IsStaffed : IsStaffed (some create_empty_provider)
unfolding create_empty_provider
empty-IsStaffed = ground arith

create-IsStaffed :
    (d w : Option Agent) (c : Option Schedule) {p : Provider}
    → create d w c ≡ ok p
    → IsStaffed (some p)
unfolding create
create-IsStaffed d w c h = ground arith

-- One method call on a service. The constructors carry what the caller passes in.
pub data Step (s : Service) : Service → Type 0 where
  handled : (h : HandlingHistory) → Step s (derived_from_handling_history h s)
  responded :
      (h : PaymentGatewayResponseHistory)
      → Step s (derived_from_payment_gateway_response_history h s)
  restarted : Step s (restart s)
  assigned_to : (p : ServiceProvider) {t : Service} → assign_to_dispatcher p s ≡ ok t → Step s t
  allocated_to :
      (p : ServiceProvider) (period : Period) {t : Service}
      → allocate_to_worker p period s ≡ ok t
      → Step s t
  cancelled : (p : Option ServiceProvider) {t : Service} → cancel p s ≡ ok t → Step s t
  cancelled_by_customer : Step s (cancel_by_customer s)
  revoked : (mark_as_failed : Bool) → Step s (revoke mark_as_failed s)
  rescheduled : Step s (reschedule s)
  expired : Step s (expired_by_system s)

-- The inversions of the calls that may throw.
pub assign_to_dispatcher-ok :
    (p : ServiceProvider) (s : Service) {t : Service}
    → assign_to_dispatcher p s ≡ ok t
    → (q : Provider) × (create (some (agent_of p)) none none ≡ ok q)
      × (t ≡ build s.last_event (some q) s.last_customer_payment_gateway_response s.is_prepaid none)
unfolding assign_to_dispatcher
assign_to_dispatcher-ok p s h =
    let (q, made, e) = >>=-eq-ok (create (some (agent_of p)) none none) _ h in
    (q, made, sym (ok-injective e))

pub allocate_to_worker-ok :
    (p : ServiceProvider) (d : Period) (s : Service) {t : Service}
    → allocate_to_worker p d s ≡ ok t
    → (q : Provider) × (create
          (chain s.provider (λ p. p.dispatcher))
          (some (agent_of p))
          (some (schedule_of d))
        ≡ ok q)
      × (t ≡ build s.last_event (some q) s.last_customer_payment_gateway_response s.is_prepaid none)
unfolding allocate_to_worker
allocate_to_worker-ok p d s h =
    let (q, made, e) =
      >>=-eq-ok
        (create (chain s.provider (λ p. p.dispatcher)) (some (agent_of p)) (some (schedule_of d))) _
        h in
    (q, made, sym (ok-injective e))

pub cancel-ok :
    (p : Option ServiceProvider) (s : Service) {t : Service}
    → cancel p s ≡ ok t
    → t ≡ terminate_provider (some ServiceStatus.cancelled_by_service_provider) s
unfolding cancel
cancel-ok none s h = cc
cancel-ok (some p) s h = ground arith

expired_by_system-IsConsistent : (s : Service) → IsConsistent (expired_by_system s)
unfolding expired_by_system build create_empty_provider
expired_by_system-IsConsistent s = ground arith

pub Step-IsConsistent : {s t : Service} → Step s t → IsConsistent s → IsConsistent t
unfolding derived_from_handling_history derived_from_payment_gateway_response_history restart
    cancel_by_customer revoke reschedule terminate_provider
Step-IsConsistent (handled h) c = build-IsConsistent _ _ _ _ c.staffed
Step-IsConsistent (responded h) c = build-IsConsistent _ _ _ _ c.staffed
Step-IsConsistent restarted c = build-IsConsistent _ _ _ _ tt
Step-IsConsistent {s = s} (assigned_to p h) c =
    let (q, made, e) = assign_to_dispatcher-ok p s h in
    rw e (build-IsConsistent _ _ _ _ (create-IsStaffed _ _ _ made))
Step-IsConsistent {s = s} (allocated_to p d h) c =
    let (q, made, e) = allocate_to_worker-ok p d s h in
    rw e (build-IsConsistent _ _ _ _ (create-IsStaffed _ _ _ made))
Step-IsConsistent {s = s} (cancelled p h) c =
    rw (cancel-ok p s h) (build_cancelled-IsConsistent _ _ _ _ refl)
Step-IsConsistent cancelled_by_customer c = build_cancelled-IsConsistent _ _ _ _ refl
Step-IsConsistent (revoked true) c = build_failed-IsConsistent _ _ _ _ c.staffed
Step-IsConsistent (revoked false) c = build_cancelled-IsConsistent _ _ _ _ refl
Step-IsConsistent rescheduled c = build-IsConsistent _ _ _ _ empty-IsStaffed
Step-IsConsistent {s = s} expired c = expired_by_system-IsConsistent s

-- The service of a new request, as `ServiceRequestFactory.create` derives it.
abbrev pub fresh : Bool → Service
fresh is_prepaid = derived_from [] (some create_empty_provider) [] is_prepaid

pub data Reach (s : Service) : Service → Type 0 where
  here : Reach s s
  next : {t u : Service} → Reach s t → Step t u → Reach s u

-- Every service that method calls make from that of a new request, in any order and number, is
-- consistent: `IsConsistent` lists what that says of its status, its allocation, its payment, its
-- provider and its next action.
pub Reach-IsConsistent :
    (is_prepaid : Bool) {s : Service} → Reach (fresh is_prepaid) s → IsConsistent s
unfolding derived_from
Reach-IsConsistent b here = build-IsConsistent _ _ _ _ empty-IsStaffed
Reach-IsConsistent b (next r st) = Step-IsConsistent st (Reach-IsConsistent b r)
