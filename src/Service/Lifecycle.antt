-- ===== src/Service/Lifecycle.antt =====
-- The way of a job through service.entity.ts: from the allocation to its completion.
use vz.Common.{◌≡◌, ◌⊎◌, true, false, some, arith}
use vz.Common.Results.{ok}
use vz.Handling.{HandlingEventType, HandlingEvent, HandlingHistory, most_recently_completed_event}
use vz.Service.Status.{ServiceStatus, ServiceAllocationStatus, ServiceActionType}
use vz.Service.Build.{Service, build, calculate_next_action_type}
use vz.Service.Queries.{
  has_been_cancelled, has_been_fulfilled, is_historical, event_type_of_status,
  next_handling_event_type,
}
use vz.Service.Operations.{derived_from_handling_history}
use vz.Service.Invariant.{IsConsistent}

-- The action that asks for an event of the type; the codes of the two enums are the same texts.
abbrev pub action_of : HandlingEventType → ServiceActionType
action_of HandlingEventType.start = ServiceActionType.start
action_of HandlingEventType.in_progress = ServiceActionType.in_progress
action_of HandlingEventType.fullfil = ServiceActionType.fullfil

-- On a consistent job that is allocated and not cancelled or fulfilled, the action stored with
-- the job, which the apps show, is the one of the event that the next report of the worker makes.
pub next_action_type-eq :
    (s : Service)
    → IsConsistent s
    → s.allocation_status ≡ ServiceAllocationStatus.allocated
    → has_been_cancelled s ≡ false
    → has_been_fulfilled s ≡ false
    → (t : HandlingEventType) × (next_handling_event_type s ≡ ok t)
      × (s.next_action_type ≡ action_of t)
unfolding next_handling_event_type calculate_next_action_type event_type_of_status
next_action_type-eq s v a c f = (event_type_of_status s.status, ground arith, ground arith)

abbrev after : ServiceStatus → ServiceStatus
after ServiceStatus.allocated = ServiceStatus.started
after ServiceStatus.started = ServiceStatus.in_progress
after _ = ServiceStatus.fulfilled

-- One report of the event that is asked for.
report :
    (s t : Service) (h : HandlingHistory) (e : HandlingEvent)
    → most_recently_completed_event h ≡ some e
    → next_handling_event_type s ≡ ok e.type
    → derived_from_handling_history h s ≡ t
    → (t.status ≡ after s.status) × (t.provider ≡ s.provider)
unfolding derived_from_handling_history next_handling_event_type build
report s t h e m n d = rw (← d, m) (ground arith)

-- A worker of an allocated job reports three events, each of the type that is asked for, and the
-- job is started, then in progress, then fulfilled; the histories have those events as their most
-- recent ones.
pub worker_completes_job :
    (s t u v : Service) (h i j : HandlingHistory) (a b c : HandlingEvent)
    → s.status ≡ ServiceStatus.allocated
    → most_recently_completed_event h ≡ some a
    → most_recently_completed_event i ≡ some b
    → most_recently_completed_event j ≡ some c
    → next_handling_event_type s ≡ ok a.type
    → derived_from_handling_history h s ≡ t
    → next_handling_event_type t ≡ ok b.type
    → derived_from_handling_history i t ≡ u
    → next_handling_event_type u ≡ ok c.type
    → derived_from_handling_history j u ≡ v
    → (t.status ≡ ServiceStatus.started)
      × (u.status ≡ ServiceStatus.in_progress)
      × (v.status ≡ ServiceStatus.fulfilled)
      × (v.provider ≡ s.provider)
worker_completes_job s t u v h i j a b c st ha hb hc na et nb eu nc ev =
    let first = report s t h a ha na et in
    let second = report t u i b hb nb eu in let third = report u v j c hc nc ev in ground arith

-- A consistent job that counts as historical is fulfilled or failed: one that a customer, an
-- operator or its provider has cancelled does not appear.
pub historical_only :
    (s : Service)
    → IsConsistent s
    → is_historical s ≡ true
    → (s.status ≡ ServiceStatus.fulfilled) ⊎ (s.status ≡ ServiceStatus.failed)
unfolding is_historical
historical_only s v h = ground arith

-- A job that nobody has been assigned, open or waiting for its payment, is asked for the event
-- that completes it, and the report of that event makes it fulfilled.
pub unassigned_can_be_fulfilled :
    (s : Service) (h : HandlingHistory) (e : HandlingEvent)
    → s.allocation_status ≡ ServiceAllocationStatus.unassigned
    → (s.status ≡ ServiceStatus.unassigned) ⊎ (s.status ≡ ServiceStatus.awaiting_payment)
    → most_recently_completed_event h ≡ some e
    → next_handling_event_type s ≡ ok e.type
    → (derived_from_handling_history h s).status ≡ ServiceStatus.fulfilled
unfolding derived_from_handling_history next_handling_event_type build
unassigned_can_be_fulfilled s h e a st m n = ground arith
