-- ===== src/Request/Saga.antt =====
-- service-request/sagas/service-request.saga.ts: the commands that follow each event of
-- cqrs/events/service-request.event.ts. What a command only shows to somebody is left out; all go
-- to the request of the event.
use vz.Common.{
  ℕ, String, Bool, true, false, not, ◌&&◌, ◌==◌, Option, none, some, is_some, List, [], ◌∷◌, chain,
  if◌then◌else◌,
}
use vz.Common.Results.{Result, ok, ◌>>=◌, required}
use vz.Service.Provider.{Agent}
use vz.Service.Queries.{has_been_assigned_or_allocated, has_been_marked_as_failed}
use vz.Request.Aggregate.{ServiceRequest, get_customer_reschedule_order}

-- shared/enums/index.ts.
pub data UserType : Type 0 where
  admin customer provider : UserType

pub data Event : Type 0 where
  created ready_for_crm fulfilled started work_commenced assigned allocated rescheduled failed :
      ServiceRequest → Event
  confirmed : ServiceRequest → (initiate_dispatch_sequence : Bool) → Event
  cancelled : ServiceRequest → (provider_id worker_id : Option ℕ) → (by : UserType) → Event
  revoked : ServiceRequest → (provider_id : Option ℕ) → Event

pub data Command : Type 0 where
  find_and_patch_crm_customer_id create_crm_service_request initiate_auto_assignment
        create_reschedule_surcharge_compensation_transaction create_income_transaction
        email_notify_customer_rescheduled send_completion_verification_code :
      Command
  send_security_code : (worker_name : Option String) → Command
  push_notify_customer_cancellation push_notify_job_assignment push_notify_customer_rescheduled :
      Option ℕ → Command

-- `===` of two ids, of which either may be null.
abbrev pub same_id : Option ℕ → Option ℕ → Bool
same_id none none = true
same_id (some a) (some b) = a == b
same_id _ _ = false

abbrev pub dispatcher_of : ServiceRequest → Result Agent
dispatcher_of sr = required (chain sr.service.provider (λ p. p.dispatcher))

abbrev pub worker_of : ServiceRequest → Result Agent
worker_of sr = required (chain sr.service.provider (λ p. p.worker))

unfoldable pub is_service_provider_independent : ServiceRequest → Result Bool
is_service_provider_independent sr =
    if has_been_assigned_or_allocated sr.service
    then (do
      dispatcher ← dispatcher_of sr
      worker ← worker_of sr
      ok (same_id dispatcher.id worker.id))
    else ok false

-- `workerId && providerId !== workerId`
abbrev notified_of_cancellation : Option ℕ → Option ℕ → List Command
notified_of_cancellation provider_id worker_id =
    push_notify_customer_cancellation provider_id
    ∷ (if is_some worker_id && not (same_id provider_id worker_id)
        then push_notify_customer_cancellation worker_id ∷ []
        else [])

unfoldable pub commands_of : Event → Result (List Command)
unfolding is_service_provider_independent
commands_of (created sr) = ok (find_and_patch_crm_customer_id ∷ [])
commands_of (ready_for_crm sr) = ok (create_crm_service_request ∷ [])
commands_of (confirmed sr initiate) = ok (if initiate then initiate_auto_assignment ∷ [] else [])
commands_of (started sr) = do worker ← worker_of sr; ok (send_security_code worker.name ∷ [])
commands_of (work_commenced sr) = ok (send_completion_verification_code ∷ [])
commands_of (cancelled sr provider_id worker_id UserType.customer) =
    ok (notified_of_cancellation provider_id worker_id)
commands_of (cancelled sr provider_id worker_id UserType.provider) =
    ok (initiate_auto_assignment ∷ [])
commands_of (cancelled sr provider_id worker_id UserType.admin) = ok []
commands_of (revoked sr provider_id) = ok (
    push_notify_customer_cancellation provider_id
    ∷ (if has_been_marked_as_failed sr.service
        then create_reschedule_surcharge_compensation_transaction
        else initiate_auto_assignment)
    ∷ [])
commands_of (assigned sr) = do
  dispatcher ← dispatcher_of sr
  ok (push_notify_job_assignment dispatcher.id ∷ [])
commands_of (allocated sr) = do
  independent ← is_service_provider_independent sr
  (if independent
      then ok []
      else (worker_of sr >>= λ worker. ok (push_notify_job_assignment worker.id ∷ [])))
commands_of (fulfilled sr) =
    ok (create_income_transaction ∷ create_reschedule_surcharge_compensation_transaction ∷ [])
commands_of (rescheduled sr) = ok (
    push_notify_customer_rescheduled (get_customer_reschedule_order sr).impacted_service_provider_id
    ∷ email_notify_customer_rescheduled
    ∷ initiate_auto_assignment
    ∷ [])
-- No saga of the requests waits for this one.
commands_of (failed sr) = ok []
