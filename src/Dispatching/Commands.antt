-- ===== src/Dispatching/Commands.antt =====
-- dispatching/commands/handlers: a dealer's job is given to a worker, a provider cancels, an operator
-- revokes, and a request is put into the queue of offers.
use vz.Common.{ℕ, Bool, Option, none, some, List, [], ◌∷◌, ◌++◌, chain, if◌then◌else◌}
use vz.Common.Int.{ℤ}
use vz.Common.Results.{Result, ok, err, ◌>>=◌, required}
use vz.Shared.Errors.{entity_not_found}
use vz.Service.Provider.{ServiceProvider}
use vz.Service.Queries.{is_allocated_to, has_been_cancelled}
use vz.Request.Moment.{Moment}
use vz.Request.Aggregate.{ServiceRequest, allocate_to_worker, cancel}
use vz.Request.Progress.{revoke, restart}
use vz.Dispatching.{AutoAssignmentType, ScanningZoneType, Tables}
use vz.Dispatching.Assignments.{create_appointment}
use vz.Dispatching.Tickets.{BatchWise, Job}

-- The events that these handlers publish, with the provider's id.
pub data Published : Type 0 where
  allocated_event : Published
  cancelled_event : ℕ → Published
  revoked_event : Option ℕ → Published

-- The request as it is saved, the tables and the events.
pub record Commanded : Type 0 where
  pub service_request : ServiceRequest
  pub tables : Tables
  pub published : List Published

-- dispatching/entities/auto-assignment-setting.entity.ts, with the seconds of `sendToAll`.
pub record AutoAssignmentSetting : Type 0 where
  pub auto_assignment_type : AutoAssignmentType
  pub scanning_zone_type : ScanningZoneType
  pub batch_wise : Option BatchWise
  pub send_to_all_request_seconds : Option ℤ

-- The request is saved before the setting is read.
pub record Initiated : Type 0 where
  pub service_request : ServiceRequest
  pub queued : Result Job

-- The first of the settings that are found. `serviceRequest` is none where the query finds nothing.
unfoldable pub initiate_auto_assignment :
    (id : ℕ) → Option AutoAssignmentSetting → Option ServiceRequest → Option Initiated
initiate_auto_assignment id setting none = none
initiate_auto_assignment id setting (some sr) = some (record {
  service_request = restart sr;
  queued = required setting >>= λ found. ok (record {
    type = found.auto_assignment_type;
    scanning_zone_type = found.scanning_zone_type;
    batch_wise = found.batch_wise;
    send_to_all_request_seconds = found.send_to_all_request_seconds;
    service_ticket_id = id;
    state = record { dispatched = none; current_batch_no = none };
  });
})

-- The dispatcher is read before anything is changed.
unfoldable pub revoke_job : Bool → ℕ → Option ServiceRequest → Tables → Result Commanded
revoke_job mark_as_failed now none t = err (entity_not_found "ServiceRequest")
revoke_job mark_as_failed now (some sr) t = do
  dispatcher ← required (chain sr.service.provider (λ p. p.dispatcher))
  ok (record {
    service_request = revoke mark_as_failed now sr;
    tables = t;
    published =
        if has_been_cancelled (revoke mark_as_failed now sr).service
        then revoked_event dispatcher.id ∷ []
        else [];
  })

module _ (m : Moment) where
  -- The ids of the command are not empty.
  unfoldable pub allocate_job_to_worker :
      (id : ℕ)
      → Option ServiceRequest
      → (dealer worker : Option ServiceProvider) → Tables
      → Result Commanded
  allocate_job_to_worker id none dealer worker t = err (entity_not_found "ServiceRequest")
  allocate_job_to_worker id (some sr) none worker t = err (entity_not_found "ServiceProvider")
  allocate_job_to_worker id (some sr) (some dealer) none t =
      err (entity_not_found "ServiceProvider")
  allocate_job_to_worker id (some sr) (some dealer) (some worker) t =
      if is_allocated_to sr.service worker.id
      then ok (record { service_request = sr; tables = t; published = [] })
      else (allocate_to_worker m worker dealer sr >>= λ sr'. ok (record {
        service_request = sr';
        tables = record t {
          appointments = t.appointments ++ (create_appointment id sr'.service.provider ∷ []);
        };
        published = allocated_event ∷ [];
      }))

  unfoldable pub cancel_job :
      Option ServiceRequest → Option ServiceProvider → ℕ → Tables → Result Commanded
  cancel_job none provider now t = err (entity_not_found "ServiceRequest")
  cancel_job (some sr) none now t = err (entity_not_found "ServiceProvider")
  cancel_job (some sr) (some provider) now t = do
    sr' ← cancel m (some provider) now sr
    ok (record {
      service_request = sr';
      tables = t;
      published = if has_been_cancelled sr'.service then cancelled_event provider.id ∷ [] else [];
    })
