-- ===== src/Dispatching/Revocations.antt =====
-- What is saved and what follows when an operator revokes a job.
use vz.Common.{ℕ, ◌≡◌, refl, Bool, true, false, some, [], ◌∷◌, if◌then◌else◌}
use vz.Common.Results.{ok}
use vz.Service.Status.{ServiceStatus}
use vz.Service.Provider.{Agent, Provider, create_empty_provider}
use vz.Service.Build.{build}
use vz.Service.Operations as Job
use vz.Request.Aggregate.{ServiceRequest}
use vz.Request.Progress.{revoke}
use vz.Request.Saga.{
  revoked, commands_of, push_notify_customer_cancellation, initiate_auto_assignment,
  create_reschedule_surcharge_compensation_transaction,
}
use vz.Dispatching.{Tables}
use vz.Dispatching.Commands.{Commanded, revoked_event, revoke_job}

-- A job whose dispatcher is there is revoked: it is saved as failed or as cancelled by the operator,
-- and the commands that follow its event tell the provider and then either compensate for a
-- reschedule, which leaves a refund due, or offer the request again, which does not.
pub revoke_job_lem :
    (mark_as_failed : Bool) (now : ℕ) (sr : ServiceRequest) (t : Tables) (p : Provider)
    (dispatcher : Agent)
    → sr.service.provider ≡ some p
    → p.dispatcher ≡ some dispatcher
    → (c : Commanded) × (revoke_job mark_as_failed now (some sr) t ≡ ok c)
      × (c.published ≡ revoked_event dispatcher.id ∷ [])
      × (c.service_request.service.status
          ≡ (if mark_as_failed then ServiceStatus.failed else ServiceStatus.cancelled_by_operator))
      × (c.service_request.service.eligible_for_refund ≡ mark_as_failed)
      × (commands_of (revoked c.service_request dispatcher.id)
          ≡ ok (
              push_notify_customer_cancellation dispatcher.id
              ∷ (if mark_as_failed
                  then create_reschedule_surcharge_compensation_transaction
                  else initiate_auto_assignment)
              ∷ []))
unfolding revoke_job revoke Job.revoke Job.mark_failed Job.terminate_provider build
    create_empty_provider commands_of
revoke_job_lem true now sr t p dispatcher e1 e2 = (
  record {
    service_request = revoke true now sr;
    tables = t;
    published = revoked_event dispatcher.id ∷ [];
  },
  rw e1 (rw e2 refl),
  refl,
  refl,
  refl,
  refl,
)
revoke_job_lem false now sr t p dispatcher e1 e2 = (
  record {
    service_request = revoke false now sr;
    tables = t;
    published = revoked_event dispatcher.id ∷ [];
  },
  rw e1 (rw e2 refl),
  refl,
  refl,
  refl,
  refl,
)
