-- ===== src/Handling.antt =====
-- src/handling: what the worker of a job reports (the events), and their history.
pub mod History
mod Tests
use vz.Common.{ℕ, Option, none, List, [], ◌∷◌, last?, sort_by}
use vz.Common.Int.{ℤ}

-- enums/handling-event-type.enum.ts, whose codes are TRAVEL, START_JOB and COMPLETE_JOB.
pub data HandlingEventType : Type 0 where
  start in_progress fullfil : HandlingEventType

-- entities/handling-event.entity.ts. Dates are milliseconds since the epoch, coordinates are
-- integers in the last decimal of their columns (10^-6 degrees).
pub record HandlingEvent : Type 0 where
  pub id : ℕ
  pub created_at : ℕ
  pub latitude : ℤ
  pub longitude : ℤ
  pub provider_worker_id : ℕ
  pub service_request_id : ℕ
  pub type : HandlingEventType

-- entities/handling-history.entity.ts, the class by its one field.
abbrev pub HandlingHistory : Type 0
HandlingHistory = List HandlingEvent

abbrev pub empty_history : HandlingHistory
empty_history = []

-- A slice of the events, sorted by their dates; its last member, or null.
unfoldable pub most_recently_completed_event : HandlingHistory → Option HandlingEvent
unfolding sort_by
most_recently_completed_event [] = none
most_recently_completed_event (e ∷ es) = last? (sort_by (λ x. x.created_at) (e ∷ es))
