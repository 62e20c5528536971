-- ===== src/Dispatching.antt =====
-- src/dispatching/entities and src/dispatching/enums: the offers of jobs to providers
-- (assignments), and the appointments of the workers that have taken one.
use vz.Common.{ℕ, ◌+◌, Bool, Option, none, some, List, [], ◌∷◌, map, if◌then◌else◌}
use vz.Common.Int.{ℤ}
use vz.Service.Provider.{Provider}
mod Assignments
mod Events
mod Exclusive
mod Acceptance
mod Reachable
mod Scan
mod Tickets
mod Candidates
mod Rounds
mod Batches
mod Commands
mod Revocations
mod Releases
mod Agreement
mod Desks
mod Tests

pub data AssignmentStatus : Type 0 where
  accepted pending failed revoked cancelled rescheduled : AssignmentStatus

pub data AutoAssignmentType : Type 0 where
  batch_wise nearest_available one_by_one round_robin send_to_all manual : AutoAssignmentType

pub data ScanningZoneType : Type 0 where
  polygon postal_code all none_zone : ScanningZoneType

pub data AppointmentStatus : Type 0 where
  allocated cancelled fulfilled replaced revoked rescheduled : AppointmentStatus

pub record Assignment : Type 0 where
  pub provider_id : ℕ
  pub accepted_at : Option ℕ
  pub expired_at : ℕ
  pub service_request_id : ℕ
  pub status : AssignmentStatus
  pub assignment_type : AutoAssignmentType
  pub scanning_zone_type : ScanningZoneType

-- dispatching/entities/appointment.entity.ts
pub record Appointment : Type 0 where
  pub provider : Option Provider
  pub service_request_id : ℕ
  pub status : AppointmentStatus

-- The two tables.
pub record Tables : Type 0 where
  pub assignments : List Assignment
  pub appointments : List Appointment

-- dispatching/dto/assignment.input.ts
pub record AssignmentInput : Type 0 where
  pub provider_id : ℕ
  pub request_seconds : ℤ
  pub service_request_id : ℕ
  pub assignment_type : AutoAssignmentType
  pub scanning_zone_type : Option ScanningZoneType

-- `AssignmentFactory.create`, and the defaults of the columns that it does not set.
-- `seconds_from_now` is what moment says of the time that many seconds from now.
unfoldable pub create_assignment : (ℤ → ℕ) → AssignmentInput → Assignment
create_assignment seconds_from_now input = record {
  provider_id = input.provider_id;
  accepted_at = none;
  expired_at = seconds_from_now input.request_seconds;
  service_request_id = input.service_request_id;
  status = AssignmentStatus.pending;
  assignment_type = AutoAssignmentType.send_to_all;
  scanning_zone_type = ScanningZoneType.none_zone;
}
