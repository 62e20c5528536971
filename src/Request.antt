-- ===== src/Request.antt =====
-- src/service-request: the aggregate of a service request, its appointment, its reschedule order
-- and the guards on its operations.
pub mod Moment
pub mod Appointment
mod Rescheduling
pub mod Aggregate
pub mod Orders
pub mod Work
mod Completion
pub mod Progress
pub mod Consistency
mod Schedules
pub mod Guards
pub mod Reschedules
pub mod Factory
pub mod Creation
pub mod Fixtures
pub mod Saga
pub mod Services
pub mod Reminders
mod Stale
pub mod Endings
mod EndingTests
pub mod Payments
mod Fees
mod CreationTests
mod Tests
