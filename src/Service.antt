-- ===== src/Service.antt =====
-- src/service-request/entities/service.entity.ts: the value object `Service`, which is rebuilt
-- from the last handling event, the provider and the last payment response at every operation.
pub mod Status
pub mod Provider
pub mod Build
pub mod Queries
pub mod Operations
pub mod Invariant
pub mod Lifecycle
pub mod Cancellation
mod Tests
