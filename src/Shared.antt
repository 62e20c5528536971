-- ===== src/Shared.antt =====
-- src/shared: the errors that operations throw, the enums that several parts use, and what the
-- code takes from the library moment.
pub mod Errors
pub mod Period
pub mod Tenant
