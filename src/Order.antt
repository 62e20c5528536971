-- ===== src/Order.antt =====
-- src/service-request/entities: what a customer has ordered, the requested service packages with
-- their technical reports and prices, and the order that sums them up. Amounts are integers in
-- the last decimal of their columns (10^-4 of the currency unit), so sums and products are exact;
-- the rounding of floating point numbers is not modelled.
pub mod Report
pub mod Quotation
pub mod Pricing
pub mod Package
pub mod Customer
pub mod Tiers
pub mod Reports
pub mod Prices
pub mod Totals
pub mod Earnings
pub mod Groups
pub mod Bundles
pub mod Resets
pub mod Factory
pub mod Asked
pub mod Creation
pub mod Fixtures
mod Tests
