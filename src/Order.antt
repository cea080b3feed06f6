-- ===== src/Order.antt =====
-- Package internal/order: the order's life cycle, the order tables' statements, and the service.
pub mod Status
pub mod Lifecycle
pub mod Quantities
pub mod Repository
pub mod Service
pub mod Conservation
pub mod Cancellation
pub mod Progress
pub mod Sequences
pub mod Requests
pub mod Payments
pub mod Administration
pub mod Sorting
pub mod Locking
pub mod Requested
pub mod Pricing
pub mod Placement
pub mod Reading
pub mod Charging
