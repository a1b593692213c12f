-- ===== src/Temporal.antt =====
-- The temporal subsystem of backend/app: contracts, projection, expectations, deviations.
pub mod Result
pub mod Clock
pub mod Vocabulary
pub mod Identity
pub mod Registry
pub mod Contracts
pub mod Projection
pub mod Rows
pub mod Expectations
pub mod Deviations
pub mod Examples
