-- ===== src/Temporal/Contracts.antt =====
-- The pydantic contracts of backend/app/temporal_contracts.py: a record for each, and its validators
-- as a function that returns the first refusal. Timestamps in a contract are normalised UTC, since
-- `require_timezone` has run. Of the field constraints those on identifiers, digests, site_id and
-- counts are checked; the lengths of other texts are not, since they come from the registry.
pub mod Signal
pub mod Series
pub mod Expectation
pub mod Policy
pub mod Assessment
