-- ===== src/Temporal/Expectations.antt =====
-- backend/app/temporal_expectations.py: the expected range of the next daily bucket, from the
-- history that was known when it began.
pub mod Sorting
pub mod Range
pub mod Digest
pub mod Samples
pub mod Service
