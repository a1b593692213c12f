-- ===== src/Temporal/Deviations.antt =====
-- The deviation assessments of backend/app/temporal_deviations.py, part by part.
pub mod Policies
pub mod Identity
pub mod Verdict
pub mod Support
pub mod Assess
pub mod Inputs
pub mod Service
