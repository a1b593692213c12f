-- ===== src/Vulnerability.antt =====
-- Matching of components with advisories: backend/app/vulnerability_matching.py and
-- backend/app/vulnerability_service.py.
pub mod Names
pub mod Records
pub mod Outcomes
pub mod Matching
pub mod Index
pub mod Evaluation
pub mod Run
mod Examples
