-- ===== src/Temporal/Projection.antt =====
-- backend/app/temporal_projection.py: source aggregates become one signal for each UTC day.
pub mod Windows
pub mod Signals
pub mod Service
