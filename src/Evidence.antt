-- ===== src/Evidence.antt =====
-- The scripts that export and chart a run's evidence, scripts/evidence.
pub mod Url
pub mod Export
pub mod Trace
pub mod Bound
pub mod Stall
pub mod Timeline
mod Tests
