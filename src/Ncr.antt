-- ===== src/Ncr.antt =====
-- addons/pm_qms_ncr: nonconformities.
pub mod Types
pub mod Workflow
pub mod Transitions
pub mod Dates
mod Tests
