-- ===== src/Calibration.antt =====
-- addons/pm_qms_calibration: equipment, its calibration events and the impact assessments.
pub mod Assessments
pub mod Types
pub mod Checks
pub mod Rollup
pub mod Accept
pub mod Service
pub mod Acceptance
pub mod Failure
mod Tests
