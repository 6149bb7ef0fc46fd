-- ===== src/Migration.antt =====
-- addons/pm_qms_iso9001: controlled migration packages and their execution records.
pub mod Snapshots
pub mod Package
pub mod Execution
pub mod Counts
pub mod Actions
pub mod Edits
pub mod Pairs
pub mod Effects
pub mod Views
pub mod Passed
pub mod Control
pub mod Kept
pub mod KeptEdits
pub mod Reach
pub mod Locks
pub mod Permanent
pub mod Final
pub mod Progress
pub mod Handover
pub mod Readiness
pub mod Eligible
mod Samples
mod Tests
mod ReadinessTests
