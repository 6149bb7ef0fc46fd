-- ===== src/Backup.antt =====
-- tools/backup: the recovery-point scheduler.
pub mod Schedule
pub mod Status
pub mod Run
pub mod Health
pub mod Slots
pub mod Record
pub mod Monitoring
mod Tests
