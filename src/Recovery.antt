-- ===== src/Recovery.antt =====
-- tools/backup/m29_backup.py: recovery points.
pub mod Calendar
pub mod Deadlines
pub mod Retention
pub mod Newest
pub mod Deletion
pub mod Survival
pub mod Completion
mod Tests
