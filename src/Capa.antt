-- ===== src/Capa.antt =====
-- addons/pm_qms_capa: corrective and preventive actions.
pub mod Types
pub mod Structure
pub mod Checks
pub mod Write
pub mod Workflow
pub mod Transitions
pub mod Locks
pub mod FiveWhy
pub mod Initialization
pub mod History
pub mod Actions
pub mod Causes
pub mod Verification
mod Tests
mod ActionTests
