-- ===== src/Risk.antt =====
-- addons/pm_qms_risk: risks and opportunities.
pub mod Types
pub mod Workflow
pub mod Scoring
pub mod Transitions
mod Tests
