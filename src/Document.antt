-- ===== src/Document.antt =====
-- addons/pm_qms_documents: controlled documents.
pub mod Stages
pub mod Types
pub mod Revisions
pub mod Activation
pub mod Writes
pub mod Sole
pub mod Steps
pub mod Invariants
pub mod Single
pub mod Approvals
pub mod History
pub mod Naming
pub mod Workflow
pub mod Fresh
mod Tests
