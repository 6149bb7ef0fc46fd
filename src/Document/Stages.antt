-- ===== src/Document/Stages.antt =====
-- The states of a controlled document (models/document.py). They have names of revision states too.
pub data DocumentState : Type 0 where
  draft under_review approved active obsolete : DocumentState
