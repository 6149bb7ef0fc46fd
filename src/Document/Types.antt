-- ===== src/Document/Types.antt =====
-- A controlled document with its revisions (models/document.py and models/document_revision.py), as
-- far as the workflows and the naming of revisions read and write them.
use perfect_match_qms.Prelude.{ℕ, Bool, true, false, String, Option, List}
use perfect_match_qms.Event.{Event}
use perfect_match_qms.Document.Stages.{DocumentState}

pub data RevisionState : Type 0 where
  draft under_review approved active superseded rejected : RevisionState

-- `revision` is the field of that name, as code points.
pub record Revision : Type 0 where
  pub id : ℕ
  pub display_name : String
  pub company_id : Option ℕ
  pub organization_id : Option ℕ
  pub revision : List ℕ
  pub revision_date : ℕ
  pub effective_date : Option ℕ
  pub prepared_by : Option ℕ
  pub reviewed_by : Option ℕ
  pub approved_by : Option ℕ
  pub approval_date : Option ℕ
  pub state : RevisionState

-- `is_shown` is the document's field `active`.
pub record Document : Type 0 where
  pub id : ℕ
  pub display_name : String
  pub company_id : Option ℕ
  pub organization_id : Option ℕ
  pub current_revision_id : Option ℕ
  pub state : DocumentState
  pub is_shown : Bool

-- The document, with the revisions that its `revision_ids` lists, in the order of the model. No write
-- of the model moves a revision to another document.
pub record Store : Type 0 where
  pub document : Document
  pub revisions : List Revision

pub data Assignment : Type 0 where
  set_state : RevisionState → Assignment
  set_revision : List ℕ → Assignment
  set_effective_date set_reviewed_by set_approved_by set_approval_date : Option ℕ → Assignment
  set_unmodelled : Assignment

abbrev pub assign : Assignment → Revision → Revision
assign (set_state v) r = record r { state = v }
assign (set_revision v) r = record r { revision = v }
assign (set_effective_date v) r = record r { effective_date = v }
assign (set_reviewed_by v) r = record r { reviewed_by = v }
assign (set_approved_by v) r = record r { approved_by = v }
assign (set_approval_date v) r = record r { approval_date = v }
assign set_unmodelled r = r

-- `"state" in vals`
abbrev pub sets_state : Assignment → Bool
sets_state (set_state _) = true
sets_state _ = false

pub data DocumentAssignment : Type 0 where
  set_current_revision_id : Option ℕ → DocumentAssignment
  set_stage : DocumentState → DocumentAssignment
  set_is_shown : Bool → DocumentAssignment
  set_unmodelled_field : DocumentAssignment

abbrev pub assign_document : DocumentAssignment → Document → Document
assign_document (set_current_revision_id v) d = record d { current_revision_id = v }
assign_document (set_stage v) d = record d { state = v }
assign_document (set_is_shown v) d = record d { is_shown = v }
assign_document set_unmodelled_field d = d

abbrev pub sets_stage : DocumentAssignment → Bool
sets_stage (set_stage _) = true
sets_stage _ = false

abbrev pub is_active : RevisionState → Bool
is_active active = true
is_active _ = false

-- `revision.state in ("approved", "active")`
abbrev pub can_activate : RevisionState → Bool
can_activate approved = true
can_activate active = true
can_activate _ = false

-- An entry of the event log, of a document or of a revision.
pub data LoggedEvent : Type 0 where
  of_document : Event DocumentState → LoggedEvent
  of_revision : Event RevisionState → LoggedEvent
