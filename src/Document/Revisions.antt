-- ===== src/Document/Revisions.antt =====
-- The workflow of models/document_revision.py but for its activation: `action_submit_for_review`,
-- `action_approve`, `action_reject`, `action_supersede`, `write` and `unlink`.
use perfect_match_qms.Prelude.{
  Bool, true, false, not, ◌&&◌, String, none, some, List, [], ◌∷◌, any, filtered, map,
  if◌then◌else◌,
}
use perfect_match_qms.Odoo.{
  Env, access_error, user_error, Result, ok, ◌>>=◌, ◌>>◌, raise_if, traverse, Orm,
}
use perfect_match_qms.Event.{workflow, review, approval, Event, Logged, log_qms_event}
use perfect_match_qms.Document.Types.{
  RevisionState, draft, under_review, approved, active, superseded, rejected, Revision, Store,
  Assignment, set_state, set_reviewed_by, set_approved_by, set_approval_date, assign, sets_state,
}

abbrev pub manager_group : String
manager_group = "pm_qms_core.group_pm_qms_manager"

-- `_check_manager_permission`
unfoldable pub check_manager_permission : Env → Result (Unit {0})
check_manager_permission env = raise_if (not (env.has_group manager_group)) (
    access_error
      "Only QMS Managers or Administrators can perform document revision workflow actions.")

abbrev pub logged : Revision → Logged
logged r = record {
  model = "pm.qms.document.revision";
  id = r.id;
  display_name = r.display_name;
  company_id = r.company_id;
  organization_id = r.organization_id;
}

-- A selection of the document's revisions, `self` of a method.
abbrev pub Selection : Type 0
Selection = Revision → Bool

-- `write`, up to the link of the attachments. `flag` is the context's pm_qms_document_workflow.
unfoldable pub check_write : (flag : Bool) → List Assignment → Result (Unit {0})
check_write flag vals =
    raise_if (any sets_state vals && not flag)
      (access_error "Use controlled revision workflow actions to change revision status.")

unfoldable pub write :
    Orm assign → (flag : Bool) → List Assignment → Selection → Store → Result Store
unfolding check_write
write orm flag vals self store = do
  check_write flag vals
  revisions ← traverse (λ r. if self r then orm.super_write vals r else ok r) store.revisions
  ok (record store { revisions = revisions })

pub data Action : Type 0 where
  submit_for_review approve reject supersede : Action

-- `self.filtered(lambda revision: revision.state ...)`
unfoldable pub accepts : Action → RevisionState → Bool
accepts submit_for_review draft = true
accepts submit_for_review rejected = true
accepts approve under_review = true
accepts reject under_review = true
accepts supersede active = true
accepts _ _ = false

unfoldable pub target : Action → RevisionState
target submit_for_review = under_review
target approve = approved
target reject = rejected
target supersede = superseded

-- What each method writes.
unfoldable pub values : Env → Action → List Assignment
values env submit_for_review = set_state under_review ∷ []
values env approve =
    set_state approved
    ∷ set_reviewed_by (some env.user)
    ∷ set_approved_by (some env.user)
    ∷ set_approval_date (some env.now)
    ∷ []
values env reject = set_state rejected ∷ set_reviewed_by (some env.user) ∷ []
values env supersede = set_state superseded ∷ []

-- What each method logs, of a revision as it was before the write.
unfoldable pub event_of : Env → Action → Revision → Event RevisionState
event_of env submit_for_review r =
    log_qms_event env (logged r) workflow (some r.state) (some under_review) (some env.user) none
      (some "Revision submitted for review") none
event_of env approve r =
    log_qms_event env (logged r) approval (some r.state) (some approved) (some env.user)
      (some env.user) (some "Revision approved") none
event_of env reject r =
    log_qms_event env (logged r) review (some r.state) (some rejected) (some env.user) none
      (some "Revision rejected") none
event_of env supersede r =
    log_qms_event env (logged r) workflow (some active) (some superseded) none (some env.user)
      (some "Revision superseded") none

abbrev pub takes_part : Action → Selection → Selection
takes_part action self r = self r && accepts action r.state

-- The `action_*` methods.
unfoldable pub run :
    Orm assign → Env → Action → Selection → Store → Result (Store × List (Event RevisionState))
unfolding check_manager_permission write values event_of accepts
run orm env action self store = do
  check_manager_permission env
  new ← write orm true (values env action) (takes_part action self) store
  ok (new, map (event_of env action) (filtered (takes_part action self) store.revisions))

abbrev pub is_draft : RevisionState → Bool
is_draft draft = true
is_draft _ = false

-- `unlink`
unfoldable pub unlink : Selection → Store → Result Store
unlink self store =
    raise_if (any (λ (r : Revision). self r && not (is_draft r.state)) store.revisions)
      (user_error "Historical document revisions cannot be deleted.")
    >> ok (record store { revisions = filtered (λ r. not (self r)) store.revisions })
