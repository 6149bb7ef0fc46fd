-- ===== src/Document/Workflow.antt =====
-- The workflow actions of models/document.py, on one document: `action_submit_for_review`,
-- `action_approve`, `action_reject`, `action_activate`, `action_obsolete` and
-- `action_create_new_revision`.
use perfect_match_qms.Prelude.{
  ℕ, ltb, ◌==◌, Bool, true, false, not, ◌&&◌, ◌||◌, String, Option, none, some, List, [], ◌∷◌, map,
  any, if◌then◌else◌,
}
use perfect_match_qms.Odoo.{
  Env, access_error, user_error, validation_error, Result, ok, err, ◌>>=◌, ◌>>◌, raise_if, Orm,
  Creation,
}
use perfect_match_qms.Event.{workflow, review, approval, closure, Event, Logged, log_qms_event}
use perfect_match_qms.Document.Stages.{DocumentState}
use perfect_match_qms.Document.Stages
use perfect_match_qms.Document.Types.{
  RevisionState, draft, under_review, Document, Revision, Store, assign, DocumentAssignment,
  set_stage, set_is_shown, assign_document, can_activate, is_active, LoggedEvent, of_document,
  of_revision,
}
use perfect_match_qms.Document.Revisions.{manager_group, submit_for_review, approve, reject, run}
use perfect_match_qms.Document.Activation.{write_document, activate}
use perfect_match_qms.Document.Naming.{next_revision_name}

-- `_check_manager_permission` of the document.
unfoldable pub check_document_manager : Env → Result (Unit {0})
check_document_manager env = raise_if (not (env.has_group manager_group)) (
    access_error
      "Only QMS Managers or Administrators can perform controlled document workflow actions.")

abbrev pub logged_document : Document → Logged
logged_document d = record {
  model = "pm.qms.document";
  id = d.id;
  display_name = d.display_name;
  company_id = d.company_id;
  organization_id = d.organization_id;
}

-- The four methods that write the state of the document.
pub data DocumentAction : Type 0 where
  submit_document approve_document reject_document obsolete_document : DocumentAction

unfoldable pub document_values : DocumentAction → List DocumentAssignment
document_values submit_document = set_stage Stages.under_review ∷ []
document_values approve_document = set_stage Stages.approved ∷ []
document_values reject_document = set_stage Stages.draft ∷ []
document_values obsolete_document = set_stage Stages.obsolete ∷ set_is_shown false ∷ []

unfoldable pub document_event : Env → DocumentAction → Document → Event DocumentState
document_event env submit_document d =
    log_qms_event env (logged_document d) workflow (some d.state) (some Stages.under_review)
      (some env.user) none (some "Document submitted for review") none
document_event env approve_document d =
    log_qms_event env (logged_document d) approval (some d.state) (some Stages.approved) none
      (some env.user) (some "Document approved") none
document_event env reject_document d =
    log_qms_event env (logged_document d) review (some d.state) (some Stages.draft) (some env.user)
      none (some "Document review rejected") none
document_event env obsolete_document d =
    log_qms_event env (logged_document d) closure (some d.state) (some Stages.obsolete) none
      (some env.user) (some "Document made obsolete") none

abbrev pub is_draft_revision : Revision → Bool
is_draft_revision r = elim r.state [ draft ↦ true | _ ↦ false ]

abbrev pub is_in_review : Revision → Bool
is_in_review r = elim r.state [ under_review ↦ true | _ ↦ false ]

-- What each method then calls on the revisions that it filters.
unfoldable pub run_revisions :
    Orm assign → Env → DocumentAction → Store → Result (Store × List (Event RevisionState))
unfolding run
run_revisions orm env submit_document store = run orm env submit_for_review is_draft_revision store
run_revisions orm env approve_document store = run orm env approve is_in_review store
run_revisions orm env reject_document store = run orm env reject is_in_review store
run_revisions orm env obsolete_document store = ok (store, [])

-- `filtered(...)[:1]`
abbrev pub first_ready : List Revision → Option Revision
first_ready [] = none
first_ready (r ∷ rs) = if can_activate r.state then some r else first_ready rs

module _ (orm : Orm assign) (document_orm : Orm assign_document) (env : Env) where
  unfoldable pub run_document : DocumentAction → Store → Result (Store × List LoggedEvent)
  unfolding check_document_manager write_document run_revisions document_values document_event
  run_document action store = do
    check_document_manager env
    written ← write_document document_orm true (document_values action) store
    (new, events) ← run_revisions orm env action written
    ok (new, of_document (document_event env action store.document) ∷ map of_revision events)

  -- The document's `action_activate`.
  unfoldable pub activate_document : Store → Result (Store × List LoggedEvent)
  unfolding check_document_manager activate
  activate_document store = do
    check_document_manager env
    revision ← elim (first_ready store.revisions) as (λ _. Result Revision) [
      | none ↦ err (user_error "A document needs an approved revision before activation.")
      | some r ↦ ok r
    ]
    (new, events) ← activate orm document_orm env revision store
    ok (new, map of_revision events)

-- `_order` of the revisions: the latest date first, then the greatest id.
abbrev pub comes_before : Revision → Revision → Bool
comes_before new r =
    ltb r.revision_date new.revision_date
    || (r.revision_date == new.revision_date && ltb r.id new.id)

abbrev pub insert : Revision → List Revision → List Revision
insert new [] = new ∷ []
insert new (r ∷ rs) =
    let rest = insert new rs in if comes_before new r then new ∷ r ∷ rs else r ∷ rest

abbrev pub insert_each : List Revision → List Revision → List Revision
insert_each [] rs = rs
insert_each (new ∷ more) rs = insert_each more (insert new rs)

-- The values of `create`, with the defaults of the fields. The ORM gives the id.
abbrev pub new_revision : Env → (id : ℕ) → String → List ℕ → Document → Revision
new_revision env id display_name revision d = record {
  id = id;
  display_name = display_name;
  company_id = d.company_id;
  organization_id = d.organization_id;
  revision = revision;
  revision_date = env.today;
  effective_date = none;
  prepared_by = some env.user;
  reviewed_by = none;
  approved_by = none;
  approval_date = none;
  state = draft;
}

-- `action_create_new_revision`, up to the window that it opens.
unfoldable pub create_new_revision :
    Creation Revision → Env → (id : ℕ) → String → Store → Result Store
unfolding check_document_manager next_revision_name
create_new_revision creation env id display_name store = do
  check_document_manager env
  name ← next_revision_name (map (λ (r : Revision). r.revision) store.revisions)
  created ← creation.super_create (new_revision env id display_name name store.document ∷ [])
  ok (record store { revisions = insert_each created store.revisions })

-- `create` of a revision with the values given, then `_check_single_active_revision`. Only the ORM's
-- access rights say who may create one, and in which state.
unfoldable pub create_revision : Creation Revision → Revision → Store → Result Store
create_revision creation new store = do
  created ← creation.super_create (new ∷ [])
  raise_if
      (is_active new.state
        && any (λ (r : Revision). is_active r.state && not (r.id == new.id)) store.revisions)
      (validation_error "Only one active revision is allowed for a controlled document.")
  ok (record store { revisions = insert_each created store.revisions })
