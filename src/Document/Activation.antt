-- ===== src/Document/Activation.antt =====
-- `action_activate` of models/document_revision.py.
use perfect_match_qms.Prelude.{
  ℕ, ◌==◌, Bool, true, not, ◌&&◌, Option, none, some, List, [], ◌∷◌, ◌++◌, any, filtered, map,
}
use perfect_match_qms.Odoo.{Env, access_error, user_error, Result, ok, ◌>>=◌, ◌>>◌, raise_if, Orm}
use perfect_match_qms.Event.{workflow, approval, Event, log_qms_event}
use perfect_match_qms.Document.Stages
use perfect_match_qms.Document.Types.{
  RevisionState, active, superseded, Revision, Store, Assignment, set_state, set_effective_date,
  assign, DocumentAssignment, set_current_revision_id, set_stage, set_is_shown, assign_document,
  sets_stage, is_active, can_activate,
}
use perfect_match_qms.Document.Revisions.{check_manager_permission, logged, Selection, write}

-- `write` of models/document.py. `flag` is the context's pm_qms_document_workflow.
unfoldable pub write_document :
    Orm assign_document → (flag : Bool) → List DocumentAssignment → Store → Result Store
write_document orm flag vals store = do
  raise_if (any sets_stage vals && not flag)
      (access_error "Use controlled document workflow actions to change document status.")
  document ← orm.super_write vals store.document
  ok (record store { document = document })

-- `item.state == "active" and item != revision`
abbrev pub is_previous : ℕ → Selection
is_previous id item = is_active item.state && not (item.id == id)

abbrev pub is_this : ℕ → Selection
is_this id item = item.id == id

abbrev pub supersession : Env → Revision → Event RevisionState
supersession env r =
    log_qms_event env (logged r) workflow (some active) (some superseded) none (some env.user)
      (some "Revision superseded") none

abbrev pub activation : Env → Revision → Event RevisionState
activation env r =
    log_qms_event env (logged r) approval (some r.state) (some active) none (some env.user)
      (some "Revision activated") none

-- `revision.effective_date or fields.Date.context_today(revision)`
abbrev pub effective_from : Env → Revision → Option ℕ
effective_from env r = elim r.effective_date [ none ↦ some env.today | some d ↦ some d ]

abbrev pub active_values : Env → Revision → List Assignment
active_values env r = set_state active ∷ set_effective_date (effective_from env r) ∷ []

abbrev pub current_values : Revision → List DocumentAssignment
current_values r =
    set_current_revision_id (some r.id) ∷ set_stage Stages.active ∷ set_is_shown true ∷ []

-- `action_activate` on one revision, given as the store holds it.
unfoldable pub activate :
    Orm assign
    → Orm assign_document
    → Env
    → Revision
    → Store
    → Result (Store × List (Event RevisionState))
unfolding check_manager_permission write write_document
activate orm document_orm env revision store = do
  check_manager_permission env
  raise_if (not (can_activate revision.state))
      (user_error "Only approved revisions can be activated.")
  superseded_store ← write orm true (set_state superseded ∷ []) (is_previous revision.id) store
  active_store ← write orm true (active_values env revision) (is_this revision.id) superseded_store
  new ← write_document document_orm true (current_values revision) active_store
  ok (
    new,
    map (supersession env) (filtered (is_previous revision.id) store.revisions)
        ++ (activation env revision ∷ []),
  )
