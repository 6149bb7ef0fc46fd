-- ===== src/Document/Steps.antt =====
-- The calls that change a document and its revisions, each on success. A call that raises changes
-- nothing, since its transaction is rolled back.
use perfect_match_qms.Prelude.{ℕ, ◌≡◌, Bool, true, false, String, List, [], ◌++◌, map, Exists}
use perfect_match_qms.Odoo.{Env, ok, Orm, Creation}
use perfect_match_qms.Event.{Event}
use perfect_match_qms.Document.Types.{
  RevisionState, Revision, Store, Assignment, assign, DocumentAssignment, assign_document,
  LoggedEvent, of_revision,
}
use perfect_match_qms.Document.Revisions.{Action, Selection, run, write, unlink}
use perfect_match_qms.Document.Activation.{activate, write_document}
use perfect_match_qms.Document.Workflow.{
  DocumentAction, run_document, activate_document, create_new_revision, create_revision,
}

-- The log, latest call first, with the environment of each event's call.
abbrev pub Log : Type 0
Log = List (Env × LoggedEvent)

-- The log after a call.
abbrev pub logs : Env → List LoggedEvent → Log → Log
logs env events log = map (λ e. (env, e)) events ++ log

module _ (orm : Orm assign) (document_orm : Orm assign_document) (creation : Creation Revision)
    (admits : Revision → Bool) where
  -- A call in an environment, and the events that it logs. The calls of `write` from outside do not
  -- set the context's pm_qms_document_workflow. The revisions that are created with values of the
  -- caller's choice satisfy `admits`.
  pub data Step (env : Env) : Store → Store → List LoggedEvent → Type 0 where
    revision_acted :
        (action : Action) (self : Selection) (s s' : Store) (events : List (Event RevisionState))
        → run orm env action self s ≡ ok (s', events)
        → Step env s s' (map of_revision events)
    revision_activated :
        (r : Revision) (s s' : Store) (events : List (Event RevisionState))
        → Exists (λ q. q ≡ r) s.revisions
        → activate orm document_orm env r s ≡ ok (s', events)
        → Step env s s' (map of_revision events)
    revision_written :
        (vals : List Assignment) (self : Selection) (s s' : Store)
        → write orm false vals self s ≡ ok s'
        → Step env s s' []
    revision_deleted : (self : Selection) (s s' : Store) → unlink self s ≡ ok s' → Step env s s' []
    revision_created :
        (id : ℕ) (display_name : String) (s s' : Store)
        → create_new_revision creation env id display_name s ≡ ok s'
        → Step env s s' []
    revision_entered :
        (new : Revision) (s s' : Store)
        → admits new ≡ true
        → create_revision creation new s ≡ ok s'
        → Step env s s' []
    document_acted :
        (action : DocumentAction) (s s' : Store) (events : List LoggedEvent)
        → run_document orm document_orm env action s ≡ ok (s', events)
        → Step env s s' events
    document_activated :
        (s s' : Store) (events : List LoggedEvent)
        → activate_document orm document_orm env s ≡ ok (s', events)
        → Step env s s' events
    document_written :
        (vals : List DocumentAssignment) (s s' : Store)
        → write_document document_orm false vals s ≡ ok s'
        → Step env s s' []

  -- What calls in any order make of a document, from one whose log is empty.
  pub data Reach (start : Store) : Store → Log → Type 0 where
    begins : Reach start start []
    continues :
        (env : Env) (s s' : Store) (log : Log) (events : List LoggedEvent)
        → Reach start s log
        → Step env s s' events
        → Reach start s' (logs env events log)
