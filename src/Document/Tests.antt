-- ===== src/Document/Tests.antt =====
-- The life of a document, from its first draft to the activation of its second revision, and the
-- theorems at concrete inputs.
use perfect_match_qms.Prelude.{
  ℕ, Bool, not, arith, ◌≡◌, ◌≢◌, refl, true, false, none, some, List, [], ◌∷◌, All,
}
use perfect_match_qms.Odoo.{
  Env, Result, ok, err, user_error, access_error, value_error, Orm, permissive, Creation,
  permissive_creation,
}
use perfect_match_qms.Document.Stages
use perfect_match_qms.Document.Types.{
  RevisionState, draft, under_review, approved, active, superseded, Revision, Document, Store,
  set_state, assign, assign_document, LoggedEvent, of_document, of_revision,
}
use perfect_match_qms.Document.Revisions.{
  check_manager_permission, submit_for_review, approve, accepts, values, event_of, write,
  check_write, run, unlink,
}
use perfect_match_qms.Document.Activation.{supersession, activation, write_document, activate}
use perfect_match_qms.Document.Naming.{is_digit, to_int, to_str, zfill, next_revision_name}
use perfect_match_qms.Document.Fresh.{is_readable, next_revision_name_differs}
use perfect_match_qms.Document.Workflow.{
  submit_document, approve_document, document_event, document_values, check_document_manager,
  run_revisions, run_document, activate_document, create_new_revision,
}
use perfect_match_qms.Document.Steps.{
  Log, logs, Reach, begins, continues, revision_created, document_acted, document_activated,
}
use perfect_match_qms.Document.Single.{HasOneActive, Reach-HasOneActive}
use perfect_match_qms.Document.Approvals.{is_settled, IsApprovedIn}
use perfect_match_qms.Document.History.{Reach-IsApprovedIn}

abbrev env : Env
env = record { user = 7; has_group = λ _. true; today = 100; now = 5000 }

abbrev orm : Orm assign
orm = permissive assign

abbrev document_orm : Orm assign_document
document_orm = permissive assign_document

abbrev creation : Creation Revision
creation = permissive_creation

abbrev revision : ℕ → List ℕ → RevisionState → Revision
revision id name state = record {
  id = id;
  display_name = "Revision";
  company_id = some 1;
  organization_id = some 2;
  revision = name;
  revision_date = 100;
  effective_date = none;
  prepared_by = some 7;
  reviewed_by = none;
  approved_by = none;
  approval_date = none;
  state = state;
}

abbrev document : Stages.DocumentState → Document
document state = record {
  id = 9;
  display_name = "Document";
  company_id = some 1;
  organization_id = some 2;
  current_revision_id = none;
  state = state;
  is_shown = true;
}

abbrev start : Store
start = record { document = document Stages.draft; revisions = [] }

program : Unit {0}
unfolding activate check_manager_permission write check_write write_document run values accepts
    event_of run_document run_revisions document_values document_event check_document_manager
    activate_document create_new_revision next_revision_name to_int to_str zfill is_digit unlink
program = tt

-- What a call leaves, where it returns.
abbrev store_of : {A : Type 0} → Store → Result (Store × A) → Store
store_of s (ok (s', events)) = s'
store_of s (err e) = s

abbrev events_of : {A : Type 0} → Result (Store × List A) → List A
events_of (ok (s, events)) = events
events_of (err e) = []

abbrev drafted : Store
drafted = record start { revisions = revision 1 (48 ∷ 49 ∷ []) draft ∷ [] }

create_run : create_new_revision creation env 1 "Revision" start ≡ ok drafted
unfolding program
create_run = refl

abbrev submitted : Store
submitted = record {
  document = document Stages.under_review;
  revisions = revision 1 (48 ∷ 49 ∷ []) under_review ∷ [];
}

abbrev submit_events : List LoggedEvent
submit_events =
    of_document (document_event env submit_document (document Stages.draft))
    ∷ of_revision (event_of env submit_for_review (revision 1 (48 ∷ 49 ∷ []) draft))
    ∷ []

submit_run :
    run_document orm document_orm env submit_document drafted ≡ ok (submitted, submit_events)
unfolding program
submit_run = refl

abbrev first_approved : Revision
first_approved = record (revision 1 (48 ∷ 49 ∷ []) approved) {
  reviewed_by = some 7;
  approved_by = some 7;
  approval_date = some 5000;
}

abbrev approved_store : Store
approved_store = record { document = document Stages.approved; revisions = first_approved ∷ [] }

abbrev approve_events : List LoggedEvent
approve_events =
    of_document (document_event env approve_document (document Stages.under_review))
    ∷ of_revision (event_of env approve (revision 1 (48 ∷ 49 ∷ []) under_review))
    ∷ []

approve_run :
    run_document orm document_orm env approve_document submitted
    ≡ ok (approved_store, approve_events)
unfolding program
approve_run = refl

abbrev first_active : Revision
first_active = record first_approved { effective_date = some 100; state = active }

abbrev activated : Store
activated = record {
  document = record (document Stages.active) { current_revision_id = some 1 };
  revisions = first_active ∷ [];
}

activate_run :
    activate_document orm document_orm env approved_store
    ≡ ok (activated, of_revision (activation env first_approved) ∷ [])
unfolding program
activate_run = refl

abbrev second_approved : Store
second_approved = record activated {
  revisions = revision 2 (48 ∷ 50 ∷ []) approved ∷ first_active ∷ [];
}

abbrev replaced : Store
replaced = record {
  document = record (document Stages.active) { current_revision_id = some 2 };
  revisions =
      record (revision 2 (48 ∷ 50 ∷ []) active) { effective_date = some 100 }
      ∷ record first_active { state = superseded }
      ∷ [];
}

replace_run :
    activate orm document_orm env (revision 2 (48 ∷ 50 ∷ []) approved) second_approved
    ≡ ok (
      replaced,
      supersession env first_active ∷ activation env (revision 2 (48 ∷ 50 ∷ []) approved) ∷ [],
    )
unfolding program
replace_run = refl

draft_refused :
    activate orm document_orm env (revision 1 (48 ∷ 49 ∷ []) draft) drafted
    ≡ err (user_error "Only approved revisions can be activated.")
unfolding program
draft_refused = refl

write_refused :
    write orm false (set_state active ∷ []) (λ _. true) drafted
    ≡ err (access_error "Use controlled revision workflow actions to change revision status.")
unfolding program
write_refused = refl

active_not_deleted :
    unlink (λ _. true) activated
    ≡ err (user_error "Historical document revisions cannot be deleted.")
unfolding program
active_not_deleted = refl

-- A revision with the name ² leaves the document without a next name.
superscript_refused :
    next_revision_name ((178 ∷ []) ∷ [])
    ≡ err (value_error "invalid literal for int() with base 10")
unfolding program
superscript_refused = refl

after_nine : next_revision_name ((48 ∷ 57 ∷ []) ∷ (65 ∷ []) ∷ []) ≡ ok (49 ∷ 48 ∷ [])
unfolding program
after_nine = refl

abbrev log : Log
log =
    logs env (of_revision (activation env first_approved) ∷ [])
      (logs env approve_events (logs env submit_events (logs env [] [])))

abbrev is_unsettled : Revision → Bool
is_unsettled r = not (is_settled r.state)

is_unsettled_lem : (r : Revision) → is_unsettled r ≡ true → is_settled r.state ≡ false
is_unsettled_lem r h = ground (arith, h)

history : Reach orm document_orm creation is_unsettled start activated log
history =
    continues env approved_store activated _ _
      (continues env submitted approved_store _ _
        (continues env drafted submitted _ _
          (continues env start drafted _ _ begins
            (revision_created 1 "Revision" start drafted create_run))
          (document_acted submit_document drafted submitted submit_events submit_run))
        (document_acted approve_document submitted approved_store approve_events approve_run))
      (document_activated approved_store activated _ activate_run)

Reach-HasOneActive_example : HasOneActive activated.revisions
Reach-HasOneActive_example =
    Reach-HasOneActive orm document_orm creation is_unsettled start activated log history (1, tt)

Reach-IsApprovedIn_example : All (IsApprovedIn log) activated.revisions
Reach-IsApprovedIn_example =
    Reach-IsApprovedIn orm document_orm creation is_unsettled is_unsettled_lem start activated log
      history tt

names_readable : All (λ s. is_readable s ≡ true) ((48 ∷ 57 ∷ []) ∷ (65 ∷ []) ∷ [])
unfolding program
names_readable = (refl, (refl, tt))

next_revision_name_differs_example :
    (new : List ℕ) × (next_revision_name ((48 ∷ 57 ∷ []) ∷ (65 ∷ []) ∷ []) ≡ ok new)
    × All (λ name. name ≢ new) ((48 ∷ 57 ∷ []) ∷ (65 ∷ []) ∷ [])
next_revision_name_differs_example =
    next_revision_name_differs ((48 ∷ 57 ∷ []) ∷ (65 ∷ []) ∷ []) names_readable
