-- ===== src/Capa/ActionTests.antt =====
-- CAPA actions and fishbone causes at concrete inputs.
use perfect_match_qms.Prelude.{◌≡◌, refl, true, none, some, [], ◌∷◌}
use perfect_match_qms.Odoo.{
  permissive_creation, Env, ok, err, user_error, validation_error, Orm, permissive,
}
use perfect_match_qms.Event.{Event}
use perfect_match_qms.Workflow.{save_and_log, save_each}
use perfect_match_qms.Capa.Types.{State, ActionStatus, CapaAction, Investigation}
use perfect_match_qms.Capa.Actions.{
  assign, write_one, check_manager_permission, event_of, transition, verify, move, run,
  check_unlink,
}
use perfect_match_qms.Capa.Causes.{Cause, check_editable, check_status_evidence, create, write}

abbrev env : Env
env = record { user = 7; has_group = λ _. true; today = 100; now = 5000 }

abbrev orm : Orm assign
orm = permissive assign

abbrev trays : CapaAction
trays = record {
  id = 3;
  display_name = "Replace trays";
  target_date = some 90;
  completion_date = some 95;
  status = ActionStatus.completed;
}

program : Unit {0}
unfolding run transition write_one move check_manager_permission save_each save_and_log check_unlink
    create write check_editable check_status_evidence
program = tt

abbrev checked : CapaAction
checked = record trays { status = ActionStatus.verified }

abbrev verification : Event ActionStatus
verification = event_of (some 1) (some 2) env (move env verify) trays checked

verify_run : run (some 1) (some 2) orm env verify (trays ∷ []) ≡ ok ((checked, verification) ∷ [])
unfolding program
verify_run = refl

unlink_refused :
    check_unlink ((trays, State.analysis) ∷ [])
    ≡ err (user_error "CAPA actions cannot be deleted after CAPA workflow starts.")
unfolding program
unlink_refused = refl

abbrev wear : Cause
wear = record {
  capa_state = State.analysis;
  cause = record {
    potential_cause = some "Worn trays";
    evidence_basis = some "Photographs";
    investigation_status = Investigation.potential;
    rationale_finding = some "Scratches match the edges.";
  };
}

abbrev confirm : Cause → Cause
confirm c = record c { cause = record c.cause { investigation_status = Investigation.confirmed } }

confirm_run : write (λ c. ok (confirm c)) (wear ∷ []) ≡ ok (confirm wear ∷ [])
unfolding program
confirm_run = refl

baseless_refused :
    write
      (λ c. ok (confirm c))
      (record wear { cause = record wear.cause { evidence_basis = none } } ∷ [])
    ≡ err (validation_error "A confirmed Fishbone cause requires evidence basis.")
unfolding program
baseless_refused = refl

create_run : create permissive_creation (confirm wear ∷ []) ≡ ok (confirm wear ∷ [])
unfolding program
create_run = refl
