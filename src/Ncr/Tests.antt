-- ===== src/Ncr/Tests.antt =====
-- A nonconformity on its way, and the theorems at concrete inputs.
use perfect_match_qms.Prelude.{◌≡◌, ◌≢◌, refl, true, false, none, some, [], ◌∷◌}
use perfect_match_qms.Odoo.{Env, ok, err, access_error, user_error, Orm, permissive}
use perfect_match_qms.Event.{Event}
use perfect_match_qms.Workflow.{save_and_log, save_each}
use perfect_match_qms.Ncr.Types.{
  State, verification, closed, Nonconformity, set_state, set_closure_notes, assign, compute_overdue,
}
use perfect_match_qms.Ncr.Workflow.{
  write, write_one, check_manager_permission, event_of, transition, close, move, check_action, run,
}
use perfect_match_qms.Ncr.Transitions.{acted, ClosedWell, Step-ClosedWell}

abbrev env : Env
env = record { user = 7; has_group = λ _. true; today = 100; now = 5000 }

abbrev clerk : Env
clerk = record { user = 8; has_group = λ _. false; today = 100; now = 5000 }

abbrev orm : Orm assign
orm = permissive assign

abbrev dented : Nonconformity
dented = record {
  id = 1;
  display_name = "PM-NCR-00001";
  company_id = some 1;
  organization_id = some 2;
  process_id = some (record { id = 4; company_id = some 1; organization_id = some 2 });
  containment_required = true;
  containment_completed = true;
  target_date = some 90;
  state = verification;
  opened_by_id = none;
  opened_on = none;
  reviewed_by_id = none;
  reviewed_on = none;
  closed_by_id = none;
  closed_on = none;
  closure_notes = some "Lot returned.";
  related_control_instance_ids = [];
  related_document_ids = [];
  related_evidence_ids = [];
  related_risk_ids = [];
}

program : Unit {0}
unfolding run transition write_one write move check_action check_manager_permission save_each
    save_and_log compute_overdue
program = tt

abbrev finished : Nonconformity
finished = record dented { state = closed; closed_by_id = some 7; closed_on = some 5000 }

abbrev closing : Event State
closing = event_of env (move env close) dented finished

close_run : run orm env close (dented ∷ []) ≡ ok ((finished, closing) ∷ [])
unfolding program
close_run = refl

clerk_refused :
    run orm clerk close (dented ∷ [])
    ≡ err (
        access_error
          "Only QMS Managers or Administrators can perform NCR review and closure actions.")
unfolding program
clerk_refused = refl

uncontained_refused :
    run orm env close (record dented { containment_completed = false } ∷ [])
    ≡ err (user_error "Required containment must be complete before closing an NCR.")
unfolding program
uncontained_refused = refl

state_refused :
    write orm false (set_closure_notes none ∷ set_state closed ∷ []) (dented ∷ [])
    ≡ err (access_error "Use NCR workflow actions to change NCR status.")
unfolding program
state_refused = refl

still_open : dented.state ≢ closed
still_open e = cc

Step-ClosedWell_example : ClosedWell env finished
Step-ClosedWell_example =
    Step-ClosedWell orm env dented finished still_open (acted close closing close_run) refl

ten_days_late : compute_overdue env dented ≡ (true, 10)
unfolding program
ten_days_late = refl
