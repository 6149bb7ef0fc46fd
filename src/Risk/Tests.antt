-- ===== src/Risk/Tests.antt =====
-- A risk on its way, and the theorems at concrete inputs.
use perfect_match_qms.Prelude.{◌≡◌, ◌≢◌, ◌⊎◌, refl, pos, negsuc, true, false, none, some, [], ◌∷◌}
use perfect_match_qms.Odoo.{Env, ok, err, access_error, validation_error, Orm, permissive}
use perfect_match_qms.Event.{Event}
use perfect_match_qms.Workflow.{save_and_log, save_each}
use perfect_match_qms.Risk.Types.{
  State, monitoring, closed, is_closed, Risk, set_state, assign, risk_level, compute_scores,
  check_score_bounds,
}
use perfect_match_qms.Risk.Workflow.{
  write, write_one, manager_group, check_manager_permission, event_of, transition, close, move,
  check_action, run,
}
use perfect_match_qms.Risk.Transitions.{acted, IsExplained, Step-IsExplained}

abbrev env : Env
env = record { user = 7; has_group = λ _. true; today = 100; now = 5000 }

abbrev orm : Orm assign
orm = permissive assign

abbrev supply : Risk
supply = record {
  id = 1;
  display_name = "PM-RISK-00001";
  company_id = some 1;
  organization_id = some 2;
  process_id = none;
  likelihood = pos 4;
  impact = pos 5;
  residual_likelihood = pos 2;
  residual_impact = pos 4;
  target_date = some 90;
  state = monitoring;
  assessment_date = none;
  assessor_id = none;
  last_review_date = none;
  closure_date = none;
  closed_by_id = none;
  closure_notes = some "Second source approved.";
  related_control_instance_ids = [];
  related_document_ids = [];
}

program : Unit {0}
unfolding run transition write_one write move check_action check_manager_permission save_each
    save_and_log risk_level compute_scores check_score_bounds
program = tt

abbrev finished : Risk
finished = record supply { state = closed; closure_date = some 100; closed_by_id = some 7 }

abbrev closing : Event State
closing = event_of env (move env close) supply finished

close_run : run orm env close (supply ∷ []) ≡ ok ((finished, closing) ∷ [])
unfolding program
close_run = refl

state_refused :
    write orm false (set_state closed ∷ []) (supply ∷ [])
    ≡ err (access_error "Use risk workflow actions to change risk status.")
unfolding program
state_refused = refl

out_of_range :
    check_score_bounds (record supply { impact = negsuc 2 })
    ≡ err (validation_error "Risk likelihood and impact values must be between 1 and 5.")
unfolding program
out_of_range = refl

in_range : check_score_bounds supply ≡ ok tt
unfolding program
in_range = refl

was_open : finished.state ≢ supply.state
was_open e = cc

Step-IsExplained_example :
    (env.has_group manager_group ≡ true)
    × ((is_closed finished.state ≡ false) ⊎ IsExplained env finished)
Step-IsExplained_example =
    Step-IsExplained orm env supply finished (acted close closing close_run) was_open
