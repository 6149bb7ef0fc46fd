-- ===== src/Capa/Tests.antt =====
-- One CAPA on its way, and the theorems at concrete inputs.
use perfect_match_qms.Prelude.{
  ℕ, ◌⊎◌, ◌≡◌, refl, ◌≤◌, true, false, none, some, List, [], ◌∷◌, All, Exists, Forall₂, length, ◌↔◌,
}
use perfect_match_qms.Odoo.{
  Creation, Env, Error, ok, err, user_error, Orm, permissive, permissive_creation, assign_all,
  has_content,
}
use perfect_match_qms.Event.{Event, EventType}
use perfect_match_qms.Capa.Types.{
  State, SourceType, Method, EffectivenessResult, Why, IsIsNot, Capa, set_name,
  set_source_reference, assign,
}
use perfect_match_qms.Capa.Structure.{
  sequences, same_set, why_sequences, missing_whys, initialize_analysis_structure, initialize_by,
  initialize_whys, create_whys, check_integrity, blank_why, why_prompt,
}
use perfect_match_qms.Capa.Checks.{answers_from, validate_five_why, highest, has_gap}
use perfect_match_qms.Capa.Write.{check_write, write, write_one}
use perfect_match_qms.Capa.Workflow.{
  mark_effective, close, event_of, check_manager_permission, move, check_action, transition_one,
  transition, run,
}
use perfect_match_qms.Capa.Transitions.{IsRefused, run_cases}
use perfect_match_qms.Capa.Locks.{Kept, write-Kept}
use perfect_match_qms.Capa.FiveWhy.{AnsweredUpTo, validate_five_why_iff}
use perfect_match_qms.Capa.History.{
  History, created, acted, IsChain, IsAcceptance, History-IsChain, closed-Exists,
}

abbrev env : Env
env = record { user = 7; has_group = λ _. true; today = 100; now = 5000 }

abbrev orm : Orm assign
orm = permissive assign

abbrev whys : Creation Why
whys = permissive_creation

abbrev rows : Creation IsIsNot
rows = permissive_creation

abbrev asked : ℕ → Why
asked n = record { sequence = n; question = why_prompt n; answer = none }

abbrev scratch : Capa
scratch = record {
  id = 1;
  display_name = "PM-CAPA-00001";
  name = some "Scratched housings";
  company_id = some 1;
  organization_id = some 2;
  process_id = some (record { id = 4; company_id = some 1; organization_id = some 2 });
  source_type = SourceType.other;
  source_reference = none;
  source_ncr_id = none;
  source_risk_id = none;
  problem_statement = some "Housings arrive scratched.";
  root_cause_method = Method.five_why;
  root_cause_analysis = some "Trays wear out.";
  root_cause = some "No replacement interval.";
  other_method_name = none;
  target_date = some 90;
  implementation_date = none;
  effectiveness_required = true;
  effectiveness_review_date = some 120;
  effectiveness_reviewer_id = none;
  effectiveness_reviewed_on = none;
  effectiveness_result = EffectivenessResult.not_reviewed;
  effectiveness_notes = some "No scratch in 30 days.";
  state = State.draft;
  why_ids = blank_why 2 ∷ [];
  fishbone_ids = [];
  is_is_not_ids = [];
  action_ids = [];
  related_control_instance_ids = [];
  related_document_ids = [];
}

program : Unit {0}
unfolding run transition transition_one write_one write check_write check_action move
    check_manager_permission initialize_analysis_structure initialize_by initialize_whys create_whys
    check_integrity missing_whys validate_five_why answers_from highest has_gap has_content
program = tt

abbrev accepted : Capa
accepted = record scratch {
  state = State.effective;
  effectiveness_result = EffectivenessResult.effective;
  effectiveness_reviewer_id = some 7;
  effectiveness_reviewed_on = some 5000;
}

abbrev finished : Capa
finished = record accepted { state = State.closed }

abbrev acceptance : Event State
acceptance =
    event_of env
      (record {
        to = State.effective;
        decision = "CAPA effectiveness accepted";
        event_type = EventType.effectiveness;
        notes = some "Effectiveness notes retained on the record.";
        extra_values = [];
      })
      scratch accepted

abbrev closing : Event State
closing =
    event_of env
      (record {
        to = State.closed;
        decision = "CAPA closed";
        event_type = EventType.closure;
        notes = none;
        extra_values = [];
      })
      accepted finished

accept_run : run orm env mark_effective (scratch ∷ []) ≡ ok ((accepted, acceptance) ∷ [])
unfolding program
accept_run = refl

close_run : run orm env close (accepted ∷ []) ≡ ok ((finished, closing) ∷ [])
unfolding program
close_run = refl

accept_check : All (λ c. check_action mark_effective c ≡ ok tt) (scratch ∷ [])
unfolding program
accept_check = (refl, tt)

close_refused :
    run orm env close (scratch ∷ []) ≡ err (user_error "Only an effective CAPA can be closed.")
unfolding program
close_refused = refl

run_cases_example :
    ((outs : List (Capa × Event State)) × (run orm env mark_effective (scratch ∷ []) ≡ ok outs))
    ⊎ ((e : Error) × (run orm env mark_effective (scratch ∷ []) ≡ err e)
        × Exists (IsRefused orm (move env mark_effective) e) (scratch ∷ []))
run_cases_example = run_cases orm env mark_effective (scratch ∷ []) refl accept_check

life : History orm whys rows scratch finished (closing ∷ acceptance ∷ [])
life = acted env close (acted env mark_effective created accept_run) close_run

History-IsChain_example : IsChain State.draft (closing ∷ acceptance ∷ []) State.closed
History-IsChain_example =
    History-IsChain orm whys rows scratch finished (closing ∷ acceptance ∷ []) refl life

closed-Exists_example : Exists IsAcceptance (closing ∷ acceptance ∷ [])
closed-Exists_example =
    closed-Exists orm whys rows scratch finished (closing ∷ acceptance ∷ []) refl life refl

abbrev renamed : Capa
renamed = record accepted { name = some "Scratches" }

renaming : write orm false (set_name (some "Scratches") ∷ []) (accepted ∷ []) ≡ ok (renamed ∷ [])
unfolding program
renaming = refl

source_locked :
    write orm false (set_source_reference (some "NCR-9") ∷ []) (accepted ∷ [])
    ≡ err (user_error "CAPA source provenance is locked after Draft.")
unfolding program
source_locked = refl

write-Kept_example :
    Forall₂
      (λ c d. (d ≡ assign_all assign (set_name (some "Scratches") ∷ []) c) × Kept false c d)
      (accepted ∷ [])
      (renamed ∷ [])
write-Kept_example =
    write-Kept orm false (set_name (some "Scratches") ∷ []) (accepted ∷ []) (renamed ∷ []) renaming

abbrev answered : ℕ → Why
answered n = record { sequence = n; question = ""; answer = some "Because." }

abbrev slots : List Why
slots = answered 1 ∷ answered 2 ∷ blank_why 3 ∷ blank_why 4 ∷ blank_why 5 ∷ []

slots_pass : validate_five_why slots ≡ ok tt
unfolding program
slots_pass = refl

gap_fails :
    validate_five_why (answered 1 ∷ blank_why 2 ∷ answered 3 ∷ blank_why 4 ∷ blank_why 5 ∷ [])
    ≡ err (user_error "5 Why answers must be contiguous; trailing blank slots are allowed.")
unfolding program
gap_fails = refl

validate_five_why_iff_example : (validate_five_why slots ≡ ok tt) ↔ (
    (length slots ≡ 5)
    × (same_set (sequences slots) why_sequences ≡ true)
    × ((k : ℕ) × (1 ≤ k) × (k ≤ 5) × AnsweredUpTo k (answers_from [] slots)))
validate_five_why_iff_example = validate_five_why_iff slots

abbrev structured : Capa
structured = record scratch { why_ids = blank_why 2 ∷ asked 1 ∷ asked 3 ∷ asked 4 ∷ asked 5 ∷ [] }

structuring : initialize_analysis_structure whys rows scratch ≡ ok structured
unfolding program
structuring = refl
