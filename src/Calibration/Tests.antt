-- ===== src/Calibration/Tests.antt =====
-- Calibration events that fail and that pass, and the theorems at concrete inputs.
use perfect_match_qms.Prelude.{
  ◌+◌, ◌*◌, ◌≡◌, ◌<◌, refl, arith, ltb, true, none, some, List, [], ◌∷◌, Exists,
}
use perfect_match_qms.Odoo.{
  Env, Result, ok, err, user_error, ◌>>◌, raise_if, Orm, permissive, Creation, permissive_creation,
}
use perfect_match_qms.Calibration.Assessments.{
  Assessment, manager_group, check_action, check_manager_permission, values, write, run,
}
use perfect_match_qms.Calibration.Types.{
  EventState, awaiting_review, accepted, EventResult, pass, fail, CalibrationEvent, Lifecycle,
  in_service, quarantined, days, months, years, Equipment, assign_event, assign_equipment,
  LoggedEvent,
}
use perfect_match_qms.Calibration.Rollup.{
  last_event, open_count, check_equipment_manager, move, quarantine, return_to_service,
  calibration_status, current,
}
use perfect_match_qms.Calibration.Checks.{check_intervals, check_dates}
use perfect_match_qms.Calibration.Accept.{
  Relativedelta, check_event_manager, write_event, Case, ensure_impact_assessment,
  complete_due_date, conclude, accept,
}
use perfect_match_qms.Calibration.Service.{return_to_service_lem}
use perfect_match_qms.Calibration.Acceptance.{Reviewed, IsReturned, accept-IsReturned}
use perfect_match_qms.Calibration.Failure.{accept-quarantined}

program : Unit {0}
unfolding check_intervals check_dates accept conclude complete_due_date ensure_impact_assessment
    write_event check_event_manager quarantine check_equipment_manager move return_to_service
    open_count last_event calibration_status run check_action check_manager_permission values write
program = tt

abbrev env : Env
env = record { user = 7; has_group = λ _. true; today = 100; now = 5000 }

abbrev orm : Orm assign_event
orm = permissive assign_event

abbrev equipment_orm : Orm assign_equipment
equipment_orm = permissive assign_equipment

abbrev creation : Creation Assessment
creation = permissive_creation

-- Months of 30 days and years of 365.
abbrev calendar : Relativedelta
calendar = record {
  shift = λ unit n date. elim unit [
    | days ↦ date + n
    | months ↦ date + 30 * n
    | years ↦ date + 365 * n
  ];
  shift_later = λ unit n date h.
      elim unit
        as (λ u.
          date < elim u [ days ↦ date + n | months ↦ date + 30 * n | years ↦ date + 365 * n ]) [
            | days ↦ omega (arith, h)
            | months ↦ omega (arith, h)
            | years ↦ omega (arith, h)
          ];
}

abbrev gage : Lifecycle → Equipment
gage state = record {
  id = 3;
  display_name = "Gage";
  company_id = some 1;
  organization_id = some 2;
  lifecycle_state = state;
  calibration_required = true;
  frequency_interval = 12;
  frequency_unit = months;
  due_soon_days = 30;
}

abbrev event : EventState → EventResult → CalibrationEvent
event state result = record {
  id = 5;
  display_name = "PM-CAL-00005";
  company_id = some 1;
  organization_id = some 2;
  date_sent = some 80;
  calibration_date = some 90;
  next_due_date = none;
  result = result;
  reviewed_by_id = none;
  review_date = none;
  impact_assessment_id = none;
  state = state;
}

abbrev case_of : EventResult → Lifecycle → List Assessment → Case
case_of result state assessments = record {
  event = event awaiting_review result;
  others = [];
  equipment = gage state;
  assessments = assessments;
  everywhere = assessments;
}

abbrev outcome : Case → Result (Case × List LoggedEvent) → Case
outcome case (ok (new, events)) = new
outcome case (err e) = case

abbrev events_of : Result (Case × List LoggedEvent) → List LoggedEvent
events_of (ok (new, events)) = events
events_of (err e) = []

abbrev accepted_case : Case → Case
accepted_case case = outcome case (accept orm equipment_orm creation calendar env 8 case)

abbrev accepted_events : Case → List LoggedEvent
accepted_events case = events_of (accept orm equipment_orm creation calendar env 8 case)

abbrev failing : Case
failing = case_of fail in_service []

abbrev passing : Case
passing = case_of pass quarantined []

failing_run :
    accept orm equipment_orm creation calendar env 8 failing
    ≡ ok (accepted_case failing, accepted_events failing)
unfolding program
failing_run = refl

passing_run :
    accept orm equipment_orm creation calendar env 8 passing
    ≡ ok (accepted_case passing, accepted_events passing)
unfolding program
passing_run = refl

due_next_year : (accepted_case passing).event.next_due_date ≡ some 450
unfolding program
due_next_year = refl

is_current : calibration_status 100 (gage in_service) (some 450) ≡ current
unfolding program
is_current = refl

abbrev open_assessment : List Assessment
open_assessment = (accepted_case failing).assessments

one_open : open_count open_assessment ≡ 1
unfolding program
one_open = refl

-- An assessment of the event that another equipment has is reused, so the equipment that is quarantined
-- has none.
foreign_reused :
    let case = accepted_case (record failing { everywhere = open_assessment }) in
    (case.event.impact_assessment_id ≡ some 8)
    × (case.equipment.lifecycle_state ≡ quarantined)
    × (case.assessments ≡ [])
unfolding program
foreign_reused = (refl, refl, refl)

-- Quarantined equipment with an open assessment is back in service once a passing event is accepted.
passing_returns :
    (accepted_case (case_of pass quarantined open_assessment)).equipment.lifecycle_state
    ≡ in_service
unfolding program
passing_returns = refl

-- With no accepted event at all, and no open assessment, the equipment returns to service.
never_calibrated :
    return_to_service equipment_orm env [] [] (gage quarantined)
    ≡ move equipment_orm env in_service "Equipment returned to service" (gage quarantined)
unfolding program
never_calibrated = refl

intervals_pass : (state : Lifecycle) → check_intervals (gage state) ≡ ok tt
unfolding program
intervals_pass state = refl

dates_pass : (result : EventResult) → check_dates (event awaiting_review result) ≡ ok tt
unfolding program
dates_pass result = refl

accept-IsReturned_example :
    (env.has_group manager_group ≡ true)
    × Reviewed orm equipment_orm creation calendar env
        (gage quarantined)
        passing.event
        (accepted_case passing).event
    × IsReturned orm equipment_orm creation calendar env
        (gage quarantined)
        (accepted_case passing).equipment
    × ((accepted_case passing).assessments ≡ [])
accept-IsReturned_example =
    accept-IsReturned orm equipment_orm creation calendar env 8 passing (accepted_case passing)
      (accepted_events passing) (intervals_pass quarantined) (dates_pass pass) refl passing_run

accept-quarantined_example :
    (env.has_group manager_group ≡ true)
    × ((accepted_case failing).event.state ≡ accepted)
    × ((accepted_case failing).equipment.lifecycle_state ≡ quarantined)
    × Exists
        (λ a. (accepted_case failing).event.impact_assessment_id ≡ some a.id)
        (accepted_case failing).everywhere
accept-quarantined_example =
    accept-quarantined orm equipment_orm creation calendar env 8 failing (accepted_case failing)
      (accepted_events failing) (intervals_pass in_service) (dates_pass fail) refl failing_run

return_to_service_lem_example :
    return_to_service equipment_orm env
      (event accepted fail ∷ [])
      open_assessment
      (gage quarantined)
    ≡ (check_equipment_manager env
        >> (raise_if
              (ltb 0 (open_count open_assessment))
              (user_error "Close related impact assessments before returning equipment to service.")
            >> move equipment_orm env in_service "Equipment returned to service"
                (gage quarantined)))
return_to_service_lem_example =
    return_to_service_lem equipment_orm env (event accepted fail ∷ []) open_assessment
      (gage quarantined)
