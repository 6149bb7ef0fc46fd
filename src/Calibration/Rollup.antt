-- ===== src/Calibration/Rollup.antt =====
-- The computed fields of models/equipment.py and its lifecycle actions. The day number of a date is
-- its `toordinal`.
use perfect_match_qms.Prelude.{
  ℕ, ◌+◌, ltb, leb, ◌==◌, Bool, true, false, not, ◌&&◌, ◌||◌, String, Option, none, some, List, [],
  ◌∷◌, filtered, length, if◌then◌else◌,
}
use perfect_match_qms.Odoo.{Env, access_error, user_error, Result, ok, ◌>>=◌, ◌>>◌, raise_if, Orm}
use perfect_match_qms.Event.{workflow, Event, Logged, log_qms_event}
use perfect_match_qms.Calibration.Assessments.{Assessment, is_open, manager_group}
use perfect_match_qms.Calibration.Types.{
  CalibrationEvent, Lifecycle, in_service, out_for_calibration, quarantined, retired, Equipment,
  set_lifecycle_state, assign_equipment, is_accepted, is_passing,
}

abbrev pub is_acceptable : CalibrationEvent → Bool
is_acceptable e = is_accepted e.state && is_passing e.result

-- `event.calibration_date or fields.Date.to_date("1900-01-01")`
abbrev pub sorting_date : CalibrationEvent → ℕ
sorting_date e = elim e.calibration_date [ none ↦ 693596 | some d ↦ d ]

-- The key (date, id) of the first event is greater.
abbrev pub is_later : CalibrationEvent → CalibrationEvent → Bool
is_later e f =
    ltb (sorting_date f) (sorting_date e) || (sorting_date e == sorting_date f && ltb f.id e.id)

abbrev pub later_of : CalibrationEvent → Option CalibrationEvent → Option CalibrationEvent
later_of e none = some e
later_of e (some f) = if is_later f e then some f else some e

-- `last_event_id` of `_compute_event_rollup`: the first of the accepted events, in descending order.
unfoldable pub last_event : List CalibrationEvent → Option CalibrationEvent
last_event [] = none
last_event (e ∷ es) = let rest = last_event es in if is_acceptable e then later_of e rest else rest

-- `next_due_date` of `_compute_event_rollup`
unfoldable pub next_due : List CalibrationEvent → Option ℕ
unfolding last_event
next_due es = elim (last_event es) [ none ↦ none | some e ↦ e.next_due_date ]

pub data CalibrationStatus : Type 0 where
  not_required no_history current due_soon due overdue : CalibrationStatus
  by_lifecycle : Lifecycle → CalibrationStatus

-- `equipment.lifecycle_state in ("quarantined", "out_for_calibration", "retired")`
abbrev pub is_blocked : Lifecycle → Bool
is_blocked quarantined = true
is_blocked out_for_calibration = true
is_blocked retired = true
is_blocked _ = false

-- `_compute_calibration_status`, with the computed next due date.
unfoldable pub calibration_status : (today : ℕ) → Equipment → Option ℕ → CalibrationStatus
calibration_status today q next_due_date =
    if is_blocked q.lifecycle_state
    then by_lifecycle q.lifecycle_state
    else if not q.calibration_required
    then not_required
    else elim next_due_date [
      | none ↦ no_history
      | some d ↦
          if ltb d today
          then overdue
          else if d == today
          then due
          else if leb d (today + q.due_soon_days)
          then due_soon
          else current
    ]

-- `open_impact_assessment_count`
unfoldable pub open_count : List Assessment → ℕ
open_count assessments = length (filtered (λ (a : Assessment). is_open a.state) assessments)

-- `_check_manager_permission` of the equipment.
unfoldable pub check_equipment_manager : Env → Result (Unit {0})
check_equipment_manager env =
    raise_if (not (env.has_group manager_group))
      (access_error "Only QMS Managers or Administrators can manage equipment status.")

abbrev logged : Equipment → Logged
logged q = record {
  model = "pm.qms.equipment";
  id = q.id;
  display_name = q.display_name;
  company_id = q.company_id;
  organization_id = q.organization_id;
}

-- The last event is there and its result is no passing one.
abbrev pub is_failing : Option CalibrationEvent → Bool
is_failing none = false
is_failing (some e) = not (is_passing e.result)

module _ (orm : Orm assign_equipment) (env : Env) where
  -- A write of the lifecycle and its event.
  unfoldable pub move : Lifecycle → String → Equipment → Result (Equipment × Event Lifecycle)
  move to decision q = do
    new ← orm.super_write (set_lifecycle_state to ∷ []) q
    ok (
      new,
      log_qms_event env (logged new) workflow (some q.lifecycle_state) (some to) none none
          (some decision) none,
    )

  unfoldable pub mark_out_for_calibration : Equipment → Result (Equipment × Event Lifecycle)
  unfolding check_equipment_manager move
  mark_out_for_calibration q =
      check_equipment_manager env >> move out_for_calibration "Equipment sent for calibration" q

  unfoldable pub quarantine : Equipment → Result (Equipment × Event Lifecycle)
  unfolding check_equipment_manager move
  quarantine q = check_equipment_manager env >> move quarantined "Equipment quarantined" q

  -- `action_return_to_service`, with the events and the assessments of the equipment.
  unfoldable pub return_to_service :
      List CalibrationEvent → List Assessment → Equipment → Result (Equipment × Event Lifecycle)
  unfolding check_equipment_manager move open_count last_event
  return_to_service events assessments q = do
    check_equipment_manager env
    raise_if (ltb 0 (open_count assessments))
        (user_error "Close related impact assessments before returning equipment to service.")
    raise_if (is_failing (last_event events)) (
        user_error
          "A passing or conditional calibration/verification event is required before return to service.")
    move in_service "Equipment returned to service" q
