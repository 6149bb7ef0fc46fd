-- ===== src/Calibration/Accept.antt =====
-- The workflow of models/calibration_event.py, at one event: `action_start`, `action_submit_review`,
-- `action_accept`, `action_cancel` and `write`.
use perfect_match_qms.Prelude.{
  ℕ, leb, ◌==◌, ◌≤◌, ◌<◌, Bool, true, false, not, ◌&&◌, String, Option, none, some, List, [], ◌∷◌,
  ◌++◌, any, if◌then◌else◌,
}
use perfect_match_qms.Odoo.{
  Env, access_error, user_error, Result, ok, err, ◌>>=◌, ◌>>◌, raise_if, exists, Orm, Creation,
}
use perfect_match_qms.Event.{EventType, workflow, approval, closure, Event, Logged, log_qms_event}
use perfect_match_qms.Calibration.Assessments
use perfect_match_qms.Calibration.Assessments.{Assessment, manager_group}
use perfect_match_qms.Calibration.Types.{
  EventState, in_progress, awaiting_review, accepted, cancelled, CalibrationEvent, Equipment,
  FrequencyUnit, EventAssignment, set_state, set_next_due_date, set_reviewed_by_id, set_review_date,
  set_impact_assessment_id, assign_event, sets_state, is_locked, set_lifecycle_state, in_service,
  assign_equipment, is_accepted, is_passing, is_retired, LoggedEvent, of_event, of_equipment,
}
use perfect_match_qms.Calibration.Rollup.{
  is_acceptable, later_of, quarantine, mark_out_for_calibration,
}

-- dateutil's `relativedelta(days=n)`, `months=n` and `years=n`, added to a date. With a positive
-- number the date is a later one.
pub record Relativedelta : Type 0 where
  pub shift : FrequencyUnit → ℕ → ℕ → ℕ
  pub shift_later : (unit : FrequencyUnit) (n date : ℕ) → 1 ≤ n → date < shift unit n date

-- `_add_interval` of the equipment.
abbrev pub add_interval : Relativedelta → Equipment → ℕ → ℕ
add_interval relativedelta q start_date =
    relativedelta.shift q.frequency_unit q.frequency_interval start_date

abbrev pub administrator_group : String
administrator_group = "pm_qms_core.group_pm_qms_administrator"

-- `_check_manager_permission` of the event.
unfoldable pub check_event_manager : Env → Result (Unit {0})
check_event_manager env =
    raise_if (not (env.has_group manager_group))
      (access_error "Only QMS Managers or Administrators can review calibration records.")

-- `write`, up to the link of the certificate. `flag` is the context's pm_qms_calibration_workflow.
unfoldable pub write_event :
    Orm assign_event
    → Env
    → (flag : Bool) → List EventAssignment
    → CalibrationEvent
    → Result CalibrationEvent
write_event orm env flag vals e = do
  raise_if (any sets_state vals && not flag)
      (access_error "Use calibration workflow actions to change event status.")
  raise_if (any is_locked vals && (is_accepted e.state && not (env.has_group administrator_group)))
      (access_error "Only QMS Administrators can correct accepted calibration history.")
  orm.super_write vals e

abbrev logged : CalibrationEvent → Logged
logged e = record {
  model = "pm.qms.calibration.event";
  id = e.id;
  display_name = e.display_name;
  company_id = e.company_id;
  organization_id = e.organization_id;
}

abbrev event_of :
    Env → EventType → EventState → Option ℕ → String → (e new : CalibrationEvent) → Event EventState
event_of env event_type to reviewer decision e new =
    log_qms_event env (logged new) event_type (some e.state) (some to) reviewer none (some decision)
      none

-- An event, the other events of its equipment, the equipment, the equipment's assessments, and the
-- assessments of all equipment, both in the order of the model.
pub record Case : Type 0 where
  pub event : CalibrationEvent
  pub others : List CalibrationEvent
  pub equipment : Equipment
  pub assessments : List Assessment
  pub everywhere : List Assessment

-- The search for an assessment of the event that is not cancelled.
abbrev pub is_found : ℕ → Assessment → Bool
is_found id a = a.event_id == id && not (elim a.state [ Assessments.cancelled ↦ true | _ ↦ false ])

abbrev pub find : (Assessment → Bool) → List Assessment → Option Assessment
find f [] = none
find f (a ∷ more) = if f a then some a else find f more

-- `self.impact_assessment_id or search(...)`, among the assessments of all equipment.
abbrev pub existing : CalibrationEvent → List Assessment → Option Assessment
existing e assessments = elim e.impact_assessment_id [
  | none ↦ find (is_found e.id) assessments
  | some id ↦ find (λ (a : Assessment). a.id == id) assessments
]

-- `calibration_date and calibration_date <= self.calibration_date` of an acceptable event.
abbrev pub is_previous : (date : ℕ) → CalibrationEvent → Bool
is_previous date e =
    is_acceptable e && elim e.calibration_date [ none ↦ false | some d ↦ leb d date ]

-- The latest of the events that satisfy the test.
abbrev pub latest : (CalibrationEvent → Bool) → List CalibrationEvent → Option CalibrationEvent
latest f [] = none
latest f (e ∷ es) = let rest = latest f es in if f e then later_of e rest else rest

-- The values of the new assessment, with the defaults of its fields. The ORM gives the id.
abbrev pub new_assessment : (id date : ℕ) → CalibrationEvent → Option CalibrationEvent → Assessment
new_assessment id date e previous_accepted = record {
  id = id;
  display_name = e.display_name;
  company_id = e.company_id;
  organization_id = e.organization_id;
  event_id = e.id;
  last_acceptable_event_id = elim previous_accepted [ none ↦ none | some p ↦ some p.id ];
  exposure_start = elim previous_accepted [ none ↦ none | some p ↦ p.calibration_date ];
  exposure_end = some date;
  impact_conclusion = Assessments.unknown;
  evaluation_summary = none;
  decided = none;
  ncr_required = true;
  ncr_id = none;
  capa_required = false;
  capa_id = none;
  approved_by_id = none;
  approval_date = none;
  closure_date = none;
  state = Assessments.draft;
}

-- The test of the calibration date in `action_accept`.
abbrev pub require_date : Option ℕ → Result ℕ
require_date none =
    err (user_error "Calibration or completion date is required before accepting the event.")
require_date (some date) = ok date

abbrev pub review_values : Env → List EventAssignment
review_values env =
    set_state accepted ∷ set_reviewed_by_id (some env.user) ∷ set_review_date (some env.today) ∷ []

module _ (orm : Orm assign_event) (equipment_orm : Orm assign_equipment)
    (creation : Creation Assessment) (relativedelta : Relativedelta) (env : Env) where
  -- The end of `_ensure_impact_assessment`: the assessment found, or else a new one.
  abbrev pub found_or_new :
      (id date : ℕ)
      → CalibrationEvent
      → Case
      → Option Assessment
      → Result (Assessment × List Assessment)
  found_or_new id date e case (some a) = ok (a, [])
  found_or_new id date e case none =
      let new = new_assessment id date e (latest (is_previous date) case.others) in
      creation.super_create (new ∷ []) >>= λ created. ok (new, created)

  -- `_ensure_impact_assessment`: the assessment, and those that were created.
  unfoldable pub ensure_impact_assessment :
      (id date : ℕ) → CalibrationEvent → Case → Result (Assessment × List Assessment)
  ensure_impact_assessment id date e case = found_or_new id date e case (existing e case.everywhere)

  -- The loop before the write: the next due date, where it is missing.
  unfoldable pub complete_due_date :
      (date : ℕ) → Equipment → CalibrationEvent → Result CalibrationEvent
  unfolding write_event
  complete_due_date date q e =
      if is_passing e.result && (not (exists e.next_due_date) && q.calibration_required)
      then write_event orm env false
          (set_next_due_date (some (add_interval relativedelta q date)) ∷ []) e
      else ok e

  -- The second loop: the equipment returns to service, or is quarantined for an assessment.
  unfoldable pub conclude :
      (id date : ℕ) → CalibrationEvent → Case → Result (Case × List LoggedEvent)
  unfolding write_event quarantine ensure_impact_assessment
  conclude id date e case =
      if is_passing e.result
      then ((if is_retired case.equipment.lifecycle_state
            then ok case.equipment
            else equipment_orm.super_write (set_lifecycle_state in_service ∷ []) case.equipment)
          >>= λ q. ok (record case { event = e; equipment = q }, []))
      else (ensure_impact_assessment id date e case >>= λ found.
          write_event orm env false (set_impact_assessment_id (some found.0.id) ∷ []) e
          >>= λ linked. quarantine equipment_orm env case.equipment >>= λ moved. ok (
            record {
              event = linked;
              others = case.others;
              equipment = moved.0;
              assessments = found.1 ++ case.assessments;
              everywhere = found.1 ++ case.everywhere;
            },
            of_equipment moved.1 ∷ [],
          ))

  -- `action_accept`. The id is that of the assessment, should one be created.
  unfoldable pub accept : (id : ℕ) → Case → Result (Case × List LoggedEvent)
  unfolding check_event_manager write_event complete_due_date conclude
  accept id case = do
    check_event_manager env
    date ← require_date case.event.calibration_date
    dated ← complete_due_date date case.equipment case.event
    reviewed ← write_event orm env true (review_values env) dated
    concluded ← conclude id date reviewed case
    ok (
      concluded.0,
      concluded.1
          ++ (of_event (
                event_of env approval accepted (some env.user) "Calibration event accepted"
                  case.event reviewed)
              ∷ []),
    )

  -- `action_start`
  unfoldable pub start : Case → Result (Case × List LoggedEvent)
  unfolding write_event mark_out_for_calibration
  start case = do
    started ← write_event orm env true (set_state in_progress ∷ []) case.event
    moved ← mark_out_for_calibration equipment_orm env case.equipment
    ok (
      record case { event = started; equipment = moved.0 },
      of_equipment moved.1
          ∷ of_event (
              event_of env workflow in_progress none "Calibration event started" case.event started)
          ∷ [],
    )

  -- `action_submit_review`
  unfoldable pub submit_review : CalibrationEvent → Result (CalibrationEvent × Event EventState)
  unfolding write_event
  submit_review e = do
    new ← write_event orm env true (set_state awaiting_review ∷ []) e
    ok (new, event_of env workflow awaiting_review none "Calibration event submitted" e new)

  -- `action_cancel`
  unfoldable pub cancel : CalibrationEvent → Result (CalibrationEvent × Event EventState)
  unfolding check_event_manager write_event
  cancel e = do
    check_event_manager env
    new ← write_event orm env true (set_state cancelled ∷ []) e
    ok (new, event_of env closure cancelled (some env.user) "Calibration event cancelled" e new)
