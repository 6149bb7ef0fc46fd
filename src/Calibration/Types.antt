-- ===== src/Calibration/Types.antt =====
-- Equipment (models/equipment.py) and calibration events (models/calibration_event.py), as far as their
-- workflows read and write them. Dates are day numbers.
use perfect_match_qms.Prelude.{ℕ, Bool, true, false, String, Option}
use perfect_match_qms.Event.{Event}

pub data EventState : Type 0 where
  draft in_progress awaiting_review accepted cancelled : EventState

pub data EventResult : Type 0 where
  pass conditional fail out_of_tolerance : EventResult

pub data Lifecycle : Type 0 where
  in_service out_for_calibration quarantined out_of_service retired : Lifecycle

pub record CalibrationEvent : Type 0 where
  pub id : ℕ
  pub display_name : String
  pub company_id : Option ℕ
  pub organization_id : Option ℕ
  pub date_sent : Option ℕ
  pub calibration_date : Option ℕ
  pub next_due_date : Option ℕ
  pub result : EventResult
  pub reviewed_by_id : Option ℕ
  pub review_date : Option ℕ
  pub impact_assessment_id : Option ℕ
  pub state : EventState

pub data FrequencyUnit : Type 0 where
  days months years : FrequencyUnit

pub record Equipment : Type 0 where
  pub id : ℕ
  pub display_name : String
  pub company_id : Option ℕ
  pub organization_id : Option ℕ
  pub lifecycle_state : Lifecycle
  pub calibration_required : Bool
  pub frequency_interval : ℕ
  pub frequency_unit : FrequencyUnit
  pub due_soon_days : ℕ

pub data EventAssignment : Type 0 where
  set_state : EventState → EventAssignment
  set_next_due_date set_reviewed_by_id set_review_date set_impact_assessment_id :
      Option ℕ → EventAssignment

abbrev pub assign_event : EventAssignment → CalibrationEvent → CalibrationEvent
assign_event (set_state v) e = record e { state = v }
assign_event (set_next_due_date v) e = record e { next_due_date = v }
assign_event (set_reviewed_by_id v) e = record e { reviewed_by_id = v }
assign_event (set_review_date v) e = record e { review_date = v }
assign_event (set_impact_assessment_id v) e = record e { impact_assessment_id = v }

abbrev pub sets_state : EventAssignment → Bool
sets_state (set_state _) = true
sets_state _ = false

-- `locked.intersection(vals)`, of the assignments that the model has.
abbrev pub is_locked : EventAssignment → Bool
is_locked (set_next_due_date _) = true
is_locked _ = false

pub data EquipmentAssignment : Type 0 where
  set_lifecycle_state : Lifecycle → EquipmentAssignment

abbrev pub assign_equipment : EquipmentAssignment → Equipment → Equipment
assign_equipment (set_lifecycle_state v) q = record q { lifecycle_state = v }

abbrev pub is_accepted : EventState → Bool
is_accepted accepted = true
is_accepted _ = false

-- `event.result in ("pass", "conditional")`
abbrev pub is_passing : EventResult → Bool
is_passing pass = true
is_passing conditional = true
is_passing _ = false

abbrev pub is_retired : Lifecycle → Bool
is_retired retired = true
is_retired _ = false

pub data LoggedEvent : Type 0 where
  of_event : Event EventState → LoggedEvent
  of_equipment : Event Lifecycle → LoggedEvent
