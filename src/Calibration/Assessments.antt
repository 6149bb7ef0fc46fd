-- ===== src/Calibration/Assessments.antt =====
-- models/impact_assessment.py: the workflow of an out-of-tolerance impact assessment.
use perfect_match_qms.Prelude.{
  ℕ, Bool, true, false, not, ◌&&◌, String, Option, none, some, List, [], ◌∷◌, any,
}
use perfect_match_qms.Odoo.{
  Env, access_error, user_error, Result, ok, ◌>>=◌, ◌>>◌, raise_if, is_set, exists, Orm,
}
use perfect_match_qms.Event.{EventType, workflow, review, closure, Event, Logged, log_qms_event}

pub data AssessmentState : Type 0 where
  draft in_review disposition closed cancelled : AssessmentState

pub data Conclusion : Type 0 where
  no_impact potential_impact confirmed_impact unknown : Conclusion

-- `decided` is the field `disposition`.
pub record Assessment : Type 0 where
  pub id : ℕ
  pub display_name : String
  pub company_id : Option ℕ
  pub organization_id : Option ℕ
  pub event_id : ℕ
  pub last_acceptable_event_id : Option ℕ
  pub exposure_start : Option ℕ
  pub exposure_end : Option ℕ
  pub impact_conclusion : Conclusion
  pub evaluation_summary : Option String
  pub decided : Option String
  pub ncr_required : Bool
  pub ncr_id : Option ℕ
  pub capa_required : Bool
  pub capa_id : Option ℕ
  pub approved_by_id : Option ℕ
  pub approval_date : Option ℕ
  pub closure_date : Option ℕ
  pub state : AssessmentState

pub data Assignment : Type 0 where
  set_state : AssessmentState → Assignment
  set_approved_by_id set_approval_date set_closure_date : Option ℕ → Assignment
  set_unmodelled : Assignment

abbrev pub assign : Assignment → Assessment → Assessment
assign (set_state v) a = record a { state = v }
assign (set_approved_by_id v) a = record a { approved_by_id = v }
assign (set_approval_date v) a = record a { approval_date = v }
assign (set_closure_date v) a = record a { closure_date = v }
assign set_unmodelled a = a

abbrev pub sets_state : Assignment → Bool
sets_state (set_state _) = true
sets_state _ = false

-- `item.state not in ("closed", "cancelled")`
abbrev pub is_open : AssessmentState → Bool
is_open closed = false
is_open cancelled = false
is_open _ = true

abbrev pub manager_group : String
manager_group = "pm_qms_core.group_pm_qms_manager"

unfoldable pub check_manager_permission : Env → Result (Unit {0})
check_manager_permission env =
    raise_if (not (env.has_group manager_group))
      (access_error "Only QMS Managers or Administrators can manage OOT impact assessments.")

-- `write`. `flag` is the context's pm_qms_calibration_impact_workflow.
unfoldable pub write : Orm assign → (flag : Bool) → List Assignment → Assessment → Result Assessment
write orm flag vals a =
    raise_if (any sets_state vals && not flag)
      (access_error "Use impact-assessment workflow actions to change status.")
    >> orm.super_write vals a

abbrev logged : Assessment → Logged
logged a = record {
  model = "pm.qms.calibration.impact.assessment";
  id = a.id;
  display_name = a.display_name;
  company_id = a.company_id;
  organization_id = a.organization_id;
}

pub data Action : Type 0 where
  start_review set_disposition close cancel : Action

-- The tests of each method at one assessment.
unfoldable pub check_action : Action → Assessment → Result (Unit {0})
check_action set_disposition a =
    raise_if (not (is_set a.evaluation_summary))
      (user_error "Evaluation summary is required before disposition.")
check_action close a = do
  raise_if (elim a.impact_conclusion [ unknown ↦ true | _ ↦ false ])
      (user_error "Impact conclusion must be determined before closing.")
  raise_if (not (is_set a.decided)) (user_error "Disposition is required before closing.")
  raise_if (a.ncr_required && not (exists a.ncr_id))
      (user_error "Create or link the required NCR before closing.")
  raise_if (a.capa_required && not (exists a.capa_id))
      (user_error "Create or link the required CAPA before closing.")
check_action _ a = ok tt

abbrev pub target : Action → AssessmentState
target start_review = in_review
target set_disposition = disposition
target close = closed
target cancel = cancelled

abbrev decision : Action → String
decision start_review = "OOT impact assessment review started"
decision set_disposition = "OOT impact assessment disposition set"
decision close = "OOT impact assessment closed"
decision cancel = "OOT impact assessment cancelled"

abbrev event_type : Action → EventType
event_type start_review = workflow
event_type set_disposition = review
event_type close = closure
event_type cancel = closure

unfoldable pub values : Env → Action → List Assignment
values env close =
    set_approved_by_id (some env.user)
    ∷ set_approval_date (some env.today)
    ∷ set_closure_date (some env.today)
    ∷ []
values env _ = []

-- The `action_*` methods, through `_transition`, at one assessment.
unfoldable pub run :
    Orm assign → Env → Action → Assessment → Result (Assessment × Event AssessmentState)
unfolding check_action check_manager_permission write values
run orm env action a = do
  check_action action a
  check_manager_permission env
  new ← write orm true (set_state (target action) ∷ values env action) a
  ok (
    new,
    log_qms_event env (logged new) (event_type action) (some a.state) (some (target action))
        (some env.user) none (some (decision action)) none,
  )
