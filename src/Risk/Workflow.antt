-- ===== src/Risk/Workflow.antt =====
-- The workflow actions, `write` and `unlink` of models/risk.py.
use perfect_match_qms.Prelude.{
  ℕ, Bool, true, not, ◌&&◌, String, Option, none, some, List, [], ◌∷◌, any,
}
use perfect_match_qms.Odoo.{
  Env, access_error, user_error, Result, ok, ◌>>◌, raise_if, for_each, traverse, is_set, Orm,
}
use perfect_match_qms.Event.{EventType, workflow, approval, closure, Event, Logged, log_qms_event}
use perfect_match_qms.Workflow.{save_each}
use perfect_match_qms.Risk.Types.{
  State, assessed, action_required, monitoring, closed, Risk, Assignment, set_state,
  set_assessment_date, set_assessor_id, set_last_review_date, set_closure_date, set_closed_by_id,
  assign, sets_state, is_draft,
}

-- What `write` tests before it calls `super().write`. `flag` is the context's pm_qms_risk_workflow.
abbrev pub check_write : (flag : Bool) → List Assignment → Result (Unit {0})
check_write flag vals =
    raise_if (any sets_state vals && not flag)
      (access_error "Use risk workflow actions to change risk status.")

-- `write`. The attachments that it links afterwards are not part of the model.
unfoldable pub write : Orm assign → (flag : Bool) → List Assignment → List Risk → Result (List Risk)
write orm flag vals self = check_write flag vals >> traverse (orm.super_write vals) self

unfoldable pub write_one : Orm assign → (flag : Bool) → List Assignment → Risk → Result Risk
write_one orm flag vals risk = check_write flag vals >> orm.super_write vals risk

-- `unlink`, up to the deletion itself.
unfoldable pub check_unlink : List Risk → Result (Unit {0})
check_unlink self =
    raise_if (any (λ (r : Risk). not (is_draft r.state)) self)
      (user_error "Only draft risks and opportunities can be deleted.")

abbrev pub manager_group : String
manager_group = "pm_qms_core.group_pm_qms_manager"

-- `_check_manager_permission`
unfoldable pub check_manager_permission : Env → Result (Unit {0})
check_manager_permission env =
    raise_if (not (env.has_group manager_group))
      (access_error "Only QMS Managers or Administrators can perform risk workflow actions.")

abbrev pub logged : Risk → Logged
logged risk = record {
  model = "pm.qms.risk";
  id = risk.id;
  display_name = risk.display_name;
  company_id = risk.company_id;
  organization_id = risk.organization_id;
}

-- The arguments of `_transition`.
pub record Move : Type 0 where
  pub to : State
  pub decision : String
  pub event_type : EventType
  pub notes : Option String
  pub extra_values : List Assignment

-- `self.env.user if event_type in ("closure", "approval") else None`
abbrev pub approver : Env → EventType → Option ℕ
approver env closure = some env.user
approver env approval = some env.user
approver env _ = none

abbrev pub event_of : Env → Move → (risk risk' : Risk) → Event State
event_of env m risk risk' =
    log_qms_event env (logged risk') m.event_type (some risk.state) (some m.to) (some env.user)
      (approver env m.event_type) (some m.decision) m.notes

-- `_transition`
unfoldable pub transition : Orm assign → Env → Move → List Risk → Result (List (Risk × Event State))
unfolding check_manager_permission write_one save_each
transition orm env m self =
    check_manager_permission env
    >> save_each (write_one orm true (set_state m.to ∷ m.extra_values)) (event_of env m) self

pub data Action : Type 0 where
  assess require_action start_monitoring review close : Action

abbrev plain : State → String → List Assignment → Move
plain to decision extra_values = record {
  to = to;
  decision = decision;
  event_type = workflow;
  notes = none;
  extra_values = extra_values;
}

-- What each `action_*` method passes to `_transition`.
unfoldable pub move : Env → Action → Move
move env assess =
    plain assessed "Risk assessed"
      (set_assessment_date (some env.today) ∷ set_assessor_id (some env.user) ∷ [])
move env require_action = plain action_required "Risk response action required" []
move env start_monitoring = plain monitoring "Risk moved to monitoring" []
move env review = record {
  to = monitoring;
  decision = "Risk reviewed";
  event_type = EventType.review;
  notes = none;
  extra_values = set_last_review_date (some env.today) ∷ [];
}
move env close = record {
  to = closed;
  decision = "Risk closed";
  event_type = closure;
  notes = some "Closure notes retained on the record.";
  extra_values = set_closure_date (some env.today) ∷ set_closed_by_id (some env.user) ∷ [];
}

-- The test of each `action_*` method at one record.
unfoldable pub check_action : Action → Risk → Result (Unit {0})
check_action close risk =
    raise_if (not (is_set risk.closure_notes))
      (user_error "Closure notes are required before closing a risk or opportunity.")
check_action _ risk = ok tt

-- `action_close` asks for the manager before its loop.
abbrev pub check_first : Env → Action → Result (Unit {0})
check_first env close = check_manager_permission env
check_first env _ = ok tt

-- The `action_*` methods.
unfoldable pub run : Orm assign → Env → Action → List Risk → Result (List (Risk × Event State))
unfolding transition move check_action check_manager_permission
run orm env action self = do
  check_first env action
  for_each (check_action action) self
  transition orm env (move env action) self
