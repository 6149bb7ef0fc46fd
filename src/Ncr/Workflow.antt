-- ===== src/Ncr/Workflow.antt =====
-- The workflow actions, `write` and `unlink` of models/nonconformity.py.
use perfect_match_qms.Prelude.{
  ℕ, Bool, true, false, not, ◌&&◌, String, Option, none, some, List, [], ◌∷◌, any, if◌then◌else◌,
}
use perfect_match_qms.Odoo.{
  Env, access_error, user_error, Result, ok, ◌>>◌, raise_if, for_each, traverse, is_set, Orm,
}
use perfect_match_qms.Event.{EventType, workflow, review, closure, Event, Logged, log_qms_event}
use perfect_match_qms.Workflow.{save_each}
use perfect_match_qms.Ncr.Types.{
  State, opened, containment, investigation, action_required, verification, closed, cancelled,
  Nonconformity, Assignment, set_state, set_opened_by_id, set_opened_on, set_reviewed_by_id,
  set_reviewed_on, set_closed_by_id, set_closed_on, assign, sets_state, is_draft,
}

-- What `write` tests before it calls `super().write`. `flag` is the context's pm_qms_ncr_workflow.
abbrev pub check_write : (flag : Bool) → List Assignment → Result (Unit {0})
check_write flag vals =
    raise_if (any sets_state vals && not flag)
      (access_error "Use NCR workflow actions to change NCR status.")

-- `write`. The attachments that it links afterwards are not part of the model.
unfoldable pub write :
    Orm assign → (flag : Bool) → List Assignment → List Nonconformity → Result (List Nonconformity)
write orm flag vals self = check_write flag vals >> traverse (orm.super_write vals) self

unfoldable pub write_one :
    Orm assign → (flag : Bool) → List Assignment → Nonconformity → Result Nonconformity
write_one orm flag vals ncr = check_write flag vals >> orm.super_write vals ncr

-- `unlink`, up to the deletion itself.
unfoldable pub check_unlink : List Nonconformity → Result (Unit {0})
check_unlink self =
    raise_if (any (λ (r : Nonconformity). not (is_draft r.state)) self)
      (user_error "Only draft NCR records can be deleted.")

abbrev pub manager_group : String
manager_group = "pm_qms_core.group_pm_qms_manager"

-- `_check_manager_permission`
unfoldable pub check_manager_permission : Env → Result (Unit {0})
check_manager_permission env =
    raise_if (not (env.has_group manager_group)) (
      access_error
        "Only QMS Managers or Administrators can perform NCR review and closure actions.")

abbrev pub logged : Nonconformity → Logged
logged ncr = record {
  model = "pm.qms.nonconformity";
  id = ncr.id;
  display_name = ncr.display_name;
  company_id = ncr.company_id;
  organization_id = ncr.organization_id;
}

-- The arguments of `_transition`.
pub record Move : Type 0 where
  pub to : State
  pub decision : String
  pub event_type : EventType
  pub notes : Option String
  pub extra_values : List Assignment
  pub require_manager : Bool

-- `self.env.user if event_type == "closure" else None`
abbrev pub approver : Env → EventType → Option ℕ
approver env closure = some env.user
approver env _ = none

abbrev pub event_of : Env → Move → (ncr ncr' : Nonconformity) → Event State
event_of env m ncr ncr' =
    log_qms_event env (logged ncr') m.event_type (some ncr.state) (some m.to)
      (if m.require_manager then some env.user else none) (approver env m.event_type)
      (some m.decision) m.notes

-- `_transition`
unfoldable pub transition :
    Orm assign → Env → Move → List Nonconformity → Result (List (Nonconformity × Event State))
unfolding check_manager_permission write_one save_each
transition orm env m self =
    (if m.require_manager then check_manager_permission env else ok tt)
    >> save_each (write_one orm true (set_state m.to ∷ m.extra_values)) (event_of env m) self

pub data Action : Type 0 where
  open_ncr start_containment start_investigation require_action start_verification : Action
  close cancel : Action

abbrev reviewed : Env → List Assignment
reviewed env = set_reviewed_by_id (some env.user) ∷ set_reviewed_on (some env.now) ∷ []

-- What each `action_*` method passes to `_transition`.
unfoldable pub move : Env → Action → Move
move env open_ncr = record {
  to = opened;
  decision = "NCR opened";
  event_type = workflow;
  notes = none;
  extra_values = set_opened_by_id (some env.user) ∷ set_opened_on (some env.now) ∷ [];
  require_manager = false;
}
move env start_containment = record {
  to = containment;
  decision = "NCR containment started";
  event_type = workflow;
  notes = none;
  extra_values = [];
  require_manager = true;
}
move env start_investigation = record {
  to = investigation;
  decision = "NCR investigation started";
  event_type = review;
  notes = none;
  extra_values = reviewed env;
  require_manager = true;
}
move env require_action = record {
  to = action_required;
  decision = "NCR requires corrective action";
  event_type = workflow;
  notes = none;
  extra_values = [];
  require_manager = true;
}
move env start_verification = record {
  to = verification;
  decision = "NCR moved to verification";
  event_type = review;
  notes = none;
  extra_values = reviewed env;
  require_manager = true;
}
move env close = record {
  to = closed;
  decision = "NCR closed";
  event_type = closure;
  notes = some "Closure notes retained on the record.";
  extra_values = set_closed_by_id (some env.user) ∷ set_closed_on (some env.now) ∷ [];
  require_manager = true;
}
move env cancel = record {
  to = cancelled;
  decision = "NCR cancelled";
  event_type = closure;
  notes = none;
  extra_values = [];
  require_manager = true;
}

-- The test of each `action_*` method at one record.
unfoldable pub check_action : Action → Nonconformity → Result (Unit {0})
check_action start_containment ncr =
    raise_if (not ncr.containment_required)
      (user_error "Containment must be required before moving the NCR to containment.")
check_action start_investigation ncr =
    raise_if (ncr.containment_required && not ncr.containment_completed)
      (user_error "Required containment must be completed before investigation.")
check_action close ncr = do
  raise_if (not (is_set ncr.closure_notes))
      (user_error "Closure notes are required before closing an NCR.")
  raise_if (ncr.containment_required && not ncr.containment_completed)
      (user_error "Required containment must be complete before closing an NCR.")
check_action _ ncr = ok tt

-- `action_close` asks for the manager before its loop.
abbrev pub check_first : Env → Action → Result (Unit {0})
check_first env close = check_manager_permission env
check_first env _ = ok tt

-- The `action_*` methods.
unfoldable pub run :
    Orm assign → Env → Action → List Nonconformity → Result (List (Nonconformity × Event State))
unfolding transition move check_action
run orm env action self = do
  check_first env action
  for_each (check_action action) self
  transition orm env (move env action) self
