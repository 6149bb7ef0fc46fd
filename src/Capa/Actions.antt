-- ===== src/Capa/Actions.antt =====
-- The workflow of CAPA actions (models/capa_action.py).
use perfect_match_qms.Prelude.{
  ℕ, ◌-◌, ltb, Bool, true, false, not, ◌&&◌, String, Option, none, some, List, [], ◌∷◌, any,
  if◌then◌else◌,
}
use perfect_match_qms.Odoo.{
  Env, access_error, user_error, Result, ok, ◌>>◌, raise_if, traverse, Orm,
}
use perfect_match_qms.Event.{workflow, Event, Logged, log_qms_event}
use perfect_match_qms.Workflow.{save_each}
use perfect_match_qms.Capa.Types.{State, CapaAction, ActionStatus}
use perfect_match_qms.Capa.Checks.{is_draft}

-- One entry of a values dictionary. `set_unmodelled` stands for a field that is left out of the record.
pub data Assignment : Type 0 where
  set_status : ActionStatus → Assignment
  set_target_date set_completion_date : Option ℕ → Assignment
  set_unmodelled : Assignment

abbrev pub assign : Assignment → CapaAction → CapaAction
assign (set_status v) a = record a { status = v }
assign (set_target_date v) a = record a { target_date = v }
assign (set_completion_date v) a = record a { completion_date = v }
assign set_unmodelled a = a

abbrev pub sets_status : Assignment → Bool
sets_status (set_status _) = true
sets_status _ = false

abbrev is_finished : ActionStatus → Bool
is_finished ActionStatus.completed = true
is_finished ActionStatus.verified = true
is_finished ActionStatus.cancelled = true
is_finished _ = false

abbrev passed : Option ℕ → ℕ → Bool
passed none today = false
passed (some date) today = ltb date today

abbrev days_since : Option ℕ → ℕ → ℕ
days_since none today = 0
days_since (some date) today = today - date

-- `_compute_overdue` at one record: `is_overdue` and `days_overdue`.
unfoldable pub compute_overdue : Env → CapaAction → Bool × ℕ
compute_overdue env a =
    let overdue = not (is_finished a.status) && passed a.target_date env.today in
    (overdue, if overdue then days_since a.target_date env.today else 0)

-- What `write` tests before it calls `super().write`. `flag` is the context's
-- pm_qms_capa_action_workflow.
abbrev pub check_write : (flag : Bool) → List Assignment → Result (Unit {0})
check_write flag vals =
    raise_if (any sets_status vals && not flag)
      (access_error "Use CAPA action workflow actions to change action status.")

unfoldable pub write :
    Orm assign → (flag : Bool) → List Assignment → List CapaAction → Result (List CapaAction)
write orm flag vals self = check_write flag vals >> traverse (orm.super_write vals) self

unfoldable pub write_one :
    Orm assign → (flag : Bool) → List Assignment → CapaAction → Result CapaAction
write_one orm flag vals a = check_write flag vals >> orm.super_write vals a

-- `unlink` between the access check and the deletion: each action comes with the state of its CAPA.
unfoldable pub check_unlink : List (CapaAction × State) → Result (Unit {0})
check_unlink self =
    raise_if (any (λ (a : CapaAction × State). not (is_draft a.1)) self)
      (user_error "CAPA actions cannot be deleted after CAPA workflow starts.")

abbrev pub manager_group : String
manager_group = "pm_qms_core.group_pm_qms_manager"

-- `_check_manager_permission`
unfoldable pub check_manager_permission : Env → Result (Unit {0})
check_manager_permission env =
    raise_if (not (env.has_group manager_group))
      (access_error "Only QMS Managers or Administrators can verify CAPA actions.")

-- The company and the organization of the event are those of the action's CAPA.
abbrev pub logged : (company_id organization_id : Option ℕ) → CapaAction → Logged
logged company_id organization_id a = record {
  model = "pm.qms.capa.action";
  id = a.id;
  display_name = a.display_name;
  company_id = company_id;
  organization_id = organization_id;
}

-- The arguments of `_transition`.
pub record Move : Type 0 where
  pub to : ActionStatus
  pub decision : String
  pub require_manager : Bool
  pub extra_values : List Assignment

module _ (company_id organization_id : Option ℕ) (env : Env) where
  abbrev pub event_of : Move → (a a' : CapaAction) → Event ActionStatus
  event_of m a a' =
      log_qms_event env (logged company_id organization_id a') workflow (some a.status) (some m.to)
        (if m.require_manager then some env.user else none) none (some m.decision) none

  -- `_transition`, on actions of one CAPA.
  unfoldable pub transition :
      Orm assign → Move → List CapaAction → Result (List (CapaAction × Event ActionStatus))
  unfolding check_manager_permission write_one save_each
  transition orm m self =
      (if m.require_manager then check_manager_permission env else ok tt)
      >> save_each (write_one orm true (set_status m.to ∷ m.extra_values)) (event_of m) self

pub data Action : Type 0 where
  start complete verify cancel : Action

-- What each `action_*` method passes to `_transition`.
unfoldable pub move : Env → Action → Move
move env start = record {
  to = ActionStatus.in_progress;
  decision = "CAPA action started";
  require_manager = false;
  extra_values = [];
}
move env complete = record {
  to = ActionStatus.completed;
  decision = "CAPA action completed";
  require_manager = false;
  extra_values = set_completion_date (some env.today) ∷ [];
}
move env verify = record {
  to = ActionStatus.verified;
  decision = "CAPA action verified";
  require_manager = true;
  extra_values = [];
}
move env cancel = record {
  to = ActionStatus.cancelled;
  decision = "CAPA action cancelled";
  require_manager = true;
  extra_values = [];
}

-- The `action_*` methods.
unfoldable pub run :
    (company_id organization_id : Option ℕ)
    → Orm assign
    → Env
    → Action
    → List CapaAction
    → Result (List (CapaAction × Event ActionStatus))
unfolding transition move
run company_id organization_id orm env action self =
    transition company_id organization_id env orm (move env action) self
