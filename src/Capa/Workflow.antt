-- ===== src/Capa/Workflow.antt =====
-- The workflow actions of models/capa.py. An action returns each record as it stands afterwards, with
-- the event that the action logged for it.
use perfect_match_qms.Prelude.{
  ℕ, Bool, true, false, not, ◌&&◌, ◌||◌, String, Option, none, some, List, [], ◌∷◌, any, filtered,
  is_empty,
}
use perfect_match_qms.Odoo.{
  Creation, Env, access_error, user_error, Result, ok, ◌>>=◌, ◌>>◌, raise_if, for_each, traverse,
  is_set, Orm,
}
use perfect_match_qms.Event.{
  EventType, workflow, review, closure, effectiveness, Event, Logged, log_qms_event,
}
use perfect_match_qms.Capa.Types.{
  State, EffectivenessResult, ActionStatus, Why, IsIsNot, CapaAction, Capa, Assignment, set_state,
  set_implementation_date, set_effectiveness_result, set_effectiveness_reviewer_id,
  set_effectiveness_reviewed_on, assign,
}
use perfect_match_qms.Capa.Structure.{initialize_analysis_structure}
use perfect_match_qms.Capa.Checks.{validate_analysis_start, validate_root_cause_method}
use perfect_match_qms.Capa.Write.{write_one}

abbrev pub logged : Capa → Logged
logged capa = record {
  model = "pm.qms.capa";
  id = capa.id;
  display_name = capa.display_name;
  company_id = capa.company_id;
  organization_id = capa.organization_id;
}

abbrev pub manager_group : String
manager_group = "pm_qms_core.group_pm_qms_manager"

-- `_check_manager_permission`
unfoldable pub check_manager_permission : Env → Result (Unit {0})
check_manager_permission env =
    raise_if (not (env.has_group manager_group))
      (access_error "Only QMS Managers or Administrators can perform CAPA workflow actions.")

-- `self.env.user if event_type in ("closure", "effectiveness") else None`
abbrev pub approver : Env → EventType → Option ℕ
approver env closure = some env.user
approver env effectiveness = some env.user
approver env _ = none

-- The arguments of `_transition`.
pub record Move : Type 0 where
  pub to : State
  pub decision : String
  pub event_type : EventType
  pub notes : Option String
  pub extra_values : List Assignment

-- The event that `_transition` logs for `capa`, which is `capa'` after the write.
abbrev pub event_of : Env → Move → (capa capa' : Capa) → Event State
event_of env m capa capa' =
    log_qms_event env (logged capa') m.event_type (some capa.state) (some m.to) (some env.user)
      (approver env m.event_type) (some m.decision) m.notes

module _ (orm : Orm assign) (env : Env) where
  -- The loop body of `_transition`.
  unfoldable pub transition_one : Move → Capa → Result (Capa × Event State)
  unfolding write_one
  transition_one m capa = do
    capa' ← write_one orm true (set_state m.to ∷ m.extra_values) capa
    ok (capa', event_of env m capa capa')

  -- `_transition`
  unfoldable pub transition : Move → List Capa → Result (List (Capa × Event State))
  unfolding transition_one check_manager_permission
  transition m self = check_manager_permission env >> traverse (transition_one m) self

-- The buttons of the form, other than the start of the analysis.
pub data Action : Type 0 where
  plan_actions start_implementation complete_implementation start_effectiveness_review : Action
  mark_effective mark_ineffective reopen_actions close cancel : Action

abbrev plain : State → String → EventType → Move
plain to decision event_type = record {
  to = to;
  decision = decision;
  event_type = event_type;
  notes = none;
  extra_values = [];
}

-- What each `action_*` method passes to `_transition`.
unfoldable pub move : Env → Action → Move
move env plan_actions = plain State.action_planned "CAPA actions planned" workflow
move env start_implementation = plain State.implementation "CAPA implementation started" workflow
move env complete_implementation = record {
  to = State.effectiveness_review;
  decision = "CAPA implementation completed";
  event_type = review;
  notes = none;
  extra_values = set_implementation_date (some env.today) ∷ [];
}
move env start_effectiveness_review =
    plain State.effectiveness_review "CAPA effectiveness review started" review
move env mark_effective = record {
  to = State.effective;
  decision = "CAPA effectiveness accepted";
  event_type = effectiveness;
  notes = some "Effectiveness notes retained on the record.";
  extra_values =
      set_effectiveness_result EffectivenessResult.effective
      ∷ set_effectiveness_reviewer_id (some env.user)
      ∷ set_effectiveness_reviewed_on (some env.now)
      ∷ [];
}
move env mark_ineffective = record {
  to = State.ineffective;
  decision = "CAPA effectiveness rejected";
  event_type = effectiveness;
  notes = some "Ineffective result retained; add actions or reopen the plan.";
  extra_values =
      set_effectiveness_result EffectivenessResult.ineffective
      ∷ set_effectiveness_reviewer_id (some env.user)
      ∷ set_effectiveness_reviewed_on (some env.now)
      ∷ [];
}
move env reopen_actions = plain State.action_planned "CAPA reopened for additional actions" workflow
move env close = plain State.closed "CAPA closed" closure
move env cancel = plain State.cancelled "CAPA cancelled" closure

abbrev pub is_active : CapaAction → Bool
is_active a = elim a.status [ ActionStatus.cancelled ↦ false | _ ↦ true ]

abbrev pub is_done : CapaAction → Bool
is_done a = elim a.status [
  | ActionStatus.completed ↦ true
  | ActionStatus.verified ↦ true
  | _ ↦ false
]

abbrev pub is_effective : State → Bool
is_effective State.effective = true
is_effective _ = false

-- The test of each `action_*` method at one record.
unfoldable pub check_action : Action → Capa → Result (Unit {0})
check_action plan_actions capa = validate_root_cause_method capa
check_action start_implementation capa =
    raise_if (is_empty capa.action_ids)
      (user_error "At least one CAPA action is required before implementation.")
check_action complete_implementation capa =
    let active_actions = filtered is_active capa.action_ids in
    raise_if (is_empty active_actions || any (λ a. not (is_done a)) active_actions) (
      user_error
        "All active CAPA actions must be completed or verified before implementation completion.")
check_action mark_effective capa =
    raise_if (capa.effectiveness_required && not (is_set capa.effectiveness_notes))
      (user_error "Effectiveness notes are required before marking a CAPA effective.")
check_action mark_ineffective capa =
    raise_if (not (is_set capa.effectiveness_notes))
      (user_error "Effectiveness notes are required before marking a CAPA ineffective.")
check_action close capa =
    raise_if (not (is_effective capa.state)) (user_error "Only an effective CAPA can be closed.")
check_action _ capa = ok tt

-- `action_close` asks for the manager before its loop, and `_transition` asks again.
abbrev pub check_first : Env → Action → Result (Unit {0})
check_first env close = check_manager_permission env
check_first env _ = ok tt

-- The `action_*` methods: the test at every record, then the transition of every record.
unfoldable pub run : Orm assign → Env → Action → List Capa → Result (List (Capa × Event State))
unfolding transition move check_action check_manager_permission
run orm env action self = do
  check_first env action
  for_each (check_action action) self
  transition orm env (move env action) self

abbrev pub start_move : Move
start_move = plain State.analysis "CAPA analysis started" workflow

abbrev pub prepare : Creation Why → Creation IsIsNot → Capa → Result Capa
prepare whys rows capa =
    validate_analysis_start capa >> initialize_analysis_structure whys rows capa

-- `action_start_analysis`
unfoldable pub start_analysis :
    Orm assign
    → Creation Why
    → Creation IsIsNot
    → Env
    → List Capa
    → Result (List (Capa × Event State))
unfolding transition check_manager_permission
start_analysis orm whys rows env self = do
  check_manager_permission env
  prepared ← traverse (prepare whys rows) self
  transition orm env start_move prepared
