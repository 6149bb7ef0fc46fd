-- ===== src/Event.antt =====
-- addons/pm_qms_core/models/event.py: the operational event log. An action returns the values of
-- the events that it created, in the order of the calls of `Event.create`.
use Prim.Native.String.{◌++◌}
use perfect_match_qms.Prelude.{ℕ, String, Option, none, some, if◌then◌else◌, str_eq}
use perfect_match_qms.Odoo.{Env, access_error, Result, err}

pub data EventType : Type 0 where
  workflow review approval closure effectiveness attachment system : EventType

-- The state columns hold the key of a selection; here they hold the selection's value.
pub record Event (S : Type 0) : Type 0 where
  pub name : String
  pub event_date : ℕ
  pub user_id : ℕ
  pub company_id : Option ℕ
  pub organization_id : Option ℕ
  pub res_model : String
  pub res_id : ℕ
  pub record_name : String
  pub event_type : EventType
  pub previous_state : Option S
  pub new_state : Option S
  pub reviewer_id : Option ℕ
  pub approver_id : Option ℕ
  pub decision : Option String
  pub notes : Option String

-- What the mixin reads of the record that it logs.
pub record Logged : Type 0 where
  pub model : String
  pub id : ℕ
  pub display_name : String
  pub company_id : Option ℕ
  pub organization_id : Option ℕ

-- `event_type.replace("_", " ").title()`
abbrev type_title : EventType → String
type_title workflow = "Workflow"
type_title review = "Review"
type_title approval = "Approval"
type_title closure = "Closure"
type_title effectiveness = "Effectiveness"
type_title attachment = "Attachment"
type_title system = "System"

-- `decision or event_type...`: a missing and an empty decision are both false.
abbrev label : Option String → EventType → String
label none t = type_title t
label (some d) t = if str_eq d "" then type_title t else d

-- `_log_qms_event` at one record.
abbrev pub log_qms_event :
    {S : Type 0}
    → Env
    → Logged
    → EventType
    → (previous_state new_state : Option S) → (reviewer approver : Option ℕ)
    → (decision notes : Option String) → Event S
log_qms_event env r event_type previous_state new_state reviewer approver decision notes = record {
  name = label decision event_type ++ (": " ++ r.display_name);
  event_date = env.now;
  user_id = env.user;
  company_id = r.company_id;
  organization_id = r.organization_id;
  res_model = r.model;
  res_id = r.id;
  record_name = r.display_name;
  event_type = event_type;
  previous_state = previous_state;
  new_state = new_state;
  reviewer_id = reviewer;
  approver_id = approver;
  decision = decision;
  notes = notes;
}

-- `PmQmsEvent.write` and `PmQmsEvent.unlink`.
unfoldable pub write {ℓ κ} : {S : Type 0} {V : Type ℓ} {A : Type κ} → V → Event S → Result A
write vals event = err (access_error "QMS operational events are append-only.")

unfoldable pub unlink {ℓ} : {S : Type 0} {A : Type ℓ} → Event S → Result A
unlink event = err (access_error "QMS operational events cannot be deleted.")
