-- ===== src/Capa/Types.antt =====
-- The data of pm.qms.capa and of its analysis rows (models/capa.py, capa_why.py, capa_fishbone.py,
-- capa_is_is_not.py, capa_action.py). Dates are day numbers; fields that no rule reads are left out.
use perfect_match_qms.Prelude.{ℕ, Bool, String, Option, List}
use perfect_match_qms.Odoo.{Linked}

pub data State : Type 0 where
  draft analysis action_planned implementation effectiveness_review effective ineffective : State
  closed cancelled : State

pub data SourceType : Type 0 where
  ncr risk audit_finding customer_issue supplier_issue management_decision other : SourceType

pub data Method : Type 0 where
  five_why fishbone is_is_not other : Method

pub data EffectivenessResult : Type 0 where
  not_reviewed effective ineffective : EffectivenessResult

pub data Investigation : Type 0 where
  potential investigating confirmed rejected : Investigation

pub data ActionStatus : Type 0 where
  opened in_progress completed verified cancelled : ActionStatus

pub data Dimension : Type 0 where
  what where_ when extent : Dimension

-- pm.qms.capa.why
pub record Why : Type 0 where
  pub sequence : ℕ
  pub question : String
  pub answer : Option String

-- pm.qms.capa.fishbone
pub record Fishbone : Type 0 where
  pub potential_cause : Option String
  pub evidence_basis : Option String
  pub investigation_status : Investigation
  pub rationale_finding : Option String

-- pm.qms.capa.is.is.not
pub record IsIsNot : Type 0 where
  pub dimension : Dimension
  pub sequence : ℕ
  pub is_value : Option String
  pub is_not_value : Option String
  pub distinction : Option String
  pub change_value : Option String

-- pm.qms.capa.action
pub record CapaAction : Type 0 where
  pub id : ℕ
  pub display_name : String
  pub target_date : Option ℕ
  pub completion_date : Option ℕ
  pub status : ActionStatus

pub record Capa : Type 0 where
  pub id : ℕ
  pub display_name : String
  pub name : Option String
  pub company_id : Option ℕ
  pub organization_id : Option ℕ
  pub process_id : Option Linked
  pub source_type : SourceType
  pub source_reference : Option String
  pub source_ncr_id : Option Linked
  pub source_risk_id : Option Linked
  pub problem_statement : Option String
  pub root_cause_method : Method
  pub root_cause_analysis : Option String
  pub root_cause : Option String
  pub other_method_name : Option String
  pub target_date : Option ℕ
  pub implementation_date : Option ℕ
  pub effectiveness_required : Bool
  pub effectiveness_review_date : Option ℕ
  pub effectiveness_reviewer_id : Option ℕ
  pub effectiveness_reviewed_on : Option ℕ
  pub effectiveness_result : EffectivenessResult
  pub effectiveness_notes : Option String
  pub state : State
  pub why_ids : List Why
  pub fishbone_ids : List Fishbone
  pub is_is_not_ids : List IsIsNot
  pub action_ids : List CapaAction
  pub related_control_instance_ids : List Linked
  pub related_document_ids : List Linked

-- One entry of a values dictionary. `set_unmodelled` stands for a field that is left out above.
pub data Assignment : Type 0 where
  set_state : State → Assignment
  set_name set_problem_statement set_source_reference : Option String → Assignment
  set_root_cause_analysis set_root_cause set_other_method_name : Option String → Assignment
  set_effectiveness_notes : Option String → Assignment
  set_source_type : SourceType → Assignment
  set_source_ncr_id set_source_risk_id : Option Linked → Assignment
  set_root_cause_method : Method → Assignment
  set_target_date set_implementation_date set_effectiveness_review_date : Option ℕ → Assignment
  set_effectiveness_reviewer_id set_effectiveness_reviewed_on : Option ℕ → Assignment
  set_effectiveness_required : Bool → Assignment
  set_effectiveness_result : EffectivenessResult → Assignment
  set_unmodelled : Assignment

abbrev pub assign : Assignment → Capa → Capa
assign (set_state v) c = record c { state = v }
assign (set_name v) c = record c { name = v }
assign (set_problem_statement v) c = record c { problem_statement = v }
assign (set_source_reference v) c = record c { source_reference = v }
assign (set_root_cause_analysis v) c = record c { root_cause_analysis = v }
assign (set_root_cause v) c = record c { root_cause = v }
assign (set_other_method_name v) c = record c { other_method_name = v }
assign (set_effectiveness_notes v) c = record c { effectiveness_notes = v }
assign (set_source_type v) c = record c { source_type = v }
assign (set_source_ncr_id v) c = record c { source_ncr_id = v }
assign (set_source_risk_id v) c = record c { source_risk_id = v }
assign (set_root_cause_method v) c = record c { root_cause_method = v }
assign (set_target_date v) c = record c { target_date = v }
assign (set_implementation_date v) c = record c { implementation_date = v }
assign (set_effectiveness_review_date v) c = record c { effectiveness_review_date = v }
assign (set_effectiveness_reviewer_id v) c = record c { effectiveness_reviewer_id = v }
assign (set_effectiveness_reviewed_on v) c = record c { effectiveness_reviewed_on = v }
assign (set_effectiveness_required v) c = record c { effectiveness_required = v }
assign (set_effectiveness_result v) c = record c { effectiveness_result = v }
assign set_unmodelled c = c

pub SourceType-discrete : Discrete SourceType
SourceType-discrete = hlevel
