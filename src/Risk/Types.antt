-- ===== src/Risk/Types.antt =====
-- The data of pm.qms.risk (models/risk.py), as far as its rules read it, and the checks and computed
-- fields of one record.
use perfect_match_qms.Prelude.{
  ℕ, ◌-◌, ltb, ℤ, pos, ◌*ℤ◌, lebℤ, Bool, true, false, not, ◌&&◌, ◌||◌, String, Option, none, some,
  List, [], ◌∷◌, any, if◌then◌else◌,
}
use perfect_match_qms.Odoo.{Env, validation_error, Result, ◌>>◌, raise_if, exists, same, Linked}

pub data State : Type 0 where
  draft assessed action_required monitoring closed : State

pub data Level : Type 0 where
  low moderate high critical : Level

pub record Risk : Type 0 where
  pub id : ℕ
  pub display_name : String
  pub company_id : Option ℕ
  pub organization_id : Option ℕ
  pub process_id : Option Linked
  pub likelihood : ℤ
  pub impact : ℤ
  pub residual_likelihood : ℤ
  pub residual_impact : ℤ
  pub target_date : Option ℕ
  pub state : State
  pub assessment_date : Option ℕ
  pub assessor_id : Option ℕ
  pub last_review_date : Option ℕ
  pub closure_date : Option ℕ
  pub closed_by_id : Option ℕ
  pub closure_notes : Option String
  pub related_control_instance_ids : List Linked
  pub related_document_ids : List Linked

-- One entry of a values dictionary. `set_unmodelled` stands for a field that is left out above.
pub data Assignment : Type 0 where
  set_state : State → Assignment
  set_likelihood set_impact set_residual_likelihood set_residual_impact : ℤ → Assignment
  set_target_date set_assessment_date set_assessor_id set_last_review_date : Option ℕ → Assignment
  set_closure_date set_closed_by_id : Option ℕ → Assignment
  set_closure_notes : Option String → Assignment
  set_unmodelled : Assignment

abbrev pub assign : Assignment → Risk → Risk
assign (set_state v) r = record r { state = v }
assign (set_likelihood v) r = record r { likelihood = v }
assign (set_impact v) r = record r { impact = v }
assign (set_residual_likelihood v) r = record r { residual_likelihood = v }
assign (set_residual_impact v) r = record r { residual_impact = v }
assign (set_target_date v) r = record r { target_date = v }
assign (set_assessment_date v) r = record r { assessment_date = v }
assign (set_assessor_id v) r = record r { assessor_id = v }
assign (set_last_review_date v) r = record r { last_review_date = v }
assign (set_closure_date v) r = record r { closure_date = v }
assign (set_closed_by_id v) r = record r { closed_by_id = v }
assign (set_closure_notes v) r = record r { closure_notes = v }
assign set_unmodelled r = r

abbrev pub sets_state : Assignment → Bool
sets_state (set_state _) = true
sets_state _ = false

abbrev pub is_draft : State → Bool
is_draft draft = true
is_draft _ = false

abbrev pub is_closed : State → Bool
is_closed closed = true
is_closed _ = false

-- The three configuration parameters, after `int`.
pub record Thresholds : Type 0 where
  pub moderate : ℤ
  pub high : ℤ
  pub critical : ℤ

-- The defaults of `get_param`.
abbrev pub default_thresholds : Thresholds
default_thresholds = record { moderate = pos 5; high = pos 10; critical = pos 16 }

-- `_risk_level`
unfoldable pub risk_level : Thresholds → ℤ → Level
risk_level t score =
    if lebℤ t.critical score
    then critical
    else if lebℤ t.high score
    then high
    else if lebℤ t.moderate score
    then moderate
    else low

pub record Scores : Type 0 where
  pub initial_score : ℤ
  pub residual_score : ℤ
  pub initial_level : Level
  pub residual_level : Level

-- `_compute_scores` at one record.
unfoldable pub compute_scores : Thresholds → Risk → Scores
unfolding risk_level
compute_scores t risk = record {
  initial_score = risk.likelihood *ℤ risk.impact;
  residual_score = risk.residual_likelihood *ℤ risk.residual_impact;
  initial_level = risk_level t (risk.likelihood *ℤ risk.impact);
  residual_level = risk_level t (risk.residual_likelihood *ℤ risk.residual_impact);
}

-- `value < 1 or value > 5`
abbrev pub is_out_of_bounds : ℤ → Bool
is_out_of_bounds v = not (lebℤ (pos 1) v) || not (lebℤ v (pos 5))

-- `_check_score_bounds` at one record.
unfoldable pub check_score_bounds : Risk → Result (Unit {0})
check_score_bounds risk =
    raise_if
      (any is_out_of_bounds
        (risk.likelihood ∷ risk.impact ∷ risk.residual_likelihood ∷ risk.residual_impact ∷ []))
      (validation_error "Risk likelihood and impact values must be between 1 and 5.")

abbrev passed : Option ℕ → ℕ → Bool
passed none today = false
passed (some date) today = ltb date today

abbrev days_since : Option ℕ → ℕ → ℕ
days_since none today = 0
days_since (some date) today = today - date

-- `_compute_overdue` at one record: `is_overdue` and `days_overdue`.
unfoldable pub compute_overdue : Env → Risk → Bool × ℕ
compute_overdue env risk =
    let overdue = not (is_closed risk.state) && passed risk.target_date env.today in
    (overdue, if overdue then days_since risk.target_date env.today else 0)

-- `_check_process_alignment` at one record.
unfoldable pub check_process_alignment : Risk → Result (Unit {0})
check_process_alignment risk = elim risk.process_id [
  | none ↦
      raise_if (exists risk.company_id)
        (validation_error "Risk process must belong to the same company as the organization.")
  | some p ↦ do
    raise_if (not (same p.company_id risk.company_id))
        (validation_error "Risk process must belong to the same company as the organization.")
    raise_if (exists p.organization_id && not (same p.organization_id risk.organization_id))
        (validation_error "Risk process must belong to the selected organization.")
]

abbrev other_company : Risk → Linked → Bool
other_company risk r = not (same r.company_id risk.company_id)

abbrev other_organization : Risk → Linked → Bool
other_organization risk r = not (same r.organization_id risk.organization_id)

-- `_check_related_records_alignment` at one record.
unfoldable pub check_related_records_alignment : Risk → Result (Unit {0})
check_related_records_alignment risk = do
  raise_if (any (other_company risk) risk.related_control_instance_ids)
      (validation_error "Related control instances must belong to the same company as the risk.")
  raise_if (any (other_organization risk) risk.related_control_instance_ids) (
      validation_error
        "Related control instances must belong to the same organization as the risk.")
  raise_if (any (other_company risk) risk.related_document_ids)
      (validation_error "Related documents must belong to the same company as the risk.")
  raise_if (any (other_organization risk) risk.related_document_ids)
      (validation_error "Related documents must belong to the same organization as the risk.")
