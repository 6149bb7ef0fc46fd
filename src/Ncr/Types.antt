-- ===== src/Ncr/Types.antt =====
-- The data of pm.qms.nonconformity (models/nonconformity.py), as far as its rules read it, and the
-- checks of one record.
use perfect_match_qms.Prelude.{
  ℕ, ◌-◌, ltb, Bool, true, false, not, ◌&&◌, String, Option, none, some, List, if◌then◌else◌,
}
use perfect_match_qms.Odoo.{
  Env, validation_error, Result, ◌>>◌, raise_if, for_each, exists, same, Linked,
}

-- `opened` is the state "open".
pub data State : Type 0 where
  draft opened containment investigation action_required verification closed cancelled : State

pub record Nonconformity : Type 0 where
  pub id : ℕ
  pub display_name : String
  pub company_id : Option ℕ
  pub organization_id : Option ℕ
  pub process_id : Option Linked
  pub containment_required : Bool
  pub containment_completed : Bool
  pub target_date : Option ℕ
  pub state : State
  pub opened_by_id : Option ℕ
  pub opened_on : Option ℕ
  pub reviewed_by_id : Option ℕ
  pub reviewed_on : Option ℕ
  pub closed_by_id : Option ℕ
  pub closed_on : Option ℕ
  pub closure_notes : Option String
  pub related_control_instance_ids : List Linked
  pub related_document_ids : List Linked
  pub related_evidence_ids : List Linked
  pub related_risk_ids : List Linked

-- One entry of a values dictionary. `set_unmodelled` stands for a field that is left out above.
pub data Assignment : Type 0 where
  set_state : State → Assignment
  set_containment_required set_containment_completed : Bool → Assignment
  set_opened_by_id set_opened_on set_reviewed_by_id set_reviewed_on : Option ℕ → Assignment
  set_closed_by_id set_closed_on set_target_date : Option ℕ → Assignment
  set_closure_notes : Option String → Assignment
  set_unmodelled : Assignment

abbrev pub assign : Assignment → Nonconformity → Nonconformity
assign (set_state v) r = record r { state = v }
assign (set_containment_required v) r = record r { containment_required = v }
assign (set_containment_completed v) r = record r { containment_completed = v }
assign (set_opened_by_id v) r = record r { opened_by_id = v }
assign (set_opened_on v) r = record r { opened_on = v }
assign (set_reviewed_by_id v) r = record r { reviewed_by_id = v }
assign (set_reviewed_on v) r = record r { reviewed_on = v }
assign (set_closed_by_id v) r = record r { closed_by_id = v }
assign (set_closed_on v) r = record r { closed_on = v }
assign (set_target_date v) r = record r { target_date = v }
assign (set_closure_notes v) r = record r { closure_notes = v }
assign set_unmodelled r = r

abbrev pub sets_state : Assignment → Bool
sets_state (set_state _) = true
sets_state _ = false

abbrev pub is_draft : State → Bool
is_draft draft = true
is_draft _ = false

-- The two states in which no date counts as overdue.
abbrev pub is_finished : State → Bool
is_finished closed = true
is_finished cancelled = true
is_finished _ = false

abbrev pub passed : Option ℕ → ℕ → Bool
passed none today = false
passed (some date) today = ltb date today

abbrev pub days_since : Option ℕ → ℕ → ℕ
days_since none today = 0
days_since (some date) today = today - date

-- `_compute_overdue` at one record: `is_overdue` and `days_overdue`.
unfoldable pub compute_overdue : Env → Nonconformity → Bool × ℕ
compute_overdue env ncr =
    let overdue = not (is_finished ncr.state) && passed ncr.target_date env.today in
    (overdue, if overdue then days_since ncr.target_date env.today else 0)

-- `_check_process_alignment` at one record.
unfoldable pub check_process_alignment : Nonconformity → Result (Unit {0})
check_process_alignment ncr = elim ncr.process_id [
  | none ↦
      raise_if (exists ncr.company_id)
        (validation_error "NCR process must belong to the same company as the organization.")
  | some p ↦ do
    raise_if (not (same p.company_id ncr.company_id))
        (validation_error "NCR process must belong to the same company as the organization.")
    raise_if (exists p.organization_id && not (same p.organization_id ncr.organization_id))
        (validation_error "NCR process must belong to the selected organization.")
]

abbrev pub aligned : Nonconformity → Linked → Bool
aligned ncr r = same r.company_id ncr.company_id && same r.organization_id ncr.organization_id

abbrev check_aligned : Nonconformity → String → List Linked → Result (Unit {0})
check_aligned ncr message rs =
    for_each (λ (r : Linked). raise_if (not (aligned ncr r)) (validation_error message)) rs

-- `_check_related_records_alignment` at one record.
unfoldable pub check_related_records_alignment : Nonconformity → Result (Unit {0})
check_related_records_alignment ncr = do
  check_aligned ncr "Related control instances must match the NCR company and organization."
      ncr.related_control_instance_ids
  check_aligned ncr "Related documents must match the NCR company and organization."
      ncr.related_document_ids
  check_aligned ncr "Related evidence must match the NCR company and organization."
      ncr.related_evidence_ids
  check_aligned ncr "Related risks must match the NCR company and organization."
      ncr.related_risk_ids
