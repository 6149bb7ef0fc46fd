-- ===== src/Migration/Views.antt =====
-- The two parts of an execution record that its snapshots seal, and what leaves them as they are.
use perfect_match_qms.Prelude.{
  ℕ, ◌≡◌, refl, Bool, true, false, true-false, ◌||◌, String, Option, List, any,
}
use perfect_match_qms.Odoo.{assign_all, assign_all-same}
use perfect_match_qms.Migration.Snapshots.{Json}
use perfect_match_qms.Migration.Execution.{
  State, ControlText, Outcome, Stamp, Execution, control_values, Assignment, set_state,
  set_control_snapshot, set_control_sha256, set_report_snapshot, set_report_sha256, set_by, set_on,
  set_operator_id, set_reviewer_id, set_control, set_report_text, set_count, set_rollback_decision,
  set_outcome, set_return_reason, set_closeout_notes, set_code, set_package_manifest_sha256,
  set_package_id, set_unmodelled, assign, is_workflow, is_control, is_evidence, is_lines,
  set_company_id, set_reconciliation_lines, set_ledger_started, ReportText, RollbackDecision, Line,
}

-- The controls, what seals them, and who acted when. `rendered` is what a snapshot would hold for each
-- company: `write` guards all that it holds but `company_id`.
pub record ControlView : Type 0 where
  pub state : State
  pub operator_id : ℕ
  pub reviewer_id : ℕ
  pub controls : ControlText → String
  pub rendered : ℕ → List (String × Json)
  pub snapshot : Option String
  pub sha256 : Option String
  pub by : Stamp → Option ℕ
  pub on : Stamp → Option ℕ

abbrev pub control_view : Execution → ControlView
control_view r = record {
  state = r.state;
  operator_id = r.operator_id;
  reviewer_id = r.reviewer_id;
  controls = r.controls;
  rendered = λ company. control_values (record r { company_id = company });
  snapshot = r.control_snapshot;
  sha256 = r.control_sha256;
  by = r.by;
  on = r.on;
}

-- The report, but for the counts, and what seals it.
pub record ReportView : Type 0 where
  pub texts : ReportText → Option String
  pub rollback_decision : Option RollbackDecision
  pub outcome : Option Outcome
  pub lines : List Line
  pub snapshot : Option String
  pub sha256 : Option String

abbrev pub report_view : Execution → ReportView
report_view r = record {
  texts = r.report_texts;
  rollback_decision = r.rollback_decision;
  outcome = r.outcome;
  lines = r.reconciliation_lines;
  snapshot = r.report_snapshot;
  sha256 = r.report_sha256;
}

-- The fields that the view of the report shows, and `write` does not bar.
abbrev pub is_shown : Assignment → Bool
is_shown v = is_evidence v || is_lines v

absurd : {A : Type 0} → true ≡ false → A
absurd h = elim (true-false true refl h) [ ]

control_view-assign :
    (v : Assignment) (r : Execution)
    → (is_workflow v || is_control v) ≡ false
    → control_view (assign v r) ≡ control_view r
control_view-assign (set_state _) r h = absurd h
control_view-assign (set_control_snapshot _) r h = absurd h
control_view-assign (set_control_sha256 _) r h = absurd h
control_view-assign (set_report_snapshot _) r h = absurd h
control_view-assign (set_report_sha256 _) r h = absurd h
control_view-assign (set_by _ _) r h = absurd h
control_view-assign (set_on _ _) r h = absurd h
control_view-assign (set_operator_id _) r h = absurd h
control_view-assign (set_reviewer_id _) r h = absurd h
control_view-assign (set_control _ _) r h = absurd h
control_view-assign (set_report_text _ _) r h = refl
control_view-assign (set_count _ _) r h = refl
control_view-assign (set_rollback_decision _) r h = refl
control_view-assign (set_outcome _) r h = refl
control_view-assign (set_return_reason _) r h = refl
control_view-assign (set_closeout_notes _) r h = refl
control_view-assign (set_code _) r h = absurd h
control_view-assign (set_package_manifest_sha256 _) r h = absurd h
control_view-assign (set_package_id _) r h = absurd h
control_view-assign (set_company_id _) r h = refl
control_view-assign (set_reconciliation_lines _) r h = refl
control_view-assign (set_ledger_started _) r h = refl
control_view-assign set_unmodelled r h = refl

report_view-assign :
    (v : Assignment) (r : Execution)
    → (is_workflow v || is_shown v) ≡ false
    → report_view (assign v r) ≡ report_view r
report_view-assign (set_state _) r h = absurd h
report_view-assign (set_control_snapshot _) r h = absurd h
report_view-assign (set_control_sha256 _) r h = absurd h
report_view-assign (set_report_snapshot _) r h = absurd h
report_view-assign (set_report_sha256 _) r h = absurd h
report_view-assign (set_by _ _) r h = absurd h
report_view-assign (set_on _ _) r h = absurd h
report_view-assign (set_operator_id _) r h = refl
report_view-assign (set_reviewer_id _) r h = refl
report_view-assign (set_control _ _) r h = refl
report_view-assign (set_report_text _ _) r h = absurd h
report_view-assign (set_count _ _) r h = refl
report_view-assign (set_rollback_decision _) r h = absurd h
report_view-assign (set_outcome _) r h = absurd h
report_view-assign (set_return_reason _) r h = refl
report_view-assign (set_closeout_notes _) r h = refl
report_view-assign (set_code _) r h = absurd h
report_view-assign (set_package_manifest_sha256 _) r h = absurd h
report_view-assign (set_package_id _) r h = absurd h
report_view-assign (set_company_id _) r h = refl
report_view-assign (set_reconciliation_lines _) r h = absurd h
report_view-assign (set_ledger_started _) r h = refl
report_view-assign set_unmodelled r h = refl

state-assign :
    (v : Assignment) (r : Execution) → is_workflow v ≡ false → (assign v r).state ≡ r.state
state-assign (set_state _) r h = absurd h
state-assign (set_control_snapshot _) r h = absurd h
state-assign (set_control_sha256 _) r h = absurd h
state-assign (set_report_snapshot _) r h = absurd h
state-assign (set_report_sha256 _) r h = absurd h
state-assign (set_by _ _) r h = absurd h
state-assign (set_on _ _) r h = absurd h
state-assign (set_operator_id _) r h = refl
state-assign (set_reviewer_id _) r h = refl
state-assign (set_control _ _) r h = refl
state-assign (set_report_text _ _) r h = refl
state-assign (set_count _ _) r h = refl
state-assign (set_rollback_decision _) r h = refl
state-assign (set_outcome _) r h = refl
state-assign (set_return_reason _) r h = refl
state-assign (set_closeout_notes _) r h = refl
state-assign (set_code _) r h = absurd h
state-assign (set_package_manifest_sha256 _) r h = absurd h
state-assign (set_package_id _) r h = absurd h
state-assign (set_company_id _) r h = refl
state-assign (set_reconciliation_lines _) r h = refl
state-assign (set_ledger_started _) r h = refl
state-assign set_unmodelled r h = refl

-- A write of no workflow field keeps the state.
pub state-same :
    (vals : List Assignment) (r : Execution)
    → any is_workflow vals ≡ false
    → (assign_all assign vals r).state ≡ r.state
state-same = assign_all-same assign (λ r. r.state) is_workflow state-assign

-- A write of neither workflow fields nor controls keeps the view of the controls.
pub control_view-same :
    (vals : List Assignment) (r : Execution)
    → any (λ v. is_workflow v || is_control v) vals ≡ false
    → control_view (assign_all assign vals r) ≡ control_view r
control_view-same =
    assign_all-same assign control_view (λ v. is_workflow v || is_control v) control_view-assign

-- A write of neither workflow fields nor the report keeps the view of the report.
pub report_view-same :
    (vals : List Assignment) (r : Execution)
    → any (λ v. is_workflow v || is_shown v) vals ≡ false
    → report_view (assign_all assign vals r) ≡ report_view r
report_view-same =
    assign_all-same assign report_view (λ v. is_workflow v || is_shown v) report_view-assign
