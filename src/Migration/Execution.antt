-- ===== src/Migration/Execution.antt =====
-- The execution record (PmQmsIso9001MigrationExecution of models/migration_execution.py), its snapshots
-- and the package that it reads.
use perfect_match_qms.Prelude.{
  ℕ, ◌==◌, ℤ, map, ◌++◌, str_eq, not, ◌||◌, Bool, true, false, String, Option, none, some, List, [],
  ◌∷◌, if◌then◌else◌,
}
use perfect_match_qms.Migration.Snapshots.{
  Json, Scalar, text, boolean, objects, text_of, id_of, count_of, maybe_text, text_or_blank, Codec,
}

pub data State : Type 0 where
  draft preflight_passed authorized in_progress recorded submitted returned closed : State

pub data RollbackDecision : Type 0 where
  not_required required executed : RollbackDecision

pub data Outcome : Type 0 where
  completed failed rolled_back : Outcome

-- The text fields among the execution controls.
pub data ControlText : Type 0 where
  environment_reference fresh_preflight_evidence backup_access_evidence : ControlText
  restoration_test_evidence dry_run_evidence authorization_notes : ControlText

-- The text fields of the report.
pub data ReportText : Type 0 where
  execution_log_reference execution_log_sha256 post_migration_checks : ReportText
  rollback_evidence : ReportText

pub data Count : Type 0 where
  created_count reused_count skipped_count rejected_count manual_review_count : Count

-- The steps of which the user and the time are kept: the fields `preflight_by_id` and
-- `preflight_date`, and so on.
pub data Stamp : Type 0 where
  preflight authorization start finish submission closure : Stamp

pub data Disposition : Type 0 where
  created reused skipped rejected manual_review : Disposition

-- An entry of the reconciliation ledger (PmQmsIso9001MigrationReconciliation of
-- models/migration_reconciliation.py), with the stored digest of its values.
pub record Line : Type 0 where
  pub source_edition : String
  pub target_edition : String
  pub source_system_reference : String
  pub source_record_reference : String
  pub source_record_sha256 : Option String
  pub target_record_reference : Option String
  pub target_record_sha256 : Option String
  pub disposition : Disposition
  pub historical_source_preserved : Bool
  pub rationale : String
  pub evidence_reference : Option String
  pub item_snapshot_sha256 : String

-- A group of fields is a function from their names. `company_id` is that of the package.
pub record Execution : Type 0 where
  pub code : String
  pub package_id : ℕ
  pub package_manifest_sha256 : String
  pub company_id : ℕ
  pub operator_id : ℕ
  pub reviewer_id : ℕ
  pub controls : ControlText → String
  pub report_texts : ReportText → Option String
  pub counts : Count → ℤ
  pub rollback_decision : Option RollbackDecision
  pub outcome : Option Outcome
  pub state : State
  pub control_snapshot : Option String
  pub control_sha256 : Option String
  pub report_snapshot : Option String
  pub report_sha256 : Option String
  pub by : Stamp → Option ℕ
  pub on : Stamp → Option ℕ
  pub return_reason : Option String
  pub closeout_notes : Option String
  -- In the order of the system and record references.
  pub reconciliation_lines : List Line
  pub reconciliation_ledger_started : Bool

-- `_control_values`
abbrev pub control_values : Execution → List (String × Json)
control_values r =
    ("schema", id_of 1)
    ∷ ("execution_code", text_of r.code)
    ∷ ("package_id", id_of r.package_id)
    ∷ ("package_manifest_sha256", text_of r.package_manifest_sha256)
    ∷ ("company_id", id_of r.company_id)
    ∷ ("operator_id", id_of r.operator_id)
    ∷ ("reviewer_id", id_of r.reviewer_id)
    ∷ ("environment_reference", text_of (r.controls environment_reference))
    ∷ ("fresh_preflight_evidence", text_of (r.controls fresh_preflight_evidence))
    ∷ ("backup_access_evidence", text_of (r.controls backup_access_evidence))
    ∷ ("restoration_test_evidence", text_of (r.controls restoration_test_evidence))
    ∷ ("dry_run_evidence", text_of (r.controls dry_run_evidence))
    ∷ ("authorization_notes", text_of (r.controls authorization_notes))
    ∷ []

abbrev decision_value : Option RollbackDecision → Option String
decision_value none = none
decision_value (some not_required) = some "not_required"
decision_value (some required) = some "required"
decision_value (some executed) = some "executed"

abbrev outcome_value : Option Outcome → Option String
outcome_value none = none
outcome_value (some completed) = some "completed"
outcome_value (some failed) = some "failed"
outcome_value (some rolled_back) = some "rolled_back"

-- `_report_values` of migration_execution.py
abbrev pub base_report_values : Execution → List (String × Json)
base_report_values r =
    ("execution_log_reference", maybe_text (r.report_texts execution_log_reference))
    ∷ ("execution_log_sha256", maybe_text (r.report_texts execution_log_sha256))
    ∷ ("post_migration_checks", maybe_text (r.report_texts post_migration_checks))
    ∷ ("rollback_decision", maybe_text (decision_value r.rollback_decision))
    ∷ ("rollback_evidence", text_or_blank (r.report_texts rollback_evidence))
    ∷ ("outcome", maybe_text (outcome_value r.outcome))
    ∷ ("created_count", count_of (r.counts created_count))
    ∷ ("reused_count", count_of (r.counts reused_count))
    ∷ ("skipped_count", count_of (r.counts skipped_count))
    ∷ ("rejected_count", count_of (r.counts rejected_count))
    ∷ ("manual_review_count", count_of (r.counts manual_review_count))
    ∷ []

abbrev pub disposition_value : Disposition → String
disposition_value created = "created"
disposition_value reused = "reused"
disposition_value skipped = "skipped"
disposition_value rejected = "rejected"
disposition_value manual_review = "manual_review"

abbrev pub text_or_empty : Option String → Scalar
text_or_empty none = text ""
text_or_empty (some s) = text s

-- `_snapshot_values` of an entry
abbrev pub line_values : Line → List (String × Scalar)
line_values l =
    ("source_edition", text l.source_edition)
    ∷ ("target_edition", text l.target_edition)
    ∷ ("source_system_reference", text l.source_system_reference)
    ∷ ("source_record_reference", text l.source_record_reference)
    ∷ ("source_record_sha256", text_or_empty l.source_record_sha256)
    ∷ ("target_record_reference", text_or_empty l.target_record_reference)
    ∷ ("target_record_sha256", text_or_empty l.target_record_sha256)
    ∷ ("disposition", text (disposition_value l.disposition))
    ∷ ("historical_source_preserved", boolean l.historical_source_preserved)
    ∷ ("rationale", text l.rationale)
    ∷ ("evidence_reference", text_or_empty l.evidence_reference)
    ∷ ("item_snapshot_sha256", text l.item_snapshot_sha256)
    ∷ []

-- `dict.get`, and `in`
abbrev pub entry : String → List (String × Json) → Option Json
entry key [] = none
entry key ((k, v) ∷ rest) = if str_eq k key then some v else entry key rest

abbrev pub has_entry : String → List (String × Json) → Bool
has_entry key [] = false
has_entry key ((k, _) ∷ rest) = str_eq k key || has_entry key rest

-- `json.loads`, with `{}` for a text that it refuses
abbrev pub loaded : Codec → String → List (String × Json)
loaded codec s = elim (codec.loads s) [ none ↦ [] | some values ↦ values ]

-- An earlier report without the items of the ledger, and no entries now.
abbrev pub is_legacy : Codec → List Line → Option String → Bool
is_legacy codec [] (some s) = not (has_entry "reconciliation_items" (loaded codec s))
is_legacy codec _ _ = false

-- `_report_values`, with its extension in migration_reconciliation.py
unfoldable pub report_values : Codec → Execution → List (String × Json)
report_values codec r =
    base_report_values r
    ++ (if is_legacy codec r.reconciliation_lines r.report_snapshot
        then []
        else ("reconciliation_items", objects (map line_values r.reconciliation_lines)) ∷ [])

-- `_render_control_snapshot` and `_render_report_snapshot`
unfoldable pub render_control_snapshot : Codec → Execution → String
render_control_snapshot codec r = codec.dumps (control_values r)

unfoldable pub render_report_snapshot : Codec → Execution → String
unfolding report_values
render_report_snapshot codec r = codec.dumps (report_values codec r)

pub data Assignment : Type 0 where
  set_state : State → Assignment
  set_control_snapshot set_control_sha256 : Option String → Assignment
  set_report_snapshot set_report_sha256 : Option String → Assignment
  set_by set_on : Stamp → Option ℕ → Assignment
  set_operator_id set_reviewer_id : ℕ → Assignment
  set_control : ControlText → String → Assignment
  set_report_text : ReportText → Option String → Assignment
  set_count : Count → ℤ → Assignment
  set_rollback_decision : Option RollbackDecision → Assignment
  set_outcome : Option Outcome → Assignment
  set_return_reason set_closeout_notes : Option String → Assignment
  set_code set_package_manifest_sha256 : String → Assignment
  set_package_id : ℕ → Assignment
  set_company_id : ℕ → Assignment
  set_reconciliation_lines : List Line → Assignment
  set_ledger_started : Bool → Assignment
  set_unmodelled : Assignment

abbrev pub control_key : ControlText → ℕ
control_key environment_reference = 0
control_key fresh_preflight_evidence = 1
control_key backup_access_evidence = 2
control_key restoration_test_evidence = 3
control_key dry_run_evidence = 4
control_key authorization_notes = 5

abbrev pub report_key : ReportText → ℕ
report_key execution_log_reference = 0
report_key execution_log_sha256 = 1
report_key post_migration_checks = 2
report_key rollback_evidence = 3

abbrev pub count_key : Count → ℕ
count_key created_count = 0
count_key reused_count = 1
count_key skipped_count = 2
count_key rejected_count = 3
count_key manual_review_count = 4

abbrev pub stamp_key : Stamp → ℕ
stamp_key preflight = 0
stamp_key authorization = 1
stamp_key start = 2
stamp_key finish = 3
stamp_key submission = 4
stamp_key closure = 5

-- One field of a group gets a value.
abbrev pub update {ℓ κ} : {A : Type ℓ} {B : Type κ} → (A → ℕ) → A → B → (A → B) → A → B
update key a v f b = if key a == key b then v else f b

abbrev pub assign : Assignment → Execution → Execution
assign (set_state v) r = record r { state = v }
assign (set_control_snapshot v) r = record r { control_snapshot = v }
assign (set_control_sha256 v) r = record r { control_sha256 = v }
assign (set_report_snapshot v) r = record r { report_snapshot = v }
assign (set_report_sha256 v) r = record r { report_sha256 = v }
assign (set_by k v) r = record r { by = update stamp_key k v r.by }
assign (set_on k v) r = record r { on = update stamp_key k v r.on }
assign (set_operator_id v) r = record r { operator_id = v }
assign (set_reviewer_id v) r = record r { reviewer_id = v }
assign (set_control k v) r = record r { controls = update control_key k v r.controls }
assign (set_report_text k v) r = record r { report_texts = update report_key k v r.report_texts }
assign (set_count k v) r = record r { counts = update count_key k v r.counts }
assign (set_rollback_decision v) r = record r { rollback_decision = v }
assign (set_outcome v) r = record r { outcome = v }
assign (set_return_reason v) r = record r { return_reason = v }
assign (set_closeout_notes v) r = record r { closeout_notes = v }
assign (set_code v) r = record r { code = v }
assign (set_package_manifest_sha256 v) r = record r { package_manifest_sha256 = v }
assign (set_package_id v) r = record r { package_id = v }
assign (set_company_id v) r = record r { company_id = v }
assign (set_reconciliation_lines v) r = record r { reconciliation_lines = v }
assign (set_ledger_started v) r = record r { reconciliation_ledger_started = v }
assign set_unmodelled r = r

-- The sets of fields that `write` names.
abbrev pub is_workflow : Assignment → Bool
is_workflow (set_state _) = true
is_workflow (set_control_snapshot _) = true
is_workflow (set_control_sha256 _) = true
is_workflow (set_report_snapshot _) = true
is_workflow (set_report_sha256 _) = true
is_workflow (set_by _ _) = true
is_workflow (set_on _ _) = true
is_workflow (set_code _) = true
is_workflow (set_package_manifest_sha256 _) = true
is_workflow (set_package_id _) = true
is_workflow _ = false

abbrev pub is_control : Assignment → Bool
is_control (set_operator_id _) = true
is_control (set_reviewer_id _) = true
is_control (set_control _ _) = true
is_control _ = false

abbrev pub is_report : Assignment → Bool
is_report (set_report_text _ _) = true
is_report (set_count _ _) = true
is_report (set_rollback_decision _) = true
is_report (set_outcome _) = true
is_report _ = false

-- The sets of fields that `write` of migration_reconciliation.py names.
abbrev pub is_ledger : Assignment → Bool
is_ledger (set_ledger_started _) = true
is_ledger _ = false

abbrev pub is_evidence : Assignment → Bool
is_evidence (set_report_text _ _) = true
is_evidence (set_rollback_decision _) = true
is_evidence (set_outcome _) = true
is_evidence _ = false

abbrev pub is_count : Assignment → Bool
is_count (set_count _ _) = true
is_count _ = false

abbrev pub is_lines : Assignment → Bool
is_lines (set_reconciliation_lines _) = true
is_lines _ = false
