-- ===== src/Migration/Edits.antt =====
-- `write`, `unlink` and `_prepare_from_package` of the execution record.
use perfect_match_qms.Prelude.{
  ℕ, ◌==◌, pos, Bool, true, false, not, ◌&&◌, ◌||◌, String, Option, none, some, List, [], ◌∷◌, ◌++◌,
  any, filtered, if◌then◌else◌,
}
use perfect_match_qms.Odoo.{
  Env, access_error, user_error, validation_error, Result, ok, err, ◌>>=◌, ◌>>◌, raise_if, traverse,
  Orm, Creation,
}
use Prim.Native.String.{◌++◌ as str_append}
use perfect_match_qms.Migration.Snapshots.{Codec}
use perfect_match_qms.Migration.Counts.{recounted, stored_write}
use perfect_match_qms.Migration.Package.Actions.{check_package_manager}
use perfect_match_qms.Migration.Package.{Package, is_approved, submission, approval}
use perfect_match_qms.Migration.Execution.{
  State, draft, preflight_passed, in_progress, returned, closed, preflight, Execution, Assignment,
  set_state, set_control_snapshot, set_control_sha256, set_by, set_on, assign, is_workflow,
  is_control, is_report, is_ledger, is_evidence, is_count, is_lines, set_reconciliation_lines,
  set_ledger_started, Line,
}
use perfect_match_qms.Migration.Actions.{check_manager_permission, placeholder, is_in}

abbrev pub is_editable : State → Bool
is_editable s = is_in s draft || is_in s returned || is_in s preflight_passed

-- `execution.state != "in_progress" or execution.operator_id != self.env.user`
abbrev pub is_foreign : Env → Execution → Bool
is_foreign env r = not (is_in r.state in_progress) || not (r.operator_id == env.user)

-- The tests of `write`, first those of migration_reconciliation.py and then those of
-- migration_execution.py, up to the write of the ORM.
unfoldable pub check_write : Env → List Assignment → List Execution → Result (Unit {0})
unfolding check_manager_permission
check_write env vals self = do
  raise_if (any is_ledger vals) (access_error "Reconciliation lifecycle is system controlled.")
  raise_if (any is_evidence vals && any (is_foreign env) self)
      (access_error "Only the assigned operator can record outcome evidence while in progress.")
  raise_if (any is_count vals)
      (access_error "Reconciliation counts are derived from record-level entries.")
  raise_if (any is_lines vals && any (is_foreign env) self)
      (access_error "Only the assigned operator can edit reconciliation entries while in progress.")
  raise_if (any (λ (r : Execution). is_in r.state closed) self)
      (access_error "Closed migration execution records are immutable.")
  raise_if (any is_workflow vals)
      (access_error "Workflow and snapshot fields cannot be changed directly.")
  check_manager_permission env
  raise_if (any is_report vals && any (λ (r : Execution). not (is_in r.state in_progress)) self)
      (access_error "Execution report fields are editable only while in progress.")
  raise_if (any is_control vals && any (λ (r : Execution). not (is_editable r.state)) self)
      (access_error "Authorized execution controls are locked.")

-- What `write` sets where controls were edited after the preflight.
abbrev pub reset_values : List Assignment
reset_values =
    set_state draft
    ∷ set_control_snapshot none
    ∷ set_control_sha256 none
    ∷ set_by preflight none
    ∷ set_on preflight none
    ∷ []

abbrev pub is_reset : List Assignment → Execution → Bool
is_reset vals r = (is_in r.state preflight_passed || is_in r.state returned) && any is_control vals

module _ (codec : Codec) (orm : Orm assign) (env : Env) where
  -- The loop after `super().write`.
  abbrev pub reset_one : List Assignment → Execution → Result Execution
  reset_one vals r = if is_reset vals r then stored_write orm codec reset_values r else ok r

  -- `write`. Entries that it creates mark the ledger as started, as it is already where a record is in
  -- progress.
  unfoldable pub write : List Assignment → List Execution → Result (List Execution)
  unfolding check_write
  write vals self = do
    check_write env vals self
    written ← traverse (stored_write orm codec vals) self
    traverse (reset_one vals) written

-- What `create`, `write` or `unlink` of entries of the ledger makes of their execution, after
-- `_check_edit_permission`: a creation marks the ledger as started. The entries afterwards are given;
-- their own tests may only refuse them.
unfoldable pub reconcile : Codec → Env → (creates : Bool) → List Line → Execution → Result Execution
unfolding check_manager_permission
reconcile codec env creates lines r = do
  check_manager_permission env
  raise_if (not (is_in r.state in_progress))
      (access_error "Reconciliation entries are editable only while execution is in progress.")
  raise_if (not (r.operator_id == env.user))
      (access_error "Only the assigned execution operator can edit reconciliation entries.")
  ok (
      recounted codec
        (set_reconciliation_lines lines ∷ (if creates then (set_ledger_started true ∷ []) else []))
        r)

-- `unlink` of the records that a test selects, in a table of records.
unfoldable pub unlink : Env → (Execution → Bool) → List Execution → Result (List Execution)
unfolding check_manager_permission
unlink env self table = do
  check_manager_permission env
  raise_if
      (any (λ (r : Execution). self r && not (is_in r.state draft || is_in r.state returned)) table)
      (user_error "Only draft or returned execution records can be deleted.")
  ok (filtered (λ r. not (self r)) table)

-- A field that the model requires.
abbrev pub required_user : Option ℕ → Result ℕ
required_user none = err (validation_error "A required field is missing.")
required_user (some user) = ok user

abbrev pub required_text : Option String → Result String
required_text none = err (validation_error "A required field is missing.")
required_text (some s) = ok s

-- The values of a new record. The company is that of the package.
abbrev pub new_execution :
    Package → (company_id : ℕ) → (digest : String) → (operator reviewer : ℕ) → Execution
new_execution origin company_id digest operator reviewer = record {
  code = str_append origin.code "-EXEC-01";
  package_id = origin.id;
  package_manifest_sha256 = digest;
  company_id = company_id;
  operator_id = operator;
  reviewer_id = reviewer;
  controls = placeholder;
  report_texts = λ _. none;
  counts = λ _. pos 0;
  rollback_decision = none;
  outcome = none;
  state = draft;
  control_snapshot = none;
  control_sha256 = none;
  report_snapshot = none;
  report_sha256 = none;
  by = λ _. none;
  on = λ _. none;
  return_reason = none;
  closeout_notes = none;
  reconciliation_lines = [];
  reconciliation_ledger_started = false;
}

-- `search([("package_id", "=", package.id)], limit=1)`
abbrev pub find : ℕ → List Execution → Option Execution
find id [] = none
find id (r ∷ rs) = if r.package_id == id then some r else find id rs

-- `_prepare_from_package`, on the table of records: the record, and the table afterwards.
module _ (creation : Creation Execution) (env : Env) where
  abbrev pub found_or_new :
      Package
      → (company_id : ℕ) → List Execution
      → Option Execution
      → Result (Execution × List Execution)
  found_or_new origin company_id table (some r) = ok (r, table)
  found_or_new origin company_id table none = do
    digest ← required_text origin.manifest_sha256
    operator ← required_user (origin.by submission)
    reviewer ← required_user (origin.by approval)
    let new = new_execution origin company_id digest operator reviewer
    created ← creation.super_create (new ∷ [])
    ok (new, created ++ table)

  unfoldable pub prepare_from_package :
      Package → (company_id : ℕ) → List Execution → Result (Execution × List Execution)
  unfolding check_package_manager
  prepare_from_package origin company_id table = do
    check_package_manager env
    raise_if (not (is_approved origin.state))
        (user_error "An approved migration package is required.")
    found_or_new origin company_id table (find origin.id table)
