-- ===== src/Migration/Actions.antt =====
-- The workflow actions of an execution record, and its preparation from an approved package.
use perfect_match_qms.Prelude.{
  if◌then◌else◌, ℕ, ◌==◌, Bool, true, false, not, ◌&&◌, ◌||◌, String, str_eq, Option, none, some,
  List, [], ◌∷◌, any,
}
use perfect_match_qms.Odoo.{
  Env, access_error, user_error, attribute_error, Result, ok, err, ◌>>=◌, ◌>>◌, raise_if, traverse,
  is_set, exists, Orm,
}
use perfect_match_qms.Migration.Snapshots.{Codec}
use perfect_match_qms.Migration.Counts.{recounted, stored_write}
use perfect_match_qms.Migration.Package.{Package, is_approved}
use perfect_match_qms.Migration.Execution.{
  State, draft, preflight_passed, authorized, in_progress, recorded, submitted, returned, closed,
  RollbackDecision, executed, Outcome, rolled_back, ControlText, environment_reference,
  fresh_preflight_evidence, backup_access_evidence, restoration_test_evidence, dry_run_evidence,
  authorization_notes, execution_log_reference, execution_log_sha256, post_migration_checks,
  rollback_evidence, preflight, authorization, start, finish, submission, closure, Execution,
  render_control_snapshot, render_report_snapshot, Assignment, set_state, set_control_snapshot,
  set_control_sha256, set_report_snapshot, set_report_sha256, set_by, set_on, set_return_reason,
  set_ledger_started, assign,
}

abbrev pub manager_group : String
manager_group = "pm_qms_core.group_pm_qms_manager"

-- `_check_manager_permission`
unfoldable pub check_manager_permission : Env → Result (Unit {0})
check_manager_permission env =
    raise_if (not (env.has_group manager_group))
      (access_error "Only QMS Managers or Administrators can manage migration execution records.")

abbrev pub same_text : Option String → Option String → Bool
same_text none none = true
same_text (some s) (some t) = str_eq s t
same_text _ _ = false

-- `hashlib.sha256(snapshot.encode()).hexdigest()`: an empty field is no text.
abbrev pub digest : Codec → Option String → Result String
digest codec none = err (attribute_error "'bool' object has no attribute 'encode'")
digest codec (some s) = ok (codec.sha256 s)

-- `_assert_package_integrity`
unfoldable pub assert_package_integrity : Codec → Package → Execution → Result (Unit {0})
assert_package_integrity codec origin r = do
  raise_if (not (is_approved origin.state))
      (user_error "The source migration package is no longer approved.")
  raise_if (not (same_text origin.manifest_sha256 (some r.package_manifest_sha256)))
      (user_error "The approved package manifest reference changed.")
  found ← digest codec origin.manifest_snapshot
  raise_if (not (same_text (some found) origin.manifest_sha256))
      (user_error "The approved package manifest integrity check failed.")

-- `placeholders`, which are the values of a new record too.
abbrev pub placeholder : ControlText → String
placeholder environment_reference = "PENDING-CONTROLLED-ENVIRONMENT"
placeholder fresh_preflight_evidence = "Document fresh environment preflight evidence."
placeholder backup_access_evidence = "Document backup accessibility evidence."
placeholder restoration_test_evidence = "Document restoration-test evidence."
placeholder dry_run_evidence = "Document isolated dry-run evidence."
placeholder authorization_notes = "Document explicit execution authorization."

abbrev pub control_texts : List ControlText
control_texts =
    environment_reference ∷ fresh_preflight_evidence ∷ backup_access_evidence
    ∷ restoration_test_evidence ∷ dry_run_evidence ∷ authorization_notes ∷ []

-- `incomplete` is not empty.
abbrev pub is_incomplete : Execution → Bool
is_incomplete r = any (λ k. str_eq (r.controls k) (placeholder k)) control_texts

-- The message of an incomplete record names the fields too.
abbrev pub incomplete_message : String
incomplete_message = "Replace every execution placeholder before preflight"

-- `missing` is not empty.
abbrev pub is_unreported : Execution → Bool
is_unreported r =
    not (is_set (r.report_texts execution_log_reference))
    || not (is_set (r.report_texts execution_log_sha256))
    || not (is_set (r.report_texts post_migration_checks))
    || not (exists r.rollback_decision)

abbrev pub is_executed : Option RollbackDecision → Bool
is_executed (some executed) = true
is_executed _ = false

abbrev pub is_rolled_back : Option Outcome → Bool
is_rolled_back (some rolled_back) = true
is_rolled_back _ = false

abbrev pub state_key : State → ℕ
state_key draft = 0
state_key preflight_passed = 1
state_key authorized = 2
state_key in_progress = 3
state_key recorded = 4
state_key submitted = 5
state_key returned = 6
state_key closed = 7

abbrev pub is_in : State → State → Bool
is_in a b = state_key a == state_key b

pub data Action : Type 0 where
  run_preflight authorize record_start record_outcome submit_closeout send_back close : Action

-- The methods after which migration_reconciliation.py marks the ledger as started.
abbrev pub is_marked : Action → Bool
is_marked record_start = true
is_marked send_back = true
is_marked _ = false

-- The report is rendered again and compared with its snapshot and digest.
abbrev pub check_report : Codec → Execution → Result (Unit {0})
check_report codec r = do
  raise_if (not (same_text (some (render_report_snapshot codec r)) r.report_snapshot))
      (user_error "Execution report changed after outcome recording.")
  found ← digest codec r.report_snapshot
  raise_if (not (same_text (some found) r.report_sha256))
      (user_error "Execution report integrity check failed.")

module _ (codec : Codec) (env : Env) where
  -- The tests of each method at one record. `origin` is the record's package at the call.
  unfoldable pub check_action : Action → Package → Execution → Result (Unit {0})
  unfolding assert_package_integrity render_control_snapshot render_report_snapshot
  check_action run_preflight origin r = do
    raise_if (not (is_in r.state draft || is_in r.state returned))
        (user_error "Preflight is allowed only for draft or returned records.")
    assert_package_integrity codec origin r
    raise_if (is_incomplete r) (user_error incomplete_message)
  check_action authorize origin r = do
    raise_if (not (is_in r.state preflight_passed))
        (user_error "Pass fresh preflight before authorization.")
    raise_if (not (r.reviewer_id == env.user))
        (access_error "Only the assigned independent reviewer can authorize.")
    raise_if (r.operator_id == env.user)
        (access_error "The operator cannot authorize their own execution.")
    assert_package_integrity codec origin r
    raise_if (not (same_text (some (render_control_snapshot codec r)) r.control_snapshot))
        (user_error "Execution controls changed after preflight.")
    found ← digest codec r.control_snapshot
    raise_if (not (same_text (some found) r.control_sha256))
        (user_error "Execution control snapshot integrity check failed.")
  check_action record_start origin r = do
    raise_if (not (is_in r.state authorized))
        (user_error "Independent authorization is required before start.")
    raise_if (not (r.operator_id == env.user))
        (access_error "Only the assigned operator can record the start.")
    assert_package_integrity codec origin r
  check_action record_outcome origin r = do
    raise_if (not (is_in r.state in_progress))
        (user_error "Record start before recording the outcome.")
    raise_if (not (r.operator_id == env.user))
        (access_error "Only the assigned operator can record the outcome.")
    raise_if (not (exists r.outcome)) (user_error "Select the controlled execution outcome.")
    raise_if (is_unreported r)
        (user_error "Complete execution evidence before recording the outcome")
    raise_if (is_rolled_back r.outcome && not (is_executed r.rollback_decision))
        (user_error "A rolled-back outcome requires an executed rollback decision.")
    raise_if (is_executed r.rollback_decision && not (is_set (r.report_texts rollback_evidence)))
        (user_error "Document rollback evidence when rollback was executed.")
  check_action submit_closeout origin r = do
    raise_if (not (is_in r.state recorded))
        (user_error "Record the outcome before closeout submission.")
    raise_if (not (r.operator_id == env.user))
        (access_error "Only the assigned operator can submit closeout.")
    check_report codec r
  check_action send_back origin r = do
    raise_if (not (is_in r.state submitted))
        (user_error "Only submitted execution records can be returned.")
    raise_if (not (r.reviewer_id == env.user))
        (access_error "Only the assigned reviewer can return closeout.")
    raise_if (not (is_set r.return_reason)) (user_error "Document a return reason.")
  check_action close origin r = do
    raise_if (not (is_in r.state submitted))
        (user_error "Only submitted execution records can be closed.")
    raise_if (not (r.reviewer_id == env.user))
        (access_error "Only the assigned independent reviewer can close.")
    raise_if (r.operator_id == env.user)
        (access_error "The operator cannot approve their own closeout.")
    raise_if (not (is_set r.closeout_notes)) (user_error "Document independent closeout notes.")
    assert_package_integrity codec origin r
    check_report codec r

  -- What each method writes.
  unfoldable pub values : Action → Execution → List Assignment
  unfolding render_control_snapshot render_report_snapshot
  values run_preflight r =
      set_state preflight_passed
      ∷ set_control_snapshot (some (render_control_snapshot codec r))
      ∷ set_control_sha256 (some (codec.sha256 (render_control_snapshot codec r)))
      ∷ set_by preflight (some env.user)
      ∷ set_on preflight (some env.now)
      ∷ set_return_reason none
      ∷ []
  values authorize r =
      set_state authorized
      ∷ set_by authorization (some env.user)
      ∷ set_on authorization (some env.now)
      ∷ []
  values record_start r =
      set_state in_progress ∷ set_by start (some env.user) ∷ set_on start (some env.now) ∷ []
  values record_outcome r =
      set_state recorded
      ∷ set_report_snapshot (some (render_report_snapshot codec r))
      ∷ set_report_sha256 (some (codec.sha256 (render_report_snapshot codec r)))
      ∷ set_by finish (some env.user)
      ∷ set_on finish (some env.now)
      ∷ []
  values submit_closeout r =
      set_state submitted
      ∷ set_by submission (some env.user)
      ∷ set_on submission (some env.now)
      ∷ []
  values send_back r =
      set_state in_progress
      ∷ set_report_snapshot none
      ∷ set_report_sha256 none
      ∷ set_by finish none
      ∷ set_on finish none
      ∷ set_by submission none
      ∷ set_on submission none
      ∷ []
  values close r =
      set_state closed ∷ set_by closure (some env.user) ∷ set_on closure (some env.now) ∷ []

  -- A record after the writes of a method.
  abbrev pub after : Action → Execution → Execution
  after action r =
      let w = recounted codec (values action r) r in
      if is_marked action then recounted codec (set_ledger_started true ∷ []) w else w

  module _ (orm : Orm assign) (packages : ℕ → Package) where
    -- The body of each method's loop. `_write_workflow` calls `super().write`, past the guards of
    -- `write`.
    unfoldable pub run_one : Action → Execution → Result Execution
    unfolding check_action values
    run_one action r =
        check_action action (packages r.package_id) r >> stored_write orm codec (values action r) r

    -- The body of the second loop, in the extensions of `action_record_start` and `action_return`.
    unfoldable pub mark_one : Action → Execution → Result Execution
    mark_one action r =
        if is_marked action then stored_write orm codec (set_ledger_started true ∷ []) r else ok r

    -- The `action_*` methods. `packages` is the table of packages at the call.
    unfoldable pub run : Action → List Execution → Result (List Execution)
    unfolding check_manager_permission run_one mark_one
    run action self =
        check_manager_permission env
        >> (traverse (run_one action) self >>= λ written. traverse (mark_one action) written)
