-- ===== src/Migration/Samples.antt =====
-- The records of a migration from its readiness review to the closed execution.
use perfect_match_qms.Prelude.{ℕ, true, String, none, some, List, [], ◌∷◌}
use Prim.Native.String.{◌++◌ as str_append}
use perfect_match_qms.Odoo.{Env, assign_all}
use perfect_match_qms.Migration.Snapshots.{Json, objects, Codec}
use perfect_match_qms.Migration.Package.{
  Package, Review, render_manifest, manifest_values, submission,
}
use perfect_match_qms.Migration.Package
use perfect_match_qms.Migration.Package.Writes.{
  PackageAssignment, set_plan, set_backup_sha256, set_backup_verified, set_execution_window,
  package_assign,
}
use perfect_match_qms.Migration.Package.Actions.{
  check_package_manager, check_preflight, check_package, package_values, run_package_one,
  run_package, submit, approve, plan_texts,
}
use perfect_match_qms.Migration.Package.Actions
use perfect_match_qms.Migration.Package.Edits.{new_package}
use perfect_match_qms.Migration.Execution.{
  Execution, environment_reference, fresh_preflight_evidence, backup_access_evidence,
  restoration_test_evidence, dry_run_evidence, authorization_notes, execution_log_reference,
  execution_log_sha256, post_migration_checks, not_required, completed, Assignment, set_control,
  set_report_text, set_rollback_decision, set_outcome, set_closeout_notes, set_return_reason,
  assign,
}
use perfect_match_qms.Migration.Actions.{
  after as moved, Action, run_preflight, authorize, record_start, record_outcome, submit_closeout,
  send_back, close,
}
use perfect_match_qms.Migration.Edits.{new_execution}

-- The keys of a dictionary, one after the other.
abbrev pub keys : List (String × Json) → String
keys [] = ""
keys ((key, _) ∷ rest) = str_append key (str_append "," (keys rest))

abbrev pub codec : Codec
codec = record {
  dumps = keys;
  sha256 = λ s. str_append "digest of " s;
  loads = λ _. some (("reconciliation_items", objects []) ∷ []);
}

abbrev pub as_manager : ℕ → Env
as_manager user = record { user = user; has_group = λ _. true; today = 0; now = user }

abbrev pub review : Review
review = record {
  id = 5;
  name = "Readiness";
  state = "approved";
  decision = some "internal_review";
  source_edition_snapshot = some "2015";
  target_edition_snapshot = "2026";
  company_id = 3;
  assessment_id = 4;
  implementation_project_id = none;
  assessment_project_id = none;
  line_statuses = "conforming" ∷ [];
  actions = [];
}

-- User 1 prepares the package and is its reviewer; user 2 passes the preflight and submits it.
abbrev pub package_new : Package
package_new = new_package (as_manager 1) 7 "ISO-MIG-00001" "2015" review

abbrev pub planning : List PackageAssignment
planning =
    set_plan Package.migration_scope "Scope"
    ∷ set_plan Package.source_inventory "Inventory"
    ∷ set_plan Package.compatibility_notes "Notes"
    ∷ set_plan Package.dry_run_plan "Plan"
    ∷ set_plan Package.backup_reference "BK-1"
    ∷ set_plan Package.rollback_plan "Rollback"
    ∷ set_plan Package.rollback_acceptance_criteria "Criteria"
    ∷ set_backup_sha256 "0a"
    ∷ set_backup_verified true
    ∷ set_execution_window (some "Sunday")
    ∷ []

abbrev pub package_planned : Package
package_planned = assign_all package_assign planning package_new

abbrev pub package_after : Package.Actions.PackageAction → ℕ → Package → Package
package_after action user p =
    assign_all package_assign (package_values codec (as_manager user) action review p) p

abbrev pub package_ready : Package
package_ready = package_after Package.Actions.run_preflight 2 package_planned

abbrev pub package_submitted : Package
package_submitted = package_after submit 2 package_ready

abbrev pub package_approved : Package
package_approved = package_after approve 1 package_submitted

-- The execution of that package: user 2 operates, user 1 reviews.
abbrev pub new : Execution
new =
    new_execution package_approved 3 (codec.sha256 (render_manifest codec review package_planned)) 2
      1

-- Evidence in place of each placeholder.
abbrev pub evidence : List Assignment
evidence =
    set_control environment_reference "ENV-1"
    ∷ set_control fresh_preflight_evidence "EVD-1"
    ∷ set_control backup_access_evidence "EVD-2"
    ∷ set_control restoration_test_evidence "EVD-3"
    ∷ set_control dry_run_evidence "EVD-4"
    ∷ set_control authorization_notes "EVD-5"
    ∷ []

-- A report, and closeout notes.
abbrev pub report : List Assignment
report =
    set_report_text execution_log_reference (some "LOG-1")
    ∷ set_report_text execution_log_sha256
        (some "5f70bf18a086007016e948b04aed3b82103a36bea41755b6cddfaf10ace3c6ef")
    ∷ set_report_text post_migration_checks (some "All checks passed.")
    ∷ set_rollback_decision (some not_required)
    ∷ set_outcome (some completed)
    ∷ []

abbrev pub notes : List Assignment
notes = set_closeout_notes (some "Reviewed independently.") ∷ []

abbrev pub after : Action → ℕ → Execution → Execution
after action user r = moved codec (as_manager user) action r

abbrev pub filled : Execution
filled = assign_all assign evidence new

abbrev pub checked : Execution
checked = after run_preflight 2 filled

abbrev pub allowed : Execution
allowed = after authorize 1 checked

abbrev pub started : Execution
started = after record_start 2 allowed

abbrev pub reported : Execution
reported = assign_all assign report started

abbrev pub ended : Execution
ended = after submit_closeout 2 (after record_outcome 2 reported)

abbrev pub questioned : Execution
questioned = assign_all assign (set_return_reason (some "More detail.") ∷ []) ended

abbrev pub sent_back : Execution
sent_back = after send_back 1 questioned

abbrev pub submitted_again : Execution
submitted_again = after submit_closeout 2 (after record_outcome 2 sent_back)

abbrev pub noted : Execution
noted = assign_all assign notes submitted_again

abbrev pub done : Execution
done = after close 1 noted
