-- ===== src/Migration/Package/Writes.antt =====
-- The fields of a migration package that a write can name.
use perfect_match_qms.Prelude.{ℕ, Bool, true, false, String, Option}
use perfect_match_qms.Migration.Execution.{update}
use perfect_match_qms.Migration.Package.{
  PackageState, PlanText, migration_scope, source_inventory, compatibility_notes, dry_run_plan,
  backup_reference, rollback_plan, rollback_acceptance_criteria, PackageStamp, preflight,
  submission, approval, return, Package,
}

pub data PackageAssignment : Type 0 where
  set_state : PackageState → PackageAssignment
  set_code set_source_edition_snapshot set_target_edition_snapshot : String → PackageAssignment
  set_readiness_review_id : ℕ → PackageAssignment
  set_manifest_snapshot set_manifest_sha256 : Option String → PackageAssignment
  set_by set_on : PackageStamp → Option ℕ → PackageAssignment
  set_return_reason set_void_reason : Option String → PackageAssignment
  set_package_version set_backup_sha256 : String → PackageAssignment
  set_plan : PlanText → String → PackageAssignment
  set_backup_verified : Bool → PackageAssignment
  set_execution_window : Option String → PackageAssignment
  set_reviewer_id : ℕ → PackageAssignment
  set_unmodelled : PackageAssignment

abbrev pub plan_key : PlanText → ℕ
plan_key migration_scope = 0
plan_key source_inventory = 1
plan_key compatibility_notes = 2
plan_key dry_run_plan = 3
plan_key backup_reference = 4
plan_key rollback_plan = 5
plan_key rollback_acceptance_criteria = 6

abbrev pub package_stamp_key : PackageStamp → ℕ
package_stamp_key preflight = 0
package_stamp_key submission = 1
package_stamp_key approval = 2
package_stamp_key return = 3

abbrev pub package_assign : PackageAssignment → Package → Package
package_assign (set_state v) p = record p { state = v }
package_assign (set_code v) p = record p { code = v }
package_assign (set_source_edition_snapshot v) p = record p { source_edition_snapshot = v }
package_assign (set_target_edition_snapshot v) p = record p { target_edition_snapshot = v }
package_assign (set_readiness_review_id v) p = record p { readiness_review_id = v }
package_assign (set_manifest_snapshot v) p = record p { manifest_snapshot = v }
package_assign (set_manifest_sha256 v) p = record p { manifest_sha256 = v }
package_assign (set_by k v) p = record p { by = update package_stamp_key k v p.by }
package_assign (set_on k v) p = record p { on = update package_stamp_key k v p.on }
package_assign (set_return_reason v) p = record p { return_reason = v }
package_assign (set_void_reason v) p = record p { void_reason = v }
package_assign (set_package_version v) p = record p { package_version = v }
package_assign (set_backup_sha256 v) p = record p { backup_sha256 = v }
package_assign (set_plan k v) p = record p { plan = update plan_key k v p.plan }
package_assign (set_backup_verified v) p = record p { backup_verified = v }
package_assign (set_execution_window v) p = record p { execution_window = v }
package_assign (set_reviewer_id v) p = record p { reviewer_id = v }
package_assign set_unmodelled p = p

-- `workflow_fields` of `write`.
abbrev pub is_package_workflow : PackageAssignment → Bool
is_package_workflow (set_state _) = true
is_package_workflow (set_code _) = true
is_package_workflow (set_source_edition_snapshot _) = true
is_package_workflow (set_target_edition_snapshot _) = true
is_package_workflow (set_readiness_review_id _) = true
is_package_workflow (set_manifest_snapshot _) = true
is_package_workflow (set_manifest_sha256 _) = true
is_package_workflow (set_by _ _) = true
is_package_workflow (set_on _ _) = true
is_package_workflow _ = false

-- Not in `allowed` of `write`.
abbrev pub is_barred : PackageAssignment → Bool
is_barred (set_return_reason _) = false
is_barred (set_void_reason _) = false
is_barred _ = true

abbrev pub is_void_reason : PackageAssignment → Bool
is_void_reason (set_void_reason _) = true
is_void_reason _ = false
