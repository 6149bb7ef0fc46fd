-- ===== src/Migration/Package/Actions.antt =====
-- The workflow actions of a migration package.
use perfect_match_qms.Prelude.{
  ℕ, ◌==◌, Bool, true, not, ◌&&◌, ◌||◌, String, str_eq, Option, none, some, List, [], ◌∷◌, any, all,
}
use perfect_match_qms.Odoo.{
  Env, access_error, user_error, Result, ◌>>=◌, ◌>>◌, raise_if, traverse, is_set, exists, same, Orm,
}
use perfect_match_qms.Migration.Snapshots.{Codec}
use perfect_match_qms.Migration.Actions.{manager_group, same_text, digest}
use perfect_match_qms.Migration.Package.{
  draft, preflight_passed, submitted, approved, returned, voided, PlanText, migration_scope,
  source_inventory, compatibility_notes, dry_run_plan, backup_reference, rollback_plan,
  rollback_acceptance_criteria, preflight, submission, approval, return, TransitionAction, Review,
  Package, render_manifest, is_at,
}
use perfect_match_qms.Migration.Package.Writes.{
  PackageAssignment, set_state, set_manifest_snapshot, set_manifest_sha256, set_by, set_on,
  set_return_reason, package_assign,
}

-- `_check_manager_permission` of the package.
unfoldable pub check_package_manager : Env → Result (Unit {0})
check_package_manager env =
    raise_if (not (env.has_group manager_group))
      (access_error "Only QMS Managers or Administrators can manage migration packages.")

-- `PLACEHOLDER_INPUTS`
abbrev pub placeholder_input : PlanText → String
placeholder_input migration_scope =
    "Document the approved companies, sites, processes, records, and exclusions."
placeholder_input source_inventory =
    "Reference the controlled source inventory; do not embed credentials or raw backups."
placeholder_input compatibility_notes =
    "Document approved compatibility findings and unresolved exceptions."
placeholder_input dry_run_plan =
    "Document the isolated rehearsal, validation steps, and acceptance evidence."
placeholder_input backup_reference = "PENDING-CONTROLLED-BACKUP"
placeholder_input rollback_plan =
    "Document restoration steps, owners, decision points, and maximum recovery window."
placeholder_input rollback_acceptance_criteria =
    "Document integrity, availability, relationship, and historical-record checks."

abbrev pub plan_texts : List PlanText
plan_texts =
    migration_scope ∷ source_inventory ∷ compatibility_notes ∷ dry_run_plan ∷ backup_reference
    ∷ rollback_plan ∷ rollback_acceptance_criteria ∷ []

-- `"0" * 64`
abbrev pub no_digest : String
no_digest = "0000000000000000000000000000000000000000000000000000000000000000"

-- `incomplete_fields` is not empty.
abbrev pub is_planless : Package → Bool
is_planless p = any (λ k. str_eq (p.plan k) (placeholder_input k)) plan_texts

-- The action was not both submitted and verified, or was by one user.
abbrev pub is_unverified : TransitionAction → Bool
is_unverified a =
    not (exists a.submitted_by_id)
    || not (exists a.verified_by_id)
    || same a.submitted_by_id a.verified_by_id

-- `actions.mapped("implementation_project_id") == project`: recordsets are compared as sets of ids,
-- and `mapped` leaves out the empty references.
abbrev pub maps_to : List TransitionAction → Option ℕ → Bool
maps_to actions none =
    all (λ (a : TransitionAction). not (exists a.implementation_project_id)) actions
maps_to actions (some id) =
    all
      (λ (a : TransitionAction).
        not (exists a.implementation_project_id) || same a.implementation_project_id (some id))
      actions
    && any (λ (a : TransitionAction). same a.implementation_project_id (some id)) actions

abbrev pub has_actions : Review → Bool
has_actions review = any (λ _. true) review.actions

-- A review decision that lets a package go on.
abbrev pub is_approved_review : Review → Bool
is_approved_review review =
    str_eq review.state "approved" && same_text review.decision (some "internal_review")

-- The tests of `action_run_preflight`.
unfoldable pub check_preflight : Review → Package → Result (Unit {0})
check_preflight review p = do
  raise_if (not (is_at p.state draft || is_at p.state returned))
      (user_error "Preflight is allowed only for draft or returned packages.")
  raise_if (not (is_approved_review review))
      (user_error "The readiness review is no longer approved for internal review.")
  raise_if (str_eq p.source_edition_snapshot p.target_edition_snapshot)
      (user_error "Same-edition readiness cannot run an ISO edition migration preflight.")
  raise_if
      (has_actions review
        && any (λ (a : TransitionAction). not (str_eq a.state "completed")) review.actions)
      (user_error "Every transition action must remain completed.")
  raise_if
      (not (has_actions review)
        && (any (λ status. str_eq status "partial" || str_eq status "gap") review.line_statuses
            || not (same review.assessment_project_id review.implementation_project_id)))
      (user_error
        "A no-action migration package requires a linked project and no partial or gap areas.")
  raise_if (any is_unverified review.actions)
      (user_error "Every transition action requires independent verification.")
  raise_if (has_actions review && not (maps_to review.actions review.implementation_project_id))
      (user_error "Transition actions no longer match the implementation project.")
  raise_if (is_planless p)
      (user_error "Replace every generated planning placeholder before preflight")
  raise_if (not (is_set p.execution_window))
      (user_error "Document the planned execution window before preflight.")
  raise_if (not p.backup_verified)
      (user_error "Verify the controlled backup before passing preflight.")
  raise_if (str_eq p.backup_sha256 no_digest)
      (user_error "Replace the placeholder backup SHA-256 before preflight.")

pub data PackageAction : Type 0 where
  run_preflight submit approve send_back void : PackageAction

module _ (codec : Codec) (env : Env) where
  -- The tests of each method at one package. `review` is its readiness review at the call.
  unfoldable pub check_package : PackageAction → Review → Package → Result (Unit {0})
  unfolding check_preflight render_manifest
  check_package run_preflight review p = check_preflight review p
  check_package submit review p = do
    raise_if (not (is_at p.state preflight_passed))
        (user_error "Pass preflight before submitting the migration package.")
    raise_if (p.reviewer_id == env.user)
        (user_error "The package submitter and reviewer must be different users.")
    raise_if (not (same_text (some (render_manifest codec review p)) p.manifest_snapshot))
        (user_error "Package inputs changed after preflight; run preflight again.")
  check_package approve review p = do
    raise_if (not (is_at p.state submitted))
        (user_error "Only submitted migration packages can be approved.")
    raise_if (not (p.reviewer_id == env.user))
        (access_error "Only the assigned independent reviewer can approve.")
    raise_if (same (p.by submission) (some env.user))
        (access_error "The submitter cannot approve their own migration package.")
    raise_if (not (same_text (some (render_manifest codec review p)) p.manifest_snapshot))
        (user_error "Package inputs changed after preflight; return and revalidate it.")
    found ← digest codec p.manifest_snapshot
    raise_if (not (same_text (some found) p.manifest_sha256))
        (user_error "Migration package manifest integrity check failed.")
  check_package send_back review p = do
    raise_if (not (is_at p.state submitted))
        (user_error "Only submitted migration packages can be returned.")
    raise_if (not (p.reviewer_id == env.user))
        (access_error "Only the assigned independent reviewer can return it.")
    raise_if (not (is_set p.return_reason))
        (user_error "Document a return reason before returning the package.")
  check_package void review p = do
    raise_if (is_at p.state approved)
        (user_error "Approved migration packages are immutable and cannot be voided.")
    raise_if (is_at p.state submitted && not (p.reviewer_id == env.user))
        (access_error "Only the assigned independent reviewer can void a submitted package.")
    raise_if (not (is_set p.void_reason))
        (user_error "Document a void reason before voiding the package.")

  -- What each method writes.
  unfoldable pub package_values : PackageAction → Review → Package → List PackageAssignment
  unfolding render_manifest
  package_values run_preflight review p =
      set_state preflight_passed
      ∷ set_manifest_snapshot (some (render_manifest codec review p))
      ∷ set_manifest_sha256 (some (codec.sha256 (render_manifest codec review p)))
      ∷ set_by preflight (some env.user)
      ∷ set_on preflight (some env.now)
      ∷ set_by return none
      ∷ set_on return none
      ∷ set_return_reason none
      ∷ []
  package_values submit review p =
      set_state submitted
      ∷ set_by submission (some env.user)
      ∷ set_on submission (some env.now)
      ∷ []
  package_values approve review p =
      set_state approved ∷ set_by approval (some env.user) ∷ set_on approval (some env.now) ∷ []
  package_values send_back review p =
      set_state returned ∷ set_by return (some env.user) ∷ set_on return (some env.now) ∷ []
  package_values void review p = set_state voided ∷ []

  module _ (orm : Orm package_assign) (reviews : ℕ → Review) where
    -- The body of each method's loop. `_write_workflow` calls `super().write`, past the guards of
    -- `write`.
    unfoldable pub run_package_one : PackageAction → Package → Result Package
    unfolding check_package package_values
    run_package_one action p =
        check_package action (reviews p.readiness_review_id) p
        >> orm.super_write (package_values action (reviews p.readiness_review_id) p) p

    -- The `action_*` methods. `reviews` is the table of readiness reviews at the call.
    unfoldable pub run_package : PackageAction → List Package → Result (List Package)
    unfolding check_package_manager run_package_one
    run_package action self = check_package_manager env >> traverse (run_package_one action) self
