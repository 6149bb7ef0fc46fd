-- ===== src/Migration/Package.antt =====
-- The migration package (PmQmsIso9001MigrationPackage of models/migration_package.py) and its manifest.
use perfect_match_qms.Prelude.{
  ℕ, ◌==◌, Bool, true, false, String, Option, none, some, List, [], ◌∷◌, map, if◌then◌else◌,
}
use perfect_match_qms.Migration.Snapshots.{
  Scalar, false_value, text, integer, Json, scalar, objects, text_of, id_of, text_or_blank, Codec,
}
use perfect_match_qms.Prelude.{pos}
pub mod Writes
pub mod Actions
pub mod Edits
pub mod Effects
pub mod Control
pub mod Kept
pub mod Reach
pub mod Sealed

pub data PackageState : Type 0 where
  draft preflight_passed submitted approved returned voided : PackageState

-- The planning texts that begin as placeholders.
pub data PlanText : Type 0 where
  migration_scope source_inventory compatibility_notes dry_run_plan : PlanText
  backup_reference rollback_plan rollback_acceptance_criteria : PlanText

pub data PackageStamp : Type 0 where
  preflight submission approval return : PackageStamp

-- A transition action of the assessment, as the package reads it.
pub record TransitionAction : Type 0 where
  pub id : ℕ
  pub code : String
  pub state : String
  pub implementation_project_id : Option ℕ
  pub submitted_by_id : Option ℕ
  pub verified_by_id : Option ℕ

-- The readiness review with its assessment, as the package reads them. `line_statuses` are those of
-- the assessment's lines.
pub record Review : Type 0 where
  pub id : ℕ
  pub name : String
  pub state : String
  pub decision : Option String
  pub source_edition_snapshot : Option String
  pub target_edition_snapshot : String
  pub company_id : ℕ
  pub assessment_id : ℕ
  pub implementation_project_id : Option ℕ
  pub assessment_project_id : Option ℕ
  pub line_statuses : List String
  pub actions : List TransitionAction

-- The related fields are read from the review.
pub record Package : Type 0 where
  pub id : ℕ
  pub code : String
  pub package_version : String
  pub readiness_review_id : ℕ
  pub source_edition_snapshot : String
  pub target_edition_snapshot : String
  pub plan : PlanText → String
  pub backup_sha256 : String
  pub backup_verified : Bool
  pub execution_window : Option String
  pub reviewer_id : ℕ
  pub state : PackageState
  pub manifest_snapshot : Option String
  pub manifest_sha256 : Option String
  pub by : PackageStamp → Option ℕ
  pub on : PackageStamp → Option ℕ
  pub return_reason : Option String
  pub void_reason : Option String

abbrev pub maybe_id : Option ℕ → Scalar
maybe_id none = false_value
maybe_id (some n) = integer (pos n)

abbrev action_values : TransitionAction → List (String × Scalar)
action_values a =
    ("id", integer (pos a.id))
    ∷ ("code", text a.code)
    ∷ ("state", text a.state)
    ∷ ("project_id", maybe_id a.implementation_project_id)
    ∷ ("submitted_by_id", maybe_id a.submitted_by_id)
    ∷ ("verified_by_id", maybe_id a.verified_by_id)
    ∷ []

-- `_manifest_values`. The actions of the review are in the order of their ids.
unfoldable pub manifest_values : Review → Package → List (String × Json)
manifest_values review p =
    ("schema", id_of 1)
    ∷ ("package_code", text_of p.code)
    ∷ ("package_version", text_of p.package_version)
    ∷ ("company_id", id_of review.company_id)
    ∷ ("readiness_review_id", id_of review.id)
    ∷ ("assessment_id", id_of review.assessment_id)
    ∷ ("implementation_project_id", scalar (maybe_id review.implementation_project_id))
    ∷ ("source_edition", text_of p.source_edition_snapshot)
    ∷ ("target_edition", text_of p.target_edition_snapshot)
    ∷ ("migration_scope", text_of (p.plan migration_scope))
    ∷ ("source_inventory", text_of (p.plan source_inventory))
    ∷ ("compatibility_notes", text_of (p.plan compatibility_notes))
    ∷ ("dry_run_plan", text_of (p.plan dry_run_plan))
    ∷ ("backup_reference", text_of (p.plan backup_reference))
    ∷ ("backup_sha256", text_of p.backup_sha256)
    ∷ ("rollback_plan", text_of (p.plan rollback_plan))
    ∷ ("rollback_acceptance_criteria", text_of (p.plan rollback_acceptance_criteria))
    ∷ ("execution_window", text_or_blank p.execution_window)
    ∷ ("transition_actions", objects (map action_values review.actions))
    ∷ []

-- `_render_manifest`
unfoldable pub render_manifest : Codec → Review → Package → String
unfolding manifest_values
render_manifest codec review p = codec.dumps (manifest_values review p)

abbrev pub is_approved : PackageState → Bool
is_approved approved = true
is_approved _ = false

abbrev pub package_state_key : PackageState → ℕ
package_state_key draft = 0
package_state_key preflight_passed = 1
package_state_key submitted = 2
package_state_key approved = 3
package_state_key returned = 4
package_state_key voided = 5

abbrev pub is_at : PackageState → PackageState → Bool
is_at a b = package_state_key a == package_state_key b
