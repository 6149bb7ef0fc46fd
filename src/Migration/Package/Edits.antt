-- ===== src/Migration/Package/Edits.antt =====
-- `write`, `unlink` and `_prepare_from_review` of the migration package.
use perfect_match_qms.Prelude.{
  ℕ, ◌==◌, Bool, false, not, ◌&&◌, ◌||◌, String, str_eq, Option, none, some, List, [], ◌∷◌, ◌++◌,
  any, filtered, if◌then◌else◌,
}
use perfect_match_qms.Odoo.{
  Env, access_error, user_error, Result, ok, err, ◌>>=◌, ◌>>◌, raise_if, traverse, Orm, Creation,
}
use perfect_match_qms.Migration.Package.{
  draft, preflight_passed, submitted, approved, returned, voided, preflight, Review, Package, is_at,
}
use perfect_match_qms.Migration.Package.Writes.{
  PackageAssignment, set_state, set_manifest_snapshot, set_manifest_sha256, set_by, set_on,
  package_assign, is_package_workflow, is_barred, is_void_reason,
}
use perfect_match_qms.Migration.Package.Actions.{
  check_package_manager, placeholder_input, no_digest, is_approved_review,
}

abbrev pub is_final : Package → Bool
is_final p = is_at p.state approved || is_at p.state voided

-- The tests of `write`, up to the call of `super().write`.
unfoldable pub check_package_write : Env → List PackageAssignment → List Package → Result (Unit {0})
unfolding check_package_manager
check_package_write env vals self = do
  raise_if (any is_final self) (access_error "Approved or voided migration packages are immutable.")
  raise_if (any is_package_workflow vals)
      (access_error "Workflow and snapshot fields cannot be changed directly.")
  raise_if (any is_barred vals && any (λ (p : Package). is_at p.state submitted) self)
      (access_error "Submitted migration packages are locked.")
  raise_if
      (any is_void_reason vals
        && any (λ (p : Package). is_at p.state submitted && not (p.reviewer_id == env.user)) self)
      (access_error "Only the assigned independent reviewer can document a submitted-package void.")
  check_package_manager env

-- What `write` sets on a package whose preflight is behind it.
abbrev pub package_reset_values : List PackageAssignment
package_reset_values =
    set_state draft
    ∷ set_manifest_snapshot none
    ∷ set_manifest_sha256 none
    ∷ set_by preflight none
    ∷ set_on preflight none
    ∷ []

abbrev pub is_package_reset : Package → Bool
is_package_reset p = is_at p.state preflight_passed || is_at p.state returned

module _ (orm : Orm package_assign) (env : Env) where
  -- The loop after `super().write`.
  abbrev pub package_reset_one : Package → Result Package
  package_reset_one p = if is_package_reset p then orm.super_write package_reset_values p else ok p

  unfoldable pub write_package : List PackageAssignment → List Package → Result (List Package)
  unfolding check_package_write
  write_package vals self = do
    check_package_write env vals self
    written ← traverse (orm.super_write vals) self
    traverse package_reset_one written

-- `unlink` of the packages that a test selects, in a table of packages.
unfoldable pub unlink_packages : Env → (Package → Bool) → List Package → Result (List Package)
unfolding check_package_manager
unlink_packages env self table = do
  check_package_manager env
  raise_if
      (any (λ (p : Package). self p && not (is_at p.state draft || is_at p.state returned)) table)
      (user_error "Only draft or returned migration packages can be deleted.")
  ok (filtered (λ p. not (self p)) table)

-- The values of a new package. `code` is the next of the sequence, or the code that stands for none.
abbrev pub new_package : Env → (id : ℕ) → (code source : String) → Review → Package
new_package env id code source review = record {
  id = id;
  code = code;
  package_version = "1.0";
  readiness_review_id = review.id;
  source_edition_snapshot = source;
  target_edition_snapshot = review.target_edition_snapshot;
  plan = placeholder_input;
  backup_sha256 = no_digest;
  backup_verified = false;
  execution_window = none;
  reviewer_id = env.user;
  state = draft;
  manifest_snapshot = none;
  manifest_sha256 = none;
  by = λ _. none;
  on = λ _. none;
  return_reason = none;
  void_reason = none;
}

-- `search([("readiness_review_id", "=", review.id)], limit=1)`
abbrev pub find_package : ℕ → List Package → Option Package
find_package id [] = none
find_package id (p ∷ ps) = if p.readiness_review_id == id then some p else find_package id ps

-- `next_by_code(...) or "ISO-MIG-00000"`
abbrev pub next_code : Option String → String
next_code none = "ISO-MIG-00000"
next_code (some s) = if str_eq s "" then "ISO-MIG-00000" else s

-- `_prepare_from_review`, on the table of packages: the package, and the table afterwards. The
-- sequence and the id of the new row are the database's. The review's own permission test is the same
-- as the package's.
module _ (creation : Creation Package) (env : Env) (sequence : Option String) (id : ℕ) where
  abbrev pub found_or_new_package :
      Review → (source : String) → List Package → Option Package → Result (Package × List Package)
  found_or_new_package review source table (some p) = ok (p, table)
  found_or_new_package review source table none = do
    let new = new_package env id (next_code sequence) source review
    created ← creation.super_create (new ∷ [])
    ok (new, created ++ table)

  abbrev pub with_source : Review → List Package → Option String → Result (Package × List Package)
  with_source review table none =
      err (user_error "A source edition is required for a migration package")
  with_source review table (some source) = do
    raise_if (str_eq source "") (user_error "A source edition is required for a migration package")
    raise_if (str_eq source review.target_edition_snapshot) (
        user_error
          "Same-edition recertification readiness does not create an ISO edition migration package.")
    found_or_new_package review source table (find_package review.id table)

  unfoldable pub prepare_from_review : Review → List Package → Result (Package × List Package)
  unfolding check_package_manager
  prepare_from_review review table = do
    check_package_manager env
    raise_if (not (is_approved_review review))
        (user_error "An approved readiness review with the internal-review decision is required.")
    with_source review table review.source_edition_snapshot
