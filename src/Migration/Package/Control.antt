-- ===== src/Migration/Package/Control.antt =====
-- The control that the stages of a migration package keep, and that its calls keep it.
use perfect_match_qms.Prelude.{
  ℕ, ◌==◌, ◌≡◌, refl, sym, ap, ◌∙◌, subst, true, false, not, ◌&&◌, ◌||◌, str_eq, some, any, arith,
  if◌then◌else◌,
}
use perfect_match_qms.Odoo.{Env, ok, raise_if-eq-ok, assign_all, is_set, same}
use perfect_match_qms.Migration.Pairs.{past}
use perfect_match_qms.Migration.Snapshots.{Codec}
use perfect_match_qms.Migration.Package.{
  PackageState, draft, preflight_passed, submitted, approved, returned, voided, submission,
  approval, TransitionAction, Review, Package, manifest_values, render_manifest, package_state_key,
  is_at,
}
use perfect_match_qms.Migration.Package.Writes.{package_assign}
use perfect_match_qms.Migration.Package.Actions.{
  no_digest, is_planless, is_unverified, maps_to, has_actions, is_approved_review, PackageAction,
  run_preflight, submit, approve, send_back, void, check_preflight, check_package, package_values,
}

-- No planning placeholder is left, the window and the backup are set, and the editions differ.
abbrev pub IsPlanned : Package → Type 0
IsPlanned p =
    (is_planless p ≡ false)
    × (is_set p.execution_window ≡ true)
    × (p.backup_verified ≡ true)
    × (str_eq p.backup_sha256 no_digest ≡ false)
    × (str_eq p.source_edition_snapshot p.target_edition_snapshot ≡ false)

module _ (codec : Codec) where
  -- The manifest is rendered from the package as it is, with some state of its review.
  abbrev pub IsManifest : Package → Type 0
  IsManifest p =
      (review : Review) × (p.manifest_snapshot ≡ some (render_manifest codec review p))
      × (p.manifest_sha256 ≡ some (codec.sha256 (render_manifest codec review p)))

  abbrev pub IsPreflighted : Package → Type 0
  IsPreflighted p = IsPlanned p × IsManifest p

  -- A user other than the reviewer has submitted it.
  abbrev pub IsSubmitted : Package → Type 0
  IsSubmitted p =
      IsPreflighted p
      × ((submitter : ℕ) × (p.by submission ≡ some submitter)
          × ((p.reviewer_id == submitter) ≡ false))

  -- The reviewer has approved it.
  abbrev pub IsApproved : Package → Type 0
  IsApproved p = IsSubmitted p × (p.by approval ≡ some p.reviewer_id)

  abbrev pub PackageStage : PackageState → Package → Type 0
  PackageStage draft p = Unit
  PackageStage preflight_passed p = IsPreflighted p
  PackageStage submitted p = IsSubmitted p
  PackageStage approved p = IsApproved p
  PackageStage returned p = Unit
  PackageStage voided p = Unit

  abbrev pub IsPackaged : Package → Type 0
  IsPackaged p = PackageStage p.state p

state_of : ℕ → PackageState
state_of n =
    if n == 0
    then draft
    else if n == 1
    then preflight_passed
    else if n == 2
    then submitted
    else if n == 3
    then approved
    else if n == 4
    then returned
    else voided

state_of-key : (s : PackageState) → state_of (package_state_key s) ≡ s
unfolding state_of
state_of-key draft = refl
state_of-key preflight_passed = refl
state_of-key submitted = refl
state_of-key approved = refl
state_of-key returned = refl
state_of-key voided = refl

pub is_at-eq : (s t : PackageState) → is_at s t ≡ true → s ≡ t
is_at-eq s t h = sym (state_of-key s) ∙ ap state_of (ground (arith, h)) ∙ state_of-key t

module _ (codec : Codec) (env : Env) (review : Review) (p : Package) where
  preflight_passed_lem : check_package codec env run_preflight review p ≡ ok tt → IsPlanned p
  unfolding check_package check_preflight
  preflight_passed_lem h =
      let (_, h1) = past (not (is_at p.state draft || is_at p.state returned)) _ _ h in
      let (_, h2) = past (not (is_approved_review review)) _ _ h1 in
      let (editions, h3) =
        past (str_eq p.source_edition_snapshot p.target_edition_snapshot) _ _ h2 in
      let (_, h4) =
        past
          (has_actions review
            && any (λ (a : TransitionAction). not (str_eq a.state "completed")) review.actions)
          _ _ h3 in
      let (_, h5) =
        past
          (not (has_actions review)
            && (any (λ status. str_eq status "partial" || str_eq status "gap") review.line_statuses
                || not (same review.assessment_project_id review.implementation_project_id)))
          _ _ h4 in
      let (_, h6) = past (any is_unverified review.actions) _ _ h5 in
      let (_, h7) =
        past (has_actions review && not (maps_to review.actions review.implementation_project_id)) _
          _ h6 in
      let (plans, h8) = past (is_planless p) _ _ h7 in
      let (window, h9) = past (not (is_set p.execution_window)) _ _ h8 in
      let (backup, last) = past (not p.backup_verified) _ _ h9 in
      (plans, ground (arith, window), ground (arith, backup), raise_if-eq-ok _ _ last, editions)

  submit_passed :
      check_package codec env submit review p ≡ ok tt
      → (is_at p.state preflight_passed ≡ true) × ((p.reviewer_id == env.user) ≡ false)
  unfolding check_package
  submit_passed h = ground arith

  approve_passed :
      check_package codec env approve review p ≡ ok tt
      → (is_at p.state submitted ≡ true) × (p.reviewer_id ≡ env.user)
  unfolding check_package
  approve_passed h = ground arith

  at_state :
      (s : PackageState) → is_at p.state s ≡ true → IsPackaged codec p → PackageStage codec s p
  at_state s h c = subst (λ s. PackageStage codec s p) (is_at-eq p.state s h) c

pub package_values-IsPackaged :
    (codec : Codec) (env : Env) (review : Review) (action : PackageAction) (p : Package)
    → check_package codec env action review p ≡ ok tt
    → IsPackaged codec p
    → IsPackaged codec (assign_all package_assign (package_values codec env action review p) p)
unfolding package_values render_manifest manifest_values
package_values-IsPackaged codec env review run_preflight p passed c =
    (preflight_passed_lem codec env review p passed, (review, refl, refl))
package_values-IsPackaged codec env review submit p passed c =
    let (s, other) = submit_passed codec env review p passed in
    (at_state codec env review p preflight_passed s c, (env.user, refl, other))
package_values-IsPackaged codec env review approve p passed c =
    let (s, reviewer) = approve_passed codec env review p passed in
    (at_state codec env review p submitted s c, ap some (sym reviewer))
package_values-IsPackaged codec env review send_back p passed c = tt
package_values-IsPackaged codec env review void p passed c = tt
