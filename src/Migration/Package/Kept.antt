-- ===== src/Migration/Package/Kept.antt =====
-- `write` keeps the control of each migration package.
use perfect_match_qms.Prelude.{
  ◌≡◌, refl, sym, ap, ◌∙◌, subst, true, false, ◌||◌, List, [], ◌∷◌, any, arith, if_true, if_false,
  true-false, or-eq-false,
}
use perfect_match_qms.Odoo.{assign_all, assign_all-same}
use perfect_match_qms.Migration.Snapshots.{Codec}
use perfect_match_qms.Migration.Package.{
  PackageState, draft, preflight_passed, submitted, approved, returned, voided, Package,
  manifest_values, render_manifest, is_at,
}
use perfect_match_qms.Migration.Package.Writes.{
  PackageAssignment, package_assign, is_barred, is_package_workflow, set_state, set_code,
  set_source_edition_snapshot, set_target_edition_snapshot, set_readiness_review_id,
  set_manifest_snapshot, set_manifest_sha256, set_by, set_on, set_return_reason, set_void_reason,
  set_package_version, set_backup_sha256, set_plan, set_backup_verified, set_execution_window,
  set_reviewer_id, set_unmodelled,
}
use perfect_match_qms.Migration.Package.Edits.{is_final, is_package_reset}
use perfect_match_qms.Migration.Package.Effects.{edited_package, PackageEdited}
use perfect_match_qms.Migration.Package.Control.{PackageStage, IsPackaged}

absurd : {A : Type 0} → true ≡ false → A
absurd h = elim (true-false true refl h) [ ]

state-assign :
    (v : PackageAssignment) (p : Package)
    → is_package_workflow v ≡ false
    → (package_assign v p).state ≡ p.state
state-assign (set_state _) p h = absurd h
state-assign (set_code _) p h = absurd h
state-assign (set_source_edition_snapshot _) p h = absurd h
state-assign (set_target_edition_snapshot _) p h = absurd h
state-assign (set_readiness_review_id _) p h = absurd h
state-assign (set_manifest_snapshot _) p h = absurd h
state-assign (set_manifest_sha256 _) p h = absurd h
state-assign (set_by _ _) p h = absurd h
state-assign (set_on _ _) p h = absurd h
state-assign (set_return_reason _) p h = refl
state-assign (set_void_reason _) p h = refl
state-assign (set_package_version _) p h = refl
state-assign (set_backup_sha256 _) p h = refl
state-assign (set_plan _ _) p h = refl
state-assign (set_backup_verified _) p h = refl
state-assign (set_execution_window _) p h = refl
state-assign (set_reviewer_id _) p h = refl
state-assign set_unmodelled p h = refl

-- What is allowed on a submitted package keeps its control.
reasons-IsPackaged :
    (codec : Codec) (v : PackageAssignment) (p : Package)
    → is_barred v ≡ false
    → PackageStage codec submitted p
    → PackageStage codec submitted (package_assign v p)
unfolding render_manifest manifest_values
reasons-IsPackaged codec (set_state _) p h c = absurd h
reasons-IsPackaged codec (set_code _) p h c = absurd h
reasons-IsPackaged codec (set_source_edition_snapshot _) p h c = absurd h
reasons-IsPackaged codec (set_target_edition_snapshot _) p h c = absurd h
reasons-IsPackaged codec (set_readiness_review_id _) p h c = absurd h
reasons-IsPackaged codec (set_manifest_snapshot _) p h c = absurd h
reasons-IsPackaged codec (set_manifest_sha256 _) p h c = absurd h
reasons-IsPackaged codec (set_by _ _) p h c = absurd h
reasons-IsPackaged codec (set_on _ _) p h c = absurd h
reasons-IsPackaged codec (set_return_reason _) p h c = c
reasons-IsPackaged codec (set_void_reason _) p h c = c
reasons-IsPackaged codec (set_package_version _) p h c = absurd h
reasons-IsPackaged codec (set_backup_sha256 _) p h c = absurd h
reasons-IsPackaged codec (set_plan _ _) p h c = absurd h
reasons-IsPackaged codec (set_backup_verified _) p h c = absurd h
reasons-IsPackaged codec (set_execution_window _) p h c = absurd h
reasons-IsPackaged codec (set_reviewer_id _) p h c = absurd h
reasons-IsPackaged codec set_unmodelled p h c = absurd h

all_reasons-IsPackaged :
    (codec : Codec) (vals : List PackageAssignment) (p : Package)
    → any is_barred vals ≡ false
    → PackageStage codec submitted p
    → PackageStage codec submitted (assign_all package_assign vals p)
all_reasons-IsPackaged codec [] p h c = c
all_reasons-IsPackaged codec (v ∷ vals) p h c =
    let (now, later) = or-eq-false (is_barred v) _ h in
    all_reasons-IsPackaged codec vals (package_assign v p) later
      (reasons-IsPackaged codec v p now c)

module _ (codec : Codec) (vals : List PackageAssignment) (p : Package) where
  state_same :
      any is_package_workflow vals ≡ false → (assign_all package_assign vals p).state ≡ p.state
  state_same = assign_all-same package_assign (λ p. p.state) is_package_workflow state-assign vals p

  reset_at :
      (s : PackageState)
      → p.state ≡ s
      → any is_package_workflow vals ≡ false
      → is_package_reset (assign_all package_assign vals p)
        ≡ (is_at s preflight_passed || is_at s returned)
  reset_at s e w = ap (λ s. is_at s preflight_passed || is_at s returned) (state_same w ∙ e)

  reset_edit :
      (s : PackageState)
      → p.state ≡ s
      → any is_package_workflow vals ≡ false
      → (is_at s preflight_passed || is_at s returned) ≡ true
      → IsPackaged codec (edited_package vals p)
  reset_edit s e w due =
      subst (IsPackaged codec)
        (sym (
          if_true (is_package_reset (assign_all package_assign vals p)) _ _ (reset_at s e w ∙ due)))
        tt

  plain_edit :
      (s : PackageState)
      → p.state ≡ s
      → any is_package_workflow vals ≡ false
      → (is_at s preflight_passed || is_at s returned) ≡ false
      → PackageStage codec s (assign_all package_assign vals p)
      → IsPackaged codec (edited_package vals p)
  plain_edit s e w kept c =
      subst (IsPackaged codec)
        (sym (
          if_false (is_package_reset (assign_all package_assign vals p)) _ _
            (reset_at s e w ∙ kept)))
        (subst (λ s. PackageStage codec s (assign_all package_assign vals p))
          (sym (state_same w ∙ e)) c)

  edit_lem :
      (s : PackageState)
      → p.state ≡ s
      → PackageEdited vals p (edited_package vals p)
      → PackageStage codec s p
      → IsPackaged codec (edited_package vals p)
  edit_lem draft e h c = plain_edit draft e h.no_workflow refl tt
  edit_lem preflight_passed e h c = reset_edit preflight_passed e h.no_workflow refl
  edit_lem submitted e h c =
      let at = ap (λ s. is_at s submitted) e in
      plain_edit submitted e h.no_workflow refl
        (all_reasons-IsPackaged codec vals p (ground (arith, h.reasons_only, at)) c)
  edit_lem approved e h c =
      elim (true-false (is_final p) (ap (λ s. is_at s approved || is_at s voided) e)
        h.not_final) [ ]
  edit_lem returned e h c = reset_edit returned e h.no_workflow refl
  edit_lem voided e h c =
      elim (true-false (is_final p) (ap (λ s. is_at s approved || is_at s voided) e)
        h.not_final) [ ]

  pub PackageEdited-IsPackaged :
      (p' : Package) → PackageEdited vals p p' → IsPackaged codec p → IsPackaged codec p'
  PackageEdited-IsPackaged p' h c = subst (IsPackaged codec) (sym h.stored) (
      edit_lem p.state refl
        (record {
          not_final = h.not_final;
          no_workflow = h.no_workflow;
          reasons_only = h.reasons_only;
          stored = refl;
        })
        c)
