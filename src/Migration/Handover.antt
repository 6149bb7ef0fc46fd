-- ===== src/Migration/Handover.antt =====
-- From an approved migration package to its execution record.
use perfect_match_qms.Prelude.{
  ℕ, ◌==◌, ◌≡◌, refl, sym, ap, ◌∙◌, subst, true, false, String, eq_iff, Option, none, some, List,
  arith,
}
use perfect_match_qms.Odoo.{Env, ok, Creation}
use perfect_match_qms.Migration.Snapshots.{Codec}
use perfect_match_qms.Migration.Package.{
  PackageState, approved, Package, render_manifest, is_approved, is_at, submission, approval,
}
use perfect_match_qms.Migration.Package.Control.{PackageStage}
use perfect_match_qms.Migration.Package.Reach.{
  PackageReach, PackageReach-IsPackaged, PackageSteps, PackageSteps-approved,
}
use perfect_match_qms.Migration.Execution.{Execution}
use perfect_match_qms.Migration.Actions.{same_text, digest, assert_package_integrity}
use perfect_match_qms.Migration.Edits.{find, prepare_from_package}
use perfect_match_qms.Migration.Reach.{prepared_lem}

approved_at : (s : PackageState) → is_approved s ≡ true → s ≡ approved
approved_at approved h = refl
approved_at _ h = cc

same_text_refl : (t : String) → same_text (some t) (some t) ≡ true
same_text_refl t = (eq_iff t t).1 refl

-- A field that holds a text passes the comparison with it, and its digest is that of the text.
same_text_of : (o : Option String) (t : String) → o ≡ some t → same_text (some t) o ≡ true
same_text_of o t e = ap (same_text (some t)) e ∙ same_text_refl t

seal_passes :
    (codec : Codec) (o p : Option String) (t : String)
    → o ≡ some t
    → p ≡ some (codec.sha256 t)
    → (digest codec o ≡ ok (codec.sha256 t)) × (same_text (some (codec.sha256 t)) p ≡ true)
seal_passes codec o p t e f = (ap (digest codec) e, same_text_of p (codec.sha256 t) f)

-- An approved package with its digest passes the integrity test of a record that holds the digest.
intact :
    (codec : Codec) (origin : Package) (r : Execution) (t : String)
    → is_approved origin.state ≡ true
    → origin.manifest_snapshot ≡ some t
    → origin.manifest_sha256 ≡ some (codec.sha256 t)
    → r.package_manifest_sha256 ≡ codec.sha256 t
    → assert_package_integrity codec origin r ≡ ok tt
unfolding assert_package_integrity
intact codec origin r t done e f g =
    let named =
      ap (λ o. same_text o (some r.package_manifest_sha256)) f
      ∙ ap (λ d. same_text (some (codec.sha256 t)) (some d)) g
      ∙ same_text_of (some (codec.sha256 t)) (codec.sha256 t) refl in
    let (digested, same) =
      seal_passes codec origin.manifest_snapshot origin.manifest_sha256 t e f in
    ground (arith, done, named, digested, same)

given : (a b : ℕ) (o : Option ℕ) → o ≡ some a → o ≡ some b → a ≡ b
given a b o e f = cc

module _ (codec : Codec) (creation : Creation Execution) (env : Env) (origin : Package)
    (company_id : ℕ) (r : Execution) (table table' : List Execution) where
  -- A record prepared from a package that was itself prepared and approved by calls has the package's
  -- submitter as its operator and the package's reviewer as its own, who are different users, and it
  -- passes the integrity test of its package, whatever successful calls there are on the package later.
  pub handover :
      PackageReach codec origin
      → find origin.id table ≡ none
      → prepare_from_package creation env origin company_id table ≡ ok (r, table')
      → (later : Package) → PackageSteps codec origin later
      → (origin.by submission ≡ some r.operator_id)
        × (r.reviewer_id ≡ origin.reviewer_id)
        × ((r.operator_id == r.reviewer_id) ≡ false)
        × (assert_package_integrity codec later r ≡ ok tt)
  handover reach fresh h later path =
      let (final, (digest, operator, reviewer, held, submitted, authorized, new)) =
        prepared_lem creation env origin company_id r table table' fresh h in
      let control =
        subst (λ s. PackageStage codec s origin) (approved_at origin.state final)
          (PackageReach-IsPackaged codec origin reach) in
      let (((_, (review, snapshot, sha256)), (submitter, submitted', other)), authorized') =
        control in
      let e = given submitter operator (origin.by submission) submitted' submitted in
      let f = given origin.reviewer_id reviewer (origin.by approval) authorized' authorized in
      let operator_is = ap (λ (r : Execution). r.operator_id) new in
      let reviewer_is = ap (λ (r : Execution). r.reviewer_id) new ∙ sym f in
      let digest_is = ap (λ (r : Execution). r.package_manifest_sha256) new in
      let unchanged =
        PackageSteps-approved codec origin later path (approved_is origin.state final) in
      (
        submitted ∙ ap some (sym operator_is),
        reviewer_is,
        ground (arith, operator_is, reviewer_is, e, other),
        subst (λ p. assert_package_integrity codec p r ≡ ok tt) (sym unchanged)
            (intact codec origin r (render_manifest codec review origin) final snapshot sha256
              (digest_is ∙ digest_held digest _ (origin.manifest_sha256) held sha256)),
      )
    where
      digest_held : (a b : String) (o : Option String) → o ≡ some a → o ≡ some b → a ≡ b
      digest_held a b o e f = cc

      approved_is : (s : PackageState) → is_approved s ≡ true → is_at s approved ≡ true
      approved_is s h = ap (λ s. is_at s approved) (approved_at s h)
