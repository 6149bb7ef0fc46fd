-- ===== src/Migration/Package/Reach.antt =====
-- The life of a migration package: its preparation, and the calls on recordsets that hold it.
use perfect_match_qms.Prelude.{
  ℕ, ◌≡◌, refl, sym, ap, ◌∙◌, subst, true, false, not, ◌||◌, String, str_eq, Option, none, some,
  List, [], ◌∷◌, arith, true-false, or-eq-false,
}
use perfect_match_qms.Odoo.{Env, ok, raise_if, >>=-eq-ok, >>-eq-ok, ok-injective, Orm, Creation}
use perfect_match_qms.Migration.Snapshots.{Codec}
use perfect_match_qms.Migration.Pairs.{Paired, past}
use perfect_match_qms.Migration.Package.{
  PackageState, draft, approved, returned, Review, Package, is_at,
}
use perfect_match_qms.Migration.Package.Writes.{PackageAssignment, package_assign}
use perfect_match_qms.Migration.Package.Actions.{
  check_package_manager, is_approved_review, PackageAction, run_preflight, submit, approve,
  send_back, void, check_preflight, check_package, run_package,
}
use perfect_match_qms.Migration.Package.Edits.{
  write_package, find_package, new_package, next_code, found_or_new_package, with_source,
  prepare_from_review,
}
use perfect_match_qms.Migration.Package.Effects.{run_package-Acted, package_written-Edited}
use perfect_match_qms.Migration.Package.Control.{IsPackaged, is_at-eq, package_values-IsPackaged}
use perfect_match_qms.Migration.Package.Kept.{PackageEdited-IsPackaged}

-- What a successful call makes of one package of its recordset.
pub data PackageStep (codec : Codec) (p p' : Package) : Type 0 where
  acted :
      (env : Env) (orm : Orm package_assign) (reviews : ℕ → Review) (action : PackageAction)
      (self self' : List Package)
      → run_package codec env orm reviews action self ≡ ok self'
      → Paired p p' self self'
      → PackageStep codec p p'
  written :
      (orm : Orm package_assign) (env : Env) (vals : List PackageAssignment)
      (self self' : List Package)
      → write_package orm env vals self ≡ ok self'
      → Paired p p' self self'
      → PackageStep codec p p'

pub data PackageSteps (codec : Codec) : Package → Package → Type 0 where
  here : (p : Package) → PackageSteps codec p p
  then_step :
      (p q r : Package) → PackageSteps codec p q → PackageStep codec q r → PackageSteps codec p r

-- A package that the preparation from a review has created, after any calls.
pub data PackageReach (codec : Codec) : Package → Type 0 where
  prepared :
      (creation : Creation Package) (env : Env) (sequence : Option String) (id : ℕ)
      (review : Review) (p p' : Package) (table table' : List Package)
      → find_package review.id table ≡ none
      → prepare_from_review creation env sequence id review table ≡ ok (p, table')
      → PackageSteps codec p p'
      → PackageReach codec p'

PackageStep-IsPackaged :
    (codec : Codec) (p p' : Package)
    → PackageStep codec p p'
    → IsPackaged codec p
    → IsPackaged codec p'
PackageStep-IsPackaged codec p p' (acted env orm reviews action self self' h pair) c =
    let a = run_package-Acted codec env orm reviews action p p' self self' h pair in
    subst (IsPackaged codec) (sym a.stored)
      (package_values-IsPackaged codec env (reviews p.readiness_review_id) action p a.passed c)
PackageStep-IsPackaged codec p p' (written orm env vals self self' h pair) c =
    PackageEdited-IsPackaged codec vals p p'
      (package_written-Edited orm env vals p p' self self' h pair) c

PackageSteps-IsPackaged :
    (codec : Codec) (p p' : Package)
    → PackageSteps codec p p'
    → IsPackaged codec p
    → IsPackaged codec p'
PackageSteps-IsPackaged codec p _ (here _) c = c
PackageSteps-IsPackaged codec p _ (then_step _ q r path step) c =
    PackageStep-IsPackaged codec q r step (PackageSteps-IsPackaged codec p q path c)

sourced-IsPackaged :
    (codec : Codec) (creation : Creation Package) (env : Env) (sequence : Option String) (id : ℕ)
    (review : Review) (source : Option String) (p : Package) (table table' : List Package)
    → find_package review.id table ≡ none
    → with_source creation env sequence id review table source ≡ ok (p, table')
    → IsPackaged codec p
sourced-IsPackaged codec creation env sequence id review none p table table' fresh h = cc
sourced-IsPackaged codec creation env sequence id review (some source) p table table' fresh h =
    let (_, one) = >>-eq-ok (raise_if (str_eq source "") _) _ h in
    let (_, two) = >>-eq-ok (raise_if (str_eq source review.target_edition_snapshot) _) _ one in
    let three =
      subst
        (λ found.
          found_or_new_package creation env sequence id review source table found ≡ ok (p, table'))
        fresh two in
    let (created, _, four) =
      >>=-eq-ok (creation.super_create (new_package env id (next_code sequence) source review ∷ []))
        _ three in
    subst (IsPackaged codec) (ap (λ q. q.0) (ok-injective four)) tt

-- A package is no further than its control: after the preflight it is planned, with two editions, a
-- verified backup and no placeholder, and its manifest and digest are those of the package as it is,
-- with some state of its review; a submitted one has a submitter other than its reviewer, and an approved one its reviewer's approval.
-- So it is for every package that was prepared from a review, after any successful calls.
pub PackageReach-IsPackaged :
    (codec : Codec) (p : Package) → PackageReach codec p → IsPackaged codec p
unfolding prepare_from_review
PackageReach-IsPackaged codec _
      (prepared creation env sequence id review p p' table table' fresh h path) =
    let (_, one) = >>-eq-ok (check_package_manager env) _ h in
    let (_, two) = >>-eq-ok (raise_if (not (is_approved_review review)) _) _ one in
    PackageSteps-IsPackaged codec p p' path (
      sourced-IsPackaged codec creation env sequence id review review.source_edition_snapshot p
        table table' fresh two)

unapproved :
    (s t : PackageState) → is_at s t ≡ true → is_at t approved ≡ false → is_at s approved ≡ false
unapproved s t h e = ap (λ s. is_at s approved) (is_at-eq s t h) ∙ e

preflight_state :
    (review : Review) (p : Package)
    → check_preflight review p ≡ ok tt
    → is_at p.state approved ≡ false
unfolding check_preflight
preflight_state review p h =
    let (first, _) = past (not (is_at p.state draft || is_at p.state returned)) _ _ h in
    ground (arith, first)

-- An approved package passes no test.
approved_stuck :
    (codec : Codec) (env : Env) (review : Review) (action : PackageAction) (p : Package)
    → check_package codec env action review p ≡ ok tt
    → is_at p.state approved ≡ false
unfolding check_package
approved_stuck codec env review run_preflight p passed = preflight_state review p passed
approved_stuck codec env review submit p passed = ground arith
approved_stuck codec env review approve p passed = ground arith
approved_stuck codec env review send_back p passed = ground arith
approved_stuck codec env review void p passed = ground arith

PackageStep_open :
    (codec : Codec) (p p' : Package) → PackageStep codec p p' → is_at p.state approved ≡ false
PackageStep_open codec p p' (acted env orm reviews action self self' h pair) =
    approved_stuck codec env (reviews p.readiness_review_id) action p
      (run_package-Acted codec env orm reviews action p p' self self' h pair).passed
PackageStep_open codec p p' (written orm env vals self self' h pair) =
    (or-eq-false (is_at p.state approved) _
      (package_written-Edited orm env vals p p' self self' h pair).not_final).0

-- No sequence of successful calls changes an approved package in any field.
pub PackageSteps-approved :
    (codec : Codec) (p p' : Package)
    → PackageSteps codec p p'
    → is_at p.state approved ≡ true
    → p' ≡ p
PackageSteps-approved codec p _ (here _) final = refl
PackageSteps-approved codec p _ (then_step _ q r path step) final =
    let same = PackageSteps-approved codec p q path final in
    elim (true-false (is_at p.state approved) final
      (sym (ap (λ q. is_at q.state approved) same) ∙ PackageStep_open codec q r step)) [ ]
