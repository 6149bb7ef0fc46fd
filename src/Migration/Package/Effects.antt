-- ===== src/Migration/Package/Effects.antt =====
-- What the calls on migration packages make of each package.
use perfect_match_qms.Prelude.{
  if_true, if_false, ℕ, ◌≡◌, refl, sym, ap, ◌∙◌, false, ◌&&◌, List, All-zip, All-Unit, Forall₂,
  any-false, Bool-cases, inl, inr, any, if◌then◌else◌,
}
use perfect_match_qms.Odoo.{
  assign_all, Env, ok, raise_if, raise_if-eq-ok, >>-eq-ok, >>=-eq-ok, ok-injective, traverse,
  traverse-Forall₂, Orm,
}
use perfect_match_qms.Migration.Snapshots.{Codec}
use perfect_match_qms.Migration.Pairs.{Forall₂-trans, Paired, Forall₂-Paired}
use perfect_match_qms.Migration.Effects.{and-any}
use perfect_match_qms.Migration.Package.{Review, Package, submitted, is_at}
use perfect_match_qms.Migration.Package.Writes.{
  PackageAssignment, package_assign, is_package_workflow, is_barred,
}
use perfect_match_qms.Migration.Package.Actions.{
  check_package_manager, PackageAction, check_package, package_values, run_package_one, run_package,
}
use perfect_match_qms.Migration.Package.Edits.{
  is_final, check_package_write, package_reset_values, is_package_reset, package_reset_one,
  write_package,
}

-- What an action does to a package of its recordset.
pub record PackageActed (codec : Codec) (env : Env) (review : Review) (action : PackageAction)
    (p p' : Package) : Type 0 where
  pub passed : check_package codec env action review p ≡ ok tt
  pub stored : p' ≡ assign_all package_assign (package_values codec env action review p) p

pub run_package-Acted :
    (codec : Codec) (env : Env) (orm : Orm package_assign) (reviews : ℕ → Review)
    (action : PackageAction) (p p' : Package) (self self' : List Package)
    → run_package codec env orm reviews action self ≡ ok self'
    → Paired p p' self self'
    → PackageActed codec env (reviews p.readiness_review_id) action p p'
unfolding run_package run_package_one
run_package-Acted codec env orm reviews action p p' self self' h pair =
    let (_, all) = >>-eq-ok (check_package_manager env) _ h in
    Forall₂-Paired (λ p p'. PackageActed codec env (reviews p.readiness_review_id) action p p') p p'
      self self'
      (traverse-Forall₂ {P = λ _. Unit {0}} (run_package_one codec env orm reviews action)
        (λ p p' _ e.
          let (passed, stored) =
            >>-eq-ok (check_package codec env action (reviews p.readiness_review_id) p) _ e in
          record {
            passed = passed;
            stored =
                orm.write_exact (package_values codec env action (reviews p.readiness_review_id) p)
                  p p' stored;
          })
        self self' (All-Unit self) all)
      pair

-- What `write` makes of a package.
abbrev pub edited_package : List PackageAssignment → Package → Package
edited_package vals p =
    let w = assign_all package_assign vals p in
    if is_package_reset w then assign_all package_assign package_reset_values w else w

pub record PackageEdited (vals : List PackageAssignment) (p p' : Package) : Type 0 where
  pub not_final : is_final p ≡ false
  pub no_workflow : any is_package_workflow vals ≡ false
  pub reasons_only : (any is_barred vals && is_at p.state submitted) ≡ false
  pub stored : p' ≡ edited_package vals p

reset-eq :
    (orm : Orm package_assign) (env : Env) (w p' : Package)
    → package_reset_one orm env w ≡ ok p'
    → p' ≡ (if is_package_reset w then assign_all package_assign package_reset_values w else w)
reset-eq orm env w p' e = elim (Bool-cases (is_package_reset w)) [
  | inl due ↦
      orm.write_exact package_reset_values w p'
        (sym (if_true (is_package_reset w) _ (ok w) due) ∙ e)
      ∙ sym (if_true (is_package_reset w) _ w due)
  | inr kept ↦
      sym (
        ok-injective (
          sym (if_false (is_package_reset w) (orm.super_write package_reset_values w) (ok w) kept)
          ∙ e))
      ∙ sym
          (if_false (is_package_reset w) (assign_all package_assign package_reset_values w) w kept)
]

write_package-Edited :
    (orm : Orm package_assign) (env : Env) (vals : List PackageAssignment)
    (self self' : List Package)
    → write_package orm env vals self ≡ ok self'
    → Forall₂ (PackageEdited vals) self self'
unfolding write_package check_package_write
write_package-Edited orm env vals self self' h =
    let (checked, rest) = >>-eq-ok (check_package_write env vals self) _ h in
    let (open_all, one) = >>-eq-ok (raise_if (any is_final self) _) _ checked in
    let (plain, two) = >>-eq-ok (raise_if (any is_package_workflow vals) _) _ one in
    let (barred, _) =
      >>-eq-ok
        (raise_if (any is_barred vals && any (λ (p : Package). is_at p.state submitted) self) _) _
        two in
    let (written, first, second) = >>=-eq-ok (traverse (orm.super_write vals) self) _ rest in
    let guards =
      All-zip _ _ self (any-false _ self (raise_if-eq-ok _ _ open_all))
        (and-any _ (λ (p : Package). is_at p.state submitted) self (raise_if-eq-ok _ _ barred)) in
    Forall₂-trans
      {R = λ p w.
        PackageEdited vals p (edited_package vals p) × (w ≡ assign_all package_assign vals p)}
      {S = λ w p'.
        p' ≡ (if is_package_reset w then assign_all package_assign package_reset_values w else w)}
      {T = PackageEdited vals}
      (λ p w p' (h, e) k. record {
        not_final = h.not_final;
        no_workflow = h.no_workflow;
        reasons_only = h.reasons_only;
        stored =
            k
            ∙ ap
                (λ x.
                  if is_package_reset x
                  then assign_all package_assign package_reset_values x
                  else x)
                e;
      })
      self written self'
      (traverse-Forall₂ (orm.super_write vals)
        (λ p w (not_final, reasons_only) e. (
          record {
            not_final = not_final;
            no_workflow = raise_if-eq-ok _ _ plain;
            reasons_only = reasons_only;
            stored = refl;
          },
          orm.write_exact vals p w e,
        ))
        self written guards first)
      (traverse-Forall₂ {P = λ _. Unit {0}} (package_reset_one orm env)
        (λ w p' _ e. reset-eq orm env w p' e) written self' (All-Unit written) second)

pub package_written-Edited :
    (orm : Orm package_assign) (env : Env) (vals : List PackageAssignment) (p p' : Package)
    (self self' : List Package)
    → write_package orm env vals self ≡ ok self'
    → Paired p p' self self'
    → PackageEdited vals p p'
package_written-Edited orm env vals p p' self self' h pair =
    Forall₂-Paired (PackageEdited vals) p p' self self'
      (write_package-Edited orm env vals self self' h) pair
