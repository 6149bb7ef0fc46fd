-- ===== src/Migration/Package/Sealed.antt =====
-- What the rendering tests of the package's actions say of its manifest.
use perfect_match_qms.Prelude.{
  ℕ, ◌≡◌, refl, sym, ap, ◌∙◌, subst, Bool, true, false, String, eq_iff, Option, none, some, List,
  arith,
}
use perfect_match_qms.Odoo.{Env, ok, Orm, assign_all}
use perfect_match_qms.Migration.Snapshots.{Codec}
use perfect_match_qms.Migration.Actions.{same_text}
use perfect_match_qms.Migration.Pairs.{Paired}
use perfect_match_qms.Migration.Package.{
  preflight_passed, submitted, Review, Package, manifest_values, render_manifest, is_at,
  PackageState,
}
use perfect_match_qms.Migration.Package.Writes.{package_assign}
use perfect_match_qms.Migration.Package.Actions.{
  PackageAction, run_preflight, submit, approve, send_back, void, check_package, package_values,
  run_package,
}
use perfect_match_qms.Migration.Package.Effects.{run_package-Acted}
use perfect_match_qms.Migration.Package.Control.{
  PackageStage, IsPackaged, is_at-eq, package_values-IsPackaged,
}
use perfect_match_qms.Migration.Package.Reach.{PackageReach, PackageReach-IsPackaged}

-- The manifest is rendered from the package and that review, and the digest is the manifest's.
abbrev pub IsRendered : Codec → Review → Package → Type 0
IsRendered codec review p =
    (p.manifest_snapshot ≡ some (render_manifest codec review p))
    × (p.manifest_sha256 ≡ some (codec.sha256 (render_manifest codec review p)))

-- The actions that take a package towards its approval.
abbrev pub is_onward : PackageAction → Bool
is_onward send_back = false
is_onward void = false
is_onward _ = true

same_text-eq : (t : String) (o : Option String) → same_text (some t) o ≡ true → o ≡ some t
same_text-eq t none h = cc
same_text-eq t (some s) h = ap some (sym ((eq_iff t s).0 h))

one_text : (a b : String) (o : Option String) → o ≡ some a → o ≡ some b → a ≡ b
one_text a b o e f = cc

-- A manifest with its digest that passes the rendering test is rendered from that review.
reseal :
    (codec : Codec) (review found : Review) (p : Package)
    → IsRendered codec found p
    → same_text (some (render_manifest codec review p)) p.manifest_snapshot ≡ true
    → IsRendered codec review p
reseal codec review found p (snapshot, sha256) h =
    let now = same_text-eq (render_manifest codec review p) p.manifest_snapshot h in
    let e = one_text _ _ _ snapshot now in (now, sha256 ∙ ap (λ s. some (codec.sha256 s)) e)

module _ (codec : Codec) (env : Env) (review : Review) (p : Package) where
  submit_rendered :
      check_package codec env submit review p ≡ ok tt
      → (is_at p.state preflight_passed ≡ true)
        × (same_text (some (render_manifest codec review p)) p.manifest_snapshot ≡ true)
  unfolding check_package
  submit_rendered h = ground arith

  approve_rendered :
      check_package codec env approve review p ≡ ok tt
      → (is_at p.state submitted ≡ true)
        × (same_text (some (render_manifest codec review p)) p.manifest_snapshot ≡ true)
  unfolding check_package
  approve_rendered h = ground arith

  staged : (s : PackageState) → is_at p.state s ≡ true → IsPackaged codec p → PackageStage codec s p
  staged s h c = subst (λ s. PackageStage codec s p) (is_at-eq p.state s h) c

values-IsRendered :
    (codec : Codec) (env : Env) (review : Review) (action : PackageAction) (p : Package)
    → is_onward action ≡ true
    → check_package codec env action review p ≡ ok tt
    → IsPackaged codec p
    → IsRendered codec review
        (assign_all package_assign (package_values codec env action review p) p)
unfolding package_values render_manifest manifest_values
values-IsRendered codec env review run_preflight p h passed c = (refl, refl)
values-IsRendered codec env review submit p h passed c =
    let (s, same) = submit_rendered codec env review p passed in
    let (_, (found, snapshot, sha256)) = staged codec env review p preflight_passed s c in
    reseal codec review found p (snapshot, sha256) same
values-IsRendered codec env review approve p h passed c =
    let (s, same) = approve_rendered codec env review p passed in
    let ((_, (found, snapshot, sha256)), _) = staged codec env review p submitted s c in
    reseal codec review found p (snapshot, sha256) same
values-IsRendered codec env review send_back p h passed c = cc
values-IsRendered codec env review void p h passed c = cc

-- Once a preflight, a submission or an approval has succeeded on a package that was prepared from a
-- review, after any successful calls, the package's manifest is the one rendered from it as it is and
-- from its readiness review as that call saw it, and the stored digest is the manifest's. The package
-- is then no further than its control: it is planned, with two editions, a verified backup and no
-- placeholder; a submitted one has a submitter other than its reviewer, and an approved one its
-- reviewer's approval.
pub run_package-IsRendered :
    (codec : Codec) (env : Env) (orm : Orm package_assign) (reviews : ℕ → Review)
    (action : PackageAction) (p p' : Package) (self self' : List Package)
    → PackageReach codec p
    → is_onward action ≡ true
    → run_package codec env orm reviews action self ≡ ok self'
    → Paired p p' self self'
    → IsRendered codec (reviews p.readiness_review_id) p' × IsPackaged codec p'
run_package-IsRendered codec env orm reviews action p p' self self' reach onward h pair =
    let a = run_package-Acted codec env orm reviews action p p' self self' h pair in
    let review = reviews p.readiness_review_id in
    let c = PackageReach-IsPackaged codec p reach in
    subst (λ q. IsRendered codec review q × IsPackaged codec q) (sym a.stored)
      (
        values-IsRendered codec env review action p onward a.passed c,
        package_values-IsPackaged codec env review action p a.passed c,
      )
