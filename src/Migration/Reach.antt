-- ===== src/Migration/Reach.antt =====
-- The life of an execution record: its preparation, the calls on recordsets that hold it, and the
-- changes of its ledger.
use perfect_match_qms.Prelude.{
  ℕ, ◌≡◌, sym, ap, subst, true, not, Bool, String, Option, none, some, List, [], ◌∷◌, not-eq-false,
}
use perfect_match_qms.Odoo.{
  Env, ok, raise_if, >>=-eq-ok, >>-eq-ok, raise_if-eq-ok, ok-injective, Orm, Creation,
}
use perfect_match_qms.Migration.Snapshots.{Codec}
use perfect_match_qms.Migration.Package.Actions.{check_package_manager}
use perfect_match_qms.Migration.Package.{Package, is_approved, submission, approval}
use perfect_match_qms.Migration.Execution.{Execution, Line, Assignment, assign}
use perfect_match_qms.Migration.Actions.{Action, run}
use perfect_match_qms.Migration.Edits.{
  write, reconcile, find, prepare_from_package, found_or_new, required_text, required_user,
  new_execution,
}
use perfect_match_qms.Migration.Effects.{
  Acted, run-Acted, Edited, write-Edited, reconcile-Reconciled,
}
use perfect_match_qms.Migration.Pairs.{Paired, Forall₂-Paired}
use perfect_match_qms.Migration.Control.{IsControlled}
use perfect_match_qms.Migration.Kept.{Acted-IsControlled}
use perfect_match_qms.Migration.KeptEdits.{Edited-IsControlled, Reconciled-IsControlled}

-- What a successful call makes of one record of its recordset.
pub data Step (codec : Codec) (r r' : Execution) : Type 0 where
  acted :
      (env : Env) (orm : Orm assign) (packages : ℕ → Package) (action : Action)
      (self self' : List Execution)
      → run codec env orm packages action self ≡ ok self'
      → Paired r r' self self'
      → Step codec r r'
  written :
      (orm : Orm assign) (env : Env) (vals : List Assignment) (self self' : List Execution)
      → write codec orm env vals self ≡ ok self'
      → Paired r r' self self'
      → Step codec r r'
  reconciled :
      (env : Env) (creates : Bool) (lines : List Line)
      → reconcile codec env creates lines r ≡ ok r'
      → Step codec r r'

pub data Steps (codec : Codec) : Execution → Execution → Type 0 where
  here : (r : Execution) → Steps codec r r
  then_step : (r s t : Execution) → Steps codec r s → Step codec s t → Steps codec r t

-- A record that the preparation from a package has created, after any calls.
pub data Reach (codec : Codec) : Execution → Type 0 where
  prepared :
      (creation : Creation Execution) (env : Env) (origin : Package) (company_id : ℕ)
      (r r' : Execution) (table table' : List Execution)
      → find origin.id table ≡ none
      → prepare_from_package creation env origin company_id table ≡ ok (r, table')
      → Steps codec r r'
      → Reach codec r'

pub run-Paired :
    (codec : Codec) (env : Env) (orm : Orm assign) (packages : ℕ → Package) (action : Action)
    (r r' : Execution) (self self' : List Execution)
    → run codec env orm packages action self ≡ ok self'
    → Paired r r' self self'
    → Acted codec env packages action r r'
run-Paired codec env orm packages action r r' self self' h p =
    Forall₂-Paired (Acted codec env packages action) r r' self self'
      (run-Acted codec env orm packages action self self' h).1 p

pub written-Edited :
    (codec : Codec) (orm : Orm assign) (env : Env) (vals : List Assignment) (r r' : Execution)
    (self self' : List Execution)
    → write codec orm env vals self ≡ ok self'
    → Paired r r' self self'
    → Edited codec env vals r r'
written-Edited codec orm env vals r r' self self' h p =
    Forall₂-Paired (Edited codec env vals) r r' self self'
      (write-Edited codec orm env vals self self' h) p

Step-IsControlled :
    (codec : Codec) (r r' : Execution)
    → Step codec r r'
    → IsControlled codec r
    → IsControlled codec r'
Step-IsControlled codec r r' (acted env orm packages action self self' h p) c =
    Acted-IsControlled codec env packages action r r'
      (run-Paired codec env orm packages action r r' self self' h p) c
Step-IsControlled codec r r' (written orm env vals self self' h p) c =
    Edited-IsControlled codec env vals r r' (written-Edited codec orm env vals r r' self self' h p)
      c
Step-IsControlled codec r r' (reconciled env creates lines h) c =
    Reconciled-IsControlled codec env creates lines r r'
      (reconcile-Reconciled codec env creates lines r r' h) c

Steps-IsControlled :
    (codec : Codec) (r r' : Execution)
    → Steps codec r r'
    → IsControlled codec r
    → IsControlled codec r'
Steps-IsControlled codec r _ (here _) c = c
Steps-IsControlled codec r _ (then_step _ s t path step) c =
    Step-IsControlled codec s t step (Steps-IsControlled codec r s path c)

-- What the preparation takes from the package.
pub prepared_lem :
    (creation : Creation Execution) (env : Env) (origin : Package) (company_id : ℕ) (r : Execution)
    (table table' : List Execution)
    → find origin.id table ≡ none
    → prepare_from_package creation env origin company_id table ≡ ok (r, table')
    → (is_approved origin.state ≡ true)
      × ((digest : String) × (operator : ℕ) × (reviewer : ℕ) × (origin.manifest_sha256
            ≡ some digest)
          × (origin.by submission ≡ some operator)
          × (origin.by approval ≡ some reviewer)
          × (r ≡ new_execution origin company_id digest operator reviewer))
unfolding prepare_from_package
prepared_lem creation env origin company_id r table table' fresh h =
    let (_, one) = >>-eq-ok (check_package_manager env) _ h in
    let (approved, two) = >>-eq-ok (raise_if (not (is_approved origin.state)) _) _ one in
    let three =
      subst (λ found. found_or_new creation env origin company_id table found ≡ ok (r, table'))
        fresh two in
    let (digest, found, four) = >>=-eq-ok (required_text origin.manifest_sha256) _ three in
    let (operator, first, five) = >>=-eq-ok (required_user (origin.by submission)) _ four in
    let (reviewer, second, six) = >>=-eq-ok (required_user (origin.by approval)) _ five in
    let (created, _, seven) =
      >>=-eq-ok
        (creation.super_create (new_execution origin company_id digest operator reviewer ∷ [])) _
        six in
    (
      not-eq-false _ (raise_if-eq-ok _ _ approved),
      (
        digest,
        operator,
        reviewer,
        given_text _ digest found,
        given_user _ operator first,
        given_user _ reviewer second,
        sym (ap (λ p. p.0) (ok-injective seven)),
      ),
    )
  where
    given_text : (o : Option String) (s : String) → required_text o ≡ ok s → o ≡ some s
    given_text none s e = cc
    given_text (some t) s e = ap some (ok-injective e)

    given_user : (o : Option ℕ) (n : ℕ) → required_user o ≡ ok n → o ≡ some n
    given_user none n e = cc
    given_user (some t) n e = ap some (ok-injective e)

-- A new record is a draft.
prepared-IsControlled :
    (codec : Codec) (creation : Creation Execution) (env : Env) (origin : Package) (company_id : ℕ)
    (r : Execution) (table table' : List Execution)
    → find origin.id table ≡ none
    → prepare_from_package creation env origin company_id table ≡ ok (r, table')
    → IsControlled codec r
prepared-IsControlled codec creation env origin company_id r table table' fresh h =
    let (_, (_, _, _, _, _, _, new)) =
      prepared_lem creation env origin company_id r table table' fresh h in
    subst (IsControlled codec) (sym new) tt

-- After any successful calls, a record that was prepared from a package is in no state `returned`, and
-- its state tells the truth. From the preflight on, the control snapshot renders the present controls,
-- but for the company, which a write may change; its digest is that of the snapshot, and no control is
-- a placeholder. From the authorization on, the
-- reviewer has authorized it and is not the operator; from the start on, the operator has started it.
-- From `recorded` on, there is a report snapshot with its digest, an outcome is set, and the operator has recorded it. A submitted record was submitted by
-- the operator, and a closed one was closed by the reviewer.
pub Reach-IsControlled : (codec : Codec) (r : Execution) → Reach codec r → IsControlled codec r
Reach-IsControlled codec _
      (prepared creation env origin company_id r r' table table' fresh h path) =
    Steps-IsControlled codec r r' path
      (prepared-IsControlled codec creation env origin company_id r table table' fresh h)
