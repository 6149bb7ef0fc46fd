-- ===== src/Migration/Permanent.antt =====
-- What no call can change: the controls of an authorized record, and a closed record.
use perfect_match_qms.Prelude.{
  ℕ, ◌≡◌, refl, sym, ap, ◌∙◌, subst, true, false, String, Option, List, inl, inr, true-false,
}
use perfect_match_qms.Odoo.{Env, ok}
use perfect_match_qms.Migration.Snapshots.{Json, Codec}
use perfect_match_qms.Migration.Package.{Package}
use perfect_match_qms.Migration.Execution.{
  State, draft, preflight_passed, returned, ControlText, authorization, Execution,
}
use perfect_match_qms.Migration.Actions.{
  Action, run_preflight, authorize, record_start, record_outcome, submit_closeout, send_back, close,
  is_in, values, after, check_action,
}
use perfect_match_qms.Migration.Edits.{is_editable}
use perfect_match_qms.Migration.Views.{ControlView, control_view}
use perfect_match_qms.Migration.Passed.{is_in-eq, run_preflight_passed, authorize_passed}
use perfect_match_qms.Migration.Effects.{reconcile-Reconciled}
use perfect_match_qms.Migration.KeptEdits.{ledger_view}
use perfect_match_qms.Migration.Locks.{Edited-untouched, Edited-plain}
use perfect_match_qms.Migration.Reach.{
  Step, acted, written, reconciled, Steps, here, then_step, run-Paired, written-Edited,
}

-- What the reviewer has authorized: who takes part, the controls, what seals them, and the
-- authorization.
pub record Approval : Type 0 where
  pub operator_id : ℕ
  pub reviewer_id : ℕ
  pub controls : ControlText → String
  pub rendered : ℕ → List (String × Json)
  pub snapshot : Option String
  pub sha256 : Option String
  pub authorized_by_id : Option ℕ
  pub authorized_date : Option ℕ

abbrev approval_of : ControlView → Approval
approval_of w = record {
  operator_id = w.operator_id;
  reviewer_id = w.reviewer_id;
  controls = w.controls;
  rendered = w.rendered;
  snapshot = w.snapshot;
  sha256 = w.sha256;
  authorized_by_id = w.by authorization;
  authorized_date = w.on authorization;
}

abbrev pub approval : Execution → Approval
approval r = approval_of (control_view r)

uneditable : (s t : State) → is_in s t ≡ true → is_editable t ≡ true → is_editable s ≡ false → ⊥
uneditable s t h e shut = true-false (is_editable s) (ap is_editable (is_in-eq s t h) ∙ e) shut

-- An action on a record that is past its authorization.
values-approval :
    (codec : Codec) (env : Env) (origin : Package) (action : Action) (r : Execution)
    → check_action codec env action origin r ≡ ok tt
    → is_editable r.state ≡ false
    → (approval (after codec env action r) ≡ approval r)
      × (is_editable (after codec env action r).state ≡ false)
unfolding values
values-approval codec env origin run_preflight r passed shut =
    elim (run_preflight_passed codec env origin r passed).0 [
      | inl is_draft ↦ elim (uneditable r.state draft is_draft refl shut) [ ]
      | inr is_returned ↦ elim (uneditable r.state returned is_returned refl shut) [ ]
    ]
values-approval codec env origin authorize r passed shut =
    elim (uneditable r.state preflight_passed (authorize_passed codec env origin r passed).0 refl
      shut) [ ]
values-approval codec env origin record_start r passed shut = (refl, refl)
values-approval codec env origin record_outcome r passed shut = (refl, refl)
values-approval codec env origin submit_closeout r passed shut = (refl, refl)
values-approval codec env origin send_back r passed shut = (refl, refl)
values-approval codec env origin close r passed shut = (refl, refl)

Step-approval :
    (codec : Codec) (r r' : Execution)
    → Step codec r r'
    → is_editable r.state ≡ false
    → (approval r' ≡ approval r) × (is_editable r'.state ≡ false)
Step-approval codec r r' (acted env orm packages action self self' h p) shut =
    let a = run-Paired codec env orm packages action r r' self self' h p in
    subst (λ t. (approval t ≡ approval r) × (is_editable t.state ≡ false)) (sym a.stored)
      (values-approval codec env (packages r.package_id) action r a.passed shut)
Step-approval codec r r' (written orm env vals self self' h p) shut =
    let a = written-Edited codec orm env vals r r' self self' h p in
    let (_, e) = Edited-plain codec env vals r r' a (Edited-untouched codec env vals r r' a shut) in
    (ap approval_of e, ap (λ (w : ControlView). is_editable w.state) e ∙ shut)
Step-approval codec r r' (reconciled env creates lines h) shut =
    let a = reconcile-Reconciled codec env creates lines r r' h in
    let e = ap control_view a.stored ∙ ledger_view codec creates lines r in
    (ap approval_of e, ap (λ (w : ControlView). is_editable w.state) e ∙ shut)

-- Once a record has left the states in which its controls can be edited, no sequence of successful
-- calls changes who takes part, the controls, what a control snapshot would hold of them but for the
-- company, the snapshot and its digest, or who authorized them and when; and the record never becomes
-- editable again.
pub Steps-approval :
    (codec : Codec) (r r' : Execution)
    → Steps codec r r'
    → is_editable r.state ≡ false
    → (approval r' ≡ approval r) × (is_editable r'.state ≡ false)
Steps-approval codec r _ (here _) shut = (refl, shut)
Steps-approval codec r _ (then_step _ s t path step) shut =
    let (same, shut') = Steps-approval codec r s path shut in
    let (same', shut'') = Step-approval codec s t step shut' in (same' ∙ same, shut'')
