-- ===== src/Migration/Kept.antt =====
-- Every call on execution records keeps the control of each of them.
use perfect_match_qms.Prelude.{ℕ, ◌==◌, ◌≡◌, refl, sym, ap, ◌∙◌, subst, true, false, some}
use perfect_match_qms.Odoo.{Env, ok}
use perfect_match_qms.Migration.Snapshots.{Codec}
use perfect_match_qms.Migration.Package.{Package}
use perfect_match_qms.Migration.Execution.{
  State, preflight_passed, authorized, in_progress, recorded, submitted, Execution, report_values,
  render_control_snapshot, render_report_snapshot,
}
use perfect_match_qms.Migration.Actions.{
  is_in, Action, run_preflight, authorize, record_start, record_outcome, submit_closeout, send_back,
  close, check_action, values, after,
}
use perfect_match_qms.Migration.Effects.{Acted}
use perfect_match_qms.Migration.Views.{control_view, report_view}
use perfect_match_qms.Migration.Passed.{
  is_in-eq, run_preflight_passed, authorize_passed, record_start_passed, record_outcome_passed,
  submit_closeout_passed, send_back_passed, close_passed,
}
use perfect_match_qms.Migration.Control.{Stage, IsControlled}

module _ (codec : Codec) (env : Env) where
  -- What the record's state requires, at a state that its test has found.
  at_state :
      (s : State) (r : Execution)
      → is_in r.state s ≡ true
      → IsControlled codec r
      → Stage codec s (control_view r) (report_view r)
  at_state s r h c =
      subst (λ s. Stage codec s (control_view r) (report_view r)) (is_in-eq r.state s h) c

  -- The user who acts in the reviewer's place is not the operator.
  different :
      (r : Execution)
      → r.reviewer_id ≡ env.user
      → (r.operator_id == env.user) ≡ false
      → (r.operator_id == r.reviewer_id) ≡ false
  different r e h = ap (λ user. r.operator_id == user) e ∙ h

  pub values-IsControlled :
      (origin : Package) (action : Action) (r : Execution)
      → check_action codec env action origin r ≡ ok tt
      → IsControlled codec r
      → IsControlled codec (after codec env action r)
  unfolding values render_control_snapshot render_report_snapshot report_values
  values-IsControlled origin run_preflight r passed c =
      let (_, complete) = run_preflight_passed codec env origin r passed in
      ((r.company_id, refl, refl), complete)
  values-IsControlled origin authorize r passed c =
      let (s, reviewer, operator) = authorize_passed codec env origin r passed in
      (at_state preflight_passed r s c, ap some (sym reviewer), different r reviewer operator)
  values-IsControlled origin record_start r passed c =
      let (s, operator) = record_start_passed codec env origin r passed in
      (at_state authorized r s c, ap some (sym operator))
  values-IsControlled origin record_outcome r passed c =
      let (s, operator, outcome) = record_outcome_passed codec env origin r passed in
      (
        at_state in_progress r s c,
        (codec.dumps (report_values codec r), refl, refl),
        outcome,
        ap some (sym operator),
      )
  values-IsControlled origin submit_closeout r passed c =
      let (s, operator) = submit_closeout_passed codec env origin r passed in
      (at_state recorded r s c, ap some (sym operator))
  values-IsControlled origin send_back r passed c =
      let (s, _, _) = send_back_passed codec env origin r passed in (at_state submitted r s c).0.0
  values-IsControlled origin close r passed c =
      let (s, reviewer, _, _, _, _) = close_passed codec env origin r passed in
      (at_state submitted r s c, ap some (sym reviewer))

  pub Acted-IsControlled :
      (packages : ℕ → Package) (action : Action) (r r' : Execution)
      → Acted codec env packages action r r'
      → IsControlled codec r
      → IsControlled codec r'
  Acted-IsControlled packages action r r' h c =
      subst (IsControlled codec) (sym h.stored)
        (values-IsControlled (packages r.package_id) action r h.passed c)
