-- ===== src/Migration/Progress.antt =====
-- How many actions an execution record can take.
use perfect_match_qms.Prelude.{
  ℕ, suc, ◌+◌, ◌*◌, ◌≤◌, ◌≡◌, refl, sym, ap, ◌∙◌, Bool, true, false, List, arith, inl, inr, any,
  Bool-cases, if◌then◌else◌,
}
use perfect_match_qms.Odoo.{Env, ok, Orm}
use perfect_match_qms.Migration.Snapshots.{Codec}
use perfect_match_qms.Migration.Package.{Package}
use perfect_match_qms.Migration.Execution.{
  State, draft, preflight_passed, authorized, in_progress, recorded, submitted, returned, closed,
  Execution, Line, Assignment, assign, is_control,
}
use perfect_match_qms.Migration.Actions.{
  Action, run_preflight, authorize, record_start, record_outcome, submit_closeout, send_back, close,
  run, is_in, values, after, check_action,
}
use perfect_match_qms.Migration.Edits.{write, reconcile, is_editable}
use perfect_match_qms.Migration.Effects.{Acted, Edited, reconcile-Reconciled}
use perfect_match_qms.Migration.KeptEdits.{ledger_view}
use perfect_match_qms.Migration.Pairs.{Paired}
use perfect_match_qms.Migration.Views.{ControlView, control_view}
use perfect_match_qms.Migration.Passed.{
  is_in-eq, run_preflight_passed, authorize_passed, record_start_passed, record_outcome_passed,
  submit_closeout_passed, send_back_passed, close_passed,
}
use perfect_match_qms.Migration.Locks.{Edited-plain, Edited-touched}
use perfect_match_qms.Migration.Reach.{run-Paired, written-Edited}

-- How far a state is from the beginning.
abbrev pub progress : State → ℕ
progress draft = 0
progress preflight_passed = 1
progress authorized = 2
progress in_progress = 3
progress recorded = 4
progress submitted = 5
progress returned = 0
progress closed = 6

abbrev pub is_return : Action → Bool
is_return send_back = true
is_return _ = false

-- A sequence of successful calls, with the number of actions other than returns, that of returns,
-- and that of writes to the controls. Changes of the ledger are not counted.
pub data Trail (codec : Codec) (r : Execution) : ℕ → ℕ → ℕ → Execution → Type 0 where
  begin : Trail codec r 0 0 0 r
  onward :
      (forward returns edits : ℕ) (s t : Execution) (env : Env) (orm : Orm assign)
      (packages : ℕ → Package) (action : Action) (self self' : List Execution)
      → Trail codec r forward returns edits s
      → is_return action ≡ false
      → run codec env orm packages action self ≡ ok self'
      → Paired s t self self'
      → Trail codec r (suc forward) returns edits t
  back :
      (forward returns edits : ℕ) (s t : Execution) (env : Env) (orm : Orm assign)
      (packages : ℕ → Package) (self self' : List Execution)
      → Trail codec r forward returns edits s
      → run codec env orm packages send_back self ≡ ok self'
      → Paired s t self self'
      → Trail codec r forward (suc returns) edits t
  wrote :
      (forward returns edits : ℕ) (s t : Execution) (orm : Orm assign) (env : Env)
      (vals : List Assignment) (self self' : List Execution)
      → Trail codec r forward returns edits s
      → write codec orm env vals self ≡ ok self'
      → Paired s t self self'
      → Trail codec r forward returns (if any is_control vals then suc edits else edits) t
  changed_ledger :
      (forward returns edits : ℕ) (s t : Execution) (env : Env) (creates : Bool) (lines : List Line)
      → Trail codec r forward returns edits s
      → reconcile codec env creates lines s ≡ ok t
      → Trail codec r forward returns edits t

progress_at : (s t : State) (n : ℕ) → is_in s t ≡ true → n ≡ suc (progress t) → n ≡ suc (progress s)
progress_at s t n h e = e ∙ ap (λ s. suc (progress s)) (sym (is_in-eq s t h))

pub values-progress :
    (codec : Codec) (env : Env) (origin : Package) (action : Action) (r : Execution)
    → is_return action ≡ false
    → check_action codec env action origin r ≡ ok tt
    → progress (after codec env action r).state ≡ suc (progress r.state)
unfolding values
values-progress codec env origin run_preflight r f passed =
    elim (run_preflight_passed codec env origin r passed).0 [
      | inl is_draft ↦ progress_at r.state draft 1 is_draft refl
      | inr is_returned ↦ progress_at r.state returned 1 is_returned refl
    ]
values-progress codec env origin authorize r f passed =
    progress_at r.state preflight_passed 2 (authorize_passed codec env origin r passed).0 refl
values-progress codec env origin record_start r f passed =
    progress_at r.state authorized 3 (record_start_passed codec env origin r passed).0 refl
values-progress codec env origin record_outcome r f passed =
    progress_at r.state in_progress 4 (record_outcome_passed codec env origin r passed).0 refl
values-progress codec env origin submit_closeout r f passed =
    progress_at r.state recorded 5 (submit_closeout_passed codec env origin r passed).0 refl
values-progress codec env origin send_back r f passed = cc
values-progress codec env origin close r f passed =
    progress_at r.state submitted 6 (close_passed codec env origin r passed).0 refl

return-progress :
    (codec : Codec) (env : Env) (packages : ℕ → Package) (r r' : Execution)
    → Acted codec env packages send_back r r'
    → progress r'.state + 2 ≡ progress r.state
unfolding values
return-progress codec env packages r r' a =
    ap (λ t. progress t.state + 2) a.stored
    ∙ sym (
        ap progress (
          is_in-eq r.state submitted
            (send_back_passed codec env (packages r.package_id) r a.passed).0))

progress_editable : (s : State) → is_editable s ≡ true → progress s ≤ 1
progress_editable draft h = omega arith
progress_editable preflight_passed h = omega arith
progress_editable authorized h = cc
progress_editable in_progress h = cc
progress_editable recorded h = cc
progress_editable submitted h = cc
progress_editable returned h = omega arith
progress_editable closed h = cc

write-progress :
    (codec : Codec) (env : Env) (vals : List Assignment) (r r' : Execution)
    → Edited codec env vals r r'
    → progress r.state ≤ progress r'.state + (if any is_control vals then 1 else 0)
write-progress codec env vals r r' a = elim (Bool-cases (any is_control vals)) [
  | inl touched ↦
      let (open_state, emptied, _) = Edited-touched codec env vals r r' a touched in
      let low = progress_editable r.state open_state in
      let zero_after = ap progress emptied in ground (arith, low, touched)
  | inr untouched ↦
      let same =
        ap (λ (w : ControlView). progress w.state)
          (Edited-plain codec env vals r r' a untouched).1 in
      ground (arith, same, untouched)
]

pub progress_bound : (s : State) → progress s ≤ 6
progress_bound draft = omega arith
progress_bound preflight_passed = omega arith
progress_bound authorized = omega arith
progress_bound in_progress = omega arith
progress_bound recorded = omega arith
progress_bound submitted = omega arith
progress_bound returned = omega arith
progress_bound closed = omega arith

Trail-progress :
    (codec : Codec) (r r' : Execution) (forward returns edits : ℕ)
    → Trail codec r forward returns edits r'
    → forward + progress r.state ≤ progress r'.state + 2 * returns + edits
Trail-progress codec r _ _ _ _ begin = omega arith
Trail-progress codec r _ _ _ _
      (onward forward returns edits s t env orm packages action self self' trail f h p) =
    let a = run-Paired codec env orm packages action s t self self' h p in
    let moved =
      ap (λ t. progress t.state) a.stored
      ∙ values-progress codec env (packages s.package_id) action s f a.passed in
    let before = Trail-progress codec r s forward returns edits trail in omega arith
Trail-progress codec r _ _ _ _
      (back forward returns edits s t env orm packages self self' trail h p) =
    let moved =
      return-progress codec env packages s t
        (run-Paired codec env orm packages send_back s t self self' h p) in
    let before = Trail-progress codec r s forward returns edits trail in omega arith
Trail-progress codec r _ _ _ _ (wrote forward returns edits s t orm env vals self self' trail h p) =
    let moved =
      write-progress codec env vals s t (written-Edited codec orm env vals s t self self' h p) in
    let before = Trail-progress codec r s forward returns edits trail in
    ground (arith, moved, before)
Trail-progress codec r _ _ _ _
      (changed_ledger forward returns edits s t env creates lines trail h) =
    let kept =
      ap (λ (w : ControlView). progress w.state)
        (ap control_view (reconcile-Reconciled codec env creates lines s t h).stored
          ∙ ledger_view codec creates lines s) in
    let before = Trail-progress codec r s forward returns edits trail in omega arith

-- However a record's life goes, the number of its actions other than returns is at most six, two more
-- for each return and one more for each write to its controls. So without returns and edits of the
-- controls, at most six actions succeed on it.
pub Trail-bound :
    (codec : Codec) (r r' : Execution) (forward returns edits : ℕ)
    → Trail codec r forward returns edits r'
    → forward ≤ 6 + 2 * returns + edits
Trail-bound codec r r' forward returns edits trail =
    let reached = Trail-progress codec r r' forward returns edits trail in
    let bound = progress_bound r'.state in omega arith
