-- ===== src/Migration/KeptEdits.antt =====
-- `write` and the changes of the ledger keep the control of each execution record.
use perfect_match_qms.Prelude.{
  ◌≡◌, refl, sym, ap, ◌∙◌, subst, Bool, true, false, ◌&&◌, ◌||◌, List, [], ◌∷◌, any, arith, not,
  Bool-cases, inl, inr, if_true, if_false, true-false, if◌then◌else◌,
}
use perfect_match_qms.Odoo.{Env}
use perfect_match_qms.Migration.Counts.{recounted}
use perfect_match_qms.Migration.Snapshots.{Codec}
use perfect_match_qms.Migration.Execution.{
  State, draft, preflight_passed, authorized, in_progress, recorded, submitted, returned, closed,
  Execution, Assignment, Line, is_workflow, is_control, is_evidence, is_lines,
  set_reconciliation_lines, set_ledger_started,
}
use perfect_match_qms.Migration.Actions.{is_in}
use perfect_match_qms.Migration.Edits.{is_editable, is_reset, reset_values}
use perfect_match_qms.Migration.Effects.{edited, Edited, Reconciled}
use perfect_match_qms.Migration.Views.{
  ControlView, control_view, report_view, is_shown, state-same, control_view-same, report_view-same,
}
use perfect_match_qms.Migration.Passed.{is_in-eq}
use perfect_match_qms.Migration.Control.{Stage, IsStarted, IsControlled}

pub either-false :
    (f g : Assignment → Bool) (vals : List Assignment)
    → any f vals ≡ false
    → any g vals ≡ false
    → any (λ v. f v || g v) vals ≡ false
either-false f g [] h k = refl
either-false f g (v ∷ vals) h k = ground (arith, either-false f g vals)

-- What only the operator of an execution in progress may write, elsewhere.
barred :
    (named running own : Bool)
    → running ≡ false
    → (named && (not running || own)) ≡ false
    → named ≡ false
barred named running own = ground arith

module _ (codec : Codec) (vals : List Assignment) (r : Execution) where
  -- Where the reset is not due, and where it is.
  pub edited_plain :
      is_reset vals (recounted codec vals r) ≡ false → edited codec vals r ≡ recounted codec vals r
  edited_plain h = if_false (is_reset vals (recounted codec vals r)) _ _ h

  pub edited_reset :
      is_reset vals (recounted codec vals r) ≡ true
      → edited codec vals r ≡ recounted codec reset_values (recounted codec vals r)
  edited_reset h = if_true (is_reset vals (recounted codec vals r)) _ _ h

  pub is_reset-same :
      any is_workflow vals ≡ false → is_reset vals (recounted codec vals r) ≡ is_reset vals r
  is_reset-same w =
      ap (λ s. (is_in s preflight_passed || is_in s returned) && any is_control vals)
        (state-same vals r w)

  pub controls_same :
      any is_workflow vals ≡ false
      → any is_control vals ≡ false
      → control_view (recounted codec vals r) ≡ control_view r
  controls_same w c = control_view-same vals r (either-false is_workflow is_control vals w c)

  pub report_same :
      any is_workflow vals ≡ false
      → any is_shown vals ≡ false
      → report_view (recounted codec vals r) ≡ report_view r
  report_same w c = report_view-same vals r (either-false is_workflow is_shown vals w c)

module _ (codec : Codec) (env : Env) (vals : List Assignment) (r : Execution) where
  -- A record that the reset leaves as it is.
  plain_edit :
      (s : State)
      → r.state ≡ s
      → any is_workflow vals ≡ false
      → is_reset vals r ≡ false
      → Stage codec s (control_view (recounted codec vals r)) (report_view (recounted codec vals r))
      → IsControlled codec (edited codec vals r)
  plain_edit s e w kept stage =
      subst (IsControlled codec)
        (sym (edited_plain codec vals r (is_reset-same codec vals r w ∙ kept)))
        (subst
          (λ s.
            Stage codec s (control_view (recounted codec vals r))
              (report_view (recounted codec vals r)))
          (sym (state-same vals r w ∙ e)) stage)

  locked :
      (s : State)
      → r.state ≡ s
      → Edited codec env vals r (edited codec vals r)
      → is_editable s ≡ false
      → any is_control vals ≡ false
  locked s e h shut = let k = ap is_editable e ∙ shut in ground (arith, h.controls_open, k)

  unreported :
      (s : State)
      → r.state ≡ s
      → Edited codec env vals r (edited codec vals r)
      → is_in s in_progress ≡ false
      → any is_shown vals ≡ false
  unreported s e h shut =
      let k = ap (λ s. is_in s in_progress) e ∙ shut in
      either-false is_evidence is_lines vals (barred _ _ _ k h.evidence_own)
        (barred _ _ _ k h.lines_own)

  unreset :
      (s : State)
      → r.state ≡ s
      → (is_in s preflight_passed || is_in s returned) ≡ false
      → is_reset vals r ≡ false
  unreset s e h =
      ap (λ s. (is_in s preflight_passed || is_in s returned) && any is_control vals) e
      ∙ ap (λ b. b && any is_control vals) h

  -- From the authorization on, only the report can be edited.
  locked_edit :
      (s : State)
      → r.state ≡ s
      → Edited codec env vals r (edited codec vals r)
      → is_editable s ≡ false
      → (is_in s preflight_passed || is_in s returned) ≡ false
      → Stage codec s (control_view r) (report_view (recounted codec vals r))
      → IsControlled codec (edited codec vals r)
  locked_edit s e h shut out c = plain_edit s e h.no_workflow (unreset s e out) (
      subst (λ w. Stage codec s w (report_view (recounted codec vals r)))
        (sym (controls_same codec vals r h.no_workflow (locked s e h shut))) c)

  -- Outside of `in_progress`, the report cannot be edited.
  whole_edit :
      (s : State)
      → r.state ≡ s
      → Edited codec env vals r (edited codec vals r)
      → is_in s in_progress ≡ false
      → Stage codec s (control_view r) (report_view r)
      → Stage codec s (control_view r) (report_view (recounted codec vals r))
  whole_edit s e h shut c =
      subst (Stage codec s (control_view r))
        (sym (report_same codec vals r h.no_workflow (unreported s e h shut))) c

  reset_edit :
      is_reset vals r ≡ true
      → any is_workflow vals ≡ false
      → IsControlled codec (edited codec vals r)
  reset_edit due w =
      subst (IsControlled codec)
        (sym (edited_reset codec vals r (is_reset-same codec vals r w ∙ due))) tt

  edit_lem :
      (s : State)
      → r.state ≡ s
      → Edited codec env vals r (edited codec vals r)
      → Stage codec s (control_view r) (report_view r)
      → IsControlled codec (edited codec vals r)
  edit_lem draft e h c = plain_edit draft e h.no_workflow (unreset draft e refl) tt
  edit_lem preflight_passed e h c = elim (Bool-cases (any is_control vals)) [
    | inl touched ↦
        reset_edit
          (ap (λ s. (is_in s preflight_passed || is_in s returned) && any is_control vals) e
            ∙ touched)
          h.no_workflow
    | inr untouched ↦
        plain_edit preflight_passed e h.no_workflow
          (ap (λ s. (is_in s preflight_passed || is_in s returned) && any is_control vals) e
            ∙ untouched)
          (subst (λ w. Stage codec preflight_passed w (report_view (recounted codec vals r)))
            (sym (controls_same codec vals r h.no_workflow untouched)) c)
  ]
  edit_lem authorized e h c = locked_edit authorized e h refl refl c
  edit_lem in_progress e h c = locked_edit in_progress e h refl refl c
  edit_lem recorded e h c = locked_edit recorded e h refl refl (whole_edit recorded e h refl c)
  edit_lem submitted e h c = locked_edit submitted e h refl refl (whole_edit submitted e h refl c)
  edit_lem returned e h c = elim c [ ]
  edit_lem closed e h c =
      elim (true-false (is_in r.state closed) (ap (λ s. is_in s closed) e) h.not_closed) [ ]

  pub Edited-IsControlled :
      (r' : Execution) → Edited codec env vals r r' → IsControlled codec r → IsControlled codec r'
  Edited-IsControlled r' h c = subst (IsControlled codec) (sym h.stored) (
      edit_lem r.state refl
        (record {
          not_closed = h.not_closed;
          no_workflow = h.no_workflow;
          no_ledger = h.no_ledger;
          no_counts = h.no_counts;
          evidence_own = h.evidence_own;
          lines_own = h.lines_own;
          controls_open = h.controls_open;
          stored = refl;
        })
        c)

-- What a change of the ledger sets.
abbrev pub ledger_values : Bool → List Line → List Assignment
ledger_values creates lines =
    set_reconciliation_lines lines ∷ (if creates then (set_ledger_started true ∷ []) else [])

pub ledger_view :
    (codec : Codec) (creates : Bool) (lines : List Line) (r : Execution)
    → control_view (recounted codec (ledger_values creates lines) r) ≡ control_view r
ledger_view codec true lines r = refl
ledger_view codec false lines r = refl

-- A change of the ledger leaves the controls and the state as they are.
pub Reconciled-IsControlled :
    (codec : Codec) (env : Env) (creates : Bool) (lines : List Line) (r r' : Execution)
    → Reconciled codec env creates lines r r'
    → IsControlled codec r
    → IsControlled codec r'
Reconciled-IsControlled codec env creates lines r r' h c =
    let same = ap control_view h.stored ∙ ledger_view codec creates lines r in
    let before = is_in-eq r.state in_progress h.running in
    subst (λ s. Stage codec s (control_view r') (report_view r'))
      (sym (ap (λ (w : ControlView). w.state) same ∙ before))
      (subst (IsStarted codec) (sym same)
        (subst (λ s. Stage codec s (control_view r) (report_view r)) before c))
