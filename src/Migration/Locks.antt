-- ===== src/Migration/Locks.antt =====
-- What `write` leaves of a record as it is.
use perfect_match_qms.Prelude.{
  ◌≡◌, ◌⊎◌, Bool, not, ◌&&◌, ◌||◌, true-false, ap, ◌∙◌, true, false, none, List, arith, inl, inr,
  any, Bool-cases,
}
use perfect_match_qms.Odoo.{Env, ok, Orm}
use perfect_match_qms.Migration.Snapshots.{Codec}
use perfect_match_qms.Migration.Counts.{recounted}
use perfect_match_qms.Migration.Execution.{
  draft, in_progress, closed, Execution, Assignment, assign, is_control, is_evidence, is_lines,
}
use perfect_match_qms.Migration.Actions.{is_in}
use perfect_match_qms.Migration.Edits.{write, is_editable, is_reset}
use perfect_match_qms.Migration.Effects.{edited, Edited}
use perfect_match_qms.Migration.Pairs.{Paired}
use perfect_match_qms.Migration.Views.{control_view, report_view, is_shown, state-same}
use perfect_match_qms.Migration.Passed.{is_in-eq}
use perfect_match_qms.Migration.KeptEdits.{
  edited_plain, edited_reset, is_reset-same, controls_same, report_same, either-false,
}
use perfect_match_qms.Migration.Reach.{written-Edited}

-- No control can be edited.
pub Edited-untouched :
    (codec : Codec) (env : Env) (vals : List Assignment) (r r' : Execution)
    → Edited codec env vals r r'
    → is_editable r.state ≡ false
    → any is_control vals ≡ false
Edited-untouched codec env vals r r' h shut = ground (arith, h.controls_open, shut)

-- A write of no control keeps all that the control view shows.
pub Edited-plain :
    (codec : Codec) (env : Env) (vals : List Assignment) (r r' : Execution)
    → Edited codec env vals r r'
    → any is_control vals ≡ false
    → (r' ≡ recounted codec vals r) × (control_view r' ≡ control_view r)
Edited-plain codec env vals r r' h c =
    let kept = is_reset-same codec vals r h.no_workflow ∙ unreset in
    let e = h.stored ∙ edited_plain codec vals r kept in
    (e, ap control_view e ∙ controls_same codec vals r h.no_workflow c)
  where
    unreset : is_reset vals r ≡ false
    unreset = ground (arith, c)

-- A write that touches the controls of an editable record.
pub Edited-touched :
    (codec : Codec) (env : Env) (vals : List Assignment) (r r' : Execution)
    → Edited codec env vals r r'
    → any is_control vals ≡ true
    → (is_editable r.state ≡ true)
      × (r'.state ≡ draft)
      × ((is_in r.state draft ≡ true) ⊎ (r'.control_snapshot ≡ none))
Edited-touched codec env vals r r' h touched = elim (Bool-cases (is_reset vals r)) [
  | inl due ↦
      let e =
        h.stored ∙ edited_reset codec vals r (is_reset-same codec vals r h.no_workflow ∙ due) in
      (open_state, ap (λ t. t.state) e, inr (ap (λ t. t.control_snapshot) e))
  | inr kept ↦
      let e =
        h.stored ∙ edited_plain codec vals r (is_reset-same codec vals r h.no_workflow ∙ kept) in
      let s = is_in-eq r.state draft (ground (arith, open_state, kept, touched)) in
      (
        open_state,
        ap (λ t. t.state) e ∙ state-same vals r h.no_workflow ∙ s,
        inl (ap (λ s. is_in s draft) s),
      )
]
  where
    open_state : is_editable r.state ≡ true
    open_state = ground (arith, h.controls_open, touched)

-- The reset leaves the report as it is.
edited_report :
    (codec : Codec) (vals : List Assignment) (r : Execution)
    → report_view (edited codec vals r) ≡ report_view (recounted codec vals r)
edited_report codec vals r = elim (Bool-cases (is_reset vals (recounted codec vals r))) [
  | inl due ↦ ap report_view (edited_reset codec vals r due)
  | inr kept ↦ ap report_view (edited_plain codec vals r kept)
]

own :
    (running mine named : Bool)
    → (named && (not running || not mine)) ≡ false
    → named ≡ true
    → (running ≡ true) × (mine ≡ true)
own running mine named = ground arith

-- A write that touches the report.
Edited-reported :
    (codec : Codec) (env : Env) (vals : List Assignment) (r r' : Execution)
    → Edited codec env vals r r'
    → any is_shown vals ≡ true
    → (is_in r.state in_progress ≡ true) × (r.operator_id ≡ env.user)
Edited-reported codec env vals r r' h shown = elim (Bool-cases (any is_evidence vals)) [
  | inl named ↦
      let (running, mine) = own _ _ _ h.evidence_own named in (running, ground (arith, mine))
  | inr other ↦ elim (Bool-cases (any is_lines vals)) [
    | inl named ↦
        let (running, mine) = own _ _ _ h.lines_own named in (running, ground (arith, mine))
    | inr neither ↦
        elim (true-false _ shown (either-false is_evidence is_lines vals other neither)) [ ]
  ]
]

-- A successful `write` finds no closed record. It leaves the state, the participants, the controls,
-- their seal and every stamp of a record as they are, unless the record may still be edited: then the
-- record is a draft afterwards, and its control snapshot is gone where it was not a draft before. Of
-- the report, its ledger and its seal it changes something only while the record is in progress, and
-- only where its operator calls. The company, which a control snapshot holds too, is not among the
-- controls here.
pub write-locks :
    (codec : Codec) (orm : Orm assign) (env : Env) (vals : List Assignment)
    (self self' : List Execution) (r r' : Execution)
    → write codec orm env vals self ≡ ok self'
    → Paired r r' self self'
    → (is_in r.state closed ≡ false)
      × ((control_view r' ≡ control_view r)
          ⊎ ((is_editable r.state ≡ true)
              × (r'.state ≡ draft)
              × ((is_in r.state draft ≡ true) ⊎ (r'.control_snapshot ≡ none))))
      × ((report_view r' ≡ report_view r)
          ⊎ ((is_in r.state in_progress ≡ true) × (r.operator_id ≡ env.user)))
write-locks codec orm env vals self self' r r' h p =
    let a = written-Edited codec orm env vals r r' self self' h p in
    (
      a.not_closed,
      elim (Bool-cases (any is_control vals)) [
        | inl touched ↦ inr (Edited-touched codec env vals r r' a touched)
        | inr untouched ↦ inl (Edited-plain codec env vals r r' a untouched).1
      ],
      elim (Bool-cases (any is_shown vals)) [
        | inl reported ↦ inr (Edited-reported codec env vals r r' a reported)
        | inr unreported ↦ inl (
            ap report_view a.stored
            ∙ edited_report codec vals r
            ∙ report_same codec vals r a.no_workflow unreported)
      ],
    )
