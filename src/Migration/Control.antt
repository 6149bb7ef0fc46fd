-- ===== src/Migration/Control.antt =====
-- The control that the stages of an execution record keep, and that its calls keep it.
use perfect_match_qms.Prelude.{ℕ, String, ◌==◌, ◌≡◌, true, false, str_eq, some, any}
use perfect_match_qms.Odoo.{exists}
use perfect_match_qms.Migration.Snapshots.{Codec}
use perfect_match_qms.Migration.Execution.{
  State, draft, preflight_passed, authorized, in_progress, recorded, submitted, returned, closed,
  authorization, start, finish, submission, closure, Execution,
}
use perfect_match_qms.Migration.Actions.{placeholder, control_texts}
use perfect_match_qms.Migration.Views.{ControlView, control_view, ReportView, report_view}

module _ (codec : Codec) where
  -- The controls are those of the preflight, but for the company, and no field still has its
  -- placeholder.
  abbrev pub IsSealed : ControlView → Type 0
  IsSealed w =
      ((company : ℕ) × (w.snapshot ≡ some (codec.dumps (w.rendered company)))
        × (w.sha256 ≡ some (codec.sha256 (codec.dumps (w.rendered company)))))
      × (any (λ k. str_eq (w.controls k) (placeholder k)) control_texts ≡ false)

  -- The reviewer, who is not the operator, has authorized them.
  abbrev pub IsAuthorized : ControlView → Type 0
  IsAuthorized w =
      IsSealed w
      × (w.by authorization ≡ some w.reviewer_id)
      × ((w.operator_id == w.reviewer_id) ≡ false)

  -- The operator has started.
  abbrev pub IsStarted : ControlView → Type 0
  IsStarted w = IsAuthorized w × (w.by start ≡ some w.operator_id)

  -- The operator has recorded an outcome, and the report snapshot has its digest.
  abbrev pub IsReported : ControlView → ReportView → Type 0
  IsReported w v =
      IsStarted w
      × ((report : String) × (v.snapshot ≡ some report) × (v.sha256 ≡ some (codec.sha256 report)))
      × (exists v.outcome ≡ true)
      × (w.by finish ≡ some w.operator_id)

  -- The operator has submitted it.
  abbrev pub IsSubmitted : ControlView → ReportView → Type 0
  IsSubmitted w v = IsReported w v × (w.by submission ≡ some w.operator_id)

  -- The reviewer has closed it.
  abbrev pub IsClosed : ControlView → ReportView → Type 0
  IsClosed w v = IsSubmitted w v × (w.by closure ≡ some w.reviewer_id)

  -- What each state requires. No record is in the state `returned`.
  abbrev pub Stage : State → ControlView → ReportView → Type 0
  Stage draft w v = Unit
  Stage preflight_passed w v = IsSealed w
  Stage authorized w v = IsAuthorized w
  Stage in_progress w v = IsStarted w
  Stage recorded w v = IsReported w v
  Stage submitted w v = IsSubmitted w v
  Stage returned w v = ⊥
  Stage closed w v = IsClosed w v

  abbrev pub IsControlled : Execution → Type 0
  IsControlled r = Stage r.state (control_view r) (report_view r)
