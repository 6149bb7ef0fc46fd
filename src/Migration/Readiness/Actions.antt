-- ===== src/Migration/Readiness/Actions.antt =====
-- The workflow actions, `write` and `unlink` of a transition readiness review.
use perfect_match_qms.Prelude.{
  ℕ, ◌==◌, Bool, true, false, not, ◌&&◌, ◌||◌, String, str_eq, Option, none, some, List, [], ◌∷◌,
  any, filtered,
}
use perfect_match_qms.Odoo.{
  Env, access_error, user_error, Result, ok, ◌>>◌, raise_if, traverse, is_set, exists, same, Orm,
}
use perfect_match_qms.Migration.Snapshots.{Scalar}
use perfect_match_qms.Migration.Actions.{manager_group, same_text}
use perfect_match_qms.Migration.Execution.{update}
use perfect_match_qms.Migration.Package.Actions.{is_unverified, maps_to}
use perfect_match_qms.Migration.Readiness.{
  Decision, GapAssessment, Readiness, ReviewState, ReviewText, action_snapshot, any_action,
  completed_count, decision_text, is_completed, is_unresolved, open_action_count, review_in,
  total_count, draft, submitted, approved, returned, review_basis, residual_risk_summary,
  decision_notes,
}

-- `_check_manager_permission`
unfoldable pub check_review_manager : Env → Result (Unit {0})
check_review_manager env =
    raise_if (not (env.has_group manager_group))
      (access_error "Only QMS Managers or Administrators can manage transition readiness reviews.")

pub data ReviewAction : Type 0 where
  submit_review approve_review return_review : ReviewAction

pub data ReviewAssignment : Type 0 where
  set_review_state : ReviewState → ReviewAssignment
  set_counts : ℕ → ℕ → ℕ → ReviewAssignment
  set_snapshot : Option String → ReviewAssignment
  set_submitted set_approved set_returned : Option ℕ → Option ℕ → ReviewAssignment
  set_reason : Option String → ReviewAssignment
  set_decision : Decision → ReviewAssignment
  set_reviewer : ℕ → ReviewAssignment
  set_text : ReviewText → String → ReviewAssignment
  set_unmodelled : ReviewAssignment

abbrev pub text_key : ReviewText → ℕ
text_key review_basis = 0
text_key residual_risk_summary = 1
text_key decision_notes = 2

-- The three counts stand together, and so do the user and the time of a step.
abbrev pub review_assign : ReviewAssignment → Readiness → Readiness
review_assign (set_review_state v) r = record r { state = v }
review_assign (set_counts total completed unfinished) r = record r {
  total_action_count_snapshot = total;
  completed_action_count_snapshot = completed;
  open_action_count_snapshot = unfinished;
}
review_assign (set_snapshot v) r = record r { action_state_snapshot = v }
review_assign (set_submitted by on) r = record r { submitted_by_id = by; submitted_date = on }
review_assign (set_approved by on) r = record r { approved_by_id = by; approved_date = on }
review_assign (set_returned by on) r = record r { returned_by_id = by; returned_date = on }
review_assign (set_reason v) r = record r { return_reason = v }
review_assign (set_decision v) r = record r { decision = v }
review_assign (set_reviewer v) r = record r { reviewer_id = v }
review_assign (set_text k v) r = record r { texts = update text_key k v r.texts }
review_assign set_unmodelled r = r

module _ (dumps : List (List (String × Scalar)) → String) (env : Env) where
  -- The tests of `action_approve`.
  unfoldable pub check_approve : GapAssessment → Readiness → Result (Unit {0})
  unfolding total_count completed_count open_action_count
  check_approve a r = do
    raise_if (not (review_in r.state submitted))
        (user_error "Only submitted readiness reviews can be approved.")
    raise_if (not (r.reviewer_id == env.user))
        (access_error "Only the assigned independent reviewer can approve this review.")
    raise_if (same r.submitted_by_id (some env.user))
        (access_error "The submitter cannot approve their own readiness review.")
    raise_if
        (not (total_count a == r.total_action_count_snapshot)
          || not (completed_count a == r.completed_action_count_snapshot)
          || not (open_action_count a == r.open_action_count_snapshot)
          || not (same_text (some (action_snapshot dumps a)) r.action_state_snapshot))
        (user_error
          "Transition action status or relationships changed after submission; return and resubmit the review.")
    raise_if
        (exists a.implementation_project_id
          && not (same a.implementation_project_id (some r.implementation_project_id)))
        (user_error
          "Assessment project alignment changed after submission; return and resubmit the review.")
    raise_if (any_action a && not (maps_to a.actions (some r.implementation_project_id))) (
        user_error
          "Transition action project alignment changed after submission; return and resubmit the review.")
    raise_if
        (not (any_action a)
          && (not (same a.implementation_project_id (some r.implementation_project_id))
              || any is_unresolved a.line_statuses))
        (user_error
          "No-action review eligibility changed after submission; return and resubmit the review.")
    raise_if (any is_unverified (filtered is_completed a.actions))
        (user_error "Every completed transition action requires an independent verifier.")
    raise_if (str_eq (decision_text r.decision) "internal_review" && not (open_action_count a == 0))
        (user_error
          "All controlled transition actions must be completed before proceeding to internal review.")
    raise_if (str_eq (decision_text r.decision) "continue_actions" && open_action_count a == 0)
        (user_error "Use the internal-review decision when no transition actions remain open.")

  -- The tests of each method at one review, whose assessment is `a` at the call.
  unfoldable pub check_review : ReviewAction → GapAssessment → Readiness → Result (Unit {0})
  unfolding check_approve
  check_review submit_review a r = do
    raise_if (not (review_in r.state draft || review_in r.state returned))
        (user_error "Only draft or returned reviews can be submitted.")
    raise_if (r.reviewer_id == env.user)
        (user_error "The submitter and assigned reviewer must be different users.")
  check_review approve_review a r = check_approve a r
  check_review return_review a r = do
    raise_if (not (review_in r.state submitted))
        (user_error "Only submitted readiness reviews can be returned.")
    raise_if (not (r.reviewer_id == env.user))
        (access_error "Only the assigned independent reviewer can return this review.")
    raise_if (not (is_set r.return_reason))
        (user_error "Document a return reason before returning the review.")

  -- What each method writes.
  unfoldable pub review_action_values :
      ReviewAction → GapAssessment → Readiness → List ReviewAssignment
  unfolding total_count completed_count open_action_count
  review_action_values submit_review a r =
      set_review_state submitted
      ∷ set_counts (total_count a) (completed_count a) (open_action_count a)
      ∷ set_snapshot (some (action_snapshot dumps a))
      ∷ set_submitted (some env.user) (some env.now)
      ∷ set_approved none none
      ∷ set_returned none none
      ∷ set_reason none
      ∷ []
  review_action_values approve_review a r =
      set_review_state approved ∷ set_approved (some env.user) (some env.now) ∷ []
  review_action_values return_review a r =
      set_review_state returned ∷ set_returned (some env.user) (some env.now) ∷ []

  module _ (orm : Orm review_assign) (assessments : ℕ → GapAssessment) where
    -- The body of each method's loop. `_write_workflow` calls `super().write`.
    unfoldable pub run_review_one : ReviewAction → Readiness → Result Readiness
    unfolding check_review review_action_values
    run_review_one action r =
        check_review action (assessments r.assessment_id) r
        >> orm.super_write (review_action_values action (assessments r.assessment_id) r) r

    -- The `action_*` methods. `assessments` is the table of assessments at the call.
    unfoldable pub run_review : ReviewAction → List Readiness → Result (List Readiness)
    unfolding check_review_manager run_review_one
    run_review action self = check_review_manager env >> traverse (run_review_one action) self

-- The assignments that `write` bars: `workflow_fields`, and all but the return reason.
abbrev pub is_review_workflow : ReviewAssignment → Bool
is_review_workflow (set_review_state _) = true
is_review_workflow (set_counts _ _ _) = true
is_review_workflow (set_snapshot _) = true
is_review_workflow (set_submitted _ _) = true
is_review_workflow (set_approved _ _) = true
is_review_workflow (set_returned _ _) = true
is_review_workflow _ = false

abbrev pub is_review_barred : ReviewAssignment → Bool
is_review_barred (set_reason _) = false
is_review_barred _ = true

unfoldable pub write_review :
    Orm review_assign → Env → List ReviewAssignment → List Readiness → Result (List Readiness)
unfolding check_review_manager
write_review orm env vals self = do
  raise_if (any (λ (r : Readiness). review_in r.state approved) self)
      (access_error "Approved transition readiness reviews are immutable.")
  raise_if (any is_review_workflow vals)
      (access_error "Workflow and snapshot fields cannot be changed directly.")
  raise_if (any is_review_barred vals && any (λ (r : Readiness). review_in r.state submitted) self)
      (access_error "Submitted readiness reviews are locked pending reviewer action.")
  check_review_manager env
  traverse (orm.super_write vals) self

-- `unlink` of the reviews that a test selects, in a table of reviews.
unfoldable pub unlink_reviews : Env → (Readiness → Bool) → List Readiness → Result (List Readiness)
unfolding check_review_manager
unlink_reviews env self table = do
  check_review_manager env
  raise_if
      (any
        (λ (r : Readiness). self r && not (review_in r.state draft || review_in r.state returned))
        table)
      (user_error "Only draft or returned readiness reviews can be deleted.")
  ok (filtered (λ r. not (self r)) table)
