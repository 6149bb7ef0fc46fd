-- ===== src/Migration/ReadinessTests.antt =====
-- A readiness review with one transition action, and the theorem about its approval.
use perfect_match_qms.Prelude.{ℕ, ◌≡◌, refl, true, String, none, some, List, [], ◌∷◌}
use Prim.Native.String.{◌++◌ as str_append}
use perfect_match_qms.Odoo.{Env, ok, user_error, err, assign_all, permissive}
use perfect_match_qms.Migration.Snapshots.{Scalar}
use perfect_match_qms.Migration.Package.{TransitionAction}
use perfect_match_qms.Migration.Package.Actions.{check_preflight}
use perfect_match_qms.Migration.Package.Edits.{new_package}
use perfect_match_qms.Migration.Readiness.{
  draft, internal_review, GapAssessment, Readiness, as_review, total_count, completed_count,
  open_action_count,
}
use perfect_match_qms.Migration.Readiness.Actions.{
  check_review_manager, check_approve, check_review, review_action_values, run_review_one,
  run_review, review_assign, ReviewAction, submit_review, approve_review, write_review,
}
use perfect_match_qms.Migration.Eligible.{check_own, approve-preflight}

program : Unit {0}
unfolding total_count completed_count open_action_count check_review_manager check_approve
    check_review review_action_values run_review_one run_review write_review check_preflight
    check_own
program = tt

abbrev dumps : List (List (String × Scalar)) → String
dumps [] = ""
dumps (_ ∷ rest) = str_append "{}" (dumps rest)

abbrev as_manager : ℕ → Env
as_manager user = record { user = user; has_group = λ _. true; today = 0; now = user }

abbrev completed : TransitionAction
completed = record {
  id = 1;
  code = "ISO-TA-00001";
  state = "completed";
  implementation_project_id = some 8;
  submitted_by_id = some 2;
  verified_by_id = some 1;
}

abbrev assessment : GapAssessment
assessment = record {
  id = 4;
  implementation_project_id = some 8;
  line_statuses = "gap" ∷ [];
  actions = completed ∷ [];
}

-- User 1 reviews.
abbrev review : Readiness
review = record {
  id = 5;
  name = "Readiness";
  code = "ISO-TRR-00001";
  assessment_id = 4;
  company_id = 3;
  implementation_project_id = 8;
  reviewer_id = 1;
  decision = internal_review;
  state = draft;
  texts = λ _. "Text";
  source_edition_snapshot = some "2015";
  target_edition_snapshot = "2026";
  total_action_count_snapshot = 0;
  completed_action_count_snapshot = 0;
  open_action_count_snapshot = 0;
  action_state_snapshot = none;
  submitted_by_id = none;
  submitted_date = none;
  approved_by_id = none;
  approved_date = none;
  returned_by_id = none;
  returned_date = none;
  return_reason = none;
}

abbrev after : ReviewAction → ℕ → Readiness → Readiness
unfolding program
after action user r =
    assign_all review_assign (review_action_values dumps (as_manager user) action assessment r) r

abbrev submitted_review : Readiness
submitted_review = after submit_review 2 review

submitted_by_another :
    run_review dumps
      (as_manager 2)
      (permissive review_assign)
      (λ _. assessment)
      submit_review
      (review ∷ [])
    ≡ ok (submitted_review ∷ [])
unfolding program after
submitted_by_another = refl

own_submission_refused :
    run_review dumps
      (as_manager 1)
      (permissive review_assign)
      (λ _. assessment)
      submit_review
      (review ∷ [])
    ≡ err (user_error "The submitter and assigned reviewer must be different users.")
unfolding program after
own_submission_refused = refl

approved_by_reviewer :
    run_review dumps
      (as_manager 1)
      (permissive review_assign)
      (λ _. assessment)
      approve_review
      (submitted_review ∷ [])
    ≡ ok (after approve_review 1 submitted_review ∷ [])
unfolding program after
approved_by_reviewer = refl

-- An action that was reopened after the submission.
changed_refused :
    check_review dumps
      (as_manager 1)
      approve_review
      (record assessment { actions = record completed { state = "in_progress" } ∷ [] })
      submitted_review
    ≡ err (
        user_error
          "Transition action status or relationships changed after submission; return and resubmit the review.")
unfolding program after
changed_refused = refl

approve-preflight_example :
    check_preflight
      (as_review (after approve_review 1 submitted_review) assessment)
      (new_package (as_manager 1) 7 "ISO-MIG-00001" "2015" (as_review submitted_review assessment))
    ≡ check_own (
        new_package (as_manager 1) 7 "ISO-MIG-00001" "2015" (as_review submitted_review assessment))
unfolding program after
approve-preflight_example =
    approve-preflight dumps (as_manager 1) assessment submitted_review refl refl
      (new_package (as_manager 1) 7 "ISO-MIG-00001" "2015" (as_review submitted_review assessment))
