-- ===== src/Migration/Readiness.antt =====
-- The transition readiness review (PmQmsIso9001TransitionReview of models/transition_review.py).
use perfect_match_qms.Prelude.{
  ℕ, ◌==◌, pos, Bool, true, false, not, ◌&&◌, ◌||◌, String, str_eq, Option, none, some, List, [],
  ◌∷◌, length, any, map, filtered,
}
use perfect_match_qms.Odoo.{
  Env, access_error, user_error, Result, ok, ◌>>◌, raise_if, traverse, is_set, exists, same, Orm,
}
use perfect_match_qms.Migration.Snapshots.{Scalar, text, integer}
use perfect_match_qms.Migration.Actions.{manager_group, same_text}
use perfect_match_qms.Migration.Execution.{update}
use perfect_match_qms.Migration.Package.{TransitionAction, maybe_id, Review}
use perfect_match_qms.Migration.Package.Actions.{is_unverified, maps_to}
pub mod Actions

pub data ReviewState : Type 0 where
  draft submitted approved returned : ReviewState

pub data Decision : Type 0 where
  hold continue_actions internal_review : Decision

pub data ReviewText : Type 0 where
  review_basis residual_risk_summary decision_notes : ReviewText

-- The gap assessment, as the review reads it.
pub record GapAssessment : Type 0 where
  pub id : ℕ
  pub implementation_project_id : Option ℕ
  pub line_statuses : List String
  pub actions : List TransitionAction

pub record Readiness : Type 0 where
  pub id : ℕ
  pub name : String
  pub code : String
  pub assessment_id : ℕ
  pub company_id : ℕ
  pub implementation_project_id : ℕ
  pub reviewer_id : ℕ
  pub decision : Decision
  pub state : ReviewState
  pub texts : ReviewText → String
  pub source_edition_snapshot : Option String
  pub target_edition_snapshot : String
  pub total_action_count_snapshot : ℕ
  pub completed_action_count_snapshot : ℕ
  pub open_action_count_snapshot : ℕ
  pub action_state_snapshot : Option String
  pub submitted_by_id : Option ℕ
  pub submitted_date : Option ℕ
  pub approved_by_id : Option ℕ
  pub approved_date : Option ℕ
  pub returned_by_id : Option ℕ
  pub returned_date : Option ℕ
  pub return_reason : Option String

abbrev pub review_state_key : ReviewState → ℕ
review_state_key draft = 0
review_state_key submitted = 1
review_state_key approved = 2
review_state_key returned = 3

abbrev pub review_in : ReviewState → ReviewState → Bool
review_in a b = review_state_key a == review_state_key b

abbrev pub state_text : ReviewState → String
state_text draft = "draft"
state_text submitted = "submitted"
state_text approved = "approved"
state_text returned = "returned"

abbrev pub decision_text : Decision → String
decision_text hold = "hold"
decision_text continue_actions = "continue_actions"
decision_text internal_review = "internal_review"

-- The review as a package reads it.
abbrev pub as_review : Readiness → GapAssessment → Review
as_review r a = record {
  id = r.id;
  name = r.name;
  state = state_text r.state;
  decision = some (decision_text r.decision);
  source_edition_snapshot = r.source_edition_snapshot;
  target_edition_snapshot = r.target_edition_snapshot;
  company_id = r.company_id;
  assessment_id = a.id;
  implementation_project_id = some r.implementation_project_id;
  assessment_project_id = a.implementation_project_id;
  line_statuses = a.line_statuses;
  actions = a.actions;
}

abbrev pub is_completed : TransitionAction → Bool
is_completed action = str_eq action.state "completed"

-- `_action_counts`
unfoldable pub total_count : GapAssessment → ℕ
total_count a = length a.actions

unfoldable pub completed_count : GapAssessment → ℕ
completed_count a = length (filtered is_completed a.actions)

unfoldable pub open_action_count : GapAssessment → ℕ
open_action_count a = length (filtered (λ action. not (is_completed action)) a.actions)

-- `_action_snapshot`: `dumps` is `json.dumps` of a list of dictionaries. The actions are in the order
-- of their ids.
abbrev pub snapshot_values : TransitionAction → List (String × Scalar)
snapshot_values action =
    ("id", integer (pos action.id))
    ∷ ("state", text action.state)
    ∷ ("project_id", maybe_id action.implementation_project_id)
    ∷ ("submitted_by_id", maybe_id action.submitted_by_id)
    ∷ ("verified_by_id", maybe_id action.verified_by_id)
    ∷ []

abbrev pub action_snapshot : (List (List (String × Scalar)) → String) → GapAssessment → String
action_snapshot dumps a = dumps (map snapshot_values a.actions)

abbrev pub any_action : GapAssessment → Bool
any_action a = any (λ _. true) a.actions

abbrev pub is_unresolved : String → Bool
is_unresolved status = str_eq status "partial" || str_eq status "gap"
