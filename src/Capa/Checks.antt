-- ===== src/Capa/Checks.antt =====
-- The rules of models/capa.py that read one CAPA: where it comes from, what an analysis needs before
-- it starts and before its actions are planned, which of its dates have passed.
use perfect_match_qms.Prelude.{
  ℕ, suc, zero, ◌-◌, ◌==◌, ltb, Bool, true, false, not, ◌&&◌, ◌||◌, Option, none, some, List, [],
  ◌∷◌, map, if◌then◌else◌, length, any, all, filtered, is_empty,
}
use perfect_match_qms.Odoo.{
  Env, user_error, validation_error, Result, ◌>>◌, raise_if, for_each, is_set, exists, same,
  is_filled, Linked,
}
use perfect_match_qms.Capa.Types.{
  State, SourceType, Method, Investigation, ActionStatus, Why, Fishbone, IsIsNot, CapaAction, Capa,
}
use perfect_match_qms.Capa.Structure.{
  why_sequences, sequences, same_set, dimensions, has_dimension, dimension_sequences,
}

-- A linked record belongs to the company and to the organization of the CAPA.
abbrev pub aligned : Capa → Linked → Bool
aligned capa r = same r.company_id capa.company_id && same r.organization_id capa.organization_id

abbrev pub aligned? : Capa → Option Linked → Bool
aligned? capa none = true
aligned? capa (some r) = aligned capa r

-- The first `if` of `_validate_source_provenance`.
unfoldable pub check_source : SourceType → (ncr risk : Option Linked) → Result (Unit {0})
check_source SourceType.ncr ncr risk = do
  raise_if (not (exists ncr))
      (validation_error "Select the originating NCR when Source Type is NCR.")
  raise_if (exists risk)
      (validation_error "An originating Risk cannot be linked when Source Type is NCR.")
check_source SourceType.risk ncr risk = do
  raise_if (not (exists risk))
      (validation_error "Select the originating Risk when Source Type is Risk.")
  raise_if (exists ncr)
      (validation_error "An originating NCR cannot be linked when Source Type is Risk.")
check_source _ ncr risk = raise_if (exists ncr || exists risk) (
    validation_error
      "Originating NCR and Originating Risk are not applicable to the selected Source Type.")

-- `_validate_source_provenance` at one record.
unfoldable pub validate_source_provenance : Capa → Result (Unit {0})
unfolding check_source
validate_source_provenance capa = do
  check_source capa.source_type capa.source_ncr_id capa.source_risk_id
  raise_if (not (aligned? capa capa.source_ncr_id))
      (validation_error "Originating NCR must match the CAPA company and organization.")
  raise_if (not (aligned? capa capa.source_risk_id))
      (validation_error "Originating risk must match the CAPA company and organization.")

abbrev pub is_draft : State → Bool
is_draft State.draft = true
is_draft _ = false

abbrev clear_sources : SourceType → Capa → Capa
clear_sources SourceType.ncr capa = record capa { source_risk_id = none }
clear_sources SourceType.risk capa = record capa { source_ncr_id = none }
clear_sources _ capa = record capa { source_ncr_id = none; source_risk_id = none }

-- `_onchange_source_type`
unfoldable pub onchange_source_type : Capa → Capa
onchange_source_type capa =
    if not (is_draft capa.state) then capa else clear_sources capa.source_type capa

-- `_check_process_alignment` at one record.
unfoldable pub check_process_alignment : Capa → Result (Unit {0})
check_process_alignment capa = elim capa.process_id [
  | none ↦
      raise_if (exists capa.company_id)
        (validation_error "CAPA process must belong to the same company as the organization.")
  | some p ↦ do
    raise_if (not (same p.company_id capa.company_id))
        (validation_error "CAPA process must belong to the same company as the organization.")
    raise_if (exists p.organization_id && not (same p.organization_id capa.organization_id))
        (validation_error "CAPA process must belong to the selected organization.")
]

-- `_check_related_records_alignment` at one record.
unfoldable pub check_related_records_alignment : Capa → Result (Unit {0})
check_related_records_alignment capa = do
  for_each
      (λ (r : Linked). raise_if (not (aligned capa r)) (
        validation_error "Related control instances must match the CAPA company and organization."))
      capa.related_control_instance_ids
  for_each
      (λ (r : Linked).
        raise_if (not (aligned capa r))
          (validation_error "Related documents must match the CAPA company and organization."))
      capa.related_document_ids

-- `_validate_analysis_start`. The method is a required selection, so it is always there.
unfoldable pub validate_analysis_start : Capa → Result (Unit {0})
unfolding validate_source_provenance
validate_analysis_start capa = do
  validate_source_provenance capa
  raise_if (not (is_set capa.name && is_filled capa.name))
      (user_error "Complete the CAPA name before starting root cause analysis.")
  raise_if (not (exists capa.organization_id))
      (user_error "Complete the organization before starting root cause analysis.")
  raise_if (not (exists capa.process_id))
      (user_error "Complete the process before starting root cause analysis.")
  raise_if (not (is_set capa.problem_statement && is_filled capa.problem_statement))
      (user_error "Complete the CAPA problem statement before starting root cause analysis.")

-- A dictionary from sequences to whether the slot is answered.
abbrev pub Answers : Type 0
Answers = List (ℕ × Bool)

abbrev pub get : ℕ → Answers → Option Bool
get k [] = none
get k ((j, v) ∷ m) = if j == k then some v else get k m

abbrev pub insert : ℕ → Bool → Answers → Answers
insert k v [] = (k, v) ∷ []
insert k v ((j, w) ∷ m) = if j == k then (k, v) ∷ m else (j, w) ∷ insert k v m

-- The dictionary comprehension over the slots, which adds them in order.
unfoldable pub answers_from : Answers → List Why → Answers
answers_from m [] = m
answers_from m (w ∷ ws) = answers_from (insert w.sequence (is_filled w.answer) m) ws

-- `max(sequence for sequence, answered in answers.items() if answered)`; 0 where there is none,
-- which the test of the first slot has ruled out.
unfoldable pub highest : Answers → ℕ
highest [] = 0
highest ((n, answered) ∷ m) = let rest = highest m in if answered && ltb rest n then n else rest

abbrev pub is_true : Option Bool → Bool
is_true (some true) = true
is_true _ = false

-- `any(not answers[sequence] for sequence in range(1, n + 1))`. The slots have been checked to cover
-- 1 to 5, so no key is missing.
unfoldable pub has_gap : Answers → ℕ → Bool
has_gap m zero = false
has_gap m (suc n) = has_gap m n || not (is_true (get (suc n) m))

unfoldable pub validate_five_why : List Why → Result (Unit {0})
unfolding answers_from highest has_gap
validate_five_why slots = do
  raise_if (not (length slots == 5) || not (same_set (sequences slots) why_sequences)) (
      user_error
        "5 Why analysis must contain exactly one valid slot for each sequence 1 through 5.")
  let answers = answers_from [] slots
  raise_if (not (is_true (get 1 answers)))
      (user_error "Why 1 must be answered before planning CAPA actions.")
  raise_if (has_gap answers (highest answers))
      (user_error "5 Why answers must be contiguous; trailing blank slots are allowed.")

abbrev pub is_confirmed : Fishbone → Bool
is_confirmed cause = elim cause.investigation_status [ Investigation.confirmed ↦ true | _ ↦ false ]

unfoldable pub validate_fishbone : List Fishbone → Result (Unit {0})
validate_fishbone causes = do
  raise_if (is_empty causes) (user_error "Fishbone analysis requires at least one potential cause.")
  let confirmed = filtered is_confirmed causes
  raise_if (is_empty confirmed)
      (user_error "Fishbone analysis requires at least one confirmed cause.")
  raise_if
      (any (λ (c : Fishbone). not (is_set c.evidence_basis) || not (is_set c.rationale_finding))
        confirmed)
      (user_error "Confirmed Fishbone causes require evidence basis and rationale.")

abbrev pub is_complete : IsIsNot → Bool
is_complete row = is_set row.is_value && (is_set row.is_not_value && is_set row.distinction)

unfoldable pub validate_is_is_not : List IsIsNot → Result (Unit {0})
validate_is_is_not rows = do
  let ds = map (λ (r : IsIsNot). r.dimension) rows
  raise_if
      (not (length rows == 4)
        || (not (all (λ d. has_dimension d ds) dimensions)
            || not (same_set (map (λ (r : IsIsNot). r.sequence) rows) dimension_sequences)))
      (user_error "Is / Is Not analysis requires What, Where, When, and Extent rows.")
  raise_if (any (λ (r : IsIsNot). not (is_complete r)) rows)
      (user_error "Is / Is Not requires IS, IS NOT, and Distinction for every dimension.")

abbrev validate_by : Method → Capa → Result (Unit {0})
validate_by Method.five_why capa = validate_five_why capa.why_ids
validate_by Method.fishbone capa = validate_fishbone capa.fishbone_ids
validate_by Method.is_is_not capa = validate_is_is_not capa.is_is_not_ids
validate_by Method.other capa =
    raise_if (not (is_set capa.other_method_name))
      (user_error "Other method requires the method/tool, analysis, and verified root cause.")

-- `_validate_root_cause_method`
unfoldable pub validate_root_cause_method : Capa → Result (Unit {0})
validate_root_cause_method capa = do
  raise_if (not (is_set capa.root_cause_analysis) || not (is_set capa.root_cause)) (
      user_error
        "Root cause analysis summary and verified root cause are required before planning actions.")
  validate_by capa.root_cause_method capa

-- The states in which no date counts as overdue.
abbrev pub is_finished : State → Bool
is_finished State.effective = true
is_finished State.closed = true
is_finished State.cancelled = true
is_finished _ = false

abbrev pub passed : Option ℕ → ℕ → Bool
passed none today = false
passed (some date) today = ltb date today

-- `(today - date).days`
abbrev pub days_since : Option ℕ → ℕ → ℕ
days_since none today = 0
days_since (some date) today = today - date

pub record Overdue : Type 0 where
  pub is_overdue : Bool
  pub days_overdue : ℕ
  pub effectiveness_is_overdue : Bool
  pub effectiveness_days_overdue : ℕ

-- `_compute_overdue` at one record.
unfoldable pub compute_overdue : Env → Capa → Overdue
compute_overdue env capa =
    let overdue = not (is_finished capa.state) && passed capa.target_date env.today in
    let review_overdue =
      capa.effectiveness_required
      && (not (is_finished capa.state) && passed capa.effectiveness_review_date env.today) in
    record {
      is_overdue = overdue;
      days_overdue = if overdue then days_since capa.target_date env.today else 0;
      effectiveness_is_overdue = review_overdue;
      effectiveness_days_overdue =
          if review_overdue then days_since capa.effectiveness_review_date env.today else 0;
    }

abbrev pub is_settled : ActionStatus → Bool
is_settled ActionStatus.verified = true
is_settled ActionStatus.cancelled = true
is_settled _ = false

-- `_compute_action_counts` at one record: all actions, and those still open.
unfoldable pub compute_action_counts : Capa → ℕ × ℕ
compute_action_counts capa = (
  length capa.action_ids,
  length (filtered (λ (a : CapaAction). not (is_settled a.status)) capa.action_ids),
)
