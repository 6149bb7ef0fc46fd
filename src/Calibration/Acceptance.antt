-- ===== src/Calibration/Acceptance.antt =====
-- What `action_accept` leaves of the event, of the equipment and of its impact assessments.
use perfect_match_qms.Prelude.{
  ℕ, ◌≤◌, ◌≡◌, ◌⊎◌, refl, sym, ap, ◌∙◌, subst, arith, Bool, true, false, not, ◌&&◌, ◌||◌, Option,
  none, some, List, [], ◌∷◌, Bool-cases, inl, inr, any, if◌then◌else◌, if_true, if_false,
}
use perfect_match_qms.Odoo.{
  Env, ok, raise_if, >>=-eq-ok, >>-eq-ok, ok-injective, exists, assign_all, Orm, Creation,
}
use perfect_match_qms.Calibration.Assessments.{Assessment, manager_group}
use perfect_match_qms.Calibration.Types.{
  CalibrationEvent, in_service, Equipment, EventAssignment, sets_state, is_locked, accepted,
  set_next_due_date, assign_event, set_lifecycle_state, assign_equipment, is_accepted, is_passing,
  is_retired, LoggedEvent,
}
use perfect_match_qms.Calibration.Checks.{
  check_intervals, check_dates, is_dated, is_dated-check, interval-check,
}
use perfect_match_qms.Calibration.Accept.{
  Relativedelta, administrator_group, add_interval, check_event_manager, write_event, Case,
  require_date, review_values, complete_due_date, conclude, accept,
}

pub write_event-exact :
    (orm : Orm assign_event) (env : Env) (flag : Bool) (vals : List EventAssignment)
    (e new : CalibrationEvent)
    → write_event orm env flag vals e ≡ ok new
    → new ≡ assign_all assign_event vals e
unfolding write_event
write_event-exact orm env flag vals e new h =
    let (_, rest) = >>-eq-ok (raise_if (any sets_state vals && not flag) _) _ h in
    let (_, stored) =
      >>-eq-ok
        (raise_if
          (any is_locked vals && (is_accepted e.state && not (env.has_group administrator_group)))
          _)
        _ rest in
    orm.write_exact vals e new stored

require_date-ok : (o : Option ℕ) (date : ℕ) → require_date o ≡ ok date → o ≡ some date
require_date-ok none date h = cc
require_date-ok (some d) date h = ap some (ok-injective h)

-- A passing event of equipment that needs calibration has a next due date.
abbrev pub is_scheduled : Equipment → CalibrationEvent → Bool
is_scheduled q e = not (is_passing e.result && q.calibration_required) || exists e.next_due_date

module _ (orm : Orm assign_event) (equipment_orm : Orm assign_equipment)
    (creation : Creation Assessment) (relativedelta : Relativedelta) (env : Env) where
  -- The event that the second loop of `action_accept` gets.
  pub record Reviewed (q : Equipment) (e new : CalibrationEvent) : Type 0 where
    pub is_now_accepted : new.state ≡ accepted
    pub reviewer : new.reviewed_by_id ≡ some env.user
    pub reviewed_on : new.review_date ≡ some env.today
    pub same_id : new.id ≡ e.id
    pub same_result : new.result ≡ e.result
    pub same_date : new.calibration_date ≡ e.calibration_date
    pub same_assessment : new.impact_assessment_id ≡ e.impact_assessment_id
    pub scheduled : is_scheduled q new ≡ true
    pub dated : is_dated new ≡ true

  after_review :
      (date : ℕ) (q : Equipment) (e dated new : CalibrationEvent)
      → 1 ≤ q.frequency_interval
      → is_dated e ≡ true
      → e.calibration_date ≡ some date
      → complete_due_date orm equipment_orm creation relativedelta env date q e ≡ ok dated
      → write_event orm env true (review_values env) dated ≡ ok new
      → Reviewed q e new
  unfolding complete_due_date
  after_review date q e dated new positive before found completed stored =
      let exact = write_event-exact orm env true (review_values env) dated new stored in
      elim (Bool-cases
        (is_passing e.result && (not (exists e.next_due_date) && q.calibration_required))) [
          | inl missing ↦
              let due = set_next_due_date (some (add_interval relativedelta q date)) ∷ [] in
              let written =
                write_event-exact orm env false due e dated
                  (sym (if_true _ _ (ok e) missing) ∙ completed) in
              let later =
                relativedelta.shift_later q.frequency_unit q.frequency_interval date positive in
              subst (Reviewed q e)
                (sym (exact ∙ ap (assign_all assign_event (review_values env)) written))
                (record {
                  is_now_accepted = refl;
                  reviewer = refl;
                  reviewed_on = refl;
                  same_id = refl;
                  same_result = refl;
                  same_date = refl;
                  same_assessment = refl;
                  scheduled = ground arith;
                  dated = rw found (ground (arith, later));
                })
          | inr present ↦
              let kept = ok-injective (sym (if_false _ _ (ok e) present) ∙ completed) in
              subst (Reviewed q e)
                (sym (exact ∙ ap (assign_all assign_event (review_values env)) (sym kept)))
                (record {
                  is_now_accepted = refl;
                  reviewer = refl;
                  reviewed_on = refl;
                  same_id = refl;
                  same_result = refl;
                  same_date = refl;
                  same_assessment = refl;
                  scheduled = ground (arith, present);
                  dated = before;
                })
        ]

  pub accept-parts :
      (id : ℕ) (case case' : Case) (events : List LoggedEvent)
      → check_intervals case.equipment ≡ ok tt
      → check_dates case.event ≡ ok tt
      → accept orm equipment_orm creation relativedelta env id case ≡ ok (case', events)
      → (env.has_group manager_group ≡ true)
        × ((date : ℕ) × (e : CalibrationEvent) × (logs : List LoggedEvent) × Reviewed case.equipment
              case.event e
            × (conclude orm equipment_orm creation relativedelta env id date e case
                ≡ ok (case', logs)))
  unfolding accept check_event_manager
  accept-parts id case case' events positive before h =
      let (manager, one) = >>-eq-ok (check_event_manager env) _ h in
      let (date, dated, two) = >>=-eq-ok (require_date case.event.calibration_date) _ one in
      let (completed, stored, three) =
        >>=-eq-ok
          (complete_due_date orm equipment_orm creation relativedelta env date case.equipment
            case.event)
          _ two in
      let (reviewed, written, four) =
        >>=-eq-ok (write_event orm env true (review_values env) completed) _ three in
      let (concluded, ran, done) =
        >>=-eq-ok (conclude orm equipment_orm creation relativedelta env id date reviewed case) _
          four in
      let found = require_date-ok case.event.calibration_date date dated in
      let same : concluded.0 ≡ case' =
        ap (λ (p : Case × List LoggedEvent). p.0) (ok-injective done) in
      (
        ground (arith, manager),
        (
          date,
          reviewed,
          concluded.1,
          after_review date case.equipment case.event completed reviewed
              (interval-check case.equipment positive) (is_dated-check case.event before) found
              stored written,
          ran ∙ ap (λ c. ok (c, concluded.1)) same,
        ),
      )

  -- What becomes of the equipment when an event passes.
  abbrev pub IsReturned : Equipment → Equipment → Type 0
  IsReturned q new =
      ((is_retired q.lifecycle_state ≡ true) × (new ≡ q))
      ⊎ (new ≡ record q { lifecycle_state = in_service })

  -- Where the checks of the equipment's interval and of the event's dates pass, an event with a passing or
  -- conditional result that is accepted was accepted by a manager. It is then accepted, reviewed by
  -- that user today, and scheduled: it has a next due date after its calibration date where the
  -- equipment needs calibration. The equipment is in service unless it is retired.
  pub accept-IsReturned :
      (id : ℕ) (case case' : Case) (events : List LoggedEvent)
      → check_intervals case.equipment ≡ ok tt
      → check_dates case.event ≡ ok tt
      → is_passing case.event.result ≡ true
      → accept orm equipment_orm creation relativedelta env id case ≡ ok (case', events)
      → (env.has_group manager_group ≡ true)
        × Reviewed case.equipment case.event case'.event
        × IsReturned case.equipment case'.equipment
        × (case'.assessments ≡ case.assessments)
  unfolding conclude
  accept-IsReturned id case case' events positive before passing h =
      let (manager, (date, e, logs, reviewed, ran)) =
        accept-parts id case case' events positive before h in
      let still : is_passing e.result ≡ true = ap is_passing reviewed.same_result ∙ passing in
      let (q, moved, done) =
        >>=-eq-ok
          (if is_retired case.equipment.lifecycle_state
            then ok case.equipment
            else equipment_orm.super_write (set_lifecycle_state in_service ∷ []) case.equipment)
          (λ q. ok (record case { event = e; equipment = q }, []))
          (sym (if_true (is_passing e.result) _ _ still) ∙ ran) in
      let same : record case { event = e; equipment = q } ≡ case' =
        ap (λ (p : Case × List LoggedEvent). p.0) (ok-injective done) in
      subst
        (λ (c : Case).
          (env.has_group manager_group ≡ true)
          × Reviewed case.equipment case.event c.event
          × IsReturned case.equipment c.equipment
          × (c.assessments ≡ case.assessments))
        same
        (
          manager,
          reviewed,
          elim (Bool-cases (is_retired case.equipment.lifecycle_state)) [
            | inl retired ↦ inl (
              retired,
              sym (ok-injective (sym (if_true _ (ok case.equipment) _ retired) ∙ moved)),
            )
            | inr other ↦ inr (
                equipment_orm.write_exact _ case.equipment q
                  (sym (if_false _ (ok case.equipment) _ other) ∙ moved))
          ],
          refl,
        )
