-- ===== src/Calibration/Failure.antt =====
-- What `action_accept` does for an event whose result is no passing one.
use perfect_match_qms.Prelude.{
  ℕ, ◌≡◌, refl, sym, ap, ◌∙◌, subst, ◌==◌, Bool, true, false, Option, none, some, List, [], ◌∷◌,
  ◌++◌, Exists, Exists-map, Bool-cases, inl, inr, if_true, if_false,
}
use perfect_match_qms.Odoo.{Env, ok, >>=-eq-ok, >>-eq-ok, ok-injective, Orm, Creation}
use perfect_match_qms.Event.{Event}
use perfect_match_qms.Calibration.Assessments.{Assessment, manager_group}
use perfect_match_qms.Calibration.Types.{
  CalibrationEvent, Lifecycle, quarantined, Equipment, accepted, set_impact_assessment_id,
  assign_event, set_lifecycle_state, assign_equipment, is_passing, LoggedEvent,
}
use perfect_match_qms.Calibration.Rollup.{check_equipment_manager, move, quarantine}
use perfect_match_qms.Calibration.Checks.{check_intervals, check_dates}
use perfect_match_qms.Calibration.Accept.{
  Relativedelta, write_event, Case, is_found, find, existing, latest, is_previous, new_assessment,
  found_or_new, ensure_impact_assessment, conclude, accept,
}
use perfect_match_qms.Calibration.Acceptance.{write_event-exact, accept-parts}

module _ (orm : Orm assign_event) (equipment_orm : Orm assign_equipment)
    (creation : Creation Assessment) (relativedelta : Relativedelta) (env : Env) where
  find-Exists :
      (f : Assessment → Bool) (assessments : List Assessment) (a : Assessment)
      → find f assessments ≡ some a
      → Exists (λ b. b ≡ a) assessments
  find-Exists f [] a h = cc
  find-Exists f (b ∷ more) a h = elim (Bool-cases (f b)) [
    | inl here ↦
        let same : some b ≡ some a = sym (if_true (f b) (some b) (find f more) here) ∙ h in inl cc
    | inr there ↦ inr (find-Exists f more a (sym (if_false (f b) (some b) (find f more) there) ∙ h))
  ]

  existing-Exists :
      (e : CalibrationEvent) (linked : Option ℕ) (assessments : List Assessment) (a : Assessment)
      → existing (record e { impact_assessment_id = linked }) assessments ≡ some a
      → Exists (λ b. b ≡ a) assessments
  existing-Exists e none assessments a h = find-Exists (is_found e.id) assessments a h
  existing-Exists e (some id) assessments a h = find-Exists (λ b. b.id == id) assessments a h

  found_or_new-Exists :
      (id date : ℕ) (e : CalibrationEvent) (case : Case) (o : Option Assessment) (a : Assessment)
      (made : List Assessment)
      → ((b : Assessment) → o ≡ some b → Exists (λ c. c ≡ b) case.everywhere)
      → found_or_new orm equipment_orm creation relativedelta env id date e case o ≡ ok (a, made)
      → Exists (λ b. b ≡ a) (made ++ case.everywhere)
  found_or_new-Exists id date e case (some b) a made listed h =
      subst (λ (p : Assessment × List Assessment). Exists (λ c. c ≡ p.0) (p.1 ++ case.everywhere))
        (ok-injective h) (listed b refl)
  found_or_new-Exists id date e case none a made listed h =
      let new = new_assessment id date e (latest (is_previous date) case.others) in
      let (created, stored, done) = >>=-eq-ok (creation.super_create (new ∷ [])) _ h in
      let exact : created ≡ new ∷ [] = creation.create_exact (new ∷ []) created stored in
      subst (λ (p : Assessment × List Assessment). Exists (λ c. c ≡ p.0) (p.1 ++ case.everywhere))
        (ok-injective done)
        (subst (λ made. Exists (λ c. c ≡ new) (made ++ case.everywhere)) (sym exact) (inl refl))

  quarantine-ok :
      (q : Equipment) (moved : Equipment × Event Lifecycle)
      → quarantine equipment_orm env q ≡ ok moved
      → moved.0 ≡ record q { lifecycle_state = quarantined }
  unfolding quarantine move
  quarantine-ok q moved h =
      let (_, rest) = >>-eq-ok (check_equipment_manager env) _ h in
      let (new, stored, done) =
        >>=-eq-ok (equipment_orm.super_write (set_lifecycle_state quarantined ∷ []) q) _ rest in
      sym (ap (λ (p : Equipment × Event Lifecycle). p.0) (ok-injective done))
      ∙ equipment_orm.write_exact (set_lifecycle_state quarantined ∷ []) q new stored

  -- The assessment that a failing event gets, and the case afterwards.
  conclude-parts :
      (id date : ℕ) (e : CalibrationEvent) (case case' : Case) (logs : List LoggedEvent)
      → is_passing e.result ≡ false
      → conclude orm equipment_orm creation relativedelta env id date e case ≡ ok (case', logs)
      → (a : Assessment) × (made : List Assessment) × (found_or_new orm equipment_orm creation
            relativedelta env id date e case
            (existing e case.everywhere)
          ≡ ok (a, made))
        × (case'.assessments ≡ made ++ case.assessments)
        × (case'.everywhere ≡ made ++ case.everywhere)
        × (case'.event ≡ record e { impact_assessment_id = some a.id })
        × (case'.equipment ≡ record case.equipment { lifecycle_state = quarantined })
        × (case'.others ≡ case.others)
  unfolding conclude ensure_impact_assessment
  conclude-parts id date e case case' logs failing h =
      let (found, ensured, two) =
        >>=-eq-ok
          (found_or_new orm equipment_orm creation relativedelta env id date e case
            (existing e case.everywhere))
          _ (sym (if_false (is_passing e.result) _ _ failing) ∙ h) in
      let (linked, stored, three) =
        >>=-eq-ok (write_event orm env false (set_impact_assessment_id (some found.0.id) ∷ []) e) _
          two in
      let (moved, ran, done) = >>=-eq-ok (quarantine equipment_orm env case.equipment) _ three in
      let same : record {
        event = linked;
        others = case.others;
        equipment = moved.0;
        assessments = found.1 ++ case.assessments;
        everywhere = found.1 ++ case.everywhere;
      }
          ≡ case' =
        ap (λ (p : Case × List LoggedEvent). p.0) (ok-injective done) in
      (
        found.0,
        found.1,
        ensured,
        sym (ap (λ (c : Case). c.assessments) same),
        sym (ap (λ (c : Case). c.everywhere) same),
        sym (ap (λ (c : Case). c.event) same)
            ∙ write_event-exact orm env false (set_impact_assessment_id (some found.0.id) ∷ []) e
                linked stored,
        sym (ap (λ (c : Case). c.equipment) same) ∙ quarantine-ok case.equipment moved ran,
        sym (ap (λ (c : Case). c.others) same),
      )

  -- Where the checks of the equipment's interval and of the event's dates pass, an event that is accepted with
  -- a failing or out-of-tolerance result was accepted by a manager; it is then accepted and linked to
  -- an impact assessment, of this equipment or of another, and the equipment is quarantined.
  pub accept-quarantined :
      (id : ℕ) (case case' : Case) (events : List LoggedEvent)
      → check_intervals case.equipment ≡ ok tt
      → check_dates case.event ≡ ok tt
      → is_passing case.event.result ≡ false
      → accept orm equipment_orm creation relativedelta env id case ≡ ok (case', events)
      → (env.has_group manager_group ≡ true)
        × (case'.event.state ≡ accepted)
        × (case'.equipment.lifecycle_state ≡ quarantined)
        × Exists (λ a. case'.event.impact_assessment_id ≡ some a.id) case'.everywhere
  accept-quarantined id case case' events positive before failing h =
      let (manager, (date, e, logs, reviewed, ran)) =
        accept-parts orm equipment_orm creation relativedelta env id case case' events positive
          before h in
      let (a, made, ensured, _, everywhere, linked, moved, _) =
        conclude-parts id date e case case' logs (ap is_passing reviewed.same_result ∙ failing)
          ran in
      let listed =
        found_or_new-Exists id date e case (existing e case.everywhere) a made
          (λ b found. existing-Exists e e.impact_assessment_id case.everywhere b found) ensured in
      (
        manager,
        ap (λ (x : CalibrationEvent). x.state) linked ∙ reviewed.is_now_accepted,
        ap (λ (q : Equipment). q.lifecycle_state) moved,
        linked_listed a case'.everywhere
            (ap (λ (x : CalibrationEvent). x.impact_assessment_id) linked)
            (subst (λ as_listed. Exists (λ b. b ≡ a) as_listed) (sym everywhere) listed),
      )
    where
      linked_listed :
          {o : Option ℕ} (a : Assessment) (as_listed : List Assessment)
          → o ≡ some a.id
          → Exists (λ b. b ≡ a) as_listed
          → Exists (λ b. o ≡ some b.id) as_listed
      linked_listed a rest e h =
          Exists-map (λ b same. e ∙ ap (λ (x : Assessment). some x.id) (sym same)) rest h
