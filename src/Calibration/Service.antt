-- ===== src/Calibration/Service.antt =====
-- The last event of the equipment, and what its return to service asks for.
use perfect_match_qms.Prelude.{
  ◌≡◌, ◌⊎◌, refl, arith, ltb, true, false, ◌&&◌, none, some, List, [], ◌∷◌, All, All-map, Exists,
  Bool-cases, inl, inr,
}
use perfect_match_qms.Odoo.{Env, user_error, ◌>>◌, raise_if, Orm}
use perfect_match_qms.Calibration.Assessments.{Assessment}
use perfect_match_qms.Calibration.Types.{CalibrationEvent, in_service, Equipment, assign_equipment}
use perfect_match_qms.Calibration.Rollup.{
  is_acceptable, is_later, last_event, open_count, check_equipment_manager, is_failing, move,
  return_to_service,
}

-- The event is acceptable and listed, and no acceptable one is later.
pub record IsLatest (es : List CalibrationEvent) (e : CalibrationEvent) : Type 0 where
  pub acceptable : is_acceptable e ≡ true
  pub listed : Exists (λ f. f ≡ e) es
  pub latest : All (λ f. (is_acceptable f && is_later f e) ≡ false) es

not_later_trans :
    (e f g : CalibrationEvent) → is_later e f ≡ false → is_later f g ≡ false → is_later e g ≡ false
not_later_trans e f g h k = ground (arith, h, k)

later_asym : (e f : CalibrationEvent) → is_later e f ≡ true → is_later f e ≡ false
later_asym e f h = ground (arith, h)

later_irrefl : (e : CalibrationEvent) → is_later e e ≡ false
later_irrefl e = ground arith

-- Another event does not change the latest one, unless it is acceptable and later.
IsLatest-old :
    (e f : CalibrationEvent) (es : List CalibrationEvent)
    → (is_acceptable e && is_later e f) ≡ false
    → IsLatest es f
    → IsLatest (e ∷ es) f
IsLatest-old e f es passed h = record {
  acceptable = h.acceptable;
  listed = inr h.listed;
  latest = (passed, h.latest);
}

IsLatest-alone :
    (e : CalibrationEvent) (es : List CalibrationEvent)
    → is_acceptable e ≡ true
    → All (λ f. is_acceptable f ≡ false) es
    → IsLatest (e ∷ es) e
IsLatest-alone e es good none_else = record {
  acceptable = good;
  listed = inl refl;
  latest = (ground (arith, later_irrefl e), All-map (λ f bad. ground (arith, bad)) es none_else);
}

IsLatest-new :
    (e f : CalibrationEvent) (es : List CalibrationEvent)
    → is_acceptable e ≡ true
    → is_later f e ≡ false
    → IsLatest es f
    → IsLatest (e ∷ es) e
IsLatest-new e f es good earlier h = record {
  acceptable = good;
  listed = inl refl;
  latest = (ground (arith, later_irrefl e), All-map (λ g passed. after g passed) es h.latest);
}
  where
    after :
        (g : CalibrationEvent)
        → (is_acceptable g && is_later g f) ≡ false
        → (is_acceptable g && is_later g e) ≡ false
    after g passed = elim (Bool-cases (is_acceptable g)) [
      | inl good_g ↦ rw good_g (not_later_trans g f e (ground (arith, passed, good_g)) earlier)
      | inr bad ↦ rw bad refl
    ]

-- What `_compute_event_rollup` finds: nothing where no event is acceptable, and else the latest.
pub last_event_cases :
    (es : List CalibrationEvent)
    → ((last_event es ≡ none) × All (λ f. is_acceptable f ≡ false) es)
      ⊎ ((e : CalibrationEvent) × (last_event es ≡ some e) × IsLatest es e)
unfolding last_event
last_event_cases [] = inl (refl, tt)
last_event_cases (e ∷ es) = elim (last_event_cases es) [
  | inl (nothing, no_other) ↦ elim (Bool-cases (is_acceptable e)) [
    | inl good ↦ inr (e, rw (nothing, good) refl, IsLatest-alone e es good no_other)
    | inr bad ↦ inl (rw bad nothing, (bad, no_other))
  ]
  | inr (f, found, h) ↦ elim (Bool-cases (is_acceptable e)) [
    | inl good ↦ elim (Bool-cases (is_later f e)) [
      | inl later ↦ inr (
        f,
        rw (found, good, later) refl,
        IsLatest-old e f es (ground (arith, later_asym f e later)) h,
      )
      | inr earlier ↦ inr (e, rw (found, good, earlier) refl, IsLatest-new e f es good earlier h)
    ]
    | inr bad ↦ inr (f, rw bad found, IsLatest-old e f es (ground (arith, bad)) h)
  ]
]

-- The second test of `action_return_to_service` never refuses: the last event is always one of a
-- passing or conditional result. So the action is its test of the manager, the test that no impact
-- assessment is open, and the move to service, whatever the latest event of the equipment found.
pub return_to_service_lem :
    (orm : Orm assign_equipment) (env : Env) (events : List CalibrationEvent)
    (assessments : List Assessment) (q : Equipment)
    → return_to_service orm env events assessments q ≡ (
        check_equipment_manager env
        >> (raise_if
              (ltb 0 (open_count assessments))
              (user_error "Close related impact assessments before returning equipment to service.")
            >> move orm env in_service "Equipment returned to service" q))
unfolding return_to_service
return_to_service_lem orm env events assessments q = rw (passing events) refl
  where
    passing : (es : List CalibrationEvent) → is_failing (last_event es) ≡ false
    passing es = elim (last_event_cases es) [
      | inl (nothing, _) ↦ rw nothing refl
      | inr (e, found, h) ↦ rw found (ground (arith, h.acceptable))
    ]
