-- ===== src/Calibration/Checks.antt =====
-- Constraints of models/equipment.py and models/calibration_event.py on intervals and dates. An interval
-- below zero is not part of the model.
use perfect_match_qms.Prelude.{
  ℕ, ◌≤◌, ◌≡◌, refl, arith, ltb, leb, Bool, true, false, Option, none, some,
}
use perfect_match_qms.Odoo.{validation_error, Result, ok, ◌>>◌, raise_if, raise_if-eq-ok, >>-eq-ok}
use perfect_match_qms.Calibration.Types.{CalibrationEvent, Equipment}

-- `_check_intervals`, of the frequency.
unfoldable pub check_intervals : Equipment → Result (Unit {0})
check_intervals q =
    raise_if (ltb q.frequency_interval 1)
      (validation_error "Calibration frequency must be at least 1.")

-- `a and b and test(a, b)`
abbrev pub both_set : (ℕ → ℕ → Bool) → Option ℕ → Option ℕ → Bool
both_set test (some a) (some b) = test a b
both_set test _ _ = false

-- `_check_alignment_and_dates`, of the dates.
unfoldable pub check_dates : CalibrationEvent → Result (Unit {0})
check_dates e =
    raise_if (both_set (λ date sent. ltb date sent) e.calibration_date e.date_sent)
      (validation_error "Completion date cannot be before the sent/started date.")
    >> raise_if (both_set (λ date due. leb due date) e.calibration_date e.next_due_date)
        (validation_error "Next due date must be after the calibration or verification date.")

-- The next due date is after the calibration date, where both are set.
abbrev pub dates_in_order : (date due : Option ℕ) → Bool
dates_in_order (some date) (some due) = ltb date due
dates_in_order _ _ = true

abbrev pub is_dated : CalibrationEvent → Bool
is_dated e = dates_in_order e.calibration_date e.next_due_date

order_of_check :
    (date due : Option ℕ)
    → both_set (λ a b. leb b a) date due ≡ false
    → dates_in_order date due ≡ true
order_of_check none due h = refl
order_of_check (some date) none h = refl
order_of_check (some date) (some due) h = ground (arith, h)

pub is_dated-check : (e : CalibrationEvent) → check_dates e ≡ ok tt → is_dated e ≡ true
unfolding check_dates
is_dated-check e h =
    let (_, second) =
      >>-eq-ok (raise_if (both_set (λ date sent. ltb date sent) e.calibration_date e.date_sent) _) _
        h in
    order_of_check e.calibration_date e.next_due_date (raise_if-eq-ok _ _ second)

pub interval-check : (q : Equipment) → check_intervals q ≡ ok tt → 1 ≤ q.frequency_interval
unfolding check_intervals
interval-check q h = ground (arith, raise_if-eq-ok _ _ h)
