-- ===== src/Recovery/Deadlines.antt =====
-- What `add_months` and the retention deadlines come to.
use perfect_match_qms.Prelude.{
  ℕ, ◌+◌, ◌-◌, ◌*◌, ◌/◌, ◌%◌, ◌≤◌, ◌<◌, ◌≡◌, refl, ◌⊎◌, inl, inr, Bool-cases, arith, ltb, none,
  some, if_true, if_false, if◌then◌else◌,
}
use perfect_match_qms.Recovery.Calendar.{
  DateTime, micros_per_day, leap_day, days_in_month, month_length, days_before_year, common_days,
  stamp, add_months, try_add_months, intraday, daily, monthly, retention_deadline,
}

-- A datetime that Python can hold.
pub record IsValid (t : DateTime) : Type 0 where
  pub year_low : 1 ≤ t.year
  pub year_high : t.year ≤ 9999
  pub month_low : 1 ≤ t.month
  pub month_high : t.month ≤ 12
  pub day_low : 1 ≤ t.day
  pub day_high : t.day ≤ days_in_month t.year t.month
  pub time_high : t.micro < micros_per_day

days_in_month_range : (y m : ℕ) → (28 ≤ days_in_month y m) × (days_in_month y m ≤ 31)
unfolding days_in_month
days_in_month_range y m = ground arith

shorter_day :
    (d last : ℕ)
    → ((if ltb last d then last else d) ≡ d)
      ⊎ (((if ltb last d then last else d) < d) × ((if ltb last d then last else d) ≡ last))
shorter_day d last = elim (Bool-cases (ltb last d)) [
  | inl short ↦ inr (ground arith, ground arith)
  | inr long ↦ inl (ground arith)
]

-- A date that is `n` months after another, at the same time of day, on the same day or on the last day
-- of its month where that month is too short.
abbrev pub IsMonthsLater : ℕ → (t u : DateTime) → Type 0
IsMonthsLater n t u =
    (u.year * 12 + u.month ≡ t.year * 12 + t.month + n)
    × (u.micro ≡ t.micro)
    × ((u.day ≡ t.day) ⊎ ((u.day < t.day) × (u.day ≡ days_in_month u.year u.month)))

add_months-IsMonthsLater : (t : DateTime) (n : ℕ) → IsValid t → IsMonthsLater n t (add_months t n)
unfolding add_months
add_months-IsMonthsLater t n v = (
  omega (arith, v),
  refl,
  shorter_day t.day (days_in_month (t.year + (t.month - 1 + n) / 12) ((t.month - 1 + n) % 12 + 1)),
)

month_range : (t : DateTime) (n : ℕ) → (1 ≤ (add_months t n).month) × ((add_months t n).month ≤ 12)
unfolding add_months
month_range t n = (omega arith, omega arith)

add_months-IsValid :
    (t : DateTime) (n : ℕ) → IsValid t → (add_months t n).year ≤ 9999 → IsValid (add_months t n)
unfolding add_months
add_months-IsValid t n v h =
    let range =
      days_in_month_range (t.year + (t.month - 1 + n) / 12) ((t.month - 1 + n) % 12 + 1) in
    ground (arith, v, range, h)

-- Adding months to a valid datetime raises just where the month would come after December 9999. Else
-- it gives a valid one, as many months later and at the same time of day. Its day is the same, or the
-- last of its month where that month is too short.
pub try_add_months-IsValid :
    (t : DateTime) (n : ℕ)
    → IsValid t
    → ((9999 * 12 + 12 < t.year * 12 + t.month + n) × (try_add_months t n ≡ none))
      ⊎ ((t.year * 12 + t.month + n ≤ 9999 * 12 + 12)
          × ((u : DateTime) × (try_add_months t n ≡ some u) × IsValid u × IsMonthsLater n t u))
unfolding try_add_months
try_add_months-IsValid t n v =
    let shift = add_months-IsMonthsLater t n v in
    let range = month_range t n in
    elim (Bool-cases (ltb 9999 (add_months t n).year)) [
      | inl past ↦ inl (
        ground (arith, shift.0, range, past),
        if_true (ltb 9999 (add_months t n).year) none (some (add_months t n)) past,
      )
      | inr within ↦ inr (
        ground (arith, shift.0, range, within),
        (
          add_months t n,
          if_false (ltb 9999 (add_months t n).year) none (some (add_months t n)) within,
          add_months-IsValid t n v (ground (arith, within)),
          shift,
        ),
      )
    ]

days_before_year-suc :
    (y : ℕ) → 1 ≤ y → days_before_year (y + 1) ≡ days_before_year y + 365 + leap_day y
days_before_year-suc y h = ground arith

-- No two years in a row are leap years.
leap_day-suc : (y : ℕ) → leap_day y + leap_day (y + 1) ≤ 1
leap_day-suc y = ground arith

-- A year later, in days: `a` and `b` are the leap days of the two years.
year_later :
    (a b m d : ℕ)
    → a + b ≤ 1
    → 1 ≤ m
    → m ≤ 12
    → 1 ≤ d
    → d ≤ month_length a m
    → let last = month_length b m in
      let before = (if ltb 2 m then a else 0) + d in
      let after = a + (if ltb 2 m then b else 0) + (if ltb last d then last else d) in
      (before ≤ after) × (after ≤ before + 1)
year_later a b m d leaps low high day_low day_high = ground arith

-- The days of two stamps, `years'` and `years` days before their years apart.
scaled :
    (years years' a common i i' d d' micro : ℕ)
    → years' ≡ years + 365 + a
    → i + d ≤ a + i' + d'
    → a + i' + d' ≤ i + d + 1
    → ((years + (common + i) + d) * micros_per_day + micro + 365 * micros_per_day
        ≤ (years' + (common + i') + d') * micros_per_day + micro)
      × ((years' + (common + i') + d') * micros_per_day + micro
          ≤ (years + (common + i) + d) * micros_per_day + micro + 366 * micros_per_day)
scaled years years' a common i i' d d' micro e low high = omega arith

stamp-add_months :
    (t : DateTime)
    → IsValid t
    → (stamp t + 365 * micros_per_day ≤ stamp (add_months t 12))
      × (stamp (add_months t 12) ≤ stamp t + 366 * micros_per_day)
unfolding stamp add_months days_in_month
stamp-add_months t v =
    let year_is : t.year + (t.month - 1 + 12) / 12 ≡ t.year + 1 = omega (arith, v) in
    let month_is : (t.month - 1 + 12) % 12 + 1 ≡ t.month = omega (arith, v) in
    let days =
      year_later (leap_day t.year) (leap_day (t.year + 1)) t.month t.day (leap_day-suc t.year)
        v.month_low v.month_high v.day_low v.day_high in
    let years = days_before_year-suc t.year v.year_low in
    rw (year_is, month_is)
      (scaled (days_before_year t.year) (days_before_year (t.year + 1)) (leap_day t.year)
        (common_days t.month) _ _ t.day _ t.micro years days.0 days.1)

-- A recovery point is kept for 7 days, for 30 days or for a year of 365 or 366 days, by its class.
pub retention_deadline_bounds :
    (t : DateTime)
    → IsValid t
    → (retention_deadline t intraday ≡ stamp t + 7 * micros_per_day)
      × (retention_deadline t daily ≡ stamp t + 30 * micros_per_day)
      × (stamp t + 365 * micros_per_day ≤ retention_deadline t monthly)
      × (retention_deadline t monthly ≤ stamp t + 366 * micros_per_day)
unfolding retention_deadline
retention_deadline_bounds t v = let (low, high) = stamp-add_months t v in (refl, refl, low, high)
