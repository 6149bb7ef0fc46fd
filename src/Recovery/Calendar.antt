-- ===== src/Recovery/Calendar.antt =====
-- The dates of tools/backup/m29_backup.py: `add_months` and `retention_deadline`, over the proleptic
-- Gregorian calendar of Python's datetime. All datetimes are in UTC. The deadlines of recovery points
-- are taken without Python's bound on the year: `retention` looks at no point from the future, so only
-- from the year 9999 on does the bound matter there.
use perfect_match_qms.Prelude.{
  ℕ, ◌+◌, ◌-◌, ◌*◌, ◌/◌, ◌%◌, ltb, leb, ◌==◌, Bool, not, ◌&&◌, ◌||◌, Option, none, some,
  if◌then◌else◌,
}

-- `micro` is the time of day in microseconds.
pub record DateTime : Type 0 where
  pub year : ℕ
  pub month : ℕ
  pub day : ℕ
  pub micro : ℕ

abbrev pub micros_per_day : ℕ
micros_per_day = 86400000000

abbrev pub is_leap : ℕ → Bool
is_leap y = y % 4 == 0 && (not (y % 100 == 0) || y % 400 == 0)

abbrev pub leap_day : ℕ → ℕ
leap_day y = if is_leap y then 1 else 0

-- The length of a month in a year with that many leap days.
abbrev pub month_length : (leap_days m : ℕ) → ℕ
month_length leap_days m =
    if m == 2 then 28 + leap_days else if m == 4 || m == 6 || m == 9 || m == 11 then 30 else 31

-- `calendar.monthrange(year, month)[1]`
unfoldable pub days_in_month : ℕ → ℕ → ℕ
days_in_month y m = month_length (leap_day y) m

abbrev pub days_before_year : ℕ → ℕ
days_before_year y = let p = y - 1 in p * 365 + p / 4 - p / 100 + p / 400

-- The days of a common year before the month.
abbrev pub common_days : ℕ → ℕ
common_days m =
    (m - 1) * 31
    - (if leb 3 m then 3 else 0)
    - (if leb 5 m then 1 else 0)
    - (if leb 7 m then 1 else 0)
    - (if leb 10 m then 1 else 0)
    - (if leb 12 m then 1 else 0)

abbrev pub days_before_month : ℕ → ℕ → ℕ
days_before_month y m = common_days m + (if ltb 2 m then leap_day y else 0)

-- The microseconds since the calendar's start: datetimes compare as these numbers do.
unfoldable pub stamp : DateTime → ℕ
stamp t =
    (days_before_year t.year + days_before_month t.year t.month + t.day) * micros_per_day + t.micro

-- The date to which `add_months` goes.
unfoldable pub add_months : DateTime → ℕ → DateTime
unfolding days_in_month
add_months value months =
    let month_index = value.month - 1 + months in
    let year = value.year + month_index / 12 in
    let month = month_index % 12 + 1 in
    let last = days_in_month year month in
    record value {
      year = year;
      month = month;
      day = if ltb last value.day then last else value.day;
    }

-- `add_months`, where `value.replace` raises ValueError past the year 9999.
unfoldable pub try_add_months : DateTime → ℕ → Option DateTime
unfolding add_months
try_add_months value months =
    let later = add_months value months in if ltb 9999 later.year then none else some later

pub data Class : Type 0 where
  intraday daily monthly : Class

-- `retention_deadline`, as a stamp.
unfoldable pub retention_deadline : DateTime → Class → ℕ
unfolding stamp add_months
retention_deadline created intraday = stamp created + 7 * micros_per_day
retention_deadline created daily = stamp created + 30 * micros_per_day
retention_deadline created monthly = stamp (add_months created 12)
