-- ===== src/Backup/Schedule.antt =====
-- The schedule of tools/backup/m29_scheduler.py. A UTC datetime is its count of microseconds since
-- the epoch, which began a day.
use perfect_match_qms.Prelude.{ℕ, ◌+◌, ◌*◌, ◌/◌, ◌%◌, ltb, Bool, List, [], ◌∷◌, if◌then◌else◌}

abbrev pub second : ℕ
second = 1000000

abbrev pub hour : ℕ
hour = 3600000000

abbrev pub day : ℕ
day = 86400000000

abbrev pub rpo_seconds : ℕ
rpo_seconds = 6 * 60 * 60

abbrev pub cadence_minutes : ℕ
cadence_minutes = 4 * 60

abbrev pub max_jitter_seconds : ℕ
max_jitter_seconds = 30 * 60

abbrev pub schedule_hours_utc : List ℕ
schedule_hours_utc = 0 ∷ 4 ∷ 8 ∷ 12 ∷ 16 ∷ 20 ∷ []

-- `maximum_interval` and `maximum_interval_below_rpo` of `schedule_semantics`.
unfoldable pub maximum_interval : ℕ
maximum_interval = cadence_minutes * 60 + max_jitter_seconds

unfoldable pub maximum_interval_below_rpo : Bool
unfolding maximum_interval
maximum_interval_below_rpo = ltb maximum_interval rpo_seconds

-- `value.replace(minute=0, second=0, microsecond=0)`
abbrev pub whole_hour : ℕ → ℕ
whole_hour t = t / hour * hour

-- `value.replace(hour=h)`
abbrev pub replace_hour : ℕ → ℕ → ℕ
replace_hour h t = t / day * day + h * hour + t % hour

-- The loop over the hours of the schedule; `fallback` is what follows it.
unfoldable pub first_after : List ℕ → (current value fallback : ℕ) → ℕ
first_after [] current value fallback = fallback
first_after (h ∷ hs) current value fallback =
    let rest = first_after hs current value fallback in
    if ltb value (replace_hour h current) then replace_hour h current else rest

unfoldable pub next_scheduled_run : ℕ → ℕ
unfolding first_after
next_scheduled_run value =
    let current = whole_hour value in
    first_after schedule_hours_utc current value (replace_hour 0 (current + day))
