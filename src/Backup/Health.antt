-- ===== src/Backup/Health.antt =====
-- `health` of tools/backup/m29_scheduler.py.
use perfect_match_qms.Prelude.{
  ℕ, ◌-◌, ◌/◌, ◌==◌, ltb, leb, Bool, true, false, not, ◌||◌, String, Option, none, some,
  if◌then◌else◌, str_eq,
}
use perfect_match_qms.Backup.Schedule.{second, rpo_seconds}
use perfect_match_qms.Backup.Status.{Verdict, failure, Status, Clock}
use perfect_match_qms.Backup.Run.{StatusFile, absent, unreadable, stored}

-- What `health` prints: its verdict, with the age of the recovery point in seconds.
pub data Report : Type 0 where
  missing_status invalid_status future_status unreadable_status : Report
  failed healthy stale : (age : ℕ) → Report

-- The exit code; an unreadable status file ends in `main`, which returns 2 as well.
abbrev pub exit_code : Report → ℕ
exit_code (healthy age) = 0
exit_code (failed age) = 1
exit_code (stale age) = 1
exit_code _ = 2

abbrev pub is_failure : Verdict → Bool
is_failure failure = true
is_failure _ = false

-- `value.get("failure_code")` as a truth value.
abbrev pub has_code : Option String → Bool
has_code none = false
has_code (some s) = not (str_eq s "")

-- The verdict on an age that is not negative.
abbrev pub judge : Status → ℕ → Report
judge status age =
    if is_failure status.last_result || has_code status.failure_code
    then failed age
    else if leb age rpo_seconds
    then healthy age
    else stale age

-- `int((now - timestamp).total_seconds())` truncates towards zero, so a time less than a second in the
-- future has the age 0.
unfoldable pub judge_at : Status → (now timestamp : ℕ) → Report
judge_at status now timestamp =
    if ltb now timestamp
    then if (timestamp - now) / second == 0 then judge status 0 else future_status
    else judge status ((now - timestamp) / second)

abbrev pub judge_parsed : Status → ℕ → Option ℕ → Report
judge_parsed status now none = invalid_status
judge_parsed status now (some t) = judge_at status now t

abbrev pub judge_status : Clock → Status → ℕ → Option String → Report
judge_status clock status now none = missing_status
judge_status clock status now (some s) = judge_parsed status now (clock.parse_utc s)

unfoldable pub health : Clock → StatusFile → (now : ℕ) → Report
unfolding judge_at
health clock absent now = missing_status
health clock unreadable now = unreadable_status
health clock (stored status) now =
    judge_status clock status now status.recovery_point_consistency_timestamp_utc
