-- ===== src/Backup/Tests.antt =====
-- Two invocations of the scheduler, and the theorems at concrete inputs.
use perfect_match_qms.Prelude.{
  ℕ, ◌+◌, ◌*◌, ◌/◌, ◌≤◌, ◌<◌, ◌≡◌, ◌↔◌, refl, true, false, String, none, some, [], ◌∷◌, arith,
}
use perfect_match_qms.Backup.Schedule.{
  second, rpo_seconds, maximum_interval, maximum_interval_below_rpo, next_scheduled_run,
}
use perfect_match_qms.Backup.Slots.{slot, next_scheduled_run_lem, IsOnTime, interval-lt_rpo}
use perfect_match_qms.Backup.Status.{
  intraday, not_run, BackupResult, Status, Clock, SchedulerConfig, is_archive_id, is_sha256,
  base_status,
}
use perfect_match_qms.Backup.Run.{
  done, scheduler_error, acquired, busy, absent, stored, already_running, exited, Invocation,
  failed, succeeded, run_once,
}
use perfect_match_qms.Backup.Record.{
  Recorded, run_once-Recorded, runs, runs_lem, failures, recovery_point, streak, last_backup,
}
use perfect_match_qms.Backup.Health.{exit_code, is_failure, has_code, health, healthy}
use perfect_match_qms.Backup.Monitoring.{health_iff, HasFreshPoint, health-green}

-- 2026-01-01T05:00:00Z, in microseconds since the epoch.
abbrev five : ℕ
five = 1767243600000000

next_after_five : next_scheduled_run five ≡ five + 3 * 3600 * second
unfolding next_scheduled_run
next_after_five = refl

next_scheduled_run_lem_example : next_scheduled_run five ≡ (five / slot + 1) * slot
next_scheduled_run_lem_example = next_scheduled_run_lem five

abbrev eight : ℕ
eight = 1767254400000000

abbrev noon : ℕ
noon = 1767268800000000

eight_next : next_scheduled_run eight ≡ noon
unfolding next_scheduled_run
eight_next = refl

eight-IsOnTime : IsOnTime eight (eight + 60 * second)
eight-IsOnTime = (refl, omega arith, omega arith)

noon-IsOnTime : IsOnTime (next_scheduled_run eight) (noon + 120 * second)
unfolding next_scheduled_run
noon-IsOnTime = (refl, omega arith, omega arith)

interval-lt_rpo_example :
    (noon + 120 * second ≤ eight + 60 * second + maximum_interval * second)
    × (maximum_interval < rpo_seconds)
    × (maximum_interval_below_rpo ≡ true)
interval-lt_rpo_example =
    interval-lt_rpo eight (eight + 60 * second) (noon + 120 * second) eight-IsOnTime noon-IsOnTime

abbrev digest : String
digest = "0123456789abcdef0123456789abcdef0123456789abcdef0123456789abcdef"

abbrev result : BackupResult
result = record {
  archive_id = "acme-1.age";
  archive_sha256 = digest;
  consistency_timestamp_utc = "c";
  off_host_verification = "PASS";
}

-- A clock of one reading, 90 seconds past eight.
abbrev clock : Clock
clock = record { format_utc = λ t. "t"; parse_utc = λ s. some (eight + 90 * second) }

abbrev config : SchedulerConfig
config = record { instance_slug = "acme"; release_sha = "unknown" }

abbrev works : Invocation
works = record {
  tier = intraday;
  started = eight + 60 * second;
  ended = eight + 100 * second;
  lock = acquired;
  backup = done result;
  retention = done tt;
}

abbrev fails : Invocation
fails = record {
  tier = intraday;
  started = noon;
  ended = noon + 5 * second;
  lock = acquired;
  backup = scheduler_error;
  retention = done tt;
}

program : Unit {0}
unfolding run_once base_status is_archive_id is_sha256 next_scheduled_run health runs
program = tt

abbrev green : Status
green = succeeded clock works result (record {
  instance_identifier = "acme";
  last_attempt_utc = "t";
  last_successful_backup_utc = none;
  recovery_point_consistency_timestamp_utc = none;
  archive_identifier = none;
  archive_sha256 = none;
  off_host_verification = "NOT_RUN";
  duration_seconds = 0;
  retention_result = not_run;
  next_expected_run_utc = "t";
  failure_code = none;
  consecutive_failures = 0;
  release_sha = "unknown";
  last_result = not_run;
})

abbrev red : Status
red = failed fails "scheduler_failure" false (record green {
  last_attempt_utc = "t";
  duration_seconds = 0;
  retention_result = not_run;
  next_expected_run_utc = "t";
  failure_code = none;
  last_result = not_run;
})

works_run : run_once clock config works absent ≡ exited 0 green
unfolding program
works_run = refl

fails_run : run_once clock config fails (stored green) ≡ exited 1 red
unfolding program
fails_run = refl

locked_run : run_once clock config (record works { lock = busy }) absent ≡ already_running
unfolding program
locked_run = refl

healthy_at_nine : health clock (stored green) (eight + 3600 * second) ≡ healthy 3510
unfolding program
healthy_at_nine = refl

run_once-Recorded_example : Recorded clock fails (stored green) 1 red
run_once-Recorded_example = run_once-Recorded clock config fails (stored green) 1 red fails_run

runs_lem_example :
    let (last, log) = runs clock config absent (works ∷ fails ∷ []) in
    (failures last ≡ streak (failures absent) log)
    × (recovery_point last ≡ last_backup (recovery_point absent) log)
runs_lem_example = runs_lem clock config absent (works ∷ fails ∷ [])

health_iff_example : (exit_code (health clock (stored green) (eight + 3600 * second)) ≡ 0) ↔ (
    (is_failure green.last_result ≡ false)
    × (has_code green.failure_code ≡ false)
    × HasFreshPoint clock (eight + 3600 * second) green.recovery_point_consistency_timestamp_utc)
health_iff_example = health_iff clock green (eight + 3600 * second)

health-green_example : exit_code (health clock (stored green) (noon + 100 * second)) ≡ 0
health-green_example =
    health-green clock config works absent green result eight (noon + 120 * second)
      (noon + 100 * second) (eight + 90 * second) works_run refl refl eight-IsOnTime noon-IsOnTime
      (omega arith) (omega arith) (omega arith)
