-- ===== src/Backup/Run.antt =====
-- `run_once` of tools/backup/m29_scheduler.py. The lock, the status file, the backup and the retention
-- command are the environment's: what they answer is given, one answer for each call in the order of
-- the code, and a call that is not reached leaves its answer unused.
use perfect_match_qms.Prelude.{
  ℕ, ◌+◌, ◌-◌, ◌/◌, Bool, true, false, ◌&&◌, String, none, some, if◌then◌else◌,
}
use perfect_match_qms.Backup.Schedule.{second}
use perfect_match_qms.Backup.Status.{
  Tier, other_tier, not_run, success, failure, BackupResult, Status, Clock, SchedulerConfig,
  is_archive_id, is_sha256, base_status,
}

-- How a call of a runner ends: with a value, with a SchedulerError or with another exception.
pub data Answer (A : Type 0) : Type 0 where
  done : A → Answer A
  scheduler_error : Answer A
  exception : Answer A

pub data Lock : Type 0 where
  acquired busy broken : Lock

-- What `_read_status` finds: no file, a file that is no JSON object, or a status.
pub data StatusFile : Type 0 where
  absent unreadable : StatusFile
  stored : Status → StatusFile

-- `run_once` raises before it writes a status, or returns an exit code with the status that it wrote.
pub data Outcome : Type 0 where
  already_running raised : Outcome
  exited : (code : ℕ) → Status → Outcome

-- One invocation: when it started and ended, and what the environment answered.
pub record Invocation : Type 0 where
  pub tier : Tier
  pub started : ℕ
  pub ended : ℕ
  pub lock : Lock
  pub backup : Answer BackupResult
  pub retention : Answer (Unit {0})

-- `max(0, int((utc_now() - started).total_seconds()))`
abbrev pub duration : Invocation → ℕ
duration i = (i.ended - i.started) / second

-- The status of the two `except` branches.
abbrev pub failed : Invocation → (code : String) → (retention_started : Bool) → Status → Status
failed i code retention_started status = record status {
  duration_seconds = duration i;
  failure_code = some code;
  last_result = failure;
  retention_result = if retention_started then failure else not_run;
  consecutive_failures = status.consecutive_failures + 1;
}

-- The status after the `try` block.
abbrev pub succeeded : Clock → Invocation → BackupResult → Status → Status
succeeded clock i result status = record status {
  last_successful_backup_utc = some (clock.format_utc i.started);
  recovery_point_consistency_timestamp_utc = some result.consistency_timestamp_utc;
  archive_identifier = some result.archive_id;
  archive_sha256 = some result.archive_sha256;
  off_host_verification = result.off_host_verification;
  duration_seconds = duration i;
  retention_result = success;
  failure_code = none;
  consecutive_failures = 0;
  last_result = success;
}

-- The tests on the result of the backup runner.
abbrev pub is_well_formed : Clock → BackupResult → Bool
is_well_formed clock r =
    (is_archive_id r.archive_id && is_sha256 r.archive_sha256)
    && elim (clock.parse_utc r.consistency_timestamp_utc) [ none ↦ false | some _ ↦ true ]

-- The retention runner, once the backup has been accepted.
unfoldable pub finish : Clock → Invocation → Status → BackupResult → Answer (Unit {0}) → Outcome
finish clock i status result (done _) = exited 0 (succeeded clock i result status)
finish clock i status result scheduler_error = exited 1 (failed i "scheduler_failure" true status)
finish clock i status result exception = exited 2 (failed i "infrastructure_error" true status)

-- The `try` block and what follows it.
unfoldable pub attempt : Clock → Invocation → Status → Answer BackupResult → Outcome
unfolding finish
attempt clock i status (done result) =
    if is_well_formed clock result
    then finish clock i status result i.retention
    else exited 1 (failed i "scheduler_failure" false status)
attempt clock i status scheduler_error = exited 1 (failed i "scheduler_failure" false status)
attempt clock i status exception = exited 2 (failed i "infrastructure_error" false status)

unfoldable pub with_status : Clock → SchedulerConfig → Invocation → StatusFile → Outcome
unfolding attempt
with_status clock config i absent =
    attempt clock i (base_status clock config none i.started) i.backup
with_status clock config i unreadable = raised
with_status clock config i (stored previous) =
    attempt clock i (base_status clock config (some previous) i.started) i.backup

unfoldable pub with_lock : Clock → SchedulerConfig → Invocation → StatusFile → Lock → Outcome
unfolding with_status
with_lock clock config i file acquired = with_status clock config i file
with_lock clock config i file busy = already_running
with_lock clock config i file broken = raised

unfoldable pub with_tier : Clock → SchedulerConfig → Invocation → StatusFile → Tier → Outcome
unfolding with_lock
with_tier clock config i file other_tier = raised
with_tier clock config i file _ = with_lock clock config i file i.lock

-- `run_once`
unfoldable pub run_once : Clock → SchedulerConfig → Invocation → StatusFile → Outcome
unfolding with_tier
run_once clock config i file = with_tier clock config i file i.tier

-- The status file after the invocation.
abbrev pub file_after : StatusFile → Outcome → StatusFile
file_after file (exited code status) = stored status
file_after file _ = file
