-- ===== src/Backup/Status.antt =====
-- The status file of tools/backup/m29_scheduler.py, the results of its runners and the texts that it
-- checks.
use Prim.Native.Char.{code}
use perfect_match_qms.Prelude.{
  ℕ, ◌+◌, ◌==◌, leb, Bool, true, not, ◌&&◌, ◌||◌, String, Option, none, some, str_eq,
}
use perfect_match_qms.Backup.Schedule.{next_scheduled_run}

pub data Tier : Type 0 where
  intraday daily monthly other_tier : Tier

-- The values of `last_result` and of `retention_result`.
pub data Verdict : Type 0 where
  not_run success failure : Verdict

-- BackupResult; its `off_host_verification` is PASS wherever the program makes one.
pub record BackupResult : Type 0 where
  pub archive_id : String
  pub archive_sha256 : String
  pub consistency_timestamp_utc : String
  pub off_host_verification : String

-- The status file. A key that is absent, null or no text is `none`.
pub record Status : Type 0 where
  pub instance_identifier : String
  pub last_attempt_utc : String
  pub last_successful_backup_utc : Option String
  pub recovery_point_consistency_timestamp_utc : Option String
  pub archive_identifier : Option String
  pub archive_sha256 : Option String
  pub off_host_verification : String
  pub duration_seconds : ℕ
  pub retention_result : Verdict
  pub next_expected_run_utc : String
  pub failure_code : Option String
  pub consecutive_failures : ℕ
  pub release_sha : String
  pub last_result : Verdict

-- `format_utc` and `parse_utc`, which rest on the datetime library, over microseconds. A text that
-- is no timestamp with an offset does not parse.
pub record Clock : Type 0 where
  pub format_utc : ℕ → String
  pub parse_utc : String → Option ℕ

pub record SchedulerConfig : Type 0 where
  pub instance_slug : String
  pub release_sha : String

-- A character of `[A-Za-z0-9._-]`.
abbrev pub is_id_char : ℕ → Bool
is_id_char c =
    (leb b'A' c && leb c b'Z')
    || (leb b'a' c && leb c b'z')
    || (leb b'0' c && leb c b'9')
    || c == b'.'
    || c == b'_'
    || c == b'-'

abbrev pub is_hex_char : ℕ → Bool
is_hex_char c = (leb b'0' c && leb c b'9') || (leb b'a' c && leb c b'f')

abbrev every_char : (ℕ → Bool) → String → Bool
every_char p String.[] = true
every_char p (String.◌∷◌ c s) = p (code c) && every_char p s

abbrev count_chars : String → ℕ
count_chars String.[] = 0
count_chars (String.◌∷◌ c s) = count_chars s + 1

-- The two patterns that `run_once` matches against the whole text.
unfoldable pub is_archive_id : String → Bool
is_archive_id s = not (str_eq s "") && every_char is_id_char s

unfoldable pub is_sha256 : String → Bool
is_sha256 s = count_chars s == 64 && every_char is_hex_char s

-- `_base_status`
unfoldable pub base_status : Clock → SchedulerConfig → Option Status → ℕ → Status
base_status clock config none now = record {
  instance_identifier = config.instance_slug;
  last_attempt_utc = clock.format_utc now;
  last_successful_backup_utc = none;
  recovery_point_consistency_timestamp_utc = none;
  archive_identifier = none;
  archive_sha256 = none;
  off_host_verification = "NOT_RUN";
  duration_seconds = 0;
  retention_result = not_run;
  next_expected_run_utc = clock.format_utc (next_scheduled_run now);
  failure_code = none;
  consecutive_failures = 0;
  release_sha = config.release_sha;
  last_result = not_run;
}
base_status clock config (some previous) now = record {
  instance_identifier = config.instance_slug;
  last_attempt_utc = clock.format_utc now;
  last_successful_backup_utc = previous.last_successful_backup_utc;
  recovery_point_consistency_timestamp_utc = previous.recovery_point_consistency_timestamp_utc;
  archive_identifier = previous.archive_identifier;
  archive_sha256 = previous.archive_sha256;
  off_host_verification = previous.off_host_verification;
  duration_seconds = 0;
  retention_result = not_run;
  next_expected_run_utc = clock.format_utc (next_scheduled_run now);
  failure_code = none;
  consecutive_failures = previous.consecutive_failures;
  release_sha = config.release_sha;
  last_result = not_run;
}
