-- ===== src/Backup/Record.antt =====
-- What the invocations of the scheduler leave in its status file.
use perfect_match_qms.Prelude.{
  ℕ, zero, suc, ◌+◌, ◌≡◌, ◌≢◌, refl, ap, sym, ◌∙◌, true, String, Option, none, some, List, [], ◌∷◌,
  arith,
}
use perfect_match_qms.Backup.Status.{
  Tier, other_tier, success, failure, BackupResult, Status, Clock, SchedulerConfig, base_status,
}
use perfect_match_qms.Backup.Run.{
  Answer, done, Lock, acquired, busy, broken, StatusFile, absent, unreadable, stored, Outcome,
  already_running, raised, exited, Invocation, is_well_formed, attempt, with_status, with_lock,
  with_tier, run_once, file_after,
}

-- The recovery point and the run of failures that a status file tells of.
abbrev pub recovery_point : StatusFile → Option String
recovery_point (stored s) = s.recovery_point_consistency_timestamp_utc
recovery_point _ = none

abbrev pub failures : StatusFile → ℕ
failures (stored s) = s.consecutive_failures
failures _ = 0

abbrev pub backup_time : Answer BackupResult → Option String
backup_time (done r) = some r.consistency_timestamp_utc
backup_time _ = none

-- What one invocation that exits writes.
pub record Recorded (clock : Clock) (i : Invocation) (file : StatusFile) (code : ℕ) (s : Status)
    : Type 0 where
  pub on_success :
      code ≡ 0
      → (s.last_result ≡ success)
        × (s.failure_code ≡ none)
        × (s.consecutive_failures ≡ 0)
        × (s.retention_result ≡ success)
        × (i.retention ≡ done tt)
        × ((r : BackupResult) × (i.backup ≡ done r)
            × (is_well_formed clock r ≡ true)
            × (s.recovery_point_consistency_timestamp_utc ≡ some r.consistency_timestamp_utc)
            × (s.archive_sha256 ≡ some r.archive_sha256))
  pub on_failure :
      code ≢ 0
      → (s.last_result ≡ failure)
        × (s.failure_code ≢ none)
        × (s.consecutive_failures ≡ failures file + 1)
        × (s.recovery_point_consistency_timestamp_utc ≡ recovery_point file)

attempt-Recorded :
    (clock : Clock) (i : Invocation) (file : StatusFile) (base : Status) (code : ℕ) (s : Status)
    → base.consecutive_failures ≡ failures file
    → base.recovery_point_consistency_timestamp_utc ≡ recovery_point file
    → attempt clock i base i.backup ≡ exited code s
    → Recorded clock i file code s
unfolding attempt
attempt-Recorded clock i file base code s f r h = ground arith

with_status-Recorded :
    (clock : Clock) (config : SchedulerConfig) (i : Invocation) (file : StatusFile) (code : ℕ)
    (s : Status)
    → with_status clock config i file ≡ exited code s
    → Recorded clock i file code s
unfolding with_status base_status
with_status-Recorded clock config i absent code s h =
    attempt-Recorded clock i absent (base_status clock config none i.started) code s refl refl h
with_status-Recorded clock config i unreadable code s h = cc
with_status-Recorded clock config i (stored p) code s h =
    attempt-Recorded clock i (stored p) (base_status clock config (some p) i.started) code s refl
      refl h

with_lock-Recorded :
    (clock : Clock) (config : SchedulerConfig) (i : Invocation) (file : StatusFile) (lock : Lock)
    (code : ℕ) (s : Status)
    → with_lock clock config i file lock ≡ exited code s
    → Recorded clock i file code s
unfolding with_lock
with_lock-Recorded clock config i file acquired code s h =
    with_status-Recorded clock config i file code s h
with_lock-Recorded clock config i file busy code s h = cc
with_lock-Recorded clock config i file broken code s h = cc

with_tier-Recorded :
    (clock : Clock) (config : SchedulerConfig) (i : Invocation) (file : StatusFile) (tier : Tier)
    (code : ℕ) (s : Status)
    → with_tier clock config i file tier ≡ exited code s
    → Recorded clock i file code s
unfolding with_tier
with_tier-Recorded clock config i file other_tier code s h = cc
with_tier-Recorded clock config i file _ code s h =
    with_lock-Recorded clock config i file i.lock code s h

-- An invocation that exits with 0 had a well-formed backup and a retention that returned, and records
-- the backup as the recovery point; one that exits with another code records a failure, counts it and
-- keeps the recovery point that was there.
pub run_once-Recorded :
    (clock : Clock) (config : SchedulerConfig) (i : Invocation) (file : StatusFile) (code : ℕ)
    (s : Status)
    → run_once clock config i file ≡ exited code s
    → Recorded clock i file code s
unfolding run_once
run_once-Recorded clock config i file code s h =
    with_tier-Recorded clock config i file i.tier code s h

-- Invocations one after the other, each with the outcome that it had.
unfoldable pub runs :
    Clock
    → SchedulerConfig
    → StatusFile
    → List Invocation
    → StatusFile × List (Invocation × Outcome)
runs clock config file [] = (file, [])
runs clock config file (i ∷ is) =
    let outcome = run_once clock config i file in
    let (last, log) = runs clock config (file_after file outcome) is in (last, (i, outcome) ∷ log)

-- How many failures stand at the end of a log, after `n` failures before it.
abbrev pub streak : ℕ → List (Invocation × Outcome) → ℕ
streak n [] = n
streak n ((i, exited zero s) ∷ log) = streak 0 log
streak n ((i, exited (suc c) s) ∷ log) = streak (n + 1) log
streak n ((i, _) ∷ log) = streak n log

-- The time of the last backup in a log that succeeded, or `t` if none did.
abbrev pub last_backup : Option String → List (Invocation × Outcome) → Option String
last_backup t [] = t
last_backup t ((i, exited zero s) ∷ log) = last_backup (backup_time i.backup) log
last_backup t ((i, _) ∷ log) = last_backup t log

module _ (clock : Clock) (config : SchedulerConfig) where
  -- One invocation changes the two figures as the log says.
  file_after-figures :
      (i : Invocation) (file : StatusFile) (o : Outcome) (log : List (Invocation × Outcome))
      → run_once clock config i file ≡ o
      → (streak (failures (file_after file o)) log ≡ streak (failures file) ((i, o) ∷ log))
        × (last_backup (recovery_point (file_after file o)) log
            ≡ last_backup (recovery_point file) ((i, o) ∷ log))
  file_after-figures i file already_running log h = (refl, refl)
  file_after-figures i file raised log h = (refl, refl)
  file_after-figures i file (exited zero s) log h =
      let facts = (run_once-Recorded clock config i file zero s h).on_success refl in
      let (r, backed_up, _, point, _) = facts.5 in
      (
        ap (λ n. streak n log) facts.2,
        ap (λ t. last_backup t log) (point ∙ sym (ap backup_time backed_up)),
      )
  file_after-figures i file (exited (suc c) s) log h =
      let facts = (run_once-Recorded clock config i file (suc c) s h).on_failure (λ e. cc) in
      (ap (λ n. streak n log) facts.2, ap (λ t. last_backup t log) facts.3)

-- After any invocations the status file counts the failures since the last success, and its recovery
-- point is that of the last successful backup.
pub runs_lem :
    (clock : Clock) (config : SchedulerConfig) (file : StatusFile) (is : List Invocation)
    → let (last, log) = runs clock config file is in
      (failures last ≡ streak (failures file) log)
      × (recovery_point last ≡ last_backup (recovery_point file) log)
unfolding runs
runs_lem clock config file [] = (refl, refl)
runs_lem clock config file (i ∷ is) =
    let outcome = run_once clock config i file in
    let (f, r) = runs_lem clock config (file_after file outcome) is in
    let (f', r') =
      file_after-figures clock config i file outcome
        (runs clock config (file_after file outcome) is).1 refl in
    (f ∙ f', r ∙ r')
