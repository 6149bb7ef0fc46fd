-- ===== src/Backup/Monitoring.antt =====
-- What the health check reports, and that it stays green between runs that succeed on time.
use perfect_match_qms.Prelude.{
  ℕ, suc, ◌+◌, ◌*◌, ◌≤◌, ◌<◌, ◌≡◌, ◌≢◌, ◌↔◌, refl, sym, subst, ◌∙◌, ap, false, String, Option, none,
  some, arith,
}
use perfect_match_qms.Backup.Schedule.{second, rpo_seconds, maximum_interval, next_scheduled_run}
use perfect_match_qms.Backup.Slots.{IsOnTime, interval-lt_rpo}
use perfect_match_qms.Backup.Status.{BackupResult, Status, Clock, SchedulerConfig}
use perfect_match_qms.Backup.Run.{StatusFile, stored, Invocation, done, exited, run_once}
use perfect_match_qms.Backup.Record.{run_once-Recorded}
use perfect_match_qms.Backup.Health.{
  exit_code, is_failure, has_code, judge_at, judge_parsed, judge_status, health,
}

-- A recovery point of time `t` is fresh: not a second or more in the future, and in whole seconds not
-- older than the objective.
abbrev pub IsFresh : (now t : ℕ) → Type 0
IsFresh now t = (t < now + second) × (now < t + (rpo_seconds + 1) * second)

judge_at_iff :
    (s : Status) (now t : ℕ)
    → (exit_code (judge_at s now t) ≡ 0)
      ↔ ((is_failure s.last_result ≡ false) × (has_code s.failure_code ≡ false) × IsFresh now t)
unfolding judge_at
judge_at_iff s now t = (λ h. ground arith, λ h. ground arith)

some-eq : {a b : ℕ} → some a ≡ some b → a ≡ b
some-eq e = cc

done-eq : {q r : BackupResult} → done q ≡ done r → q ≡ r
done-eq e = cc

judge_parsed_iff :
    (s : Status) (now : ℕ) (parsed : Option ℕ)
    → (exit_code (judge_parsed s now parsed) ≡ 0) ↔ (
        (is_failure s.last_result ≡ false)
        × (has_code s.failure_code ≡ false)
        × ((t : ℕ) × (parsed ≡ some t) × IsFresh now t))
judge_parsed_iff s now none = (λ h. absurd (omega arith), λ (_, _, (t, e, _)). cc)
judge_parsed_iff s now (some u) = (
  λ h. let (a, b, c) = (judge_at_iff s now u).0 h in (a, b, (u, refl, c)),
  λ (a, b, (t, e, c)).
      (judge_at_iff s now u).1 (a, b, subst (λ o. IsFresh now o) (sym (some-eq e)) c),
)

-- The recovery point is a timestamp, and it is fresh.
abbrev pub HasFreshPoint : Clock → ℕ → Option String → Type 0
HasFreshPoint clock now none = ⊥
HasFreshPoint clock now (some text) = (t : ℕ) × (clock.parse_utc text ≡ some t) × IsFresh now t

judge_status_iff :
    (clock : Clock) (s : Status) (now : ℕ) (point : Option String)
    → (exit_code (judge_status clock s now point) ≡ 0) ↔ (
        (is_failure s.last_result ≡ false)
        × (has_code s.failure_code ≡ false)
        × HasFreshPoint clock now point)
judge_status_iff clock s now none = (λ h. absurd (omega arith), λ h. absurd h.2)
judge_status_iff clock s now (some text) = judge_parsed_iff s now (clock.parse_utc text)

-- The check exits with 0 exactly when the last run has recorded no failure and the recovery point is
-- fresh.
pub health_iff :
    (clock : Clock) (s : Status) (now : ℕ)
    → (exit_code (health clock (stored s) now) ≡ 0) ↔ (
        (is_failure s.last_result ≡ false)
        × (has_code s.failure_code ≡ false)
        × HasFreshPoint clock now s.recovery_point_consistency_timestamp_utc)
unfolding health
health_iff clock s now = judge_status_iff clock s now s.recovery_point_consistency_timestamp_utc

-- After an invocation that failed the check is never green.
pub health-failed :
    (clock : Clock) (config : SchedulerConfig) (i : Invocation) (file : StatusFile) (code : ℕ)
    (s : Status) (now : ℕ)
    → run_once clock config i file ≡ exited (suc code) s
    → exit_code (health clock (stored s) now) ≢ 0
health-failed clock config i file code s now h green =
    let wrong = (run_once-Recorded clock config i file (suc code) s h).on_failure (λ e. cc) in
    let (right, _, _) = (health_iff clock s now).0 green in ground arith

-- After an invocation that started on time for a slot, succeeded and whose backup is consistent at a
-- time not before its start, the check stays green from that time until the next run that is on time
-- starts, as long as no other invocation rewrites the status file in between.
pub health-green :
    (clock : Clock) (config : SchedulerConfig) (i : Invocation) (file : StatusFile) (s : Status)
    (r : BackupResult) (slot_start next now t : ℕ)
    → run_once clock config i file ≡ exited 0 s
    → i.backup ≡ done r
    → clock.parse_utc r.consistency_timestamp_utc ≡ some t
    → IsOnTime slot_start i.started
    → IsOnTime (next_scheduled_run slot_start) next
    → i.started ≤ t
    → t ≤ now
    → now ≤ next
    → exit_code (health clock (stored s) now) ≡ 0
unfolding maximum_interval
health-green clock config i file s r slot_start next now t h b p on_time on_time' lo mid hi =
    let (ok_result, ok_code, _, _, _, (r', b', _, point, _)) =
      (run_once-Recorded clock config i file 0 s h).on_success refl in
    let same = ap (λ (q : BackupResult). q.consistency_timestamp_utc) (done-eq (sym b' ∙ b)) in
    let (gap, _, _) = interval-lt_rpo slot_start i.started next on_time on_time' in
    (health_iff clock s now).1 (
      rw ok_result refl,
      rw ok_code refl,
      subst (HasFreshPoint clock now) (sym point)
          (t, ap clock.parse_utc same ∙ p, (omega arith, omega arith)),
    )
