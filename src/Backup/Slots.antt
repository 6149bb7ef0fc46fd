-- ===== src/Backup/Slots.antt =====
-- The slots of the schedule, and how far apart two runs can start.
use perfect_match_qms.Prelude.{ℕ, ◌+◌, ◌*◌, ◌/◌, ◌%◌, ◌≤◌, ◌<◌, ◌≡◌, arith, true, refl}
use perfect_match_qms.Backup.Schedule.{
  second, hour, rpo_seconds, max_jitter_seconds, maximum_interval, maximum_interval_below_rpo,
  next_scheduled_run,
}

-- Four hours, in microseconds.
abbrev pub slot : ℕ
slot = 4 * hour

-- The next run is the first multiple of four hours after the time given.
pub next_scheduled_run_lem : (t : ℕ) → next_scheduled_run t ≡ (t / slot + 1) * slot
unfolding next_scheduled_run
next_scheduled_run_lem t = ground arith

-- A start within the allowed jitter after a slot.
abbrev pub IsOnTime : (slot_start start : ℕ) → Type 0
IsOnTime slot_start start =
    (slot_start % slot ≡ 0)
    × (slot_start ≤ start)
    × (start ≤ slot_start + max_jitter_seconds * second)

-- Two runs that start on time for one slot and for the next one start at most the maximum interval
-- apart, and that is less than the recovery point objective.
pub interval-lt_rpo :
    (slot_start start next : ℕ)
    → IsOnTime slot_start start
    → IsOnTime (next_scheduled_run slot_start) next
    → (next ≤ start + maximum_interval * second)
      × (maximum_interval < rpo_seconds)
      × (maximum_interval_below_rpo ≡ true)
unfolding maximum_interval maximum_interval_below_rpo
interval-lt_rpo slot_start start next (a, b, c) (d, e, f) =
    (omega (arith, next_scheduled_run_lem slot_start), omega arith, refl)
