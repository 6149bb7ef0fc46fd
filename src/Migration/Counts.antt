-- ===== src/Migration/Counts.antt =====
-- The stored counts of an execution record, which follow its reconciliation ledger, and what a write of
-- the ORM makes of a record with them (models/migration_reconciliation.py).
use perfect_match_qms.Prelude.{
  ◌==◌, ℤ, pos, ◌≡◌, sym, ap, ◌∙◌, Bool, true, false, String, Option, none, some, List, [], ◌∷◌,
  length, filtered, any, if◌then◌else◌,
}
use perfect_match_qms.Odoo.{assign_all, Result, ok, ◌>>=◌, >>=-eq-ok, ok-injective, Orm}
use perfect_match_qms.Migration.Snapshots.{Json, scalar, integer, Codec}
use perfect_match_qms.Migration.Execution.{
  Count, created_count, reused_count, skipped_count, rejected_count, manual_review_count, count_key,
  Disposition, created, reused, skipped, rejected, manual_review, Line, Execution, Assignment,
  set_state, set_report_snapshot, set_ledger_started, set_reconciliation_lines, assign, entry,
  has_entry, loaded,
}

abbrev disposition_count : Disposition → Count
disposition_count created = created_count
disposition_count reused = reused_count
disposition_count skipped = skipped_count
disposition_count rejected = rejected_count
disposition_count manual_review = manual_review_count

abbrev count_name : Count → String
count_name created_count = "created_count"
count_name reused_count = "reused_count"
count_name skipped_count = "skipped_count"
count_name rejected_count = "rejected_count"
count_name manual_review_count = "manual_review_count"

-- The entry of a report, which is a number where the program wrote it, or else the default.
abbrev number_or : ℤ → Option Json → ℤ
number_or default (some (scalar (integer n))) = n
number_or default _ = default

-- `_compute_reconciliation_counts`, by the entries, the report and the flag.
unfoldable pub counts_from : Codec → List Line → Option String → Bool → (Count → ℤ) → Count → ℤ
counts_from codec (l ∷ lines) report started old k = pos (
    length (
      filtered (λ (x : Line). count_key (disposition_count x.disposition) == count_key k)
        (l ∷ lines)))
counts_from codec [] (some s) started old k =
    number_or (if has_entry "reconciliation_items" (loaded codec s) then pos 0 else old k)
      (entry (count_name k) (loaded codec s))
counts_from codec [] none true old k = pos 0
counts_from codec [] none false old k = old k

unfoldable pub compute_counts : Codec → Execution → Count → ℤ
unfolding counts_from
compute_counts codec r =
    counts_from codec r.reconciliation_lines r.report_snapshot r.reconciliation_ledger_started
      r.counts

-- The fields that the counts depend on.
abbrev pub is_trigger : Assignment → Bool
is_trigger (set_state _) = true
is_trigger (set_report_snapshot _) = true
is_trigger (set_ledger_started _) = true
is_trigger (set_reconciliation_lines _) = true
is_trigger _ = false

-- A record after the values of a write, and the recomputation that they trigger.
abbrev pub recounted : Codec → List Assignment → Execution → Execution
recounted codec vals r =
    let w = assign_all assign vals r in
    record w { counts = λ k. if any is_trigger vals then compute_counts codec w k else w.counts k }

-- `super().write`, with the stored counts.
abbrev pub stored_write : Orm assign → Codec → List Assignment → Execution → Result Execution
stored_write orm codec vals r = orm.super_write vals r >>= λ (w : Execution). ok (record w {
  counts = λ k. if any is_trigger vals then compute_counts codec w k else w.counts k;
})

pub stored_write-exact :
    (orm : Orm assign) (codec : Codec) (vals : List Assignment) (r r' : Execution)
    → stored_write orm codec vals r ≡ ok r'
    → r' ≡ recounted codec vals r
stored_write-exact orm codec vals r r' h =
    let (w, first, second) = >>=-eq-ok (orm.super_write vals r) _ h in
    sym (ok-injective second)
    ∙ ap
        (λ (x : Execution). record x {
          counts = λ k. if any is_trigger vals then compute_counts codec x k else x.counts k;
        })
        (orm.write_exact vals r w first)
