-- ===== src/Recovery/Tests.antt =====
-- A recovery repository with two recovery points of one source, and the theorems at concrete inputs.
use perfect_match_qms.Prelude.{
  ℕ, ◌+◌, ◌*◌, ◌<◌, ◌≤◌, ◌≡◌, ◌⊎◌, refl, arith, true, false, not, ◌&&◌, str_eq, eq_iff, none, some,
  List, [], ◌∷◌, length, All, Exists, any, filtered, true-false,
}
use perfect_match_qms.Recovery.Calendar.{
  DateTime, days_in_month, stamp, add_months, try_add_months, intraday, daily, retention_deadline,
}
use perfect_match_qms.Recovery.Deadlines.{IsValid, IsMonthsLater, try_add_months-IsValid}
use perfect_match_qms.Recovery.Retention.{
  Source, same_source, Point, Entry, rejected, verified, records, newer, newest_by_source, keep,
  Part, manifest_path, archive, checksum, File, same_file, exists, delete_file, delete_point, apply,
  retention,
}
use perfect_match_qms.Recovery.Survival.{IsDistinct, is_deleted, retention-Covers, retention-exact}
use perfect_match_qms.Recovery.Completion.{IsComplete, retention_ends}

program : Unit {0}
unfolding retention apply delete_point delete_file same_file newest_by_source records same_source
    keep retention_deadline add_months try_add_months days_in_month stamp
program = tt

abbrev leap_end : DateTime
leap_end = record { year = 2024; month = 2; day = 29; micro = 5 }

leap_end-IsValid : IsValid leap_end
unfolding days_in_month
leap_end-IsValid = record {
  year_low = omega arith;
  year_high = omega arith;
  month_low = omega arith;
  month_high = omega arith;
  day_low = omega arith;
  day_high = omega arith;
  time_high = omega arith;
}

year_later : add_months leap_end 12 ≡ record { year = 2025; month = 2; day = 28; micro = 5 }
unfolding program
year_later = refl

past_the_calendar : try_add_months (record leap_end { year = 9999 }) 12 ≡ none
unfolding program
past_the_calendar = refl

try_add_months-IsValid_example :
    ((9999 * 12 + 12 < 2024 * 12 + 2 + 12) × (try_add_months leap_end 12 ≡ none))
    ⊎ ((2024 * 12 + 2 + 12 ≤ 9999 * 12 + 12)
        × ((u : DateTime) × (try_add_months leap_end 12 ≡ some u)
            × IsValid u
            × IsMonthsLater 12 leap_end u))
try_add_months-IsValid_example = try_add_months-IsValid leap_end 12 leap_end-IsValid

abbrev source : Source
source = record { instance_slug = "plant"; database_name = "qms"; environment_id = "production" }

abbrev early : Point
early = record {
  manifest = "a.manifest.json";
  source = source;
  point_class = intraday;
  created = record { year = 2026; month = 1; day = 1; micro = 0 };
}

abbrev late : Point
late = record {
  manifest = "b.manifest.json";
  source = source;
  point_class = daily;
  created = record { year = 2026; month = 1; day = 10; micro = 0 };
}

abbrev now : ℕ
now = 739676 * 86400000000

abbrev entries : List Entry
entries = verified early ∷ rejected "broken.manifest.json" ∷ verified late ∷ []

abbrev files_of : Point → List File
files_of p = (manifest_path, p.manifest) ∷ (archive, p.manifest) ∷ (checksum, p.manifest) ∷ []

abbrev files : List File
files =
    (manifest_path, "a.manifest.json")
    ∷ (archive, "a.manifest.json")
    ∷ (checksum, "a.manifest.json")
    ∷ (manifest_path, "broken.manifest.json")
    ∷ files_of late

abbrev left_over : List File
left_over = (manifest_path, "broken.manifest.json") ∷ files_of late

records_now : records now entries ≡ early ∷ late ∷ []
unfolding program
records_now = refl

retention_run :
    retention none false now entries files
    ≡ record { files = left_over; delete_count = 3; failed = false }
unfolding program
retention_run = refl

retention_fails : (retention (some 1) false now entries files).failed ≡ true
unfolding program
retention_fails = refl

entries-IsDistinct : IsDistinct (records now entries)
unfolding program
entries-IsDistinct =
    ((λ e. true-false _ ((eq_iff late.manifest early.manifest).1 e) refl, tt), (tt, tt))

entries-IsComplete : All (IsComplete files) (records now entries)
unfolding program
entries-IsComplete = (
  λ part. elim part as (λ k. exists files (k, early.manifest) ≡ true) [
    | manifest_path ↦ refl
    | archive ↦ refl
    | checksum ↦ refl
  ],
  (
    λ part. elim part as (λ k. exists files (k, late.manifest) ≡ true) [
      | manifest_path ↦ refl
      | archive ↦ refl
      | checksum ↦ refl
    ],
    tt,
  ),
)

retention-Covers_example :
    All
      (λ p.
        Exists
          (λ q.
            (q.source ≡ p.source)
            × (newer p q ≡ false)
            × ((part : Part)
                → exists (retention (some 1) false now entries files).files (part, q.manifest)
                  ≡ exists files (part, q.manifest)))
          (records now entries))
      (records now entries)
retention-Covers_example = retention-Covers (some 1) now entries files false entries-IsDistinct

run_ends : (retention none false now entries files).failed ≡ false
unfolding program
run_ends = refl

retention-exact_example :
    exists (retention none false now entries files).files (archive, "a.manifest.json") ≡ (
      exists files (archive, "a.manifest.json")
      && not (
          any
            (λ (p : Point).
              is_deleted now (records now entries) p && str_eq p.manifest "a.manifest.json")
            (records now entries)))
retention-exact_example =
    retention-exact none now entries files entries-IsDistinct run_ends (archive, "a.manifest.json")

retention_ends_example :
    ((retention none false now entries files).failed ≡ false)
    × ((retention none false now entries files).delete_count
        ≡ 3 * length (filtered (is_deleted now (records now entries)) (records now entries)))
retention_ends_example = retention_ends now entries files entries-IsDistinct entries-IsComplete
