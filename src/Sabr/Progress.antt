-- ===== src/Sabr/Progress.antt =====
-- internal/sabr/progress.go: the reporter of a download and the counters of its parts. Times are
-- nanoseconds; `reports` are what the progress function was given, the newest first. The atomic sum
-- and the section under `reportMu` are two steps.
use type_type_downloader.Prelude.{
  Bool, Bool-cases, List, [], arith, if◌then◌else◌, inl, inr, ltb, not, ℕ, ◌-◌, ◌||◌, ◌∷◌,
}
use type_type_downloader.Prelude.Int.{ltb_ℤ, pos, ℤ, ◌+ℤ◌, ◌-ℤ◌}
use type_type_downloader.Prelude.Rising.{Below-Capped, Capped, Capped-cons}
use type_type_downloader.Prelude.Words.{i64}

pub record Reporter : Type 0 where
  pub has_progress : Bool
  pub downloaded : ℤ
  pub reported : ℤ
  pub last : ℕ
  pub reports : List ℤ

unfoldable pub new_reporter : Bool → ℕ → Reporter
new_reporter has_progress now = record {
  has_progress = has_progress;
  downloaded = pos 0;
  reported = pos 0;
  last = now;
  reports = [];
}

unfoldable pub begin_attempt : ℕ → Reporter → Reporter
begin_attempt now r = record r { downloaded = pos 0; last = now }

unfoldable pub sum_bytes : ℤ → Reporter → Reporter
sum_bytes bytes r = record r { downloaded = i64 (r.downloaded +ℤ bytes) }

-- The section of `add`, for a call whose sum was `downloaded`.
unfoldable pub report_sum : ℤ → ℕ → Reporter → Reporter
report_sum downloaded now r =
    if not r.has_progress || not (ltb_ℤ r.reported downloaded) || ltb (now - r.last) 250_000_000
    then r
    else record r { reported = downloaded; last = now; reports = downloaded ∷ r.reports }

unfoldable pub add_sum : ℤ → ℕ → Reporter → Reporter
unfolding report_sum
add_sum bytes now r = let summed = sum_bytes bytes r in report_sum summed.downloaded now summed

unfoldable pub finish_report : Reporter → Reporter
finish_report r =
    if not r.has_progress || not (ltb_ℤ r.reported r.downloaded)
    then r
    else record r { reported = r.downloaded; reports = r.downloaded ∷ r.reports }

-- A part's counter: the bytes that it has added to the reporter.
unfoldable pub part_add : ℤ → ℕ → ℤ × Reporter → ℤ × Reporter
part_add bytes now (counted, r) = (i64 (counted +ℤ bytes), add_sum bytes now r)

unfoldable pub part_rollback : ℕ → ℤ × Reporter → ℤ × Reporter
part_rollback now (counted, r) = (pos 0, add_sum (i64 (pos 0 -ℤ counted)) now r)

-- What goroutines do to a reporter; a rollback is a sum of a negative number and its section.
pub data ReporterStep : Type 0 where
  begins_attempt : ℕ → ReporterStep
  sums_bytes : ℤ → ReporterStep
  reports_sum : ℤ → ℕ → ReporterStep
  finishes_report : ReporterStep

unfoldable pub run_reporter : Reporter → List ReporterStep → Reporter
run_reporter r [] = r
run_reporter r (begins_attempt now ∷ rest) = run_reporter (begin_attempt now r) rest
run_reporter r (sums_bytes bytes ∷ rest) = run_reporter (sum_bytes bytes r) rest
run_reporter r (reports_sum downloaded now ∷ rest) = run_reporter (report_sum downloaded now r) rest
run_reporter r (finishes_report ∷ rest) = run_reporter (finish_report r) rest

abbrev pub IsRisingReporter : Reporter → Type 0
IsRisingReporter r = Capped r.reported r.reports

report_sum-IsRisingReporter :
    (downloaded : ℤ) (now : ℕ) (r : Reporter)
    → IsRisingReporter r
    → IsRisingReporter (report_sum downloaded now r)
unfolding report_sum
report_sum-IsRisingReporter downloaded now r h =
    elim (Bool-cases
      (not r.has_progress || not (ltb_ℤ r.reported downloaded) || ltb (now - r.last) 250_000_000)) [
        | inl y ↦ rw y h
        | inr n ↦ rw n (
            Capped-cons downloaded r.reports
              (Below-Capped r.reported downloaded r.reports (ground arith) h))
      ]

finish_report-IsRisingReporter :
    (r : Reporter) → IsRisingReporter r → IsRisingReporter (finish_report r)
unfolding finish_report
finish_report-IsRisingReporter r h =
    elim (Bool-cases (not r.has_progress || not (ltb_ℤ r.reported r.downloaded))) [
      | inl y ↦ rw y h
      | inr n ↦ rw n (
          Capped-cons r.downloaded r.reports
            (Below-Capped r.reported r.downloaded r.reports (ground arith) h))
    ]

-- Whatever the order in which the parts add, roll back and report, and however often the download
-- begins again, the byte counts that the progress function is given rise strictly.
pub run_reporter-IsRisingReporter :
    (r : Reporter) (steps : List ReporterStep)
    → IsRisingReporter r
    → IsRisingReporter (run_reporter r steps)
unfolding run_reporter begin_attempt sum_bytes
run_reporter-IsRisingReporter r [] h = h
run_reporter-IsRisingReporter r (begins_attempt now ∷ rest) h =
    run_reporter-IsRisingReporter (begin_attempt now r) rest h
run_reporter-IsRisingReporter r (sums_bytes bytes ∷ rest) h =
    run_reporter-IsRisingReporter (sum_bytes bytes r) rest h
run_reporter-IsRisingReporter r (reports_sum downloaded now ∷ rest) h =
    run_reporter-IsRisingReporter (report_sum downloaded now r) rest
      (report_sum-IsRisingReporter downloaded now r h)
run_reporter-IsRisingReporter r (finishes_report ∷ rest) h =
    run_reporter-IsRisingReporter (finish_report r) rest (finish_report-IsRisingReporter r h)
