-- ===== src/Downloader/Tracker.antt =====
-- internal/downloader/range_worker.go: the progress tracker. The atomic sum and the section under
-- `reportMu` are two steps, and other workers come between them. `reports` are the byte counts that
-- the progress function was given, the newest first; `elapsed` says whether the clock has moved
-- since the start.
use type_type_downloader.Prelude.{
  Bool, Bool-cases, List, [], arith, false, if◌then◌else◌, inl, inr, not, true, ◌||◌, ◌∷◌, ◌≡◌,
}
use type_type_downloader.Downloader.{Source}
use type_type_downloader.Prelude.Int.{ltb_ℤ, pos, ℤ, ◌+ℤ◌, ◌-ℤ◌}
use type_type_downloader.Prelude.Rising.{Below-Capped, Capped, Capped-Below, Capped-cons}
use type_type_downloader.Prelude.Words.{i64}

pub record Tracker : Type 0 where
  pub size : ℤ
  pub interval : ℤ
  pub has_progress : Bool
  pub downloaded : ℤ
  pub reported : ℤ
  pub reports : List ℤ

unfoldable pub new_progress_tracker : Source → ℤ → Bool → Tracker
new_progress_tracker source interval has_progress = record {
  size = source.size;
  interval = interval;
  has_progress = has_progress;
  downloaded = pos 0;
  reported = pos 0;
  reports = [];
}

-- The sum, with the value that this call has seen.
unfoldable pub add_bytes : ℤ → Tracker → Tracker × ℤ
add_bytes bytes t =
    let current = i64 (t.downloaded +ℤ bytes) in (record t { downloaded = current }, current)

unfoldable pub report : Bool → ℤ → Tracker → Tracker
report elapsed current t = record t {
  reported = current;
  reports = if elapsed then current ∷ t.reports else t.reports;
}

-- What `add` does after the sum.
unfoldable pub report_added : Bool → ℤ → Tracker → Tracker
unfolding report
report_added elapsed current t =
    if not t.has_progress || not (ltb_ℤ current t.size)
    then t
    else if not (ltb_ℤ t.reported current) || ltb_ℤ (i64 (current -ℤ t.reported)) t.interval
    then t
    else report elapsed current t

unfoldable pub add : ℤ → Bool → Tracker → Tracker
unfolding add_bytes report_added
add bytes elapsed t = let (t', current) = add_bytes bytes t in report_added elapsed current t'

unfoldable pub finish : Bool → Tracker → Tracker
unfolding report
finish elapsed t =
    if not t.has_progress || not (ltb_ℤ t.reported t.downloaded)
    then t
    else report elapsed t.downloaded t

-- A worker's sum; the section of a worker that has seen `current` at any time before; the end.
pub data TrackerStep : Type 0 where
  sums : ℤ → TrackerStep
  reports_at : Bool → ℤ → TrackerStep
  finishes : Bool → TrackerStep

unfoldable pub track : Tracker → List TrackerStep → Tracker
track t [] = t
track t (sums bytes ∷ rest) = track (add_bytes bytes t).0 rest
track t (reports_at elapsed current ∷ rest) = track (report_added elapsed current t) rest
track t (finishes elapsed ∷ rest) = track (finish elapsed t) rest

abbrev pub IsRising : Tracker → Type 0
IsRising t = Capped t.reported t.reports

report-IsRising :
    (elapsed : Bool) (current : ℤ) (t : Tracker)
    → ltb_ℤ t.reported current ≡ true
    → IsRising t
    → IsRising (report elapsed current t)
unfolding report
report-IsRising true current t higher h =
    Capped-cons current t.reports (Below-Capped t.reported current t.reports higher h)
report-IsRising false current t higher h =
    Capped-Below current t.reports (Below-Capped t.reported current t.reports higher h)

report_added-IsRising :
    (elapsed : Bool) (current : ℤ) (t : Tracker)
    → IsRising t
    → IsRising (report_added elapsed current t)
unfolding report_added
report_added-IsRising elapsed current t h =
    elim (Bool-cases (not t.has_progress || not (ltb_ℤ current t.size))) [
      | inl y ↦ rw y h
      | inr n ↦
          elim (Bool-cases
            (not (ltb_ℤ t.reported current) || ltb_ℤ (i64 (current -ℤ t.reported)) t.interval)) [
              | inl y ↦ rw (n, y) h
              | inr m ↦ rw (n, m) (report-IsRising elapsed current t (ground arith) h)
            ]
    ]

finish-IsRising : (elapsed : Bool) (t : Tracker) → IsRising t → IsRising (finish elapsed t)
unfolding finish
finish-IsRising elapsed t h =
    elim (Bool-cases (not t.has_progress || not (ltb_ℤ t.reported t.downloaded))) [
      | inl y ↦ rw y h
      | inr n ↦ rw n (report-IsRising elapsed t.downloaded t (ground arith) h)
    ]

-- Whatever the order in which workers add and report, the byte counts that the progress function is
-- given rise strictly, and none is above the one that the tracker remembers.
pub track-IsRising :
    (t : Tracker) (steps : List TrackerStep) → IsRising t → IsRising (track t steps)
unfolding track add_bytes
track-IsRising t [] h = h
track-IsRising t (sums bytes ∷ rest) h = track-IsRising (add_bytes bytes t).0 rest h
track-IsRising t (reports_at elapsed current ∷ rest) h =
    track-IsRising (report_added elapsed current t) rest (report_added-IsRising elapsed current t h)
track-IsRising t (finishes elapsed ∷ rest) h =
    track-IsRising (finish elapsed t) rest (finish-IsRising elapsed t h)
