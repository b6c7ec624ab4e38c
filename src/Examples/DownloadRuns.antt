-- ===== src/Examples/DownloadRuns.antt =====
-- Runs of the attempts and the progress of internal/downloader.
use type_type_downloader.Prelude.{
  Bool, List, [], arith, false, length, refl, some, suc, true, zero, ℕ, ◌∷◌, ◌≡◌,
}
use type_type_downloader.Downloader.Attempts.{chunk_of}
use type_type_downloader.Downloader.Copying.{
  Healthy, copy_chunk, copy_chunk_loop, copy_round, write_at,
}
use type_type_downloader.Downloader.Fetch.{
  Answer, Response, check_trailing, chunk_size_of, download_chunk, fetch_chunk,
  validate_range_response, wanted_range,
}
use type_type_downloader.Downloader.Retries.{download_chunk-recovers}
use type_type_downloader.Downloader.Tracker.{
  IsRising, Tracker, TrackerStep, finishes, reports_at, sums, track, track-IsRising,
}
use type_type_downloader.Prelude.Decimal.{decimal, digits_of}
use type_type_downloader.Prelude.Int.{pos, ◌+ℤ◌, ◌-ℤ◌}
use type_type_downloader.Prelude.Result.{is_ok, ok}
use type_type_downloader.Prelude.Text.{cut_prefix, has_prefix, lit, str_eq}

abbrev writes_everything : ℕ → List ℕ → ℕ
writes_everything p data_bytes = length data_bytes

everything-Healthy : Healthy writes_everything
everything-Healthy p data_bytes = omega arith

abbrev served_chunk : Response
served_chunk = record {
  status = pos 206;
  content_range = lit "bytes 2-4/9";
  content_length = pos 3;
  body = record { bytes = 7 ∷ 8 ∷ 9 ∷ []; at_end = true };
}

-- The first attempt gets one byte of the three, the second the chunk.
abbrev short_chunk_answer : Response
short_chunk_answer = record served_chunk { body = record { bytes = 5 ∷ []; at_end = true } }

abbrev two_answers : ℕ → Answer
two_answers zero = some short_chunk_answer
two_answers (suc k) = some served_chunk

abbrev never : ℕ → Bool
never k = false

first_short :
    (file : List ℕ)
    → is_ok (fetch_chunk writes_everything 2 (lit "header") (chunk_of 2 3) (two_answers 0) file).1
      ≡ false
unfolding fetch_chunk validate_range_response wanted_range decimal digits_of chunk_size_of
    check_trailing copy_chunk copy_chunk_loop copy_round has_prefix cut_prefix str_eq ◌+ℤ◌ ◌-ℤ◌
first_short file = refl

then_served : validate_range_response served_chunk (chunk_of 2 3) (lit "header") ≡ ok tt
unfolding validate_range_response wanted_range decimal digits_of chunk_size_of has_prefix cut_prefix
    str_eq ◌+ℤ◌ ◌-ℤ◌
then_served = refl

recovers_example :
    download_chunk writes_everything 2
      (lit "header")
      (chunk_of 2 3)
      two_answers
      never
      (pos 4)
      (0 ∷ 0 ∷ 0 ∷ 0 ∷ 0 ∷ 0 ∷ [])
    ≡ (write_at 2 (7 ∷ 8 ∷ 9 ∷ []) (0 ∷ 0 ∷ 0 ∷ 0 ∷ 0 ∷ 0 ∷ []), ok (pos 3))
recovers_example =
    download_chunk-recovers writes_everything 2 (lit "header") 2 3 two_answers never (omega arith)
      everything-Healthy (omega arith) (7 ∷ 8 ∷ 9 ∷ []) 1 4 (0 ∷ 0 ∷ 0 ∷ 0 ∷ 0 ∷ 0 ∷ [])
      (omega arith) (refl, first_short, refl) (then_served, refl, refl, refl)

abbrev tracker : Tracker
tracker = record {
  size = pos 100;
  interval = pos 10;
  has_progress = true;
  downloaded = pos 0;
  reported = pos 0;
  reports = [];
}

-- Two workers have added; the one that added last reports first.
abbrev tracker_steps : List TrackerStep
tracker_steps =
    sums (pos 20)
    ∷ sums (pos 20)
    ∷ reports_at true (pos 40)
    ∷ reports_at true (pos 20)
    ∷ sums (pos 60)
    ∷ finishes true
    ∷ []

track_example : IsRising (track tracker tracker_steps)
track_example = track-IsRising tracker tracker_steps tt
