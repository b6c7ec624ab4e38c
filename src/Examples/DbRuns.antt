-- ===== src/Examples/DbRuns.antt =====
-- Runs of internal/db.
use type_type_downloader.Prelude.{List, Option, [], none, refl, ℕ, ◌∷◌, ◌≡◌}
use type_type_downloader.Db.Writer.{
  WriterEvent, close, close-offered, close_error, drain, enqueue, enqueues, new_job_writer,
  run_events, take_from, take_one, takes, write_one,
}
use type_type_downloader.Examples.JobRuns.{job}
use type_type_downloader.Prelude.Text.{lit}

abbrev saves_all : ℕ → Option ℕ × Option ℕ
saves_all k = (none, none)

abbrev events : List (WriterEvent ℕ)
events = enqueues (job (lit "a")) ∷ takes none none ∷ enqueues (job (lit "b")) ∷ []

closes : (close saves_all (run_events events new_job_writer)).1 ≡ none
unfolding close run_events enqueue take_one take_from write_one drain close_error new_job_writer
closes = refl

close_example :
    (close saves_all (run_events events new_job_writer)).0.saved
    ≡ job (lit "a") ∷ job (lit "b") ∷ []
close_example = close-offered events saves_all closes
