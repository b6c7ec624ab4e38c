-- ===== src/Examples/ServiceRuns.antt =====
-- Runs of the settings, the sweep over old files, a whole file's download, and the workers of a SABR
-- download.
use type_type_downloader.Prelude.{
  List, Option, [], false, if◌then◌else◌, ltb, none, refl, some, true, ℕ, ◌++◌, ◌-◌, ◌∷◌, ◌≡◌,
}
use type_type_downloader.Artifact.{file_join, join_slash}
use type_type_downloader.Cleanup.Sweep.{
  Each, Entry, IsOld, clean_all, clean_all-Each, clean_artifacts, clean_jobs, is_work_file, sweep,
  swept_artifact, swept_job,
}
use type_type_downloader.Downloader.{DownloadOptions, Source}
use type_type_downloader.Downloader.Files.{
  FileOutcome, FileWorld, commit_file, download_file, download_file-Outcome, download_sized,
  fill_file,
}
use type_type_downloader.Downloader.Probe.{source_size}
use type_type_downloader.Prelude.Int.{pos}
use type_type_downloader.Prelude.Map.{delete, put}
use type_type_downloader.Prelude.Text.{
  Str, contains, cut_prefix, has_prefix, has_suffix, lit, str_eq,
}
use type_type_downloader.Sabr.Workers.{
  Pool, PoolRuns, at_head, at_start, downloaded_once, finishes, leaves_empty, returns_nil,
  start_pool, takes, then_step, times,
}

abbrev no_environment : Str → Str
no_environment name = []

abbrev no_host : Str → Option (Str × Str)
no_host raw = none

abbrev unescaped : Str → Str
unescaped raw = raw

abbrev entry : Str → Entry
entry path = record { path = path; has_error = false; is_dir = false; mod_time = some 5 }

abbrev walk : Str → List Entry
walk dir = entry (dir ++ lit "/j1/video.mp4") ∷ entry (dir ++ lit "/j1/notes") ∷ []

abbrev as_it_is : Str → Str
as_it_is path = path

sweep_example :
    (jobs : List Str) × (artifacts : List Str) × (clean_all as_it_is walk
        (lit "data")
        (lit "local")
        10
        100
      ≡ jobs ++ artifacts)
    × Each
        (IsOld (100 - 10) is_work_file)
        (walk (file_join as_it_is (lit "data" ∷ lit "jobs" ∷ [])))
        jobs
    × ((str_eq (lit "local") (lit "s3") ≡ false → artifacts ≡ [])
        × Each
            (IsOld (100 - 10) (λ path. true))
            (walk (file_join as_it_is (lit "data" ∷ lit "artifacts" ∷ [])))
            artifacts)
sweep_example = clean_all-Each as_it_is walk (lit "data") (lit "local") 10 100

swept_one :
    clean_all as_it_is walk (lit "data") (lit "local") 10 100 ≡ lit "data/jobs/j1/video.mp4" ∷ []
unfolding clean_all clean_jobs clean_artifacts sweep swept_job swept_artifact file_join join_slash
    str_eq has_suffix contains has_prefix cut_prefix
swept_one = refl

abbrev file_world : FileWorld ℕ
file_world = record {
  answer = none;
  opens = true;
  truncates = true;
  chunks = λ size. (1 ∷ 2 ∷ 3 ∷ [], none);
  closes = true;
  renames = true;
  removes_old = true;
  removes_part = true;
}

abbrev file_source : Source
file_source = record { name = lit "video"; url = lit "https://v"; size = pos 3 }

abbrev file_options : DownloadOptions
file_options = record {
  chunk_size = pos 0;
  workers = pos 2;
  retries = pos 0;
  buffer_size = pos 0;
  range_mode = [];
  progress_bytes = pos 0;
}

file_example :
    FileOutcome file_world
      (lit "v.mp4")
      []
      (download_file file_world file_source (lit "v.mp4") file_options [])
file_example = download_file-Outcome file_world (lit "v.mp4") [] file_source file_options

downloads_file :
    download_file file_world file_source (lit "v.mp4") file_options []
    ≡ ((lit "v.mp4", 1 ∷ 2 ∷ 3 ∷ []) ∷ [], none)
unfolding download_file download_sized commit_file fill_file source_size put delete str_eq
downloads_file = refl

abbrev pool_end : Pool
pool_end = record {
  waiting = [];
  active = [];
  finished_parts = 0 ∷ [];
  dropped = [];
  idle = 0;
  failures = [];
  ended = false;
}

pool_runs : PoolRuns (start_pool 1) pool_end
unfolding start_pool
pool_runs =
    then_step
      (then_step (then_step at_start (takes 0 0 [] refl refl refl)) (finishes 0 [] (at_head [])))
      (leaves_empty 0 refl refl)

pool_nil : returns_nil pool_end ≡ true
unfolding returns_nil
pool_nil = refl

pool_example : times 0 pool_end.finished_parts ≡ (if ltb 0 1 then 1 else 0)
pool_example =
    downloaded_once 1 pool_runs (record { none_active = refl; none_idle = refl }) pool_nil 0
