-- ===== src/Examples/ProcessRuns.antt =====
-- Runs of a job by internal/pipeline: a ranged download that is muxed and saved on the local disk.
use type_type_downloader.Prelude.{[], false, none, refl, some, true, ℕ, ◌*◌, ◌∷◌, ◌≡◌}
use type_type_downloader.Artifact.{build}
use type_type_downloader.Examples.JobRuns.{job}
use type_type_downloader.Job.Store.{Store, new_store}
use type_type_downloader.Pipeline.Attempts.{World}
use type_type_downloader.Pipeline.Clean.{LeavesNone, selections-LeavesNone}
use type_type_downloader.Pipeline.Equal.{
  by_artifact, ranged_audio_task, ranged_task, remote_mux_task, runs_same,
}
use type_type_downloader.Pipeline.Frames.{KeepsRunning}
use type_type_downloader.Pipeline.Process.{
  process, run, run_audio_selection, run_ranged, run_ranged_audio, run_remote_mux, run_selection,
  started_store,
}
use type_type_downloader.Pipeline.Running.{JobRun, JobWorld, RunConfig, StepError}
use type_type_downloader.Pipeline.Settling.{Settled, process-Settled}
use type_type_downloader.Pipeline.Tasks.{audio_resolved_output, resolved_output}
use type_type_downloader.Prelude.Int.{pos}
use type_type_downloader.Prelude.Map.{get}
use type_type_downloader.Prelude.Text.{ascii_lower, lit, str_eq}
use type_type_downloader.Selector.Runs.{chosen, chosen_audio, stream}
use type_type_downloader.Typetype.Client.{UrlLib}

abbrev fine : World (StepError ℕ)
fine = record { before = λ k. none; runs = λ k. none; waits = λ k. none }

abbrev fine_mux : World ℕ
fine_mux = record { before = λ k. none; runs = λ k. none; waits = λ k. none }

abbrev no_urls : UrlLib
no_urls = record {
  parse = λ raw. none;
  query_escape = λ raw. raw;
  query_unescape = λ raw. none;
  resolve = λ base ref. ref;
  print = λ url. [];
}

abbrev quiet_store : ℕ → Store → Store
quiet_store n store = store

abbrev world : JobWorld ℕ
world = record {
  lower = ascii_lower;
  url_path = λ raw. some raw;
  without_fragment = λ raw. some raw;
  urls = no_urls;
  client = record { base_url = lit "http://api" };
  clean = λ path. path;
  dir = λ path. lit "data/artifacts/j1";
  clock = λ n. n * 1_000_000;
  others = quiet_store;
  stop = some 3;
  fetch = fine;
  fetched = stream;
  stat = some (record { blocks = 1000; bavail = 500; bsize = 4096 });
  mkdir = λ path. none;
  range_reports =
      record { name = lit "video"; downloaded = pos 5; total = pos 9; speed = pos 1 } ∷ [];
  range_result = λ name. none;
  audio_first = true;
  sabr_reports = [];
  sabr_result = none;
  remote_result = none;
  muxing = fine_mux;
  upload = fine;
  saved = record {
    backend = lit "local";
    location = lit "data/artifacts/j1/a.mp4";
    expires = none;
  };
  rate = λ bytes elapsed. bytes;
  context_ended = false;
  kind = λ e. record { is_cancelled = false; is_insufficient_storage = false };
  message = λ e. lit "error";
}

abbrev config : RunConfig
config = record {
  data_dir = lit "data";
  muxer = lit "ffmpeg";
  chunk_size = pos 0;
  download_workers = pos 2;
  range_mode = [];
}

abbrev waiting_store : Store
waiting_store = record (new_store (lit "http://h") 1) { jobs = (lit "j1", job (lit "j1")) ∷ [] }

abbrev begin : JobRun
begin = record {
  store = waiting_store;
  disk = record { min_free_bytes = 0; min_free_percent = 0; reservations = [] };
  reads = 0;
  effects = [];
}

waits : get (lit "j1") waiting_store.jobs ≡ some (job (lit "j1"))
unfolding get str_eq
waits = refl

no_reservation : get (lit "j1") begin.disk.reservations ≡ none
unfolding get
no_reservation = refl

abbrev calm : (n : ℕ) → KeepsRunning (lit "j1") (quiet_store n)
calm n store r e q = (r, e, q)

process_example :
    ((process world config (lit "j1") begin).disk ≡ begin.disk)
    × Settled world config
        (lit "j1")
        (run world config
          (lit "j1")
          (job (lit "j1"))
          (started_store world config (lit "j1") begin)).0
        (process world config (lit "j1") begin)
process_example =
    process-Settled world config (lit "j1") calm begin (job (lit "j1")) waits refl
      (job (lit "j1"), waits) no_reservation

same_example :
    (run_ranged world config (lit "j1") (lit "Title") chosen
      ≡ by_artifact world config
          (lit "j1")
          (lit "Title")
          (resolved_output chosen)
          chosen.container
          (ranged_task world config (lit "j1") chosen))
    × (run_ranged_audio world config (lit "j1") (lit "Title") chosen_audio
        ≡ by_artifact world config
            (lit "j1")
            (lit "Title")
            (audio_resolved_output chosen_audio)
            chosen_audio.container
            (ranged_audio_task world config (lit "j1") chosen_audio))
    × (run_remote_mux world config (lit "j1") (lit "Title") chosen
        ≡ by_artifact world config
            (lit "j1")
            (lit "Title")
            (resolved_output chosen)
            chosen.container
            (remote_mux_task world config (lit "j1") chosen))
same_example = runs_same world config (lit "j1") (lit "Title") chosen chosen_audio

leaves_example :
    LeavesNone world config
      (lit "j1")
      (str_eq (lit "local") (lit "local"))
      (build world.clean (lit "data") (lit "j1") (lit "Title") (lit "mp4"))
      (run_selection world config (lit "j1") (job (lit "j1")) (lit "Title") chosen begin)
    × LeavesNone world config
        (lit "j1")
        (str_eq (lit "local") (lit "local"))
        (build world.clean (lit "data") (lit "j1") (lit "Title") (lit "m4a"))
        (run_audio_selection world config
          (lit "j1")
          (job (lit "j1"))
          (lit "Title")
          chosen_audio
          begin)
leaves_example =
    selections-LeavesNone world config (lit "j1") (lit "Title") (job (lit "j1")) chosen chosen_audio
      begin
