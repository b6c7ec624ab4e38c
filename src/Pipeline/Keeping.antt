-- ===== src/Pipeline/Keeping.antt =====
-- Each step of a run of internal/pipeline keeps the job running and the reservations of the disk.
use type_type_downloader.Prelude.{List, Option, [], refl, some, ℕ, ◌∷◌}
use type_type_downloader.Artifact.{Paths}
use type_type_downloader.Downloader.Tracker.{report}
use type_type_downloader.Job.{Progress, Record, ResolvedOutput}
use type_type_downloader.Job.Store.Lifecycle.{progress, resolve}
use type_type_downloader.Pipeline.Frames.{
  KeepsRunning, Step, Step-bind, Step-emit, Step-fail_with, Step-make_dir, Step-now, Step-on_store,
  Step-pure, Step-retry_step,
}
use type_type_downloader.Pipeline.Process.{at_mux, mux_remote, shown_total}
use type_type_downloader.Pipeline.Running.{Effect, JobWorld, RangeReport, RunConfig}
use type_type_downloader.Pipeline.Runs.{
  make_dirs, mux_files, remote_task, resolve_job, sabr_audio_task, sabr_task, upload,
}
use type_type_downloader.Pipeline.Tasks.{
  Combined, at_stage, download, download_audio, download_sabr, download_sabr_audio, finish_step,
  report_ranges, report_sabr, sabr_progress, set_progress, since_ms,
}
use type_type_downloader.Prelude.Int.{ℤ}
use type_type_downloader.Prelude.Text.{Str, lit}
use type_type_downloader.Selector.{AudioSelection, Selection}
use type_type_downloader.Storage.Sums.{total}

module _ {E : Type 0} (w : JobWorld E) (config : RunConfig) (id : Str)
    (calm : (n : ℕ) → KeepsRunning id (w.others n)) where
  pub Step-set_progress : (p : Progress) → Step id (set_progress w config id p)
  Step-set_progress p =
      unfold set_progress in
      unfold progress in Step-on_store id w calm (λ r. record r { progress = p }) (λ r. refl)

  pub Step-at_stage : (stage : Str) (a b : ℤ) → Step id (at_stage w config id stage a b)
  Step-at_stage stage a b = unfold at_stage in Step-set_progress _

  pub Step-since_ms : (started : ℕ) → Step id (since_ms w config id started)
  Step-since_ms started = unfold since_ms in Step-bind id (Step-now id w) (λ ended. Step-pure id _)

  pub Step-finish_step : (result : Option E) → Step id (finish_step w config id result)
  Step-finish_step result = unfold finish_step in Step-fail_with id _

  pub Step-report_ranges :
      (reports : List RangeReport) (c : Combined) (total : ℤ)
      → Step id (report_ranges w config id reports c total)
  unfolding report_ranges
  Step-report_ranges [] c total = Step-pure id tt
  Step-report_ranges (report ∷ rest) c total =
      Step-bind id (Step-set_progress _) (λ a. Step-report_ranges rest _ _)

  pub ruleset task = (
    Step-bind, Step-pure, Step-now, Step-emit, Step-at_stage, Step-finish_step, Step-since_ms,
    Step-report_ranges,
  )

  pub Step-download :
      (selection : Selection) (paths : Paths) → Step id (download w config id selection paths)
  unfolding download
  Step-download selection paths = search task depth 16

  pub Step-download_audio :
      (selection : AudioSelection) (paths : Paths)
      → Step id (download_audio w config id selection paths)
  unfolding download_audio
  Step-download_audio selection paths = search task depth 16

  pub Step-sabr_progress :
      (started : ℕ) (total downloaded : ℤ)
      → Step id (sabr_progress w config id started total downloaded)
  unfolding sabr_progress
  Step-sabr_progress started total downloaded =
      Step-bind id (Step-now id w) (λ ended. Step-set_progress _)

  pub Step-report_sabr :
      (started : ℕ) (total : ℤ) (reports : List ℤ)
      → Step id (report_sabr w config id started total reports)
  unfolding report_sabr
  Step-report_sabr started total [] = Step-pure id tt
  Step-report_sabr started total (downloaded ∷ rest) =
      Step-bind id (Step-sabr_progress started total downloaded)
        (λ a. Step-report_sabr started total rest)

  pub Step-download_sabr :
      (r : Record) (selection : Selection) (paths : Paths)
      → Step id (download_sabr w config id r selection paths)
  unfolding download_sabr
  Step-download_sabr r selection paths = search (task, Step-report_sabr) depth 16

  pub Step-download_sabr_audio :
      (r : Record) (selection : AudioSelection) (paths : Paths)
      → Step id (download_sabr_audio w config id r selection paths)
  unfolding download_sabr_audio
  Step-download_sabr_audio r selection paths = search (task, Step-report_sabr) depth 16

  pub Step-mux_files : (paths : Paths) → Step id (mux_files w config id paths)
  unfolding mux_files
  Step-mux_files paths = search (Step-bind, Step-emit, Step-retry_step) depth 16

  pub Step-upload : (paths : Paths) → Step id (upload w config id paths)
  unfolding upload
  Step-upload paths = search (Step-bind, Step-emit, Step-retry_step) depth 16

  pub Step-make_dirs : (paths : Paths) → Step id (make_dirs w config id paths)
  unfolding make_dirs
  Step-make_dirs paths = search (Step-bind, Step-make_dir) depth 16

  pub Step-resolve_job :
      (title : Str) (resolved : ResolvedOutput) → Step id (resolve_job w config id title resolved)
  Step-resolve_job title resolved =
      unfold resolve_job in
      unfold resolve in
      Step-on_store id w calm (λ r. record r { title = title; resolved = some resolved })
        (λ r. refl)

  pub Step-sabr_task :
      (r : Record) (selection : Selection) (paths : Paths)
      → Step id (sabr_task w config id r selection paths)
  unfolding sabr_task
  Step-sabr_task r selection paths = search (task, Step-download_sabr, Step-mux_files) depth 20

  pub Step-sabr_audio_task :
      (r : Record) (selection : AudioSelection) (paths : Paths)
      → Step id (sabr_audio_task w config id r selection paths)
  unfolding sabr_audio_task
  Step-sabr_audio_task r selection paths = search (task, Step-download_sabr_audio) depth 16

  pub Step-remote_task : (effect : Effect) → Step id (remote_task w config id effect)
  unfolding remote_task
  Step-remote_task effect = search task depth 16

  pub Step-mux_remote :
      (selection : Selection) (paths : Paths) → Step id (mux_remote w config id selection paths)
  unfolding mux_remote
  Step-mux_remote selection paths = search (Step-bind, Step-emit, Step-retry_step) depth 16

  pub Step-at_mux : (selection : Selection) → Step id (at_mux w config id selection)
  Step-at_mux selection =
      unfold at_mux in
      record {
        keeps = λ s r.
            (Step-at_stage (lit "mux") (shown_total w config id selection s)
                (shown_total w config id selection s)).keeps
              s r;
      }

  pub ruleset steps = (
    task, Step-resolve_job, Step-make_dirs, Step-download, Step-download_audio, Step-mux_files,
    Step-mux_remote, Step-at_mux, Step-upload,
  )
