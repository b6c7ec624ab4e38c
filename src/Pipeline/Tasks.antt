-- ===== src/Pipeline/Tasks.antt =====
-- internal/pipeline/download.go, sabr.go and media.go: the downloads of a job and their progress.
use mathlib.Core.Option
use type_type_downloader.Prelude.{
  List, Option, [], false, if◌then◌else◌, ltb, none, some, true, ℕ, ◌&&◌, ◌-◌, ◌∷◌,
}
use type_type_downloader.Artifact.{Paths}
use type_type_downloader.Downloader.{DownloadOptions}
use type_type_downloader.Downloader.Tracker.{report}
use type_type_downloader.Job.{Progress, Record, ResolvedOutput, ms_between}
use type_type_downloader.Job.Store.Lifecycle.{progress}
use type_type_downloader.Pipeline.Running.{
  Action, JobWorld, RangeReport, RunConfig, downloads, downloads_sabr, emit, fail_with, now,
  on_store, pure, raised, stepped, ◌>>=◌, ◌>>◌,
}
use type_type_downloader.Prelude.Decimal.{decimal}
use type_type_downloader.Prelude.Int.{ltb_ℤ, pos, ℤ, ◌+ℤ◌}
use type_type_downloader.Prelude.Map.{Map, put}
use type_type_downloader.Prelude.Text.{Str, lit}
use type_type_downloader.Prelude.Words.{i64}
use type_type_downloader.Selector.{AudioSelection, Selection, string_value}
use type_type_downloader.Storage.Sums.{total}
use type_type_downloader.Typetype.Client.{public_media_url}

-- The three maps that `combinedProgress` keeps.
pub record Combined : Type 0 where
  pub downloaded : Map ℤ
  pub speed : Map ℤ
  pub total : Map ℤ

abbrev pub nothing_combined : Combined
nothing_combined = record { downloaded = []; speed = []; total = [] }

-- A loop over the values of a map.
unfoldable pub sum_values : ℤ → Map ℤ → ℤ
sum_values acc [] = acc
sum_values acc ((name, value) ∷ rest) = sum_values (i64 (acc +ℤ value)) rest

unfoldable pub combine : RangeReport → Combined → Combined
combine report c = record {
  downloaded = put report.name report.downloaded c.downloaded;
  speed = put report.name report.speed c.speed;
  total = if ltb_ℤ (pos 0) report.total then put report.name report.total c.total else c.total;
}

-- The progress that `update` hands to the job store, for the `total` that it keeps.
unfoldable pub combined_job_progress : Combined → ℤ → Progress
combined_job_progress c total = record {
  stage = lit "download";
  downloaded_bytes = sum_values (pos 0) c.downloaded;
  total_bytes = total;
  speed_bytes_per_second = sum_values (pos 0) c.speed;
}

unfoldable pub probed_total : Combined → ℤ → ℤ
probed_total c total =
    let probed = sum_values (pos 0) c.total in if ltb_ℤ (pos 0) probed then probed else total

-- `errs` has the errors in the order in which the tasks ended.
unfoldable pub run_parallel : {E : Type 0} → List (Option E) → Option E
run_parallel [] = none
run_parallel (none ∷ rest) = run_parallel rest
run_parallel (some e ∷ rest) = some e

unfoldable pub resolved_output : Selection → Str → ResolvedOutput
resolved_output selection file_name = record {
  video_itag = decimal selection.video.itag;
  audio_itag = decimal selection.audio.itag;
  height = selection.video.height;
  fps = selection.video.fps;
  video_codec = string_value selection.video.codec;
  audio_codec = string_value selection.audio.codec;
  container = selection.container;
  file_name = file_name;
}

unfoldable pub audio_resolved_output : AudioSelection → Str → ResolvedOutput
audio_resolved_output selection file_name = record {
  video_itag = [];
  audio_itag = decimal selection.audio.itag;
  height = pos 0;
  fps = pos 0;
  video_codec = [];
  audio_codec = string_value selection.audio.codec;
  container = selection.container;
  file_name = file_name;
}

-- `sabrProgress` without its clock.
unfoldable pub clamp_bytes : ℤ → ℤ → ℤ
clamp_bytes total_bytes downloaded =
    if ltb_ℤ (pos 0) total_bytes && ltb_ℤ total_bytes downloaded then total_bytes else downloaded

module _ {E : Type 0} (w : JobWorld E) (config : RunConfig) (id : Str) where
  unfoldable pub set_progress : Progress → Action E Unit
  set_progress p = on_store w (progress id p)

  unfoldable pub at_stage : Str → ℤ → ℤ → Action E Unit
  at_stage stage downloaded total = set_progress (record {
    stage = stage;
    downloaded_bytes = downloaded;
    total_bytes = total;
    speed_bytes_per_second = pos 0;
  })

  unfoldable pub since_ms : ℕ → Action E ℤ
  since_ms started = do ended ← now w; pure (ms_between ended started)

  unfoldable pub finish_step : Option E → Action E Unit
  finish_step result = fail_with (Option.map (λ e. stepped (raised e)) result)

  -- The calls of the combined progress function, one after the other.
  unfoldable pub report_ranges : List RangeReport → Combined → ℤ → Action E Unit
  report_ranges [] c total = pure tt
  report_ranges (report ∷ rest) c total =
      let c' = combine report c in
      let total' = probed_total c' total in
      set_progress (combined_job_progress c' total') >> report_ranges rest c' total'

  unfoldable pub range_options : ℤ → DownloadOptions
  range_options progress_bytes = record {
    chunk_size = config.chunk_size;
    workers = config.download_workers;
    retries = pos 4;
    buffer_size = pos 262144;
    range_mode = config.range_mode;
    progress_bytes = progress_bytes;
  }

  unfoldable pub download : Selection → Paths → Action E ℤ
  download selection paths = do
    started ← now w
    let total = i64 (selection.video.content_length +ℤ selection.audio.content_length)
    let options = range_options (pos 16777216)
    emit (
        downloads
          (record {
            name = lit "video";
            url = selection.video.url;
            size = selection.video.content_length;
          })
          paths.video options)
    emit (
        downloads
          (record {
            name = lit "audio";
            url = selection.audio.url;
            size = selection.audio.content_length;
          })
          paths.audio options)
    report_ranges w.range_reports nothing_combined total
    let video = w.range_result (lit "video")
    let audio = w.range_result (lit "audio")
    finish_step (run_parallel (if w.audio_first then audio ∷ video ∷ [] else video ∷ audio ∷ []))
    since_ms started

  unfoldable pub download_audio : AudioSelection → Paths → Action E ℤ
  download_audio selection paths = do
    started ← now w
    emit (
        downloads
          (record {
            name = lit "audio";
            url = selection.audio.url;
            size = selection.audio.content_length;
          })
          paths.output (range_options (pos 4194304)))
    report_ranges w.range_reports nothing_combined selection.audio.content_length
    finish_step (w.range_result (lit "audio"))
    since_ms started

  -- One call of the progress function of a SABR download.
  unfoldable pub sabr_progress : ℕ → ℤ → ℤ → Action E Unit
  sabr_progress started total_bytes downloaded = do
    let clamped = clamp_bytes total_bytes downloaded
    ended ← now w
    let elapsed = ended - started
    set_progress (record {
      stage = lit "download";
      downloaded_bytes = clamped;
      total_bytes = total_bytes;
      speed_bytes_per_second = if ltb 0 elapsed then w.rate clamped elapsed else pos 0;
    })

  unfoldable pub report_sabr : ℕ → ℤ → List ℤ → Action E Unit
  report_sabr started total_bytes [] = pure tt
  report_sabr started total_bytes (downloaded ∷ rest) =
      sabr_progress started total_bytes downloaded >> report_sabr started total_bytes rest

  unfoldable pub download_sabr : Record → Selection → Paths → Action E ℤ
  download_sabr r selection paths = do
    started ← now w
    let total_bytes = i64 (selection.video.content_length +ℤ selection.audio.content_length)
    at_stage (lit "download") (pos 0) total_bytes
    emit (
        downloads_sabr (record {
          manifest_url = public_media_url w.urls w.client selection.video.manifest_url;
          authorization = r.authorization;
          video_itag = selection.video.itag;
          audio_itag = selection.audio.itag;
          audio_track_id = string_value selection.audio.audio_track_id;
          audio_only = false;
          video_path = paths.video;
          audio_path = paths.audio;
          expected_bytes = total_bytes;
          parts = pos 0;
          idle_timeout = pos 0;
        }))
    report_sabr started total_bytes w.sabr_reports
    finish_step w.sabr_result
    since_ms started

  unfoldable pub download_sabr_audio : Record → AudioSelection → Paths → Action E ℤ
  download_sabr_audio r selection paths = do
    started ← now w
    let total_bytes = selection.audio.content_length
    at_stage (lit "download") (pos 0) total_bytes
    emit (
        downloads_sabr (record {
          manifest_url = public_media_url w.urls w.client selection.audio.manifest_url;
          authorization = r.authorization;
          video_itag = pos 0;
          audio_itag = selection.audio.itag;
          audio_track_id = string_value selection.audio.audio_track_id;
          audio_only = true;
          video_path = [];
          audio_path = paths.output;
          expected_bytes = total_bytes;
          parts = pos 0;
          idle_timeout = pos 0;
        }))
    report_sabr started total_bytes w.sabr_reports
    finish_step w.sabr_result
    since_ms started
