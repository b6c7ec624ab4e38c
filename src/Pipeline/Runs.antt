-- ===== src/Pipeline/Runs.antt =====
-- internal/pipeline/runner.go, sabr_runner.go, remote.go, remote_mux.go and work_cleanup.go: the ways
-- to run a job. Each writes its own sequence of steps out, as the code does.
use mathlib.Core.Option
use type_type_downloader.Prelude.{Bool, Option, false, if◌then◌else◌, none, some, ℕ, ◌∷◌}
use type_type_downloader.Artifact.{Paths, build}
use type_type_downloader.Job.{Record, ResolvedOutput}
use type_type_downloader.Job.Store.Lifecycle.{complete, resolve}
use type_type_downloader.Pipeline.Attempts.{World, retry}
use type_type_downloader.Pipeline.Running.{
  Action, Effect, JobRun, JobWorld, RunConfig, StepError, bad_address, downloads_remote, emit,
  fail_with, make_dir, merges, now, on_store, pure, raised, remote_needs_avformat, removes_path,
  retried, saves, unsupported_muxer, ◌>>=◌, ◌>>◌,
}
use type_type_downloader.Pipeline.Tasks.{
  at_stage, audio_resolved_output, download_sabr, download_sabr_audio, finish_step, resolved_output,
  since_ms,
}
use type_type_downloader.Prelude.Int.{pos, ℤ, ◌+ℤ◌}
use type_type_downloader.Prelude.Result.{Result, err, ok}
use type_type_downloader.Prelude.Text.{Str, lit, str_eq}
use type_type_downloader.Prelude.Words.{i64}
use type_type_downloader.Selector.{AudioSelection, Selection}
use type_type_downloader.Typetype.Client.{proxy_media_url}

-- `cleanupWork`; an error of os.Remove is only logged.
unfoldable pub cleanup_work : Paths → Bool → JobRun → JobRun
cleanup_work paths preserve_output s = record s {
  effects =
      if preserve_output
      then removes_path paths.audio ∷ removes_path paths.video ∷ s.effects
      else removes_path paths.output
        ∷ removes_path paths.audio
        ∷ removes_path paths.video
        ∷ s.effects;
}

-- `preserveOutput` as the deferred function reads it: false after an error.
abbrev pub kept : {F : Type 0} → Result F Bool → Bool
kept (ok preserve_output) = preserve_output
kept (err e) = false

-- The value of `preserveOutput` does not leave the function.
abbrev pub forget_value : {F A : Type 0} → Result F A → Result F Unit
forget_value (ok a) = ok tt
forget_value (err e) = err e

-- defer func() { cleanupWork(paths, preserveOutput) }()
unfoldable pub with_cleanup : {E : Type 0} → Paths → Action E Bool → Action E Unit
with_cleanup paths body s =
    let ended = body s in (forget_value ended.0, cleanup_work paths (kept ended.0) ended.1)

-- An attempt of `retry` whose error is one of the system.
abbrev pub raising : {E : Type 0} → World E → (ℕ → Option (StepError E)) → World (StepError E)
raising world runs = record {
  before = λ k. Option.map raised (world.before k);
  runs = runs;
  waits = λ k. Option.map raised (world.waits k);
}

unfoldable pub retry_step : {E : Type 0} → World (StepError E) → ℤ → Action E Unit
retry_step world attempts = fail_with (Option.map retried (retry world attempts))

-- `merge` of media.go, for what the muxer answers.
unfoldable pub merge : {E : Type 0} → Str → Option E → Option (StepError E)
merge muxer answer =
    if str_eq muxer (lit "avformat")
    then Option.map raised answer
    else if str_eq muxer (lit "ffmpeg")
    then Option.map raised answer
    else some (unsupported_muxer muxer)

-- `mediaPath` of both addresses, and then the muxer; the header lines that it is given are left out.
unfoldable pub merge_addresses :
    {E : Type 0} → Option Str → Option Str → Str → Str → Option E → Option (StepError E)
merge_addresses none audio video_url audio_url answer = some (bad_address video_url)
merge_addresses (some video) none video_url audio_url answer = some (bad_address audio_url)
merge_addresses (some video) (some audio) video_url audio_url answer = Option.map raised answer

unfoldable pub merge_remote :
    {E : Type 0} → (Str → Option Str) → Str → Str → Str → Option E → Option (StepError E)
merge_remote media_path muxer video_url audio_url answer =
    if str_eq muxer (lit "avformat")
    then merge_addresses (media_path video_url) (media_path audio_url) video_url audio_url answer
    else some remote_needs_avformat

module _ {E : Type 0} (w : JobWorld E) (config : RunConfig) (id : Str) where
  -- os.MkdirAll of the two directories.
  unfoldable pub make_dirs : Paths → Action E Unit
  make_dirs paths = make_dir w paths.work_dir >> make_dir w (w.dir paths.output)

  unfoldable pub mux_files : Paths → Action E Unit
  mux_files paths = do
    emit (merges config.muxer paths.video paths.audio paths.output)
    retry_step (raising w.muxing (λ k. merge config.muxer (w.muxing.runs k))) (pos 2)

  -- The upload, the end of the job, and whether the output stays.
  unfoldable pub upload : Paths → Action E Unit
  upload paths = do emit (saves paths.output paths.key); retry_step w.upload (pos 3)

  unfoldable pub finish_job : ℤ → ℤ → Action E Unit
  finish_job download_ms mux_ms =
      on_store w (complete id w.saved.location w.saved.backend w.saved.expires download_ms mux_ms)

  unfoldable pub resolve_job : Str → ResolvedOutput → Action E Unit
  resolve_job title resolved = on_store w (resolve id title resolved)

  unfoldable pub run_sabr_artifact : Paths → Action E (ℤ × ℤ) → Action E Unit
  run_sabr_artifact paths task = with_cleanup paths do
    make_dirs paths
    timings ← task
    upload paths
    finish_job timings.0 timings.1
    pure (str_eq w.saved.backend (lit "local"))

  unfoldable pub sabr_task : Record → Selection → Paths → Action E (ℤ × ℤ)
  sabr_task r selection paths = do
    download_ms ← download_sabr w config id r selection paths
    let total = i64 (selection.video.content_length +ℤ selection.audio.content_length)
    at_stage w config id (lit "mux") total total
    started ← now w
    mux_files paths
    mux_ms ← since_ms w config id started
    pure (download_ms, mux_ms)

  unfoldable pub run_sabr : Record → Str → Selection → Action E Unit
  run_sabr r title selection =
      let paths = build w.clean config.data_dir id title selection.container in
      resolve_job title (resolved_output selection paths.name)
      >> run_sabr_artifact paths (sabr_task r selection paths)

  unfoldable pub sabr_audio_task : Record → AudioSelection → Paths → Action E (ℤ × ℤ)
  sabr_audio_task r selection paths = do
    download_ms ← download_sabr_audio w config id r selection paths
    pure (download_ms, pos 0)

  unfoldable pub run_sabr_audio : Record → Str → AudioSelection → Action E Unit
  run_sabr_audio r title selection =
      let paths = build w.clean config.data_dir id title selection.container in
      resolve_job title (audio_resolved_output selection paths.name)
      >> run_sabr_artifact paths (sabr_audio_task r selection paths)

  unfoldable pub remote_task : Effect → Action E (ℤ × ℤ)
  remote_task effect = do
    started ← now w
    at_stage w config id (lit "download") (pos 0) (pos 0)
    emit effect
    finish_step w config id w.remote_result
    download_ms ← since_ms w config id started
    pure (download_ms, pos 0)

  unfoldable pub run_remote : Str → Selection → Action E Unit
  run_remote title selection =
      let paths = build w.clean config.data_dir id title selection.container in
      let video = proxy_media_url w.urls w.client selection.video.url in
      let audio = proxy_media_url w.urls w.client selection.audio.url in
      resolve_job title (resolved_output selection paths.name)
      >> run_sabr_artifact paths (remote_task (downloads_remote video (some audio) paths.output))

  unfoldable pub run_remote_audio : Str → AudioSelection → Action E Unit
  run_remote_audio title selection =
      let paths = build w.clean config.data_dir id title selection.container in
      let audio = proxy_media_url w.urls w.client selection.audio.url in
      resolve_job title (audio_resolved_output selection paths.name)
      >> run_sabr_artifact paths (remote_task (downloads_remote audio none paths.output))
