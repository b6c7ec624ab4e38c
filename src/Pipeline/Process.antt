-- ===== src/Pipeline/Process.antt =====
-- internal/pipeline/runner.go, remote_mux.go and lifecycle.go: the run of a queued job, from the
-- worker that takes it to its end.
use type_type_downloader.Prelude.{false, if◌then◌else◌, none, not, some, true, ℕ, ◌+◌, ◌==◌, ◌||◌}
use type_type_downloader.Artifact.{Paths, build}
use type_type_downloader.Job.{Record, is_queued}
use type_type_downloader.Job.Store.Lifecycle.{fail, start}
use type_type_downloader.Pipeline.Attempts.{ErrorKind, exhausted, failure_code, stopped}
use type_type_downloader.Pipeline.Capacity.{
  UrlTools, audio_reservation_bytes, reserve_bytes, uses_remote_mux, video_reservation_bytes,
}
use type_type_downloader.Pipeline.Options.{is_audio_only, selector_options}
use type_type_downloader.Pipeline.Running.{
  Action, JobError, JobRun, JobWorld, RunConfig, StepError, emit, merges_remote, no_space,
  not_selected, now, on_store, or_raise, pure, raised, retried, stepped, ◌>>=◌, ◌>>◌,
}
use type_type_downloader.Pipeline.Runs.{
  finish_job, make_dirs, merge_remote, mux_files, raising, resolve_job, retry_step, run_remote,
  run_remote_audio, run_sabr, run_sabr_audio, upload, with_cleanup,
}
use type_type_downloader.Pipeline.Tasks.{
  at_stage, audio_resolved_output, download, download_audio, resolved_output, since_ms,
}
use type_type_downloader.Prelude.Int.{ltb_ℤ, pos, ℤ, ◌+ℤ◌}
use type_type_downloader.Prelude.Map.{get}
use type_type_downloader.Prelude.Result.{Result, err, ok}
use type_type_downloader.Prelude.Text.{Str, lit, str_eq}
use type_type_downloader.Prelude.Words.{i64}
use type_type_downloader.Selector.{
  AudioSelection, Selection, sabr, select_audio_only, select_mp4_with_options,
}
use type_type_downloader.Storage.{Monitor, StorageError, insufficient_storage, release}
use type_type_downloader.Typetype.{StreamResponse}

module _ {E : Type 0} (w : JobWorld E) (config : RunConfig) (id : Str) where
  unfoldable pub mux_remote : Selection → Paths → Action E Unit
  mux_remote selection paths = do
    emit (merges_remote selection.video.url selection.audio.url paths.output)
    retry_step
        (raising w.muxing (λ k.
          merge_remote w.without_fragment config.muxer selection.video.url selection.audio.url
            (w.muxing.runs k)))
        (pos 2)

  unfoldable pub run_remote_mux : Str → Selection → Action E Unit
  run_remote_mux title selection =
      let paths = build w.clean config.data_dir id title selection.container in
      with_cleanup paths do
        resolve_job w config id title (resolved_output selection paths.name)
        make_dirs w config id paths
        started ← now w
        at_stage w config id (lit "mux") (pos 0) (pos 0)
        mux_remote selection paths
        mux_ms ← since_ms w config id started
        upload w config id paths
        finish_job w config id (pos 0) mux_ms
        pure (str_eq w.saved.backend (lit "local"))

  -- The bytes that the progress of the mux stage shows.
  unfoldable pub shown_total : Selection → JobRun → ℤ
  shown_total selection s =
      let total = i64 (selection.video.content_length +ℤ selection.audio.content_length) in
      if ltb_ℤ (pos 0) total
      then total
      else elim (get id s.store.jobs) [ none ↦ total | some r ↦ r.progress.total_bytes ]

  unfoldable pub at_mux : Selection → Action E Unit
  at_mux selection s =
      let total = shown_total selection s in at_stage w config id (lit "mux") total total s

  -- The end of `run`: two ranged downloads and a mux.
  unfoldable pub run_ranged : Str → Selection → Action E Unit
  run_ranged title selection =
      let paths = build w.clean config.data_dir id title selection.container in
      with_cleanup paths do
        resolve_job w config id title (resolved_output selection paths.name)
        make_dirs w config id paths
        download_ms ← download w config id selection paths
        started ← now w
        at_mux selection
        mux_files w config id paths
        mux_ms ← since_ms w config id started
        upload w config id paths
        finish_job w config id download_ms mux_ms
        pure (str_eq w.saved.backend (lit "local"))

  -- The end of `runAudioOnly`: one ranged download.
  unfoldable pub run_ranged_audio : Str → AudioSelection → Action E Unit
  run_ranged_audio title selection =
      let paths = build w.clean config.data_dir id title selection.container in
      with_cleanup paths do
        resolve_job w config id title (audio_resolved_output selection paths.name)
        make_dirs w config id paths
        download_ms ← download_audio w config id selection paths
        upload w config id paths
        finish_job w config id download_ms (pos 0)
        pure (str_eq w.saved.backend (lit "local"))

  -- A reservation, and `defer release()` around what comes after it; a job that needs no bytes
  -- reserves none and releases none.
  unfoldable pub release_after :
      ℕ → Result (JobError E) Unit × JobRun → Result (JobError E) Unit × JobRun
  release_after bytes (r, s) = (r, if bytes == 0 then s else record s { disk = release s.disk id })

  unfoldable pub with_reserved :
      ℕ → Action E Unit → Monitor × Result StorageError Unit → Action E Unit
  with_reserved bytes body (disk, err e) s = (err (no_space e), record s { disk = disk })
  with_reserved bytes body (disk, ok reserved) s =
      release_after bytes (body (record s { disk = disk }))

  unfoldable pub with_reservation : ℕ → Action E Unit → Action E Unit
  with_reservation bytes body s = with_reserved bytes body (reserve_bytes s.disk id bytes w.stat) s

  abbrev pub url_tools : UrlTools
  url_tools = record { url_path = w.url_path; lower = w.lower }

  unfoldable pub run_selection : Record → Str → Selection → Action E Unit
  run_selection r title selection =
      if str_eq selection.video.delivery_method sabr
      then run_sabr w config id r title selection
      else if uses_remote_mux url_tools selection
      then run_remote_mux title selection
      else if not (ltb_ℤ (pos 0) selection.video.content_length)
          || not (ltb_ℤ (pos 0) selection.audio.content_length)
      then run_remote w config id title selection
      else run_ranged title selection

  unfoldable pub run_audio_selection : Record → Str → AudioSelection → Action E Unit
  run_audio_selection r title selection =
      if str_eq selection.audio.delivery_method sabr
      then run_sabr_audio w config id r title selection
      else if not (ltb_ℤ (pos 0) selection.audio.content_length)
      then run_remote_audio w config id title selection
      else run_ranged_audio title selection

  unfoldable pub run_audio_only : Record → StreamResponse → Action E Unit
  run_audio_only r stream = do
    selection ←
        or_raise not_selected
          (select_audio_only w.lower stream (selector_options w.lower r.options))
    with_reservation (audio_reservation_bytes selection stream.duration)
        (run_audio_selection r stream.title selection)

  unfoldable pub run_video : Record → StreamResponse → Action E Unit
  run_video r stream = do
    selection ←
        or_raise not_selected
          (select_mp4_with_options w.lower stream (selector_options w.lower r.options))
    with_reservation (video_reservation_bytes url_tools selection stream.duration)
        (run_selection r stream.title selection)

  unfoldable pub run : Record → Action E Unit
  run r =
      retry_step w.fetch (pos 3)
      >> (if is_audio_only w.lower r.options
          then run_audio_only r w.fetched
          else run_video r w.fetched)

  -- What errors.Is finds in an error; an error without a cause has no kind.
  abbrev no_kind : ErrorKind
  no_kind = record { is_cancelled = false; is_insufficient_storage = false }

  unfoldable pub step_kind : StepError E → ErrorKind
  step_kind (raised e) = w.kind e
  step_kind _ = no_kind

  unfoldable pub error_kind : JobError E → ErrorKind
  error_kind (retried (stopped e)) = step_kind e
  error_kind (retried (exhausted n none)) = no_kind
  error_kind (retried (exhausted n (some e))) = step_kind e
  error_kind (no_space (insufficient_storage required free reserved)) = record {
    is_cancelled = false;
    is_insufficient_storage = true;
  }
  error_kind (stepped e) = step_kind e
  error_kind _ = no_kind

  unfoldable pub end_run : Result (JobError E) Unit × JobRun → JobRun
  end_run (ok ended, s) = s
  end_run (err e, s) =
      (on_store w (fail id (failure_code w.context_ended (error_kind e)) (w.message e)) s).1

  abbrev pub started_store : JobRun → JobRun
  started_store s = record s {
    store = (start id w.stop (w.clock s.reads) (w.others s.reads s.store)).0;
    reads = s.reads + 1;
  }

  unfoldable pub process : JobRun → JobRun
  process s = elim (get id s.store.jobs) [
    | none ↦ s
    | some r ↦ if is_queued r.status then end_run (run r (started_store s)) else s
  ]
