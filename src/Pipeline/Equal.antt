-- ===== src/Pipeline/Equal.antt =====
-- The four copies of the end of a job in internal/pipeline: `run` and `runAudioOnly` (runner.go) and
-- `runRemoteMux` (remote_mux.go) beside `runSABRArtifact` (sabr_runner.go).
use type_type_downloader.Prelude.{Bool, ap, fun_ext, refl, sym, ◌∙◌, ◌≡◌}
use type_type_downloader.Artifact.{Paths, build}
use type_type_downloader.Job.{ResolvedOutput}
use type_type_downloader.Pipeline.Process.{
  at_mux, mux_remote, run_ranged, run_ranged_audio, run_remote_mux,
}
use type_type_downloader.Pipeline.Running.{
  Action, JobError, JobRun, JobWorld, RunConfig, continue_with, now, on_store, pure, ◌>>=◌, ◌>>◌,
}
use type_type_downloader.Pipeline.Runs.{mux_files, resolve_job, run_sabr_artifact, with_cleanup}
use type_type_downloader.Pipeline.Tasks.{
  at_stage, audio_resolved_output, download, download_audio, resolved_output, since_ms,
}
use type_type_downloader.Prelude.Int.{pos, ℤ}
use type_type_downloader.Prelude.Result.{Result, err, ok}
use type_type_downloader.Prelude.Text.{Str, lit}
use type_type_downloader.Selector.{AudioSelection, Selection}

module _ {E : Type 0} (w : JobWorld E) (config : RunConfig) (id : Str) where
  -- The downloads and the mux of `run`, as the task of `runSABRArtifact`.
  abbrev pub ranged_task : Selection → Paths → Action E (ℤ × ℤ)
  ranged_task selection paths = do
    download_ms ← download w config id selection paths
    started ← now w
    at_mux w config id selection
    mux_files w config id paths
    mux_ms ← since_ms w config id started
    pure (download_ms, mux_ms)

  abbrev pub ranged_audio_task : AudioSelection → Paths → Action E (ℤ × ℤ)
  ranged_audio_task selection paths = do
    download_ms ← download_audio w config id selection paths
    pure (download_ms, pos 0)

  abbrev pub remote_mux_task : Selection → Paths → Action E (ℤ × ℤ)
  remote_mux_task selection paths = do
    started ← now w
    at_stage w config id (lit "mux") (pos 0) (pos 0)
    mux_remote w config id selection paths
    mux_ms ← since_ms w config id started
    pure (pos 0, mux_ms)

  module _ {A B : Type 0} where
    bind_same :
        (m : Action E A) (f g : A → Action E B) → ((a : A) → f a ≡ g a) → (m >>= f) ≡ (m >>= g)
    bind_same m f g h = ap (λ k. m >>= k) (fun_ext h)

    pure_bind : (a : A) (f : A → Action E B) → (pure a >>= f) ≡ f a
    unfolding ◌>>=◌ pure
    pure_bind a f = refl

  module _ {A B C : Type 0} where
    continue_assoc :
        (f : A → Action E B) (g : B → Action E C) (x : Result (JobError E) A × JobRun)
        → continue_with g (continue_with f x) ≡ continue_with (λ a s. continue_with g (f a s)) x
    continue_assoc f g (ok a, s) = refl
    continue_assoc f g (err e, s) = refl

    assoc :
        (m : Action E A) (f : A → Action E B) (g : B → Action E C)
        → ((m >>= f) >>= g) ≡ (m >>= λ a. f a >>= g)
    unfolding ◌>>=◌
    assoc m f g = fun_ext (λ s. continue_assoc f g (m s))

    flat :
        (m : Action E A) (f : A → Action E B) (g : B → Action E C) (h : A → Action E C)
        → ((a : A) → (f a >>= g) ≡ h a)
        → ((m >>= f) >>= g) ≡ (m >>= h)
    flat m f g h k = assoc m f g ∙ bind_same m (λ a. f a >>= g) h k

  -- The job's title and output are resolved before or after the cleanup is deferred.
  resolved_first :
      (title : Str) (resolved : ResolvedOutput) (paths : Paths) (body : Action E Bool)
      → with_cleanup paths (resolve_job w config id title resolved >> body)
        ≡ (resolve_job w config id title resolved >> with_cleanup paths body)
  unfolding with_cleanup resolve_job on_store ◌>>=◌
  resolved_first title resolved paths body = refl

  -- `runSABRArtifact` behind the resolution of the output.
  abbrev pub by_artifact :
      Str → (Str → ResolvedOutput) → Str → (Paths → Action E (ℤ × ℤ)) → Action E Unit
  by_artifact title resolved container work =
      let paths = build w.clean config.data_dir id title container in
      resolve_job w config id title (resolved paths.name)
      >> run_sabr_artifact w config id paths (work paths)

  module _ (title : Str) where
    run_ranged_same :
        (selection : Selection)
        → run_ranged w config id title selection
          ≡ by_artifact title
              (resolved_output selection)
              selection.container
              (ranged_task selection)
    unfolding run_ranged run_sabr_artifact
    run_ranged_same selection =
        let paths = build w.clean config.data_dir id title selection.container in
        resolved_first title _ paths _
        ∙ bind_same _ _ _ (λ a. ap (with_cleanup paths) (
            bind_same _ _ _ (λ b. sym (
              flat _ _ _ _ λ d.
                flat _ _ _ _
                  λ t. flat _ _ _ _ λ x. flat _ _ _ _ λ y. flat _ _ _ _ λ m. pure_bind _ _))))

    run_ranged_audio_same :
        (selection : AudioSelection)
        → run_ranged_audio w config id title selection
          ≡ by_artifact title
              (audio_resolved_output selection)
              selection.container
              (ranged_audio_task selection)
    unfolding run_ranged_audio run_sabr_artifact
    run_ranged_audio_same selection =
        let paths = build w.clean config.data_dir id title selection.container in
        resolved_first title _ paths _
        ∙ bind_same _ _ _ (λ a.
          ap (with_cleanup paths) (bind_same _ _ _ (λ b. sym (flat _ _ _ _ λ d. pure_bind _ _))))

    run_remote_mux_same :
        (selection : Selection)
        → run_remote_mux w config id title selection
          ≡ by_artifact title
              (resolved_output selection)
              selection.container
              (remote_mux_task selection)
    unfolding run_remote_mux run_sabr_artifact
    run_remote_mux_same selection =
        let paths = build w.clean config.data_dir id title selection.container in
        resolved_first title _ paths _
        ∙ bind_same _ _ _ (λ a. ap (with_cleanup paths) (
            bind_same _ _ _ (λ b. sym (
              flat _ _ _ _
                λ t. flat _ _ _ _ λ x. flat _ _ _ _ λ y. flat _ _ _ _ λ m. pure_bind _ _))))

    -- The three paths of a job that write the end of a job out themselves, of ranged downloads, of a
    -- ranged audio download and of a remote mux, do what `runSABRArtifact` does with their downloads
    -- and muxes as its task: the same result, the same changes and the same calls in the same order,
    -- in every state and whatever the world answers.
    pub runs_same :
        (selection : Selection) (audio : AudioSelection)
        → (run_ranged w config id title selection
            ≡ by_artifact title
                (resolved_output selection)
                selection.container
                (ranged_task selection))
          × (run_ranged_audio w config id title audio
              ≡ by_artifact title
                  (audio_resolved_output audio)
                  audio.container
                  (ranged_audio_task audio))
          × (run_remote_mux w config id title selection
              ≡ by_artifact title
                  (resolved_output selection)
                  selection.container
                  (remote_mux_task selection))
    runs_same selection audio =
        (run_ranged_same selection, run_ranged_audio_same audio, run_remote_mux_same selection)
