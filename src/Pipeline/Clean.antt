-- ===== src/Pipeline/Clean.antt =====
-- Which files a run of internal/pipeline leaves behind.
use type_type_downloader.Prelude.{
  Bool, List, Option-cases, false, if◌then◌else◌, inl, inr, refl, true, ◌∷◌, ◌≡◌,
}
use type_type_downloader.Artifact.{Paths, build}
use type_type_downloader.Job.{Record, ResolvedOutput}
use type_type_downloader.Pipeline.Attempts.{retry}
use type_type_downloader.Pipeline.Process.{
  run_audio_selection, run_ranged, run_ranged_audio, run_remote_mux, run_selection,
}
use type_type_downloader.Pipeline.Running.{
  Action, Effect, JobError, JobRun, JobWorld, RunConfig, continue_with, emit, fail_with, on_store,
  pure, removes_path, saves, ◌>>=◌, ◌>>◌,
}
use type_type_downloader.Pipeline.Runs.{
  cleanup_work, finish_job, forget_value, kept, resolve_job, retry_step, run_remote,
  run_remote_audio, run_sabr, run_sabr_artifact, run_sabr_audio, upload, with_cleanup,
}
use type_type_downloader.Prelude.Int.{pos, ℤ}
use type_type_downloader.Prelude.Result.{Result, err, ok}
use type_type_downloader.Prelude.Text.{Str, lit, str_eq}
use type_type_downloader.Selector.{AudioSelection, Selection}

module _ {E : Type 0} (w : JobWorld E) (config : RunConfig) (id : Str) where
  -- The last calls of a body: the files of the streams are removed, and the output too unless the job
  -- has ended without an error and the artifact is the output itself.
  abbrev pub LeavesNone : {F : Type 0} → Bool → Paths → Result F Unit × JobRun → Type 0
  LeavesNone local paths (ok u, t) =
      (before : List Effect) × (t.effects ≡ (
        if local
        then removes_path paths.audio
          ∷ removes_path paths.video
          ∷ saves paths.output paths.key
          ∷ before
        else removes_path paths.output
          ∷ removes_path paths.audio
          ∷ removes_path paths.video
          ∷ saves paths.output paths.key
          ∷ before))
  LeavesNone local paths (err e, t) =
      (before : List Effect) × (t.effects
        ≡ removes_path paths.output ∷ removes_path paths.audio ∷ removes_path paths.video ∷ before)

  abbrev is_local : Bool
  is_local = str_eq w.saved.backend (lit "local")

  -- A body that has just saved the output, when it ends without an error.
  abbrev Saves : Paths → Result (JobError E) Bool × JobRun → Type 0
  Saves paths (ok preserve_output, t) =
      (preserve_output ≡ is_local)
      × ((before : List Effect) × (t.effects ≡ saves paths.output paths.key ∷ before))
  Saves paths (err e, t) = Unit

  cleaned :
      (paths : Paths) (x : Result (JobError E) Bool × JobRun)
      → Saves paths x
      → LeavesNone is_local paths (forget_value x.0, cleanup_work paths (kept x.0) x.1)
  unfolding cleanup_work
  cleaned paths (err e, t) h = (t.effects, refl)
  cleaned paths (ok preserve_output, t) (same, (before, q)) = rw (same, q) (before, refl)

  record Saving (paths : Paths) (m : Action E Bool) : Type 0 where
    pub ends : (s : JobRun) → Saves paths (m s)

  saves_after_upload :
      (paths : Paths) (download_ms mux_ms : ℤ) (s : JobRun)
      → Saves paths (
          (upload w config id paths >> (finish_job w config id download_ms mux_ms >> pure is_local))
            s)
  unfolding upload finish_job on_store ◌>>=◌ pure emit retry_step fail_with
  saves_after_upload paths download_ms mux_ms s = elim (Option-cases (retry w.upload (pos 3))) [
    | inl e ↦ rw e (refl, (s.effects, refl))
    | inr (x, e) ↦ rw e tt
  ]

  Saving-upload :
      (paths : Paths) (download_ms mux_ms : ℤ)
      → Saving paths
          (upload w config id paths >> (finish_job w config id download_ms mux_ms >> pure is_local))
  Saving-upload paths download_ms mux_ms = record {
    ends = λ s. saves_after_upload paths download_ms mux_ms s;
  }

  module _ {A : Type 0} {f : A → Action E Bool} where
    saves_then :
        (paths : Paths) (x : Result (JobError E) A × JobRun)
        → ((a : A) → Saving paths (f a))
        → Saves paths (continue_with f x)
    saves_then paths (ok a, t) h = (h a).ends t
    saves_then paths (err e, t) h = tt

    Saving-bind :
        {paths : Paths} (m : Action E A) → ((a : A) → Saving paths (f a)) → Saving paths (m >>= f)
    Saving-bind {paths} m h = unfold ◌>>=◌ in record { ends = λ s. saves_then paths (m s) h }

  record Leaving (paths : Paths) (m : Action E Unit) : Type 0 where
    pub ends : (s : JobRun) → LeavesNone is_local paths (m s)

  Leaving-with_cleanup :
      (paths : Paths) (body : Action E Bool)
      → Saving paths body
      → Leaving paths (with_cleanup paths body)
  Leaving-with_cleanup paths body h =
      unfold with_cleanup in record { ends = λ s. cleaned paths (body s) (h.ends s) }

  Leaving-run_sabr_artifact :
      (paths : Paths) (work : Action E (ℤ × ℤ))
      → Leaving paths (run_sabr_artifact w config id paths work)
  Leaving-run_sabr_artifact paths work =
      unfold run_sabr_artifact in
      Leaving-with_cleanup paths _ (search (Saving-bind, Saving-upload) depth 8)

  Leaving-resolve :
      (title : Str) (resolved : ResolvedOutput) (paths : Paths) (m : Action E Unit)
      → Leaving paths m
      → Leaving paths (resolve_job w config id title resolved >> m)
  Leaving-resolve title resolved paths m h =
      unfold ◌>>=◌ in unfold resolve_job in unfold on_store in record { ends = λ s. h.ends _ }

  paths_of : Str → Str → Paths
  paths_of title container = build w.clean config.data_dir id title container

  module _ (title : Str) where
    Leaving-run_ranged :
        (selection : Selection)
        → Leaving (paths_of title selection.container) (run_ranged w config id title selection)
    unfolding run_ranged paths_of
    Leaving-run_ranged selection =
        Leaving-with_cleanup _ _ (search (Saving-bind, Saving-upload) depth 16)

    Leaving-run_remote_mux :
        (selection : Selection)
        → Leaving (paths_of title selection.container) (run_remote_mux w config id title selection)
    unfolding run_remote_mux paths_of
    Leaving-run_remote_mux selection =
        Leaving-with_cleanup _ _ (search (Saving-bind, Saving-upload) depth 16)

    Leaving-run_ranged_audio :
        (selection : AudioSelection)
        → Leaving
            (paths_of title selection.container)
            (run_ranged_audio w config id title selection)
    unfolding run_ranged_audio paths_of
    Leaving-run_ranged_audio selection =
        Leaving-with_cleanup _ _ (search (Saving-bind, Saving-upload) depth 16)

    Leaving-if :
        {paths : Paths} (b : Bool) (m k : Action E Unit)
        → Leaving paths m
        → Leaving paths k
        → Leaving paths (if b then m else k)
    Leaving-if true m k h g = h
    Leaving-if false m k h g = g

    Leaving-run_sabr :
        (r : Record) (selection : Selection)
        → Leaving (paths_of title selection.container) (run_sabr w config id r title selection)
    unfolding run_sabr paths_of
    Leaving-run_sabr r selection = Leaving-resolve title _ _ _ (Leaving-run_sabr_artifact _ _)

    Leaving-run_sabr_audio :
        (r : Record) (selection : AudioSelection)
        → Leaving
            (paths_of title selection.container)
            (run_sabr_audio w config id r title selection)
    unfolding run_sabr_audio paths_of
    Leaving-run_sabr_audio r selection = Leaving-resolve title _ _ _ (Leaving-run_sabr_artifact _ _)

    Leaving-run_remote :
        (selection : Selection)
        → Leaving (paths_of title selection.container) (run_remote w config id title selection)
    unfolding run_remote paths_of
    Leaving-run_remote selection = Leaving-resolve title _ _ _ (Leaving-run_sabr_artifact _ _)

    Leaving-run_remote_audio :
        (selection : AudioSelection)
        → Leaving
            (paths_of title selection.container)
            (run_remote_audio w config id title selection)
    unfolding run_remote_audio paths_of
    Leaving-run_remote_audio selection = Leaving-resolve title _ _ _ (Leaving-run_sabr_artifact _ _)

    Leaving-run_selection :
        (r : Record) (selection : Selection)
        → Leaving (paths_of title selection.container) (run_selection w config id r title selection)
    unfolding run_selection
    Leaving-run_selection r selection = Leaving-if _ _ _ (Leaving-run_sabr r selection) (
        Leaving-if _ _ _ (Leaving-run_remote_mux selection)
          (Leaving-if _ _ _ (Leaving-run_remote selection) (Leaving-run_ranged selection)))

    Leaving-run_audio_selection :
        (r : Record) (selection : AudioSelection)
        → Leaving
            (paths_of title selection.container)
            (run_audio_selection w config id r title selection)
    unfolding run_audio_selection
    Leaving-run_audio_selection r selection =
        Leaving-if _ _ _ (Leaving-run_sabr_audio r selection) (
          Leaving-if _ _ _ (Leaving-run_remote_audio selection)
            (Leaving-run_ranged_audio selection))

    -- Whichever way a selection is run, the files of its streams are removed at the end. The output is
    -- removed as well after every error, and after a success too unless the artifact store has
    -- saved it as a local file; no call comes between the save and the removals.
    pub selections-LeavesNone :
        (r : Record) (selection : Selection) (audio : AudioSelection) (s : JobRun)
        → LeavesNone
            (str_eq w.saved.backend (lit "local"))
            (build w.clean config.data_dir id title selection.container)
            (run_selection w config id r title selection s)
          × LeavesNone
              (str_eq w.saved.backend (lit "local"))
              (build w.clean config.data_dir id title audio.container)
              (run_audio_selection w config id r title audio s)
    unfolding paths_of
    selections-LeavesNone r selection audio s =
        ((Leaving-run_selection r selection).ends s, (Leaving-run_audio_selection r audio).ends s)
