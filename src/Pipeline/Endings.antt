-- ===== src/Pipeline/Endings.antt =====
-- How a run of a job in internal/pipeline ends: with the job done, or with an error and the job
-- running, and with the reservations of the disk as they were.
use type_type_downloader.Prelude.{Bool, false, if◌then◌else◌, refl, true, ℕ}
use type_type_downloader.Artifact.{Paths}
use type_type_downloader.Job.{Record, done}
use type_type_downloader.Job.Store.Lifecycle.{complete, mark_done}
use type_type_downloader.Pipeline.Frames.{Body, Body-bind, Ended, KeepsRunning, Step, changed}
use type_type_downloader.Pipeline.Keeping.{
  Step-make_dirs, Step-remote_task, Step-resolve_job, Step-sabr_audio_task, Step-sabr_task,
  Step-upload, steps,
}
use type_type_downloader.Pipeline.Process.{
  run_audio_selection, run_ranged, run_ranged_audio, run_remote_mux, run_selection,
}
use type_type_downloader.Pipeline.Running.{
  Action, JobRun, JobWorld, RunConfig, on_store, pure, ◌>>=◌,
}
use type_type_downloader.Pipeline.Runs.{
  cleanup_work, finish_job, forget_value, kept, run_remote, run_remote_audio, run_sabr,
  run_sabr_artifact, run_sabr_audio, with_cleanup,
}
use type_type_downloader.Prelude.Int.{ℤ}
use type_type_downloader.Prelude.Result.{Result, err, ok}
use type_type_downloader.Prelude.Text.{Str}
use type_type_downloader.Selector.{AudioSelection, Selection}

module _ (id : Str) where
  with_cleanup_lem :
      {F : Type 0} (paths : Paths) (s : JobRun) (x : Result F Bool × JobRun)
      → Ended id s x
      → Ended id s (forget_value x.0, cleanup_work paths (kept x.0) x.1)
  unfolding cleanup_work
  with_cleanup_lem paths s (ok b, t) h = h
  with_cleanup_lem paths s (err e, t) h = h

  Body-with_cleanup :
      {E : Type 0} (paths : Paths) (body : Action E Bool)
      → Body id body
      → Body id (with_cleanup paths body)
  Body-with_cleanup paths body h =
      unfold with_cleanup in record { ends = λ s r. with_cleanup_lem paths s (body s) (h.ends s r) }

  module _ {E : Type 0} (w : JobWorld E) (config : RunConfig)
      (calm : (n : ℕ) → KeepsRunning id (w.others n)) where
    Body-finish_job :
        (download_ms mux_ms : ℤ) (preserve_output : Bool)
        → Body id (finish_job w config id download_ms mux_ms >>= λ a. pure preserve_output)
    Body-finish_job download_ms mux_ms preserve_output =
        unfold ◌>>=◌ in
        unfold finish_job in
        unfold on_store in
        unfold pure in
        unfold complete in
        record {
          ends = λ s r. (
            refl,
            changed id w calm
                (mark_done w.saved.location w.saved.backend w.saved.expires download_ms mux_ms
                  (w.clock s.reads))
                s done (λ q e. unfold mark_done in refl) r,
          );
        }

    Body-run_sabr_artifact :
        (paths : Paths) (work : Action E (ℤ × ℤ))
        → Step id work
        → Body id (run_sabr_artifact w config id paths work)
    Body-run_sabr_artifact paths work h =
        unfold run_sabr_artifact in
        Body-with_cleanup paths _ (
          Body-bind id (Step-make_dirs w config id calm paths) λ a. Body-bind id h λ timings.
            Body-bind id (Step-upload w config id calm paths)
              λ b. Body-finish_job timings.0 timings.1 _)

    Body-run_sabr :
        (r : Record) (title : Str) (selection : Selection)
        → Body id (run_sabr w config id r title selection)
    Body-run_sabr r title selection =
        unfold run_sabr in
        Body-bind id (Step-resolve_job w config id calm title _)
          (λ a. Body-run_sabr_artifact _ _ (Step-sabr_task w config id calm r selection _))

    Body-run_sabr_audio :
        (r : Record) (title : Str) (selection : AudioSelection)
        → Body id (run_sabr_audio w config id r title selection)
    Body-run_sabr_audio r title selection =
        unfold run_sabr_audio in
        Body-bind id (Step-resolve_job w config id calm title _)
          (λ a. Body-run_sabr_artifact _ _ (Step-sabr_audio_task w config id calm r selection _))

    Body-run_remote :
        (title : Str) (selection : Selection) → Body id (run_remote w config id title selection)
    Body-run_remote title selection =
        unfold run_remote in
        Body-bind id (Step-resolve_job w config id calm title _)
          (λ a. Body-run_sabr_artifact _ _ (Step-remote_task w config id calm _))

    Body-run_remote_audio :
        (title : Str) (selection : AudioSelection)
        → Body id (run_remote_audio w config id title selection)
    Body-run_remote_audio title selection =
        unfold run_remote_audio in
        Body-bind id (Step-resolve_job w config id calm title _)
          (λ a. Body-run_sabr_artifact _ _ (Step-remote_task w config id calm _))

    Body-run_remote_mux :
        (title : Str) (selection : Selection) → Body id (run_remote_mux w config id title selection)
    Body-run_remote_mux title selection =
        unfold run_remote_mux in
        Body-with_cleanup _ _ (search (Body-bind, Body-finish_job, steps) depth 24)

    Body-run_ranged :
        (title : Str) (selection : Selection) → Body id (run_ranged w config id title selection)
    Body-run_ranged title selection =
        unfold run_ranged in
        Body-with_cleanup _ _ (search (Body-bind, Body-finish_job, steps) depth 24)

    Body-run_ranged_audio :
        (title : Str) (selection : AudioSelection)
        → Body id (run_ranged_audio w config id title selection)
    Body-run_ranged_audio title selection =
        unfold run_ranged_audio in
        Body-with_cleanup _ _ (search (Body-bind, Body-finish_job, steps) depth 24)

    Body-if :
        (b : Bool) (m k : Action E Unit) → Body id m → Body id k → Body id (if b then m else k)
    Body-if true m k h g = h
    Body-if false m k h g = g

    pub Body-run_selection :
        (r : Record) (title : Str) (selection : Selection)
        → Body id (run_selection w config id r title selection)
    unfolding run_selection
    Body-run_selection r title selection = Body-if _ _ _ (Body-run_sabr r title selection) (
        Body-if _ _ _ (Body-run_remote_mux title selection)
          (Body-if _ _ _ (Body-run_remote title selection) (Body-run_ranged title selection)))

    pub Body-run_audio_selection :
        (r : Record) (title : Str) (selection : AudioSelection)
        → Body id (run_audio_selection w config id r title selection)
    unfolding run_audio_selection
    Body-run_audio_selection r title selection =
        Body-if _ _ _ (Body-run_sabr_audio r title selection) (
          Body-if _ _ _ (Body-run_remote_audio title selection)
            (Body-run_ranged_audio title selection))
