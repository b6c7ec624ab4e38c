-- ===== src/Pipeline/Settling.antt =====
-- `run` and `process` of internal/pipeline as a whole.
use type_type_downloader.Prelude.{
  Bool, Bool-cases, Option, ap, false, if◌then◌else◌, inl, inr, ltb, none, refl, some, true, ℕ,
  ◌==◌, ◌∙◌, ◌≡◌,
}
use type_type_downloader.Job.{Record, Status, done, failed, queued, running}
use type_type_downloader.Job.Store.Lifecycle.{fail, mark_failed, mark_started, start}
use type_type_downloader.Pipeline.Attempts.{failure_code}
use type_type_downloader.Pipeline.Capacity.{reserve_bytes}
use type_type_downloader.Pipeline.Endings.{Body-run_audio_selection, Body-run_selection}
use type_type_downloader.Pipeline.Frames.{
  Body, Ended, Has, KeepsRunning, Kept, Step, Step-retry_step, updated,
}
use type_type_downloader.Pipeline.Process.{
  end_run, error_kind, process, release_after, run, run_audio_only, run_video, started_store,
  with_reservation, with_reserved,
}
use type_type_downloader.Pipeline.Running.{
  Action, JobError, JobRun, JobWorld, RunConfig, continue_with, on_store, or_raise, ◌>>=◌,
}
use type_type_downloader.Prelude.Int.{pos}
use type_type_downloader.Prelude.Map.{delete-put, get}
use type_type_downloader.Prelude.Result.{Result, err, ok}
use type_type_downloader.Prelude.Text.{Str}
use type_type_downloader.Prelude.Words.{sub_u64}
use type_type_downloader.Storage.{
  Monitor, Statfs, StorageError, held, measure, release, reserve, reserve_within, saturated_add,
}
use type_type_downloader.Typetype.{StreamResponse}

module _ (id : Str) where
  -- As `Body`, from a disk on which the job has reserved nothing.
  pub record Whole {E A : Type 0} (m : Action E A) : Type 0 where
    pub ends :
        (s : JobRun) → Has id running s → get id s.disk.reservations ≡ none → Ended id s (m s)

  module _ {E A B : Type 0} {f : A → Action E B} where
    whole_then :
        (s : JobRun) (x : Result (JobError E) A × JobRun)
        → Kept id s x.1
        → get id s.disk.reservations ≡ none
        → ((a : A) → Whole (f a))
        → Ended id s (continue_with f x)
    whole_then s (ok a, t) k e h = ended_later (f a t) ((h a).ends t k.runs (rw k.disk e))
      where
        ended_later : (y : Result (JobError E) B × JobRun) → Ended id t y → Ended id s y
        ended_later (ok b, u) q = (q.0 ∙ k.disk, q.1)
        ended_later (err b, u) q = (q.0 ∙ k.disk, q.1)
    whole_then s (err e, t) k g h = (k.disk, k.runs)

    Whole-bind : {m : Action E A} → Step id m → ((a : A) → Whole (f a)) → Whole (m >>= f)
    Whole-bind {m} h k =
        unfold ◌>>=◌ in record { ends = λ s r e. whole_then s (m s) (h.keeps s r) e k }

  Step-or_raise : {E F A : Type 0} (f : F → JobError E) (r : Result F A) → Step id (or_raise f r)
  Step-or_raise f (ok a) =
      unfold or_raise in record { keeps = λ s r. record { disk = refl; runs = r } }
  Step-or_raise f (err e) =
      unfold or_raise in record { keeps = λ s r. record { disk = refl; runs = r } }

  module _ {E : Type 0} (w : JobWorld E) (config : RunConfig) where
    abbrev released : ℕ → Monitor → Monitor
    released bytes disk = if bytes == 0 then disk else release disk id

    -- A refused reservation changes nothing, and the release undoes an accepted one.
    abbrev Undone : ℕ → Monitor → Monitor × Result StorageError Unit → Type 0
    Undone bytes disk (disk', err e) = disk' ≡ disk
    Undone bytes disk (disk', ok u) = released bytes disk' ≡ disk

    reserve-Undone :
        (bytes : ℕ) (disk : Monitor) (stat : Option Statfs)
        → (bytes == 0) ≡ false
        → get id disk.reservations ≡ none
        → Undone bytes disk (reserve disk id bytes stat)
    unfolding reserve reserve_within release
    reserve-Undone bytes disk none n e = refl
    reserve-Undone bytes disk (some stat) n e =
        elim (Bool-cases (
          ltb (measure disk stat).free_bytes (
            saturated_add
              (sub_u64 (measure disk stat).required_free_bytes (held id disk.reservations))
              bytes))) [
                | inl y ↦ rw y refl
                | inr k ↦
                    rw (k, n)
                      (ap (λ m. record disk { reservations = m })
                        (delete-put id bytes disk.reservations e))
              ]

    reserve_bytes-Undone :
        (bytes : ℕ) (disk : Monitor) (stat : Option Statfs)
        → get id disk.reservations ≡ none
        → Undone bytes disk (reserve_bytes disk id bytes stat)
    unfolding reserve_bytes
    reserve_bytes-Undone bytes disk stat e = elim (Bool-cases (bytes == 0)) [
      | inl y ↦ rw (y, y) refl
      | inr n ↦ rw n (reserve-Undone bytes disk stat n e)
    ]

    released_store :
        (bytes : ℕ) (s t u : JobRun) (status : Status)
        → released bytes t.disk ≡ s.disk
        → u.disk ≡ t.disk
        → Has id status u
        → let v = if bytes == 0 then u else record u { disk = release u.disk id } in
          (v.disk ≡ s.disk) × Has id status v
    released_store bytes s t u status back same has = elim (Bool-cases (bytes == 0)) [
      | inl y ↦ rw y (same ∙ rw y at back, has)
      | inr n ↦ rw n (ap (λ d. release d id) same ∙ rw n at back, has)
    ]

    release_after_lem :
        (bytes : ℕ) (s t : JobRun) (x : Result (JobError E) Unit × JobRun)
        → released bytes t.disk ≡ s.disk
        → Ended id t x
        → Ended id s (release_after w config id bytes x)
    unfolding release_after
    release_after_lem bytes s t (ok a, u) back (same, has) =
        released_store bytes s t u done back same has
    release_after_lem bytes s t (err e, u) back (same, has) =
        released_store bytes s t u running back same has

    with_reserved_lem :
        (bytes : ℕ) (body : Action E Unit) (s : JobRun) (x : Monitor × Result StorageError Unit)
        → Has id running s
        → Undone bytes s.disk x
        → Body id body
        → Ended id s (with_reserved w config id bytes body x s)
    unfolding with_reserved
    with_reserved_lem bytes body s (disk, err e) has undone h = (undone, has)
    with_reserved_lem bytes body s (disk, ok u) has undone h =
        let t = record s { disk = disk } in
        release_after_lem bytes s t (body t) undone (h.ends t has)

    Whole-with_reservation :
        (bytes : ℕ) (body : Action E Unit)
        → Body id body
        → Whole (with_reservation w config id bytes body)
    Whole-with_reservation bytes body h =
        unfold with_reservation in
        record {
          ends = λ s r e.
              with_reserved_lem bytes body s _ r (reserve_bytes-Undone bytes s.disk w.stat e) h;
        }

    module _ (calm : (n : ℕ) → KeepsRunning id (w.others n)) where
      Whole-run_video :
          (r : Record) (stream : StreamResponse) → Whole (run_video w config id r stream)
      Whole-run_video r stream =
          unfold run_video in
          Whole-bind (Step-or_raise _ _) (λ selection.
            Whole-with_reservation _ _
              (Body-run_selection id w config calm r stream.title selection))

      Whole-run_audio_only :
          (r : Record) (stream : StreamResponse) → Whole (run_audio_only w config id r stream)
      Whole-run_audio_only r stream =
          unfold run_audio_only in
          Whole-bind (Step-or_raise _ _) (λ selection.
            Whole-with_reservation _ _
              (Body-run_audio_selection id w config calm r stream.title selection))

      Whole-if : (b : Bool) (m k : Action E Unit) → Whole m → Whole k → Whole (if b then m else k)
      Whole-if true m k h g = h
      Whole-if false m k h g = g

      Whole-run : (r : Record) → Whole (run w config id r)
      Whole-run r =
          unfold run in
          Whole-bind (Step-retry_step id w.fetch (pos 3))
            (λ a. Whole-if _ _ _ (Whole-run_audio_only r w.fetched) (Whole-run_video r w.fetched))

module _ {E : Type 0} (w : JobWorld E) (config : RunConfig) (id : Str) where
  -- How a job that was taken from the queue stands at its end: done, or failed with the message and
  -- the code of the error, when the run has returned one.
  abbrev pub Settled : Result (JobError E) Unit → JobRun → Type 0
  Settled (ok u) t = Has id done t
  Settled (err e) t =
      (r : Record) × (get id t.store.jobs ≡ some r)
      × (r.status ≡ failed)
      × (r.error ≡ some (w.message e))
      × (r.error_code ≡ some (failure_code w.context_ended (error_kind w config id e)))

  module _ (calm : (n : ℕ) → KeepsRunning id (w.others n)) where
    end_run-Settled :
        (s : JobRun) (x : Result (JobError E) Unit × JobRun)
        → Ended id s x
        → ((end_run w config id x).disk ≡ s.disk) × Settled x.0 (end_run w config id x)
    unfolding end_run on_store fail
    end_run-Settled s (ok u, t) h = h
    end_run-Settled s (err e, t) (same, (r, stays, q)) =
        let (r', there, q') = calm t.reads t.store r stays q in
        (
          same,
          (
            _,
            updated id (mark_failed _ (w.message e) (w.clock t.reads)) (w.clock t.reads)
                (w.others t.reads t.store) r' there,
            unfold mark_failed in refl,
            unfold mark_failed in refl,
            unfold mark_failed in refl,
          ),
        )

    module _ (s : JobRun) (r : Record) (found : get id s.store.jobs ≡ some r)
        (waits : r.status ≡ queued)
        (there : (r' : Record) × (get id (w.others s.reads s.store).jobs ≡ some r'))
        (free : get id s.disk.reservations ≡ none) where
      process_queued :
          process w config id s
          ≡ end_run w config id (run w config id r (started_store w config id s))
      unfolding process
      process_queued = rw (found, process, waits) refl

      started-Has : Has id running (started_store w config id s)
      unfolding start
      started-Has =
          let (r', e) = there in
          (
            _,
            updated id (mark_started (w.clock s.reads) w.stop) (w.clock s.reads)
                (w.others s.reads s.store) r' e,
            unfold mark_started in refl,
          )

      -- A worker that takes a queued job always settles it, whatever the world answers and whatever
      -- the other goroutines do to the store, as long as they leave the job there until it is started
      -- and then leave it running: at the end the job is done, if the run has returned no error, or
      -- it is failed, with the message of the error and its failure code. The disk monitor is as it
      -- was before, if the job had nothing reserved.
      pub process-Settled :
          ((process w config id s).disk ≡ s.disk)
          × Settled (run w config id r (started_store w config id s)).0 (process w config id s)
      process-Settled = rw process_queued (
          end_run-Settled (started_store w config id s)
            (run w config id r (started_store w config id s))
            ((Whole-run id w config calm r).ends (started_store w config id s) started-Has free))
