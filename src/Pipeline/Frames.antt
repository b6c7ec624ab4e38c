-- ===== src/Pipeline/Frames.antt =====
-- What the steps of a run of internal/pipeline leave alone.
use type_type_downloader.Prelude.{Option, none, refl, some, ℕ, ◌∙◌, ◌≡◌}
use type_type_downloader.Job.{Record, Status, done, running}
use type_type_downloader.Job.Store.{Store, update}
use type_type_downloader.Job.Store.Transitions.{get-update}
use type_type_downloader.Pipeline.Attempts.{World}
use type_type_downloader.Pipeline.Running.{
  Action, Effect, JobError, JobRun, JobWorld, StepError, continue_with, emit, fail_with, make_dir,
  makes_dir, now, on_store, pure, ◌>>=◌,
}
use type_type_downloader.Pipeline.Runs.{retry_step}
use type_type_downloader.Prelude.Int.{ℤ}
use type_type_downloader.Prelude.Map.{get}
use type_type_downloader.Prelude.Result.{Result, err, ok}
use type_type_downloader.Prelude.Text.{Str, str_eq_refl}
use type_type_downloader.Storage.Reservations.{others}

module _ (id : Str) where
  -- The job is there and runs, or has this outcome.
  abbrev pub Has : Status → JobRun → Type 0
  Has status s = (r : Record) × (get id s.store.jobs ≡ some r) × (r.status ≡ status)

  -- A step keeps the job running and the disk's reservations as they are.
  pub record Kept (s t : JobRun) : Type 0 where
    pub disk : t.disk ≡ s.disk
    pub runs : Has running t

  pub record Step {E A : Type 0} (m : Action E A) : Type 0 where
    pub keeps : (s : JobRun) → Has running s → Kept s (m s).1

  -- A body ends the job, or returns an error and leaves it running.
  abbrev pub Ended : {F A : Type 0} → JobRun → Result F A × JobRun → Type 0
  Ended s (ok a, t) = (t.disk ≡ s.disk) × Has done t
  Ended s (err e, t) = (t.disk ≡ s.disk) × Has running t

  pub record Body {E A : Type 0} (m : Action E A) : Type 0 where
    pub ends : (s : JobRun) → Has running s → Ended s (m s)

  module _ {E A B : Type 0} (f : A → Action E B) where
    Step-then :
        (s : JobRun) (x : Result (JobError E) A × JobRun)
        → Kept s x.1
        → ((a : A) → Step (f a))
        → Kept s (continue_with f x).1
    Step-then s (ok a, t) k h =
        let k' = (h a).keeps t k.runs in record { disk = k'.disk ∙ k.disk; runs = k'.runs }
    Step-then s (err e, t) k h = k

    Body-then :
        (s : JobRun) (x : Result (JobError E) A × JobRun)
        → Kept s x.1
        → ((a : A) → Body (f a))
        → Ended s (continue_with f x)
    Body-then s (ok a, t) k h = ended_later (f a t) ((h a).ends t k.runs)
      where
        ended_later : (y : Result (JobError E) B × JobRun) → Ended t y → Ended s y
        ended_later (ok b, u) e = (e.0 ∙ k.disk, e.1)
        ended_later (err b, u) e = (e.0 ∙ k.disk, e.1)
    Body-then s (err e, t) k h = (k.disk, k.runs)

  module _ {E A B : Type 0} {m : Action E A} {f : A → Action E B} where
    pub Step-bind : Step m → ((a : A) → Step (f a)) → Step (m >>= f)
    Step-bind h k = unfold ◌>>=◌ in record { keeps = λ s r. Step-then f s (m s) (h.keeps s r) k }

    pub Body-bind : Step m → ((a : A) → Body (f a)) → Body (m >>= f)
    Body-bind h k = unfold ◌>>=◌ in record { ends = λ s r. Body-then f s (m s) (h.keeps s r) k }

  module _ {E : Type 0} where
    pub Step-pure : {A : Type 0} (a : A) → Step (pure {E = E} a)
    Step-pure a = unfold pure in record { keeps = λ s r. record { disk = refl; runs = r } }

    pub Step-fail_with : (e : Option (JobError E)) → Step (fail_with e)
    Step-fail_with none =
        unfold fail_with in record { keeps = λ s r. record { disk = refl; runs = r } }
    Step-fail_with (some e) =
        unfold fail_with in record { keeps = λ s r. record { disk = refl; runs = r } }

    pub Step-emit : (effect : Effect) → Step (emit {E = E} effect)
    Step-emit effect = unfold emit in record { keeps = λ s r. record { disk = refl; runs = r } }

    pub Step-retry_step :
        (world : World (StepError E)) (attempts : ℤ) → Step (retry_step world attempts)
    unfolding retry_step
    Step-retry_step world attempts = Step-fail_with _

  -- The other goroutines leave a running job in the store and running.
  abbrev pub KeepsRunning : (Store → Store) → Type 0
  KeepsRunning others =
      (store : Store) (r : Record)
      → get id store.jobs ≡ some r
      → r.status ≡ running
      → (r' : Record) × (get id (others store).jobs ≡ some r') × (r'.status ≡ running)

  -- An update of the job leaves it with the status that its change gives.
  pub updated :
      (f : Record → Record) (now : ℕ) (store : Store) (r : Record)
      → get id store.jobs ≡ some r
      → get id (update id f now store).0.jobs ≡ some (f r)
  updated f now store r e = rw (get-update id f now store id, str_eq_refl id, e) refl

  module _ {E : Type 0} (w : JobWorld E) where
    pub Step-now : Step (now w)
    Step-now = unfold now in record { keeps = λ s r. record { disk = refl; runs = r } }

    pub Step-make_dir : (path : Str) → Step (make_dir w path)
    unfolding make_dir
    Step-make_dir path = Step-bind (Step-emit (makes_dir path)) (λ a. Step-fail_with _)

  module _ {E : Type 0} (w : JobWorld E) (calm : (n : ℕ) → KeepsRunning (w.others n)) where
    -- A change of the job's record after the other goroutines.
    pub changed :
        (f : Record → Record) (s : JobRun) (status : Status)
        → ((r : Record) → r.status ≡ running → (f r).status ≡ status)
        → Has running s
        → (r : Record) × (get id (update id f (w.clock s.reads) (w.others s.reads s.store)).0.jobs
            ≡ some r)
          × (r.status ≡ status)
    changed f s status keeps (r, e, q) =
        let (r', e', q') = calm s.reads s.store r e q in
        (f r', updated f (w.clock s.reads) (w.others s.reads s.store) r' e', keeps r' q')

    pub Step-on_store :
        (f : Record → Record)
        → ((r : Record) → (f r).status ≡ r.status)
        → Step (on_store w (λ now store. (update id f now store).0))
    Step-on_store f keeps =
        unfold on_store in
        record {
          keeps = λ s r. record { disk = refl; runs = changed f s running (λ q e. keeps q ∙ e) r };
        }
