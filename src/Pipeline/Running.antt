-- ===== src/Pipeline/Running.antt =====
-- internal/pipeline: what a run of a job changes, and what the world answers. A run is a function of
-- the runner's state that returns a value or an error, and the state as it is then; what was
-- written stays written. The other goroutines change the job store before each of its calls.
use mathlib.Core.Option
use type_type_downloader.Prelude.{Bool, List, Option, none, some, ℕ, ◌+◌, ◌∷◌}
use type_type_downloader.Artifact.{Saved}
use type_type_downloader.Downloader.{DownloadOptions, Source}
use type_type_downloader.Job.Store.{Store}
use type_type_downloader.Pipeline.Attempts.{ErrorKind, RetryError, World}
use type_type_downloader.Prelude.Int.{ℤ}
use type_type_downloader.Prelude.Result.{Result, err, ok}
use type_type_downloader.Prelude.Text.{Str}
use type_type_downloader.Sabr.{SabrOptions}
use type_type_downloader.Selector.{SelectError}
use type_type_downloader.Storage.{Monitor, Statfs, StorageError}
use type_type_downloader.Typetype.{StreamResponse}
use type_type_downloader.Typetype.Client.{StreamsClient, UrlLib}

-- The calls into the system and into other packages. `merges` stands for the attempts at one merge,
-- each of which removes the output before it.
pub data Effect : Type 0 where
  removes_path makes_dir : Str → Effect
  downloads : Source → Str → DownloadOptions → Effect
  downloads_sabr : SabrOptions → Effect
  downloads_remote : Str → Option Str → Str → Effect
  merges : Str → Str → Str → Str → Effect
  merges_remote : Str → Str → Str → Effect
  saves : Str → Str → Effect

-- What a run changes: the job store, the disk monitor, the number of times that the clock was read,
-- and the calls that were made, the latest first.
pub record JobRun : Type 0 where
  pub store : Store
  pub disk : Monitor
  pub reads : ℕ
  pub effects : List Effect

-- The part of config.Config that a run uses.
pub record RunConfig : Type 0 where
  pub data_dir : Str
  pub muxer : Str
  pub chunk_size : ℤ
  pub download_workers : ℤ
  pub range_mode : Str

-- An error of the system (`raised`) or one that the pipeline makes itself.
pub data StepError (E : Type 0) : Type 0 where
  raised : E → StepError E
  unsupported_muxer : Str → StepError E
  remote_needs_avformat : StepError E
  bad_address : Str → StepError E

pub data JobError (E : Type 0) : Type 0 where
  retried : RetryError (StepError E) → JobError E
  not_selected : SelectError → JobError E
  no_space : StorageError → JobError E
  stepped : StepError E → JobError E

-- One call of the progress function of a ranged download; `speed` is the int64 of its speed.
pub record RangeReport : Type 0 where
  pub name : Str
  pub downloaded : ℤ
  pub total : ℤ
  pub speed : ℤ

-- What the world answers to the run of one job. `fetch`, `muxing` and `upload` are the attempts of
-- the three calls of `retry`; `fetched` and `saved` are what the attempt that succeeds gives. Each
-- download has the calls of its progress function, in order, and its error. `audio_first` says which
-- of two parallel downloads ends first. `rate` is the bytes per second of an elapsed time. `others` is
-- what the other goroutines do to the store before a call.
pub record JobWorld (E : Type 0) : Type 0 where
  pub lower : ℕ → ℕ
  pub url_path : Str → Option Str
  pub without_fragment : Str → Option Str
  pub urls : UrlLib
  pub client : StreamsClient
  pub clean : Str → Str
  pub dir : Str → Str
  pub clock : ℕ → ℕ
  pub others : ℕ → Store → Store
  pub stop : Option ℕ
  pub fetch : World (StepError E)
  pub fetched : StreamResponse
  pub stat : Option Statfs
  pub mkdir : Str → Option E
  pub range_reports : List RangeReport
  pub range_result : Str → Option E
  pub audio_first : Bool
  pub sabr_reports : List ℤ
  pub sabr_result : Option E
  pub remote_result : Option E
  pub muxing : World E
  pub upload : World (StepError E)
  pub saved : Saved
  pub rate : ℤ → ℕ → ℤ
  pub context_ended : Bool
  pub kind : E → ErrorKind
  pub message : JobError E → Str

abbrev pub Action : Type 0 → Type 0 → Type 0
Action E A = JobRun → Result (JobError E) A × JobRun

-- `if err != nil { return err }`, and what comes after it.
abbrev pub continue_with :
    {E A B : Type 0}
    → (A → Action E B)
    → Result (JobError E) A × JobRun
    → Result (JobError E) B × JobRun
continue_with f (ok a, s) = f a s
continue_with f (err e, s) = (err e, s)

module _ {E : Type 0} where
  infixl 5 ◌>>=◌ ◌>>◌
  unfoldable pub ◌>>=◌ : {A B : Type 0} → Action E A → (A → Action E B) → Action E B
  ◌>>=◌ m f s = continue_with f (m s)

  abbrev pub ◌>>◌ : {A B : Type 0} → Action E A → Action E B → Action E B
  m >> k = m >>= λ _. k

  unfoldable pub pure : {A : Type 0} → A → Action E A
  pure a s = (ok a, s)

  unfoldable pub fail_with : Option (JobError E) → Action E Unit
  fail_with none s = (ok tt, s)
  fail_with (some e) s = (err e, s)

  unfoldable pub or_raise : {F A : Type 0} → (F → JobError E) → Result F A → Action E A
  or_raise f (ok a) s = (ok a, s)
  or_raise f (err e) s = (err (f e), s)

  unfoldable pub emit : Effect → Action E Unit
  emit effect s = (ok tt, record s { effects = effect ∷ s.effects })

module _ {E : Type 0} (w : JobWorld E) where
  -- time.Now
  unfoldable pub now : Action E ℕ
  now s = (ok (w.clock s.reads), record s { reads = s.reads + 1 })

  -- A call of the job store, which reads the clock.
  unfoldable pub on_store : (ℕ → Store → Store) → Action E Unit
  on_store f s = (
    ok tt,
    record s { store = f (w.clock s.reads) (w.others s.reads s.store); reads = s.reads + 1 },
  )

  unfoldable pub make_dir : Str → Action E Unit
  make_dir path = do
    emit (makes_dir path)
    fail_with (Option.map (λ e. stepped (raised e)) (w.mkdir path))
