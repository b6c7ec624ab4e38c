-- ===== src/Job/Store/Lifecycle.antt =====
-- internal/job/store.go: `Start`, `Progress`, `Resolve`, `Done` (here `complete`), `Fail` and
-- `Cancel`. Each changes one record by `update`.
use type_type_downloader.Prelude.{Bool, Option, false, if◌then◌else◌, none, some, true, ℕ}
use type_type_downloader.Job.{
  Progress, Record, ResolvedOutput, done, failed, is_queued, is_running, ms_between, running,
}
use type_type_downloader.Job.Store.{Store, update}
use type_type_downloader.Prelude.Int.{pos, ℤ}
use type_type_downloader.Prelude.Map.{get}
use type_type_downloader.Prelude.Text.{Str, lit}

abbrev pub with_stage : Str → Record → Record
with_stage stage r = record r { progress = record r.progress { stage = stage } }

unfoldable pub mark_started : ℕ → Option ℕ → Record → Record
mark_started now cancel r =
    with_stage (lit "extract")
      (record r { status = running; started_at = some now; cancel = cancel })

unfoldable pub start : Str → Option ℕ → ℕ → Store → Store × Bool
unfolding mark_started
start id cancel now s = update id (mark_started now cancel) now s

unfoldable pub progress : Str → Progress → ℕ → Store → Store
progress id p now s = (update id (λ r. record r { progress = p }) now s).0

unfoldable pub resolve : Str → Str → ResolvedOutput → ℕ → Store → Store
resolve id title resolved now s =
    (update id (λ r. record r { title = title; resolved = some resolved }) now s).0

abbrev total_ms_of : ℕ → Option ℕ → ℤ
total_ms_of now none = pos 0
total_ms_of now (some started) = ms_between now started

abbrev done_stage : Option ℕ → Str → Str
done_stage none stage = stage
done_stage (some started) stage = lit "done"

unfoldable pub mark_done : Str → Str → Option ℕ → ℤ → ℤ → ℕ → Record → Record
mark_done artifact storage expires_at download_ms mux_ms now r = record r {
  status = done;
  artifact = artifact;
  storage = storage;
  expires_at = expires_at;
  finished_at = some now;
  download_ms = some download_ms;
  mux_ms = some mux_ms;
  total_ms = some (total_ms_of now r.started_at);
  cancel = none;
  progress = record r.progress {
    stage = done_stage r.started_at r.progress.stage;
    downloaded_bytes = r.progress.total_bytes;
  };
}

unfoldable pub complete : Str → Str → Str → Option ℕ → ℤ → ℤ → ℕ → Store → Store
unfolding mark_done
complete id artifact storage expires_at download_ms mux_ms now s =
    (update id (mark_done artifact storage expires_at download_ms mux_ms now) now s).0

unfoldable pub mark_failed : Str → Str → ℕ → Record → Record
mark_failed code message now r = record r {
  status = failed;
  error = some message;
  error_code = some code;
  finished_at = some now;
  cancel = none;
}

unfoldable pub fail : Str → Str → Str → ℕ → Store → Store
unfolding mark_failed
fail id code message now s = (update id (mark_failed code message now) now s).0

-- The mutation of `Cancel`: only a queued job changes, and it keeps its `cancel`.
unfoldable pub mark_cancelled : ℕ → Record → Record
mark_cancelled now r =
    if is_queued r.status
    then record r {
      status = failed;
      error = some (lit "job cancelled");
      error_code = some (lit "cancelled");
      finished_at = some now;
    }
    else r

-- Whether `Cancel` accepts a job, and the cancel function that it then calls.
unfoldable pub cancels : Record → Bool × Option ℕ
cancels r =
    if is_queued r.status
    then (true, none)
    else if is_running r.status
    then (true, r.cancel)
    else (false, none)

-- The store, whether the call was accepted, and the function called.
unfoldable pub cancel : Str → ℕ → Store → Store × Bool × Option ℕ
unfolding mark_cancelled cancels
cancel id now s = elim (get id s.jobs) [
  | none ↦ (s, false, none)
  | some r ↦ ((update id (mark_cancelled now) now s).0, (cancels r).0, (cancels r).1)
]
