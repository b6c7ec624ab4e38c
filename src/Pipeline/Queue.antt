-- ===== src/Pipeline/Queue.antt =====
-- internal/pipeline/lifecycle.go: the queue of the runner, a channel of `max_queue_size` ids, and the
-- loop of a worker.
-- A send that does not block: none is the error of a full queue.
use type_type_downloader.Prelude.{
  Bool, List, Option, [], if◌then◌else◌, length, ltb, none, some, ℕ, ◌++◌, ◌+◌, ◌||◌, ◌∷◌,
}
use type_type_downloader.Pipeline.Process.{process}
use type_type_downloader.Pipeline.Running.{JobRun, JobWorld, RunConfig}
use type_type_downloader.Prelude.Result.{Result, err, ok}
use type_type_downloader.Prelude.Text.{Str}

unfoldable pub enqueue : ℕ → Str → List Str → Option (List Str)
enqueue max_queue_size id queue =
    if ltb (length queue) max_queue_size then some (queue ++ id ∷ []) else none

-- A send that waits for room, unless the context ends before: `room` is the queue when it goes on.
unfoldable pub enqueue_blocking : {E : Type 0} → Option E → Str → List Str → Result E (List Str)
enqueue_blocking none id room = ok (room ++ id ∷ [])
enqueue_blocking (some ended) id room = err ended

-- The loop of `worker` over the ids that it receives, until the context has ended; `ended` is the
-- answer of ctx.Err() before and after the n-th receive.
unfoldable pub worker :
    {E : Type 0} → (ℕ → JobWorld E) → RunConfig → (ℕ → Bool × Bool) → ℕ → List Str → JobRun → JobRun
worker worlds config ended n [] s = s
worker worlds config ended n (id ∷ received) s =
    if (ended n).0 || (ended n).1
    then s
    else worker worlds config ended (n + 1) received (process (worlds n) config id s)
