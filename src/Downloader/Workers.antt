-- ===== src/Downloader/Workers.antt =====
-- internal/downloader/range_downloader.go: `downloadChunks` and `queueChunks` as goroutines that step in
-- any order. A chunk is its start and how many bytes it holds.
use type_type_downloader.Prelude.{
  Bool, Option, [], false, length, none, some, suc, true, ℕ, ◌++◌, ◌<◌, ◌∷◌, ◌≡◌,
}
use type_type_downloader.Downloader.Files.{ChunksError, chunks_error}
use type_type_downloader.Downloader.Whole.{Pieces}
use type_type_downloader.Prelude.Int.{pos, ℤ, ◌+ℤ◌}
use type_type_downloader.Prelude.Words.{i64}

-- What they share: the chunks that are not queued yet, those in the channel, those that a worker
-- downloads, those that are downloaded, in their order, those that were given up, the workers that wait
-- for a chunk, the error in the channel of errors, the error of the caller's context, whether the
-- workers' context has ended, and the sum of the tracker.
pub record RangePool (E : Type 0) : Type 0 where
  pub to_queue : Pieces
  pub queued : Pieces
  pub active : Pieces
  pub finished : Pieces
  pub given_up : Pieces
  pub idle : ℕ
  pub failure : Option E
  pub caller_error : Option E
  pub ended : Bool
  pub downloaded : ℤ

unfoldable pub start_range : {E : Type 0} → ℕ → Pieces → RangePool E
start_range workers pieces = record {
  to_queue = pieces;
  queued = [];
  active = [];
  finished = [];
  given_up = [];
  idle = workers;
  failure = none;
  caller_error = none;
  ended = false;
  downloaded = pos 0;
}

-- The channel of errors holds one.
abbrev pub first_error : {E : Type 0} → Option E → E → Option E
first_error none e = some e
first_error (some first) e = some first

pub data Taken (piece : ℕ × ℕ) : Pieces → Pieces → Type 0 where
  from_head : (rest : Pieces) → Taken piece (piece ∷ rest) rest
  behind :
      (other : ℕ × ℕ) {from rest : Pieces}
      → Taken piece from rest
      → Taken piece (other ∷ from) (other ∷ rest)

pub data RangeStep {E : Type 0} (workers : ℕ) (s : RangePool E) : RangePool E → Type 0 where
  -- The channel holds as many chunks as there are workers.
  queues :
      (piece : ℕ × ℕ) (rest : Pieces)
      → s.to_queue ≡ piece ∷ rest
      → length s.queued < workers
      → RangeStep workers s (record s { to_queue = rest; queued = s.queued ++ piece ∷ [] })
  stops_queueing :
      s.ended ≡ true
      → RangeStep workers s (record s { to_queue = []; given_up = s.to_queue ++ s.given_up })
  takes_chunk :
      (piece : ℕ × ℕ) (waiting : ℕ) (rest : Pieces)
      → s.queued ≡ piece ∷ rest
      → s.idle ≡ suc waiting
      → RangeStep workers s (record s { queued = rest; active = piece ∷ s.active; idle = waiting })
  -- The channel is empty and closed.
  leaves :
      (waiting : ℕ)
      → s.to_queue ≡ []
      → s.queued ≡ []
      → s.idle ≡ suc waiting
      → RangeStep workers s (record s { idle = waiting })
  finishes_chunk :
      (piece : ℕ × ℕ) (rest : Pieces)
      → Taken piece s.active rest
      → RangeStep workers s (record s {
        active = rest;
        finished = s.finished ++ piece ∷ [];
        idle = suc s.idle;
        downloaded = i64 (s.downloaded +ℤ pos piece.1);
      })
  -- A worker that fails ends the workers' context and returns.
  fails_chunk :
      (piece : ℕ × ℕ) (rest : Pieces) (e : E)
      → Taken piece s.active rest
      → RangeStep workers s (record s {
        active = rest;
        given_up = piece ∷ s.given_up;
        failure = first_error s.failure e;
        ended = true;
      })
  caller_ends : (e : E) → RangeStep workers s (record s { caller_error = some e; ended = true })

pub data RangeRuns {E : Type 0} (workers : ℕ) (s : RangePool E) : RangePool E → Type 0 where
  range_start : RangeRuns workers s s
  range_then :
      {t u : RangePool E} → RangeRuns workers s t → RangeStep workers t u → RangeRuns workers s u

-- After wg.Wait() and the end of `queueChunks`.
pub record RangeReturned {E : Type 0} (s : RangePool E) : Type 0 where
  pub all_queued : s.to_queue ≡ []
  pub none_active : s.active ≡ []
  pub none_idle : s.idle ≡ 0

-- The error that `downloadChunks` returns then.
unfoldable pub range_result : {E : Type 0} → RangePool E → ℤ → Option (ChunksError E)
unfolding chunks_error
range_result s size = chunks_error s.failure s.caller_error s.downloaded size
