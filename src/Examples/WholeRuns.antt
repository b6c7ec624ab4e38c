-- ===== src/Examples/WholeRuns.antt =====
-- A run of a whole ranged download of internal/downloader.
use type_type_downloader.Prelude.{
  Bool, List, [], arith, false, if◌then◌else◌, length, none, refl, some, true, ℕ, ◌==◌, ◌∷◌, ◌≡◌,
}
use type_type_downloader.Downloader.{queue_chunks}
use type_type_downloader.Downloader.Attempts.{chunk_of}
use type_type_downloader.Downloader.Copying.{Healthy}
use type_type_downloader.Downloader.Delivered.{pieces_of, range_download-content}
use type_type_downloader.Downloader.Fetch.{Answer, validate_range_response}
use type_type_downloader.Downloader.Whole.{AllServed, Pieces, download_in_order}
use type_type_downloader.Downloader.Workers.{
  RangePool, RangeRuns, finishes_chunk, from_head, leaves, queues, range_result, range_start,
  range_then, start_range, takes_chunk,
}
use type_type_downloader.Job.Store.Lifecycle.{start}
use type_type_downloader.Prelude.Int.{negsuc, pos, ◌+ℤ◌, ◌-ℤ◌}
use type_type_downloader.Prelude.Result.{ok}
use type_type_downloader.Prelude.Text.{lit, str_eq}
use type_type_downloader.Prelude.Words.{i64}

abbrev writes_them : ℕ → List ℕ → ℕ
writes_them p data_bytes = length data_bytes

them-Healthy : Healthy writes_them
them-Healthy p data_bytes = omega arith

abbrev content : List ℕ
content = 1 ∷ 2 ∷ 3 ∷ 4 ∷ 5 ∷ []

abbrev serving : List ℕ → Answer
serving bytes = some (record {
  status = pos 200;
  content_range = [];
  content_length = negsuc 0;
  body = record { bytes = bytes; at_end = true };
})

abbrev answers : ℕ → ℕ → Answer
answers start k = if start == 0 then serving (1 ∷ 2 ∷ 3 ∷ []) else serving (4 ∷ 5 ∷ [])

abbrev in_time : ℕ → ℕ → Bool
in_time start k = false

-- The second chunk is done first.
abbrev order : Pieces
order = (3, 2) ∷ (0, 3) ∷ []

valid_second :
    validate_range_response
      (record {
        status = pos 200;
        content_range = [];
        content_length = negsuc 0;
        body = record { bytes = 4 ∷ 5 ∷ []; at_end = true };
      })
      (chunk_of 3 2)
      (lit "query")
    ≡ ok tt
unfolding validate_range_response str_eq
valid_second = refl

valid_first :
    validate_range_response
      (record {
        status = pos 200;
        content_range = [];
        content_length = negsuc 0;
        body = record { bytes = 1 ∷ 2 ∷ 3 ∷ []; at_end = true };
      })
      (chunk_of 0 3)
      (lit "query")
    ≡ ok tt
unfolding validate_range_response str_eq
valid_first = refl

served : AllServed writes_them 2 (lit "query") 4 answers in_time content order
served = (
  (omega arith, omega arith, (0, omega arith, refl, (valid_second, refl, refl, refl))),
  ((omega arith, omega arith, (0, omega arith, refl, (valid_first, refl, refl, refl))), tt),
)

abbrev queue : Pieces
queue = pieces_of (queue_chunks 5 (pos 0) (pos 5) (pos 3))

abbrev all_done : RangePool ℕ
all_done = record {
  to_queue = [];
  queued = [];
  active = [];
  finished = order;
  given_up = [];
  idle = 0;
  failure = none;
  caller_error = none;
  ended = false;
  downloaded = pos 5;
}

second_first : RangeRuns 2 (start_range 2 queue) all_done
unfolding start_range queue_chunks ◌+ℤ◌ ◌-ℤ◌ i64
second_first =
    range_then
      (range_then
        (range_then
          (range_then
            (range_then
              (range_then
                (range_then
                  (range_then range_start (queues (0, 3) ((3, 2) ∷ []) refl (omega arith)))
                  (queues (3, 2) [] refl (omega arith)))
                (takes_chunk (0, 3) 1 ((3, 2) ∷ []) refl refl))
              (takes_chunk (3, 2) 0 [] refl refl))
            (finishes_chunk (3, 2) ((0, 3) ∷ []) (from_head ((0, 3) ∷ []))))
          (finishes_chunk (0, 3) [] (from_head [])))
        (leaves 1 refl refl refl))
      (leaves 0 refl refl refl)

all_nil : range_result all_done (pos 5) ≡ none
unfolding range_result
all_nil = refl

whole_example :
    download_in_order writes_them 2 (lit "query") 4 answers in_time order (0 ∷ 0 ∷ 0 ∷ 0 ∷ 0 ∷ [])
    ≡ content
whole_example =
    range_download-content writes_them 2 (lit "query") 4 answers in_time them-Healthy (omega arith)
      content 3 2 (0 ∷ 0 ∷ 0 ∷ 0 ∷ 0 ∷ []) (omega arith) (omega arith) refl (omega arith)
      second_first (record { all_queued = refl; none_active = refl; none_idle = refl }) all_nil
      served
