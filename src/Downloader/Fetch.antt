-- ===== src/Downloader/Fetch.antt =====
-- internal/downloader: `fetchChunk` and `validateRangeResponse` of range_request.go and
-- `downloadChunk` of range_worker.go. `Answer` is what client.Do gives for the request, none for an
-- error of it or of building the request.
use type_type_downloader.Prelude.{
  Bool, List, Option, if◌then◌else◌, ltb, none, not, some, suc, zero, ℕ, ◌&&◌, ◌++◌, ◌+◌,
}
use type_type_downloader.Downloader.{Chunk}
use type_type_downloader.Downloader.Copying.{
  Body, DownloadError, all_failed, chunk_overflow, context_ended, copy_chunk, request_failed,
  unexpected_content_length, unexpected_content_range, unexpected_status,
}
use type_type_downloader.Prelude.Decimal.{decimal}
use type_type_downloader.Prelude.Int.{eq_ℤ, ltb_ℤ, pos, pos_part, ℤ, ◌+ℤ◌, ◌-ℤ◌}
use type_type_downloader.Prelude.Result.{Result, err, ok}
use type_type_downloader.Prelude.Text.{Str, has_prefix, is_empty, lit, str_eq}

-- A content length of -1 is one that the response does not say.
pub record Response : Type 0 where
  pub status : ℤ
  pub content_range : Str
  pub content_length : ℤ
  pub body : Body

abbrev pub Answer : Type 0
Answer = Option Response

unfoldable pub chunk_size_of : Chunk → ℤ
chunk_size_of part = part.end -ℤ part.start +ℤ pos 1

-- The head of the Content-Range that answers the request for a chunk.
unfoldable pub wanted_range : Chunk → Str
wanted_range part =
    lit "bytes " ++ (decimal part.start ++ (lit "-" ++ (decimal part.end ++ lit "/")))

unfoldable pub validate_range_response : Response → Chunk → Str → Result DownloadError Unit
unfolding chunk_size_of
validate_range_response response part mode =
    if not (eq_ℤ response.status (pos 206))
      && not (str_eq mode (lit "query") && eq_ℤ response.status (pos 200))
    then err (unexpected_status response.status)
    else if str_eq mode (lit "header")
        && not (has_prefix response.content_range (wanted_range part))
    then err (unexpected_content_range response.content_range)
    else if not (ltb_ℤ response.content_length (pos 0))
        && not (eq_ℤ response.content_length (chunk_size_of part))
    then err (unexpected_content_length response.content_length)
    else ok tt

-- The end of `fetchChunk`: a body of unknown length must end with the chunk.
unfoldable pub check_trailing :
    ℤ → List ℕ × Result DownloadError Body → List ℕ × Result DownloadError Unit
check_trailing content_length (file, err e) = (file, err e)
check_trailing content_length (file, ok rest) =
    if ltb_ℤ content_length (pos 0) && not (is_empty rest.bytes && rest.at_end)
    then (file, err chunk_overflow)
    else (file, ok tt)

module _ (os_write : ℕ → List ℕ → ℕ) (buffer : ℕ) (mode : Str) (part : Chunk) where
  -- `fetchChunk` with the range mode that `effectiveRangeMode` gives.
  unfoldable pub fetch_chunk : Answer → List ℕ → List ℕ × Result DownloadError Unit
  unfolding check_trailing validate_range_response
  fetch_chunk none file = (file, err request_failed)
  fetch_chunk (some response) file = elim (validate_range_response response part mode) [
    | err e ↦ (file, err e)
    | ok u ↦
        check_trailing response.content_length (copy_chunk os_write buffer part response.body file)
  ]

abbrev pub after_fetch :
    (DownloadError → List ℕ → List ℕ × Result DownloadError ℤ)
    → ℤ
    → List ℕ × Result DownloadError Unit
    → List ℕ × Result DownloadError ℤ
after_fetch again size (file, ok u) = (file, ok size)
after_fetch again size (file, err e) = again e file

-- The loop of `downloadChunk`: `answers k` is what attempt k gets, and `ended k` says whether the
-- context ends in the wait before it. A success gives the bytes that the tracker is told of.
module _ (os_write : ℕ → List ℕ → ℕ) (buffer : ℕ) (mode : Str) (part : Chunk) where
  module _ (answers : ℕ → Answer) (ended : ℕ → Bool) where
    unfoldable pub attempt_loop : ℕ → ℕ → DownloadError → List ℕ → List ℕ × Result DownloadError ℤ
    attempt_loop zero attempt last file = (file, err (all_failed last))
    attempt_loop (suc left) attempt last file =
        let go_on =
          after_fetch (attempt_loop left (attempt + 1)) (chunk_size_of part)
            (fetch_chunk os_write buffer mode part (answers attempt) file) in
        if ltb 0 attempt && ended attempt then (file, err context_ended) else go_on

    -- With no attempt there is no error to wrap; `normalizedOptions` gives one attempt at least.
    unfoldable pub download_chunk : ℤ → List ℕ → List ℕ × Result DownloadError ℤ
    unfolding attempt_loop
    download_chunk retries file = attempt_loop (pos_part retries) 0 request_failed file
