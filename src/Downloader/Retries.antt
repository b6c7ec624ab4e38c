-- ===== src/Downloader/Retries.antt =====
-- `downloadChunk` of internal/downloader/range_worker.go: what a failed attempt leaves in the file, and
-- what the next one makes of it.
use type_type_downloader.Prelude.{
  Bool, List, arith, drop-all, false, length, ltb, none, refl, some, suc, take-all, true, zero, ℕ,
  ◌&&◌, ◌+◌, ◌<◌, ◌∙◌, ◌≡◌, ◌≤◌,
}
use type_type_downloader.Downloader.Attempts.{Within, chunk_of, fetch_chunk-Within, write_at-again}
use type_type_downloader.Downloader.Copying.{
  request_failed, DownloadError, Healthy, copy_chunk-ok, write_at,
}
use type_type_downloader.Downloader.Fetch.{
  Answer, after_fetch, attempt_loop, check_trailing, chunk_size_of, download_chunk, fetch_chunk,
  validate_range_response,
}
use type_type_downloader.Prelude.Int.{pos, ℤ, ◌+ℤ◌, ◌-ℤ◌}
use type_type_downloader.Prelude.Result.{Result, err, is_ok, ok}
use type_type_downloader.Prelude.Text.{Str}

module _ (os_write : ℕ → List ℕ → ℕ) (buffer : ℕ) (mode : Str) (start n : ℕ) (answers : ℕ → Answer)
    (ended : ℕ → Bool) where
  -- The attempts from `attempt` on: `k` that fail, whatever the file holds, and no wait is ended.
  abbrev pub LoseThen : ℕ → ℕ → Type 0
  LoseThen attempt zero = (ltb 0 attempt && ended attempt) ≡ false
  LoseThen attempt (suc k) =
      ((ltb 0 attempt && ended attempt) ≡ false)
      × ((file : List ℕ)
          → is_ok (fetch_chunk os_write buffer mode (chunk_of start n) (answers attempt) file).1
            ≡ false)
      × LoseThen (attempt + 1) k

  -- An answer that is accepted and whose body is the chunk.
  abbrev pub Serves : List ℕ → Answer → Type 0
  Serves content none = ⊥
  Serves content (some response) =
      (validate_range_response response (chunk_of start n) mode ≡ ok tt)
      × (response.body.bytes ≡ content)
      × (response.body.at_end ≡ true)
      × (length content ≡ n)

module _ (os_write : ℕ → List ℕ → ℕ) (buffer : ℕ) (mode : Str) (start n : ℕ) (answers : ℕ → Answer)
    (ended : ℕ → Bool) (some_bytes : 0 < n) (healthy : Healthy os_write) (some_buffer : 0 < buffer)
    (content : List ℕ) where
  served :
      (answer : Answer) (file : List ℕ)
      → Serves os_write buffer mode start n answers ended content answer
      → fetch_chunk os_write buffer mode (chunk_of start n) answer file
        ≡ (write_at start content file, ok tt)
  unfolding fetch_chunk check_trailing
  served none file absent = elim absent [ ]
  served (some response) file (good, same, ends_there, size) =
      let there : n ≤ length response.body.bytes = rw same (omega arith) in
      let copied =
        copy_chunk-ok os_write buffer healthy some_buffer start n response.body file some_bytes
          there in
      rw (good, fetch_chunk)
        (rw
          (
            copied,
            same,
            take-all n content (omega arith),
            drop-all n content (omega arith),
            ends_there,
          )
          (ground arith))

  chunk_size_of-chunk_of : chunk_size_of (chunk_of start n) ≡ pos n
  unfolding chunk_size_of ◌-ℤ◌ ◌+ℤ◌
  chunk_size_of-chunk_of = ground arith

  -- The next attempts make the file whole, whatever a lost one has left.
  after_lost :
      (again : DownloadError → List ℕ → List ℕ × Result DownloadError ℤ) (file : List ℕ)
      (r : List ℕ × Result DownloadError Unit)
      → length content ≡ n
      → is_ok r.1 ≡ false
      → Within start n file r.0
      → ((e : DownloadError) (file' : List ℕ)
          → again e file' ≡ (write_at start content file', ok (pos n)))
      → after_fetch again (chunk_size_of (chunk_of start n)) r
        ≡ (write_at start content file, ok (pos n))
  after_lost again file (file', ok u) size lost within whole = absurd (cc lost)
  after_lost again file (file', err e) size lost (d, short, written) whole =
      whole e file' ∙ rw (written, write_at-again start content d file (omega arith)) refl

  served_size :
      (answer : Answer)
      → Serves os_write buffer mode start n answers ended content answer
      → length content ≡ n
  served_size none absent = elim absent [ ]
  served_size (some response) (good, same, ends_there, size) = size

  recovers :
      (k left attempt : ℕ) (last : DownloadError) (file : List ℕ)
      → k < left
      → LoseThen os_write buffer mode start n answers ended attempt k
      → Serves os_write buffer mode start n answers ended content (answers (attempt + k))
      → attempt_loop os_write buffer mode (chunk_of start n) answers ended left attempt last file
        ≡ (write_at start content file, ok (pos n))
  unfolding attempt_loop
  recovers k zero attempt last file less lose serve = absurd (omega arith)
  recovers zero (suc left) attempt last file less go_on serve =
      let same : attempt + 0 ≡ attempt = omega arith in
      rw (go_on, served (answers attempt) file (rw same at serve), chunk_size_of-chunk_of) refl
  recovers (suc k) (suc left) attempt last file less (go_on, lost, lose) serve =
      let same : attempt + 1 + k ≡ attempt + suc k = omega arith in
      rw go_on (
        after_lost
          (attempt_loop os_write buffer mode (chunk_of start n) answers ended left (attempt + 1))
          file _ (served_size (answers (attempt + suc k)) serve) (lost file)
          (fetch_chunk-Within os_write buffer mode start n some_bytes (answers attempt) file)
          (λ e file'. recovers k left (attempt + 1) e file' (omega arith) lose (rw same serve)))

  -- If an attempt in the number of retries is answered with the chunk's bytes, on a healthy disk and
  -- with a buffer, and the attempts before it fail and no wait is ended, the chunk's place in the file
  -- holds those bytes, the rest of the file is as it was, and the bytes of the chunk are counted: what
  -- the lost attempts have written is gone.
  pub download_chunk-recovers :
      (k retries : ℕ) (file : List ℕ)
      → k < retries
      → LoseThen os_write buffer mode start n answers ended 0 k
      → Serves os_write buffer mode start n answers ended content (answers k)
      → download_chunk os_write buffer mode (chunk_of start n) answers ended (pos retries) file
        ≡ (write_at start content file, ok (pos n))
  unfolding download_chunk
  download_chunk-recovers k retries file less lose serve =
      let same : 0 + k ≡ k = omega arith in
      recovers k retries 0 request_failed file less lose (rw same serve)
