-- ===== src/Downloader/Delivered.antt =====
-- A whole ranged download of internal/downloader/range_downloader.go: the workers of `downloadChunks`
-- and the file that they write.
use type_type_downloader.Prelude.{
  Bool, Bool-cases, List, [], arith, inl, inr, length, none, ℕ, ◌&&◌, ◌+◌, ◌-◌, ◌<◌, ◌==◌, ◌^◌, ◌∷◌,
  ◌≡◌,
}
use type_type_downloader.Downloader.{Chunk, queue_chunks}
use type_type_downloader.Downloader.Attempts.{chunk_of}
use type_type_downloader.Downloader.Chunks.{Tiles, queue_chunks-Tiles}
use type_type_downloader.Downloader.Copying.{Healthy}
use type_type_downloader.Downloader.Fetch.{Answer}
use type_type_downloader.Downloader.Once.{count, finished_once}
use type_type_downloader.Downloader.Whole.{
  AllListed, AllServed, Listed, Pieces, download_in_order, download_in_order-content,
}
use type_type_downloader.Downloader.Workers.{
  RangePool, RangeReturned, RangeRuns, range_result, start_range,
}
use type_type_downloader.Prelude.Int.{pos, pos_part}
use type_type_downloader.Prelude.Text.{Str}

abbrev pub pieces_of : List Chunk → Pieces
pieces_of [] = []
pieces_of (c ∷ cs) = (pos_part c.start, pos_part c.end + 1 - pos_part c.start) ∷ pieces_of cs

count-Listed : (start n : ℕ) (order : Pieces) → 0 < count start n order → Listed start n order
count-Listed start n [] h = absurd (omega arith)
count-Listed start n ((a, b) ∷ rest) h = elim (Bool-cases (a == start && b == n)) [
  | inl y ↦ inl (ground arith)
  | inr m ↦ inr (count-Listed start n rest (ground (arith, h, m)))
]

listed_first :
    (at n : ℕ) (c : Chunk) (cs : List Chunk)
    → c.start ≡ pos at
    → c.end ≡ pos (at + n - 1)
    → 0 < n
    → 0 < count at n (pieces_of (c ∷ cs))
listed_first at n c cs starts ends_at some_bytes = rw (starts, ends_at) (ground (arith, some_bytes))

Tiles-AllListed :
    (limit at size : ℕ) (cs : List Chunk) (order : Pieces)
    → Tiles limit at size cs
    → ((start n : ℕ) → 0 < count start n (pieces_of cs) → 0 < count start n order)
    → AllListed cs order
Tiles-AllListed limit at size [] order tiles h = tt
Tiles-AllListed limit at size (c ∷ cs) order (starts, (n, some_bytes, less, ends_at, rest)) h =
    let same : c ≡ chunk_of at n = cc (starts, ends_at) in
    (
      (
        at,
        n,
        some_bytes,
        same,
        count-Listed at n order (h at n (listed_first at n c cs starts ends_at some_bytes)),
      ),
      Tiles-AllListed limit (at + n) size cs order rest (λ a b more. h a b (omega (arith, more))),
    )

module _ {E : Type 0} (os_write : ℕ → List ℕ → ℕ) (buffer : ℕ) (mode : Str) (retries : ℕ)
    (answers : ℕ → ℕ → Answer) (ended : ℕ → ℕ → Bool) where
  -- However the workers and `queueChunks` step: when `downloadChunks` returns nil, the file holds the
  -- content, if the server answers an attempt of each chunk that was downloaded with the bytes of the
  -- content. The disk is healthy, there is a worker, a buffer and a chunk hold at least one byte, the
  -- file was truncated to the size of the content, and the size and the chunk size together are an
  -- int64.
  pub range_download-content :
      (healthy : Healthy os_write)
      → 0 < buffer
      → (content : List ℕ) (chunk_size workers : ℕ) (file : List ℕ) {s : RangePool E}
      → 0 < chunk_size
      → length content + chunk_size < 2 ^ 63
      → length file ≡ length content
      → 0 < workers
      → RangeRuns workers
          (start_range workers (
            pieces_of
              (queue_chunks (length content) (pos 0) (pos (length content)) (pos chunk_size))))
          s
      → RangeReturned s
      → range_result s (pos (length content)) ≡ none
      → AllServed os_write buffer mode retries answers ended content s.finished
      → download_in_order os_write buffer mode retries answers ended s.finished file ≡ content
  range_download-content healthy some_buffer content chunk_size workers file {s} positive fits size
        some_workers runs returned nil served =
      let queue = queue_chunks (length content) (pos 0) (pos (length content)) (pos chunk_size) in
      let once =
        finished_once workers (pieces_of queue) (pos (length content)) some_workers runs returned
          nil in
      download_in_order-content os_write buffer mode retries answers ended healthy some_buffer
        content chunk_size s.finished file positive fits size
        (Tiles-AllListed chunk_size 0 (length content) queue s.finished
          (queue_chunks-Tiles (length content) chunk_size positive fits)
          (λ start n more. omega (arith, once start n, more)))
        served
