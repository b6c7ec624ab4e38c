-- ===== src/Downloader.antt =====
-- internal/downloader: a file that is downloaded in ranges. This file has the options, the chunks
-- (range_downloader.go); the children have the requests and their responses, the copy into the file,
-- the retries, the workers and the progress tracker.
pub mod Chunks
pub mod Copying
pub mod Fetch
pub mod Tracker
pub mod Attempts
pub mod Retries
pub mod Assembly
pub mod Whole
pub mod Requests
pub mod Probe
pub mod Ranged
pub mod Files
pub mod Workers
pub mod Once
pub mod Delivered
use type_type_downloader.Prelude.{List, [], if◌then◌else◌, suc, zero, ℕ, ◌*◌, ◌^◌, ◌∷◌}
use type_type_downloader.Prelude.Int.{ltb_ℤ, pos, ℤ, ◌+ℤ◌, ◌-ℤ◌}
use type_type_downloader.Prelude.Text.{Str, is_empty, lit}
use type_type_downloader.Prelude.Words.{i64}

pub record Source : Type 0 where
  pub name : Str
  pub url : Str
  pub size : ℤ

pub record DownloadOptions : Type 0 where
  pub chunk_size : ℤ
  pub workers : ℤ
  pub retries : ℤ
  pub buffer_size : ℤ
  pub range_mode : Str
  pub progress_bytes : ℤ

pub record Chunk : Type 0 where
  pub start : ℤ
  pub end : ℤ

abbrev default_copy_buffer_size : ℤ
default_copy_buffer_size = pos (256 * 1024)

abbrev positive_or : ℤ → ℤ → ℤ
positive_or value fallback = if ltb_ℤ (pos 0) value then value else fallback

unfoldable pub normalized_options : DownloadOptions → DownloadOptions
normalized_options options = record {
  chunk_size = positive_or options.chunk_size (pos (10 * 2 ^ 20));
  workers = positive_or options.workers (pos 8);
  retries = positive_or options.retries (pos 4);
  buffer_size = positive_or options.buffer_size default_copy_buffer_size;
  range_mode = if is_empty options.range_mode then lit "header" else options.range_mode;
  progress_bytes = positive_or options.progress_bytes (pos (4 * 2 ^ 20));
}

abbrev min_ℤ : ℤ → ℤ → ℤ
min_ℤ a b = if ltb_ℤ b a then b else a

-- The loop of `queueChunks` while the context lasts; `start += chunkSize` wraps like an int64.
unfoldable pub queue_chunks : ℕ → ℤ → ℤ → ℤ → List Chunk
queue_chunks zero start size chunk_size = []
queue_chunks (suc fuel) start size chunk_size =
    let next = i64 (start +ℤ chunk_size) in
    let rest = queue_chunks fuel next size chunk_size in
    if ltb_ℤ start size
    then record { start = start; end = i64 (min_ℤ next size -ℤ pos 1) } ∷ rest
    else []
