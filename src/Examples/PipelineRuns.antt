-- ===== src/Examples/PipelineRuns.antt =====
-- Runs of internal/pipeline and internal/downloader.
use type_type_downloader.Prelude.{
  List, [], arith, false, if◌then◌else◌, length, none, some, true, ℕ, ◌+◌, ◌==◌, ◌∷◌, ◌≡◌,
}
use type_type_downloader.Downloader.{queue_chunks}
use type_type_downloader.Downloader.Chunks.{Tiles, queue_chunks-Tiles}
use type_type_downloader.Downloader.Copying.{Body, Healthy}
use type_type_downloader.Job.{JobOptions}
use type_type_downloader.Pipeline.Attempts.{Ends, Fails, World, retry, retry_lem}
use type_type_downloader.Pipeline.Capacity.{
  UrlTools, scaled, stream_size, video_reservation_bytes, video_reservation_bytes_lem, video_tenths,
}
use type_type_downloader.Prelude.Int.{pos}
use type_type_downloader.Prelude.Text.{ascii_lower, lit}
use type_type_downloader.Selector.Runs.{chosen}

abbrev tools : UrlTools
tools = record { url_path = λ s. some s; lower = ascii_lower }

reservation_example :
    video_reservation_bytes tools chosen (pos 60)
    ≡ scaled
        (stream_size (pos 1000) (some (pos 4000)) (pos 60)
          + stream_size (pos 100) (some (pos 48)) (pos 60))
        (video_tenths tools chosen)
reservation_example = video_reservation_bytes_lem tools chosen (pos 60) (omega arith) (omega arith)

-- The second attempt succeeds.
abbrev world : World ℕ
world = record {
  before = λ k. none;
  runs = λ k. if k == 1 then some 7 else none;
  waits = λ k. none;
}

retry_example : (k : ℕ) × Fails world 3 1 k × Ends world 3 3 1 k none (retry world (pos 3))
retry_example = retry_lem world (pos 3)

abbrev job_options : JobOptions
job_options = record {
  mode = lit "video";
  quality = [];
  format = [];
  container = lit " webm ";
  audio_passthrough = false;
  video_itag = lit "137";
  audio_itag = [];
  height = none;
  fps = none;
  video_codec = lit "H264";
  audio_codec = [];
  bitrate = none;
  allow_quality_fallback = false;
  sponsor_block = false;
  sponsor_block_categories = [];
  thumbnail_only = false;
  subtitles = [];
}

queue_example : Tiles 4 0 10 (queue_chunks 10 (pos 0) (pos 10) (pos 4))
queue_example = queue_chunks-Tiles 10 4 (omega arith) (omega arith)

abbrev body : Body
body = record { bytes = 5 ∷ 6 ∷ 7 ∷ 8 ∷ []; at_end = true }

abbrev writes_all : ℕ → List ℕ → ℕ
writes_all p data_bytes = length data_bytes

writes_all-Healthy : Healthy writes_all
writes_all-Healthy p data_bytes = omega arith
