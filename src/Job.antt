-- ===== src/Job.antt =====
-- internal/job: the job records. This file has models.go, the cache key of cache.go and the response
-- of response.go; Job/Store has the store. An instant is the nanoseconds since 1970, and a text field
-- that holds a rendered instant holds the instant here.
pub mod Store
use mathlib.Core.Option
use type_type_downloader.Prelude.{
  Bool, List, Option, false, if◌then◌else◌, leb, map, none, not, some, suc, true, ℕ, ◌++◌, ◌-◌, ◌/◌,
}
use type_type_downloader.Prelude.Int.{ltb_ℤ, negsuc, pos, pos_part, ℤ, ◌*ℤ◌, ◌-ℤ◌}
use type_type_downloader.Prelude.Text.{Str, is_empty, lit, to_lower, trim_space}
use type_type_downloader.Prelude.Words.{i64}

pub data Status : Type 0 where
  queued running done failed : Status

-- `subtitles` is the JSON text of Go's `any`.
pub record JobOptions : Type 0 where
  pub mode : Str
  pub quality : Str
  pub format : Str
  pub container : Str
  pub audio_passthrough : Bool
  pub video_itag : Str
  pub audio_itag : Str
  pub height : Option ℤ
  pub fps : Option ℤ
  pub video_codec : Str
  pub audio_codec : Str
  pub bitrate : Option ℤ
  pub allow_quality_fallback : Bool
  pub sponsor_block : Bool
  pub sponsor_block_categories : List Str
  pub thumbnail_only : Bool
  pub subtitles : Str

pub record ResolvedOutput : Type 0 where
  pub video_itag : Str
  pub audio_itag : Str
  pub height : ℤ
  pub fps : ℤ
  pub video_codec : Str
  pub audio_codec : Str
  pub container : Str
  pub file_name : Str

pub record Progress : Type 0 where
  pub stage : Str
  pub downloaded_bytes : ℤ
  pub total_bytes : ℤ
  pub speed_bytes_per_second : ℤ

-- `cancel` names the function that stops the job's context.
pub record Record : Type 0 where
  pub id : Str
  pub cache_key : Str
  pub url : Str
  pub authorization : Str
  pub options : JobOptions
  pub status : Status
  pub title : Str
  pub error : Option Str
  pub error_code : Option Str
  pub artifact : Str
  pub expires_at : Option ℕ
  pub storage : Str
  pub resolved : Option ResolvedOutput
  pub progress : Progress
  pub queued_at : ℕ
  pub started_at : Option ℕ
  pub finished_at : Option ℕ
  pub download_ms : Option ℤ
  pub mux_ms : Option ℤ
  pub total_ms : Option ℤ
  pub cancel : Option ℕ

-- The fields that no code sets (DurationMs, ETASeconds, TokenFetchMs, YtdlpMs, UploadMs) are left out.
pub record Response : Type 0 where
  pub id : Str
  pub url : Str
  pub status : Status
  pub title : Str
  pub error : Option Str
  pub error_code : Option Str
  pub artifact_url : Option Str
  pub artifact_expires_at : Option ℕ
  pub resolved : Option ResolvedOutput
  pub progress_percent : Option ℤ
  pub downloaded_bytes : Option ℤ
  pub total_bytes : Option ℤ
  pub speed_bytes_per_second : Option ℤ
  pub stage : Option Str
  pub queued_at : Option ℕ
  pub started_at : Option ℕ
  pub finished_at : Option ℕ
  pub queue_wait_ms : Option ℤ
  pub run_time_ms : Option ℤ
  pub download_ms : Option ℤ
  pub mux_ms : Option ℤ
  pub total_ms : Option ℤ

pub Status-discrete : Discrete Status
Status-discrete = hlevel

abbrev pub is_queued : Status → Bool
is_queued queued = true
is_queued _ = false

abbrev pub is_running : Status → Bool
is_running running = true
is_running _ = false

abbrev pub is_done : Status → Bool
is_done done = true
is_done _ = false

abbrev pub is_failed : Status → Bool
is_failed failed = true
is_failed _ = false

pub record CacheInput : Type 0 where
  pub url : Str
  pub options : JobOptions
  pub authorization : Str

-- `normalizeOptions` writes the trimmed categories into the slice that it shares with its caller.
abbrev pub trim_categories : JobOptions → JobOptions
trim_categories options = record options {
  sponsor_block_categories = map trim_space options.sponsor_block_categories;
}

unfoldable pub normalize_options : (ℕ → ℕ) → JobOptions → JobOptions
normalize_options lower options = record options {
  mode = trim_space options.mode;
  quality = trim_space options.quality;
  format = trim_space options.format;
  container = trim_space (to_lower lower options.container);
  video_codec = trim_space (to_lower lower options.video_codec);
  audio_codec = trim_space (to_lower lower options.audio_codec);
  video_itag = trim_space options.video_itag;
  audio_itag = trim_space options.audio_itag;
  sponsor_block_categories = map trim_space options.sponsor_block_categories;
}

-- `digest` is encoding/json, SHA-256 and hex; none is an error of json.Marshal.
unfoldable pub cache_key : (ℕ → ℕ) → (CacheInput → Option Str) → Str → JobOptions → Str → Option Str
unfolding normalize_options
cache_key lower digest url options authorization = digest (record {
  url = trim_space url;
  options = normalize_options lower options;
  authorization = trim_space authorization;
})

-- a.Sub(b).Milliseconds()
abbrev pub ms_between : ℕ → ℕ → ℤ
ms_between a b = if leb b a then pos ((a - b) / 1_000_000) else pos 0 -ℤ pos ((b - a) / 1_000_000)

-- Go's integer division by a positive number.
abbrev pub quot : ℤ → ℕ → ℤ
quot (pos n) d = pos (n / d)
quot (negsuc n) d = pos 0 -ℤ pos (suc n / d)

when {ℓ} : {A : Type ℓ} → Bool → A → Option A
when true a = some a
when false a = none

unfoldable pub progress_percent : Progress → ℤ
progress_percent p = quot (i64 (p.downloaded_bytes *ℤ pos 100)) (pos_part p.total_bytes)

unfoldable pub apply_progress : Response → Progress → Response
unfolding when progress_percent
apply_progress response p =
    let known = ltb_ℤ (pos 0) p.total_bytes in
    record response {
      stage = when (not (is_empty p.stage)) p.stage;
      progress_percent = when known (progress_percent p);
      total_bytes = when known p.total_bytes;
      downloaded_bytes = when known p.downloaded_bytes;
      speed_bytes_per_second =
          when (ltb_ℤ (pos 0) p.speed_bytes_per_second) p.speed_bytes_per_second;
    }

run_time : ℕ → Option ℕ → Option ℕ → Option ℤ
run_time now none finished = none
run_time now (some started) none = some (ms_between now started)
run_time now (some started) (some end) = some (ms_between end started)

unfoldable pub to_response : Str → ℕ → Record → Response
unfolding apply_progress run_time
to_response base_url now r =
    apply_progress
      (record {
        id = r.id;
        url = r.url;
        status = r.status;
        title = r.title;
        error = r.error;
        error_code = r.error_code;
        artifact_url =
            when (not (is_empty r.artifact))
              (base_url ++ (lit "/jobs/" ++ (r.id ++ lit "/artifact")));
        artifact_expires_at = r.expires_at;
        resolved = r.resolved;
        progress_percent = none;
        downloaded_bytes = none;
        total_bytes = none;
        speed_bytes_per_second = none;
        stage = none;
        queued_at = some r.queued_at;
        started_at = r.started_at;
        finished_at = r.finished_at;
        queue_wait_ms = Option.map (λ started. ms_between started r.queued_at) r.started_at;
        run_time_ms = run_time now r.started_at r.finished_at;
        download_ms = r.download_ms;
        mux_ms = r.mux_ms;
        total_ms = r.total_ms;
      })
      r.progress
