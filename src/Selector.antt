-- ===== src/Selector.antt =====
-- internal/selector (ranking.go, selector.go): which video and audio stream a job downloads.
-- `lower` is unicode.ToLower of one code point.
pub mod Pick
pub mod Best
pub mod Choice
pub mod Defaults
pub mod Promise
pub mod Runs
use type_type_downloader.Prelude.{
  Bool, List, Option, [], false, if◌then◌else◌, none, not, some, ℕ, ◌&&◌, ◌||◌, ◌∷◌,
}
use type_type_downloader.Prelude.Int.{eq_ℤ, ltb_ℤ, pos, ℤ, ◌+ℤ◌}
use type_type_downloader.Prelude.Result.{Result, err, ok}
use type_type_downloader.Prelude.Text.{
  Str, contains, has_prefix, is_empty, lit, str_eq, to_lower, trim_space,
}
use type_type_downloader.Prelude.Words.{i64}
use type_type_downloader.Typetype.{AudioStreamItem, StreamResponse, VideoStreamItem}

pub record Selection : Type 0 where
  pub title : Str
  pub video : VideoStreamItem
  pub audio : AudioStreamItem
  pub container : Str

pub record AudioSelection : Type 0 where
  pub title : Str
  pub audio : AudioStreamItem
  pub container : Str

pub record SelectorOptions : Type 0 where
  pub container : Str
  pub max_height : ℤ
  pub video_codec_prefix : Str
  pub audio_codec_prefix : Str
  pub video_itag : ℤ
  pub audio_itag : ℤ

-- The errors carry the codec of their message.
pub data SelectError : Type 0 where
  no_video no_mp4_audio no_audio : Str → SelectError

abbrev pub mp4 : Str
mp4 = lit "mp4"

abbrev pub m4a : Str
m4a = lit "m4a"

abbrev pub webm : Str
webm = lit "webm"

abbrev pub sabr : Str
sabr = lit "sabr"

pub playable : Str → Str → Str → Bool
playable url delivery_method manifest_url =
    not (is_empty url) || (str_eq delivery_method sabr && not (is_empty manifest_url))

pub playable_video : VideoStreamItem → Bool
unfolding playable
playable_video stream = playable stream.url stream.delivery_method stream.manifest_url

pub playable_audio : AudioStreamItem → Bool
unfolding playable
playable_audio stream = playable stream.url stream.delivery_method stream.manifest_url

abbrev pub stream_bitrate : Option ℤ → ℤ
stream_bitrate none = pos 0
stream_bitrate (some value) = value

abbrev pub string_value : Option Str → Str
string_value none = []
string_value (some value) = value

same_track : Option Str → Option Str → Bool
same_track (some preferred) (some track) = str_eq preferred track
same_track _ _ = false

pub audio_rank : Option Str → AudioStreamItem → ℤ
unfolding same_track
audio_rank preferred stream =
    let rank = stream_bitrate stream.bitrate in
    let tracked =
      if same_track preferred stream.audio_track_id then i64 (rank +ℤ pos 1_000_000) else rank in
    if stream.is_original then i64 (tracked +ℤ pos 500_000) else tracked

pub codec_matches : (ℕ → ℕ) → Str → Str → Bool
codec_matches lower codec prefix =
    is_empty codec || has_prefix (to_lower lower codec) (to_lower lower prefix)

-- The `continue` tests of `selectVideo`.
pub eligible_video : (ℕ → ℕ) → SelectorOptions → VideoStreamItem → Bool
eligible_video lower options stream =
    not (ltb_ℤ (pos 0) options.video_itag && not (eq_ℤ stream.itag options.video_itag))
    && playable_video stream
    && contains stream.mime_type options.container
    && codec_matches lower (string_value stream.codec) options.video_codec_prefix
    && not (ltb_ℤ (pos 0) options.max_height && ltb_ℤ options.max_height stream.height)

-- Whether `stream` replaces `best`.
pub better_video : VideoStreamItem → VideoStreamItem → Bool
better_video stream best =
    ltb_ℤ best.height stream.height
    || (eq_ℤ stream.height best.height
        && ltb_ℤ (stream_bitrate best.bitrate) (stream_bitrate stream.bitrate))

pub eligible_audio : (ℕ → ℕ) → SelectorOptions → AudioStreamItem → Bool
eligible_audio lower options stream =
    not (ltb_ℤ (pos 0) options.audio_itag && not (eq_ℤ stream.itag options.audio_itag))
    && playable_audio stream
    && contains stream.mime_type options.container
    && codec_matches lower (string_value stream.codec) options.audio_codec_prefix

pub better_audio : Option Str → AudioStreamItem → AudioStreamItem → Bool
better_audio preferred stream best = ltb_ℤ (audio_rank preferred best) (audio_rank preferred stream)

-- The loop of `selectVideo` and `selectAudio`: `best` and `found` are one Option.
module _ {A : Type 0} (eligible : A → Bool) (better : A → A → Bool) where
  pub consider : A → Option A → Option A
  consider stream none = if eligible stream then some stream else none
  consider stream (some best) =
      if eligible stream && better stream best then some stream else some best

  pub pick : List A → Option A → Option A
  pick [] best = best
  pick (stream ∷ rest) best = pick rest (consider stream best)

pub select_video : (ℕ → ℕ) → List VideoStreamItem → SelectorOptions → Option VideoStreamItem
select_video lower streams options = pick (eligible_video lower options) better_video streams none

pub select_audio :
    (ℕ → ℕ) → List AudioStreamItem → Option Str → SelectorOptions → Option AudioStreamItem
select_audio lower streams preferred options =
    pick (eligible_audio lower options) (better_audio preferred) streams none

unfoldable pub default_to : Str → Str → Str
default_to value fallback = if is_empty value then fallback else value

-- The defaults at the head of `SelectMP4WithOptions`.
unfoldable pub with_defaults : SelectorOptions → SelectorOptions
unfolding default_to
with_defaults options =
    let container = default_to options.container mp4 in
    record options {
      container = container;
      max_height = if ltb_ℤ (pos 0) options.max_height then options.max_height else pos 1080;
      video_codec_prefix =
          default_to options.video_codec_prefix
            (if str_eq container webm then lit "vp9" else lit "avc1");
      audio_codec_prefix =
          default_to options.audio_codec_prefix
            (if str_eq container webm then lit "opus" else lit "mp4a");
    }

-- A SABR video is muxed with m4a audio into mp4, whatever container was asked for.
pub audio_options : VideoStreamItem → SelectorOptions → SelectorOptions
audio_options video options =
    if str_eq video.delivery_method sabr
    then record options { container = mp4; audio_codec_prefix = lit "mp4a" }
    else options

pub output_container : VideoStreamItem → SelectorOptions → Str
output_container video options =
    if str_eq video.delivery_method sabr then mp4 else options.container

with_audio :
    StreamResponse
    → VideoStreamItem
    → SelectorOptions
    → Str
    → Option AudioStreamItem
    → Result SelectError Selection
with_audio stream video options codec none = err (no_mp4_audio codec)
with_audio stream video options codec (some audio) = ok (record {
  title = stream.title;
  video = video;
  audio = audio;
  container = output_container video options;
})

with_video :
    (ℕ → ℕ)
    → StreamResponse
    → SelectorOptions
    → Option VideoStreamItem
    → Result SelectError Selection
unfolding with_audio
with_video lower stream options none = err (no_video options.video_codec_prefix)
with_video lower stream options (some video) =
    let wanted = audio_options video options in
    with_audio stream video options wanted.audio_codec_prefix
      (select_audio lower stream.audio_streams stream.preferred_default_audio_id wanted)

pub select_mp4_with_options :
    (ℕ → ℕ) → StreamResponse → SelectorOptions → Result SelectError Selection
unfolding with_video
select_mp4_with_options lower stream options =
    let defaulted = with_defaults options in
    with_video lower stream defaulted (select_video lower stream.video_only_streams defaulted)

pub select_mp4 : (ℕ → ℕ) → StreamResponse → ℤ → Result SelectError Selection
select_mp4 lower stream max_height = select_mp4_with_options lower stream (record {
  container = [];
  max_height = max_height;
  video_codec_prefix = lit "avc1";
  audio_codec_prefix = lit "mp4a";
  video_itag = pos 0;
  audio_itag = pos 0;
})

pub audio_output_container : (ℕ → ℕ) → Str → Str
audio_output_container lower container =
    let wanted = trim_space (to_lower lower container) in
    if str_eq wanted webm || str_eq wanted (lit "opus") then webm else m4a

-- The options that `SelectAudioOnly` selects with.
pub audio_only_options : (ℕ → ℕ) → SelectorOptions → SelectorOptions
unfolding default_to
audio_only_options lower options =
    let container = audio_output_container lower options.container in
    let match_container = if str_eq container m4a then mp4 else container in
    record options {
      container = match_container;
      audio_codec_prefix =
          default_to options.audio_codec_prefix
            (if str_eq match_container webm then lit "opus" else lit "mp4a");
    }

with_only_audio :
    StreamResponse → Str → Str → Option AudioStreamItem → Result SelectError AudioSelection
with_only_audio stream container codec none = err (no_audio codec)
with_only_audio stream container codec (some audio) =
    ok (record { title = stream.title; audio = audio; container = container })

pub select_audio_only :
    (ℕ → ℕ) → StreamResponse → SelectorOptions → Result SelectError AudioSelection
unfolding with_only_audio
select_audio_only lower stream options =
    let wanted = audio_only_options lower options in
    with_only_audio stream (audio_output_container lower options.container)
      wanted.audio_codec_prefix
      (select_audio lower stream.audio_streams stream.preferred_default_audio_id wanted)
