-- ===== src/Selector/Runs.antt =====
-- Runs of internal/selector.
use type_type_downloader.Prelude.{[], false, none, refl, some, true, ℕ, ◌∷◌, ◌≡◌}
use type_type_downloader.Prelude.Int.{pos, ◌+ℤ◌}
use type_type_downloader.Prelude.Result.{ok}
use type_type_downloader.Prelude.Text.{
  Str, ascii_lower, contains, cut_prefix, has_prefix, lit, str_eq, to_lower,
}
use type_type_downloader.Prelude.Words.{i64}
use type_type_downloader.Selector.{
  AudioSelection, Selection, SelectorOptions, audio_options, audio_rank, better_audio, better_video,
  codec_matches, consider, default_to, eligible_audio, eligible_video, output_container, pick,
  playable, playable_audio, playable_video, sabr, same_track, select_audio, select_audio_only,
  select_mp4_with_options, select_video, with_audio, with_defaults, with_video,
}
use type_type_downloader.Selector.Best.{select_audio-Best, select_video-Best}
use type_type_downloader.Selector.Choice.{select_mp4-muxable}
use type_type_downloader.Selector.Pick.{Best}
use type_type_downloader.Selector.Promise.{
  AudioPromise, Mp4Promise, select_audio_only-Promise, select_mp4_with_options-Promise,
}
use type_type_downloader.Typetype.{AudioStreamItem, StreamResponse, VideoStreamItem}

abbrev video : ℕ → ℕ → ℕ → VideoStreamItem
video itag height bitrate = record {
  url = lit "https://v";
  mime_type = lit "video/mp4";
  format = lit "mp4";
  resolution = lit "1080p";
  bitrate = some (pos bitrate);
  codec = some (lit "avc1.64");
  is_video_only = true;
  itag = pos itag;
  width = pos 1920;
  height = pos height;
  fps = pos 30;
  content_length = pos 1000;
  init_start = pos 0;
  init_end = pos 0;
  index_start = pos 0;
  index_end = pos 0;
  delivery_method = lit "progressive";
  manifest_url = [];
  sabr_session_url = [];
}

abbrev audio : ℕ → ℕ → Str → AudioStreamItem
audio itag bitrate track = record {
  url = lit "https://a";
  mime_type = lit "audio/mp4";
  format = lit "m4a";
  bitrate = some (pos bitrate);
  codec = some (lit "mp4a.40");
  quality = none;
  itag = pos itag;
  content_length = pos 100;
  init_start = pos 0;
  init_end = pos 0;
  index_start = pos 0;
  index_end = pos 0;
  audio_track_id = some track;
  audio_track_name = none;
  audio_locale = none;
  is_original = false;
  delivery_method = lit "progressive";
  manifest_url = [];
  sabr_session_url = [];
}

abbrev pub stream : StreamResponse
stream = record {
  id = lit "x";
  title = lit "Title";
  duration = pos 60;
  video_streams = [];
  video_only_streams = video 136 720 2000 ∷ video 137 1080 4000 ∷ video 138 2160 9000 ∷ [];
  audio_streams = audio 139 48 (lit "en") ∷ audio 140 128 (lit "fr") ∷ [];
  original_audio_track_id = none;
  preferred_default_audio_id = some (lit "en");
  hls_url = [];
  dash_mpd_url = [];
}

abbrev wanted : SelectorOptions
wanted = record {
  container = lit "mp4";
  max_height = pos 1080;
  video_codec_prefix = lit "avc1";
  audio_codec_prefix = lit "mp4a";
  video_itag = pos 0;
  audio_itag = pos 0;
}

abbrev pub chosen : Selection
chosen = record {
  title = lit "Title";
  video = video 137 1080 4000;
  audio = audio 139 48 (lit "en");
  container = lit "mp4";
}

abbrev pub chosen_audio : AudioSelection
chosen_audio = record {
  title = lit "Title";
  audio = audio 139 48 (lit "en");
  container = lit "m4a";
}

selected_streams : select_mp4_with_options ascii_lower stream wanted ≡ ok chosen
unfolding select_mp4_with_options with_video with_audio select_video select_audio pick consider
    eligible_video eligible_audio better_video better_audio audio_rank same_track with_defaults
    default_to audio_options output_container playable_video playable_audio playable codec_matches
    contains has_prefix cut_prefix to_lower str_eq ◌+ℤ◌ i64
selected_streams = refl

select_video_example :
    Best
      (eligible_video ascii_lower wanted)
      better_video
      stream.video_only_streams
      (select_video ascii_lower stream.video_only_streams wanted)
select_video_example = select_video-Best ascii_lower stream.video_only_streams wanted

select_audio_example :
    Best
      (eligible_audio ascii_lower wanted)
      (better_audio (some (lit "en")))
      stream.audio_streams
      (select_audio ascii_lower stream.audio_streams (some (lit "en")) wanted)
select_audio_example = select_audio-Best ascii_lower stream.audio_streams (some (lit "en")) wanted

abbrev nothing_asked : SelectorOptions
nothing_asked = record {
  container = [];
  max_height = pos 0;
  video_codec_prefix = [];
  audio_codec_prefix = [];
  video_itag = pos 0;
  audio_itag = pos 0;
}

mp4_example :
    Mp4Promise ascii_lower stream nothing_asked
      (select_mp4_with_options ascii_lower stream nothing_asked)
mp4_example = select_mp4_with_options-Promise ascii_lower stream nothing_asked

audio_only_example :
    AudioPromise ascii_lower stream nothing_asked
      (select_audio_only ascii_lower stream nothing_asked)
audio_only_example = select_audio_only-Promise ascii_lower stream nothing_asked

-- A webm video over SABR goes with mp4 audio, into mp4.
abbrev sabr_video : VideoStreamItem
sabr_video = record (video 248 1080 4000) {
  mime_type = lit "video/webm";
  codec = some (lit "vp9");
  delivery_method = lit "sabr";
}

selected_sabr :
    select_mp4_with_options ascii_lower
      (record stream { video_only_streams = sabr_video ∷ [] })
      (record nothing_asked { container = lit "webm" })
    ≡ ok (record chosen { video = sabr_video })
unfolding select_mp4_with_options with_video with_audio select_video select_audio pick consider
    eligible_video eligible_audio better_video better_audio audio_rank same_track with_defaults
    default_to audio_options output_container playable_video playable_audio playable codec_matches
    contains has_prefix cut_prefix to_lower str_eq ◌+ℤ◌ i64
selected_sabr = refl

muxable_example :
    (contains chosen.audio.mime_type chosen.container ≡ true)
    × (str_eq chosen.video.delivery_method sabr ≡ false
        → contains chosen.video.mime_type chosen.container ≡ true)
muxable_example = select_mp4-muxable ascii_lower stream wanted chosen selected_streams
