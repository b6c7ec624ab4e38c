-- ===== src/Selector/Choice.antt =====
-- What `SelectMP4WithOptions` and `SelectAudioOnly` of internal/selector/selector.go promise.
use type_type_downloader.Prelude.{Option, arith, false, none, refl, some, subst, true, ℕ, ◌≡◌}
use type_type_downloader.Prelude.Result.{Result, err, ok}
use type_type_downloader.Prelude.Text.{contains, str_eq}
use type_type_downloader.Selector.{
  AudioSelection, SelectError, Selection, SelectorOptions, audio_only_options, audio_options,
  audio_output_container, better_audio, better_video, eligible_audio, eligible_video, no_audio,
  no_mp4_audio, no_video, output_container, sabr, select_audio_only, select_mp4_with_options,
  with_audio, with_defaults, with_only_audio, with_video,
}
use type_type_downloader.Selector.Best.{select_audio-Best, select_video-Best}
use type_type_downloader.Selector.Pick.{Best}
use type_type_downloader.Typetype.{AudioStreamItem, StreamResponse, VideoStreamItem}

audio_options-container :
    (video : VideoStreamItem) (options : SelectorOptions)
    → (audio_options video options).container ≡ output_container video options
unfolding audio_options output_container
audio_options-container video options = ground arith

output_container-eq :
    (video : VideoStreamItem) (options : SelectorOptions)
    → str_eq video.delivery_method sabr ≡ false
    → output_container video options ≡ options.container
unfolding output_container
output_container-eq video options n = rw n

module _ (lower : ℕ → ℕ) (stream : StreamResponse) where
  abbrev pub BestVideo : SelectorOptions → Option VideoStreamItem → Type 0
  BestVideo options = Best (eligible_video lower options) better_video stream.video_only_streams

  abbrev pub BestAudio : SelectorOptions → Option AudioStreamItem → Type 0
  BestAudio options =
      Best (eligible_audio lower options) (better_audio stream.preferred_default_audio_id)
        stream.audio_streams

  abbrev pub Mp4Choice : SelectorOptions → Result SelectError Selection → Type 0
  Mp4Choice options (ok s) =
      (s.title ≡ stream.title)
      × BestVideo (with_defaults options) (some s.video)
      × BestAudio (audio_options s.video (with_defaults options)) (some s.audio)
      × (s.container ≡ output_container s.video (with_defaults options))
  Mp4Choice options (err (no_video codec)) =
      BestVideo (with_defaults options) none × (codec ≡ (with_defaults options).video_codec_prefix)
  Mp4Choice options (err (no_mp4_audio codec)) =
      (video : VideoStreamItem) × BestVideo (with_defaults options) (some video)
      × BestAudio (audio_options video (with_defaults options)) none
      × (codec ≡ (audio_options video (with_defaults options)).audio_codec_prefix)
  Mp4Choice options (err (no_audio codec)) = ⊥

  with_audio-Choice :
      (options : SelectorOptions) (video : VideoStreamItem) (audio : Option AudioStreamItem)
      → BestVideo (with_defaults options) (some video)
      → BestAudio (audio_options video (with_defaults options)) audio
      → Mp4Choice options (
          with_audio stream video
            (with_defaults options)
            (audio_options video (with_defaults options)).audio_codec_prefix
            audio)
  unfolding with_audio
  with_audio-Choice options video none v a = (video, v, a, refl)
  with_audio-Choice options video (some audio) v a = (refl, v, a, refl)

  with_video-Choice :
      (options : SelectorOptions) (video : Option VideoStreamItem)
      → BestVideo (with_defaults options) video
      → Mp4Choice options (with_video lower stream (with_defaults options) video)
  unfolding with_video
  with_video-Choice options none v = (v, refl)
  with_video-Choice options (some video) v = with_audio-Choice options video _ v (
      select_audio-Best lower stream.audio_streams stream.preferred_default_audio_id
        (audio_options video (with_defaults options)))

  -- A selection holds the best video and, for it, the best audio stream; an error says which of the
  -- two has no stream that passes.
  pub select_mp4_with_options-Choice :
      (options : SelectorOptions) → Mp4Choice options (select_mp4_with_options lower stream options)
  unfolding select_mp4_with_options
  select_mp4_with_options-Choice options =
      with_video-Choice options _
        (select_video-Best lower stream.video_only_streams (with_defaults options))

  abbrev pub AudioChoice : SelectorOptions → Result SelectError AudioSelection → Type 0
  AudioChoice options (ok s) =
      (s.title ≡ stream.title)
      × BestAudio (audio_only_options lower options) (some s.audio)
      × (s.container ≡ audio_output_container lower options.container)
  AudioChoice options (err (no_audio codec)) =
      BestAudio (audio_only_options lower options) none
      × (codec ≡ (audio_only_options lower options).audio_codec_prefix)
  AudioChoice options (err _) = ⊥

  with_only_audio-Choice :
      (options : SelectorOptions) (audio : Option AudioStreamItem)
      → BestAudio (audio_only_options lower options) audio
      → AudioChoice options (
          with_only_audio stream
            (audio_output_container lower options.container)
            (audio_only_options lower options).audio_codec_prefix
            audio)
  unfolding with_only_audio
  with_only_audio-Choice options none a = (a, refl)
  with_only_audio-Choice options (some audio) a = (refl, a, refl)

  -- An audio-only selection holds the best audio stream; the error says that none passes.
  pub select_audio_only-Choice :
      (options : SelectorOptions) → AudioChoice options (select_audio_only lower stream options)
  unfolding select_audio_only
  select_audio_only-Choice options = with_only_audio-Choice options _ (
      select_audio-Best lower stream.audio_streams stream.preferred_default_audio_id
        (audio_only_options lower options))

  eligible_audio-contains :
      (options : SelectorOptions) (a : AudioStreamItem)
      → eligible_audio lower options a ≡ true
      → contains a.mime_type options.container ≡ true
  unfolding eligible_audio
  eligible_audio-contains options a h = ground arith

  eligible_video-contains :
      (options : SelectorOptions) (v : VideoStreamItem)
      → eligible_video lower options v ≡ true
      → contains v.mime_type options.container ≡ true
  unfolding eligible_video
  eligible_video-contains options v h = ground arith

  -- The two streams of a selection can be muxed: the audio stream's type is that of the container
  -- written, and so is the video stream's unless it comes by SABR.
  pub select_mp4-muxable :
      (options : SelectorOptions) (s : Selection)
      → select_mp4_with_options lower stream options ≡ ok s
      → (contains s.audio.mime_type s.container ≡ true)
        × (str_eq s.video.delivery_method sabr ≡ false
            → contains s.video.mime_type s.container ≡ true)
  select_mp4-muxable options s e =
      let c = subst (Mp4Choice options) e (select_mp4_with_options-Choice options) in
      let defaulted = with_defaults options in
      let video = eligible_video-contains defaulted s.video (c.1).3 in
      let audio = eligible_audio-contains (audio_options s.video defaulted) s.audio (c.2).3 in
      (
        rw (c.3, ← audio_options-container s.video defaulted) audio,
        λ n. rw (c.3, output_container-eq s.video defaulted n) video,
      )
